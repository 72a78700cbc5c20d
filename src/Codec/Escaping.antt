-- ===== src/Codec/Escaping.antt =====
-- Escaping of codec.hpp: `Unescape` undoes both kinds, and no line or column break is left.
use moyuan_kv.Prelude.{
  All, All-append, Bytes, ℕ, ◌≡◌, refl, ap, ◌∙◌, ◌≢◌, false, [], ◌∷◌, ◌++◌, arith,
}
use moyuan_kv.Codec.{
  newline, tab, escape, escape_char, escape_key_char, escape_key_part, unescape, unescape_char,
  unescape_from,
}

unescape-escape_char :
    (ch : ℕ) (rest : Bytes)
    → unescape_from false (escape_char ch ++ rest) ≡ ch ∷ unescape_from false rest
unfolding escape_char unescape_from unescape_char
unescape-escape_char ch rest = ground arith

unescape-escape_key_char :
    (ch : ℕ) (rest : Bytes)
    → unescape_from false (escape_key_char ch ++ rest) ≡ ch ∷ unescape_from false rest
unfolding escape_key_char unescape_from unescape_char
unescape-escape_key_char ch rest = ground arith

unescape_from-escape : (raw : Bytes) → unescape_from false (escape raw) ≡ raw
unfolding escape unescape_from
unescape_from-escape [] = refl
unescape_from-escape (ch ∷ raw) =
    unescape-escape_char ch (escape raw) ∙ ap (◌∷◌ ch) (unescape_from-escape raw)

-- `Unescape` returns the text that `Escape` was given, for every text.
pub unescape-escape : (raw : Bytes) → unescape (escape raw) ≡ raw
unfolding unescape
unescape-escape raw = unescape_from-escape raw

unescape_from-escape_key_part : (raw : Bytes) → unescape_from false (escape_key_part raw) ≡ raw
unfolding escape_key_part unescape_from
unescape_from-escape_key_part [] = refl
unescape_from-escape_key_part (ch ∷ raw) =
    unescape-escape_key_char ch (escape_key_part raw)
    ∙ ap (◌∷◌ ch) (unescape_from-escape_key_part raw)

-- `Unescape` returns the text that `EscapeKeyPart` was given, for every text.
pub unescape-escape_key_part : (raw : Bytes) → unescape (escape_key_part raw) ≡ raw
unfolding unescape
unescape-escape_key_part raw = unescape_from-escape_key_part raw

abbrev pub IsPlain : ℕ → Type 0
IsPlain ch = (ch ≢ newline) × (ch ≢ tab)

escape_char-IsPlain : (ch : ℕ) → All IsPlain (escape_char ch)
unfolding escape_char
escape_char-IsPlain ch = ground arith

-- An escaped text has no newline and no tab, so it stays within one field of one line.
pub escape-IsPlain : (raw : Bytes) → All IsPlain (escape raw)
unfolding escape
escape-IsPlain [] = tt
escape-IsPlain (ch ∷ raw) =
    All-append IsPlain (escape_char ch) (escape raw) (escape_char-IsPlain ch) (escape-IsPlain raw)
