-- ===== src/Tests/Codecs.antt =====
-- The codec on concrete texts.
use moyuan_kv.Prelude.{Bytes, ◌≡◌, refl, [], ◌∷◌}
use moyuan_kv.Codec.{
  escape, unescape, split, tab, newline, colon, backslash, escape_char, split_loop, find,
}
use moyuan_kv.Codec.Escaping.{unescape-escape}

escape-newline : escape (newline ∷ b'n' ∷ []) ≡ backslash ∷ b'n' ∷ b'n' ∷ []
unfolding escape escape_char
escape-newline = refl

split_fields : split (b'a' ∷ tab ∷ tab ∷ b'b' ∷ []) tab ≡ (b'a' ∷ []) ∷ [] ∷ (b'b' ∷ []) ∷ []
unfolding split split_loop find
split_fields = refl

abbrev odd_text : Bytes
odd_text = newline ∷ backslash ∷ colon ∷ tab ∷ b'x' ∷ []

unescape-escape_example : unescape (escape odd_text) ≡ odd_text
unescape-escape_example = unescape-escape odd_text
