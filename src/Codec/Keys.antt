-- ===== src/Codec/Keys.antt =====
-- `JoinKeyParts` of codec.hpp: a composite key determines its parts.
use moyuan_kv.Prelude.{
  ◌==◌, Bytes, ℕ, ◌≡◌, refl, sym, ap, ◌∙◌, Bool, true, false, List, [], ◌∷◌, ◌++◌, append-nil,
  append_assoc, arith,
}
use moyuan_kv.Codec.{
  backslash, colon, unescape_char, escape_key_char, escape_key_part, join_from, join_key_parts,
}

-- A reader of composite keys, which the program does not have: a bare colon ends a part, and a
-- backslash takes the next byte as `Unescape` does.
parts_from : Bool → Bytes → Bytes → List Bytes
parts_from escaped part [] = part ∷ []
parts_from true part (c ∷ key) = parts_from false (part ++ unescape_char c ∷ []) key
parts_from false part (c ∷ key) = elim (c == backslash) [
  | true ↦ parts_from true part key
  | false ↦ elim (c == colon) [
    | true ↦ part ∷ parts_from false [] key
    | false ↦ parts_from false (part ++ c ∷ []) key
  ]
]

parts_from-escape_key_char :
    (part : Bytes) (ch : ℕ) (key : Bytes)
    → parts_from false part (escape_key_char ch ++ key) ≡ parts_from false (part ++ ch ∷ []) key
unfolding parts_from escape_key_char unescape_char
parts_from-escape_key_char part ch key = ground arith

parts_from-escape_key_part :
    (part raw key : Bytes)
    → parts_from false part (escape_key_part raw ++ key) ≡ parts_from false (part ++ raw) key
unfolding escape_key_part
parts_from-escape_key_part part [] key = simp append-nil
parts_from-escape_key_part part (ch ∷ raw) key =
    rw (append_assoc (escape_key_char ch) (escape_key_part raw) key) (
      parts_from-escape_key_char part ch (escape_key_part raw ++ key)
      ∙ parts_from-escape_key_part (part ++ ch ∷ []) raw key
      ∙ simp append_assoc)

parts_from-colon :
    (part key : Bytes) → parts_from false part (colon ∷ key) ≡ part ∷ parts_from false [] key
unfolding parts_from
parts_from-colon part key = refl

parts_from_nil : (part : Bytes) → parts_from false part [] ≡ part ∷ []
unfolding parts_from
parts_from_nil part = refl

parts_from-join_from :
    (part : Bytes) (parts : List Bytes)
    → parts_from false part (join_from false parts) ≡ part ∷ parts
unfolding join_from
parts_from-join_from part [] = parts_from_nil part
parts_from-join_from part (p ∷ ps) =
    parts_from-colon part (escape_key_part p ++ join_from false ps)
    ∙ ap (◌∷◌ part)
        (parts_from-escape_key_part [] p (join_from false ps) ∙ parts_from-join_from p ps)

-- The reader returns the parts of a joined key.
parts-join_key_parts :
    (p : Bytes) (ps : List Bytes) → parts_from false [] (join_key_parts (p ∷ ps)) ≡ p ∷ ps
unfolding join_key_parts join_from
parts-join_key_parts p ps =
    parts_from-escape_key_part [] p (join_from false ps) ∙ parts_from-join_from p ps

-- Two lists of parts that are not empty and have one composite key are equal, part by part,
-- whatever bytes the parts hold.
pub join_key_parts_injective :
    (p q : Bytes) (ps qs : List Bytes)
    → join_key_parts (p ∷ ps) ≡ join_key_parts (q ∷ qs)
    → p ∷ ps ≡ q ∷ qs
join_key_parts_injective p q ps qs e =
    sym (parts-join_key_parts p ps) ∙ ap (parts_from false []) e ∙ parts-join_key_parts q qs
