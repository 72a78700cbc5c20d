-- ===== src/Lsm/Layout/Parsing.antt =====
-- The entries of a data block, written and parsed, whole or cut short.
use moyuan_kv.Prelude.{
  ltb, ltb→lt, ltb→ge, Bool-cases, length, take, drop, length-append, take-append, drop-append,
  Bytes, ℕ, suc, ◌+◌, ◌*◌, ◌%◌, ◌≤◌, ◌<◌, ◌≡◌, refl, ap, ap₂, ◌∙◌, inl, inr, true, false, Option,
  none, some, List, [], ◌∷◌, ◌++◌, append_assoc, arith,
}
use moyuan_kv.Lsm.Entries.{Entry}
use moyuan_kv.Lsm.Layout.{
  write_size, read_size, parse_from, parse_entries, write_entry, write_entries, counted, sizes_sum,
}
use moyuan_kv.Lsm.Layout.Words.{read_size-write_size, drop-write_size, length-write_word, drop-two}

-- An entry in its parts, with what follows it.
abbrev entry_parts : Entry → Bytes → Bytes
entry_parts e s =
    write_size (length e.key) ++ (write_size (length e.value) ++ (e.key ++ (e.value ++ s)))

write_entry-parts : (e : Entry) (s : Bytes) → write_entry e ++ s ≡ entry_parts e s
unfolding write_entry
write_entry-parts e s =
    append_assoc (write_size (length e.key)) _ s
    ∙ ap (λ (x : Bytes). write_size (length e.key) ++ x)
        (append_assoc (write_size (length e.value)) _ s
          ∙ ap (λ (x : Bytes). write_size (length e.value) ++ x) (append_assoc e.key e.value s))

pub length-write_entry : (e : Entry) → length (write_entry e) ≡ 16 + length e.key + length e.value
unfolding write_entry
length-write_entry e = omega (
  arith,
  length-append (write_size (length e.key)) (write_size (length e.value) ++ (e.key ++ e.value)),
  length-append (write_size (length e.value)) (e.key ++ e.value),
  length-append e.key e.value,
  length-write_word 8 (length e.key),
  length-write_word 8 (length e.value),
)

pub length-write_entries :
    (es : List Entry) → length (write_entries es) ≡ 16 * length es + sizes_sum es
unfolding write_entries sizes_sum
length-write_entries [] = omega arith
length-write_entries (e ∷ es) = omega (
  arith,
  length-append (write_entry e) (write_entries es),
  length-write_entry e,
  length-write_entries es,
)

pub length-counted : (es : List Entry) → length (counted es) ≡ 8 + 16 * length es + sizes_sum es
unfolding counted
length-counted es = omega (
  arith,
  length-append (write_size (length es)) (write_entries es),
  length-write_word 8 (length es),
  length-write_entries es,
)

abbrev found : Entry → Option (List Entry) → Option (List Entry)
found e none = none
found e (some es) = some (e ∷ es)

module _ (n index size : ℕ) (e : Entry) (s : Bytes) (fits : size < 9223372036854775808) where
  parse_step :
      index + (16 + length e.key + length e.value) ≤ size
      → parse_from (suc n) index size (entry_parts e s)
        ≡ found e (parse_from n (index + (16 + length e.key + length e.value)) size s)
  unfolding parse_from
  parse_step h =
      let tail = e.key ++ (e.value ++ s) in
      let key_size =
        read_size-write_size (length e.key) (write_size (length e.value) ++ tail) (omega arith) in
      let value_size = read_size-write_size (length e.value) tail (omega arith) in
      let record_size : (16 + length e.key + length e.value) % 18446744073709551616
          ≡ 16 + length e.key + length e.value =
        omega arith in
      let first : ltb size (index + 16) ≡ false = ground arith in
      let second : ltb size ((index + (16 + length e.key + length e.value)) % 18446744073709551616)
          ≡ false =
        ground arith in
      let value_at = drop-write_size (length e.key) (write_size (length e.value) ++ tail) in
      let body_at = drop-two (length e.key) (length e.value) tail in
      let key = ap₂ take key_size body_at ∙ take-append e.key (e.value ++ s) in
      let rest = ap₂ drop key_size body_at ∙ drop-append e.key (e.value ++ s) in
      let value = ap₂ take (ap read_size value_at ∙ value_size) rest ∙ take-append e.value s in
      rw
        (
          parse_from,
          first,
          value_at,
          key_size,
          value_size,
          record_size,
          second,
          value_at,
          key_size,
          value_size,
          record_size,
          body_at,
          drop-append e.key (e.value ++ s),
          drop-append e.value s,
        )
        (ap₂ found (ap₂ (λ (x y : Bytes). record { key = x; value = y }) key value) refl)

  -- An entry that ends behind the block is refused.
  parse_refuse :
      size < index + (16 + length e.key + length e.value)
      → index + (16 + length e.key + length e.value) < 9223372036854775808
      → parse_from (suc n) index size (entry_parts e s) ≡ none
  unfolding parse_from
  parse_refuse h j =
      let tail = e.key ++ (e.value ++ s) in
      let key_size =
        read_size-write_size (length e.key) (write_size (length e.value) ++ tail)
          (omega (arith, j)) in
      let value_size = read_size-write_size (length e.value) tail (omega (arith, j)) in
      let value_at = drop-write_size (length e.key) (write_size (length e.value) ++ tail) in
      let record_size : (16 + length e.key + length e.value) % 18446744073709551616
          ≡ 16 + length e.key + length e.value =
        omega (arith, j) in
      let second : ltb size ((index + (16 + length e.key + length e.value)) % 18446744073709551616)
          ≡ true =
        ground (arith, h, j) in
      elim (Bool-cases (ltb size (index + 16))) [
        | inl short ↦ rw (parse_from, short) refl
        | inr long ↦ rw (parse_from, long, value_at, key_size, value_size, record_size, second) refl
      ]

-- Entries of a valid size are parsed as they were written, wherever the block ends behind them.
pub parse_from-write_entries :
    (es : List Entry) (index size : ℕ) (s : Bytes)
    → size < 9223372036854775808
    → index + length (write_entries es) ≤ size
    → parse_from (length es) index size (write_entries es ++ s) ≡ some es
unfolding parse_from write_entries
parse_from-write_entries [] index size s f h = refl
parse_from-write_entries (e ∷ es) index size s f h =
    let both = length-append (write_entry e) (write_entries es) in
    let one = length-write_entry e in
    ap (parse_from (suc (length es)) index size) (
      append_assoc (write_entry e) (write_entries es) s
      ∙ write_entry-parts e (write_entries es ++ s))
    ∙ parse_step (length es) index size e (write_entries es ++ s) f (omega (arith, both, one, h))
    ∙ ap (found e) (parse_from-write_entries es _ size s f (omega (arith, both, one, h)))

-- `ParseEntries` gives back the entries of a block that ends at or behind the last of them.
pub parse_entries-counted :
    (es : List Entry) (size : ℕ) (s : Bytes)
    → size < 9223372036854775808
    → length (counted es) ≤ size
    → parse_entries (counted es ++ s) size ≡ es
unfolding parse_entries counted
parse_entries-counted es size s f h =
    let whole = length-append (write_size (length es)) (write_entries es) in
    let num = length-write_word 8 (length es) in
    let sum = length-write_entries es in
    let assoc = append_assoc (write_size (length es)) (write_entries es) s in
    let room : ltb size 8 ≡ false = ground (arith, whole, num, h) in
    let count =
      ap read_size assoc
      ∙ read_size-write_size (length es) (write_entries es ++ s) (omega (arith, h, whole, sum)) in
    let rest = ap (drop 8) assoc ∙ drop-write_size (length es) (write_entries es ++ s) in
    rw (room, count, rest, parse_from-write_entries es 8 size s f (omega (arith, h, whole, num)))
      refl

parse_from-short :
    (es : List Entry) (index size : ℕ) (s : Bytes)
    → size < 9223372036854775808
    → size < index + length (write_entries es)
    → index ≤ size
    → index + length (write_entries es) < 9223372036854775808
    → parse_from (length es) index size (write_entries es ++ s) ≡ none
unfolding parse_from write_entries
parse_from-short [] index size s f h j m = absurd (omega (arith, h, j))
parse_from-short (e ∷ es) index size s f h j m =
    let both = length-append (write_entry e) (write_entries es) in
    let one = length-write_entry e in
    let next = index + (16 + length e.key + length e.value) in
    ap (parse_from (suc (length es)) index size) (
      append_assoc (write_entry e) (write_entries es) s
      ∙ write_entry-parts e (write_entries es ++ s))
    ∙ elim (Bool-cases (ltb size next)) [
      | inl out ↦
          parse_refuse (length es) index size e (write_entries es ++ s) f (ltb→lt size next out)
            (omega (arith, both, one, m))
      | inr fit ↦
          parse_step (length es) index size e (write_entries es ++ s) f (ltb→ge size next fit)
          ∙ ap (found e) (
              parse_from-short es next size s f (omega (arith, both, one, h)) (ltb→ge size next fit)
                (omega (arith, both, one, m)))
    ]

-- A block of entries whose size is given too small is read as one without entries: `ParseEntries` never
-- returns a part of the entries.
pub parse_entries-short :
    (es : List Entry) (size : ℕ) (s : Bytes)
    → length (counted es) < 9223372036854775808
    → size < length (counted es)
    → parse_entries (counted es ++ s) size ≡ []
unfolding parse_entries counted
parse_entries-short es size s f h =
    let whole = length-append (write_size (length es)) (write_entries es) in
    let num = length-write_word 8 (length es) in
    let sum = length-write_entries es in
    let assoc = append_assoc (write_size (length es)) (write_entries es) s in
    let count =
      ap read_size assoc
      ∙ read_size-write_size (length es) (write_entries es ++ s) (omega (arith, f, whole, sum)) in
    let rest = ap (drop 8) assoc ∙ drop-write_size (length es) (write_entries es ++ s) in
    elim (Bool-cases (ltb size 8)) [
      | inl out ↦ rw out refl
      | inr room ↦
          rw
            (
              room,
              count,
              rest,
              parse_from-short es 8 size s (omega (arith, f, h)) (omega (arith, h, whole, num))
                  (ltb→ge size 8 room) (omega (arith, f, whole, num)),
            )
            refl
    ]
