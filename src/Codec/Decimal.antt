-- ===== src/Codec/Decimal.antt =====
-- `ParseInteger` of mokv/utils/codec.hpp, for int64_t and uint32_t, and the decimal numbers that
-- `operator<<` writes. `std::from_chars` has to read the whole text and to stay within the type.
use moyuan_kv.Prelude.{
  ltb, leb, ◌==◌, if◌then◌else◌, ltb→lt, ltb→ge, Bool-cases, replicate, All, All-append, Bytes, ℕ,
  zero, suc, ◌+◌, ◌-◌, ◌*◌, ◌/◌, ◌%◌, ◌≤◌, ◌<◌, ◌≡◌, refl, sym, ap, ◌∙◌, inl, inr, Bool, true,
  false, ◌&&◌, Option, none, some, [], ◌∷◌, ◌++◌, append-nil, append_assoc, arith,
}
use moyuan_kv.Codec.Escaping.{IsPlain}

-- The integers: `pos n` is n and `negsuc n` is -(n + 1).
pub data ℤ : Type 0 where
  pos : ℕ → ℤ
  negsuc : ℕ → ℤ

abbrev pub minus : ℕ
minus = 45

unfoldable pub is_digit : ℕ → Bool
is_digit ch = leb 48 ch && leb ch 57

-- The digits of a text, behind those that make `acc`.
unfoldable pub parse_digits : ℕ → ℕ → Bytes → Option ℕ
parse_digits limit acc [] = some acc
parse_digits limit acc (ch ∷ raw) =
    let rest = parse_digits limit (acc * 10 + (ch - 48)) raw in
    if is_digit ch && leb (acc * 10 + (ch - 48)) limit then rest else none

unfoldable pub parse_magnitude : ℕ → Bytes → Option ℕ
parse_magnitude limit [] = none
parse_magnitude limit (ch ∷ raw) = parse_digits limit 0 (ch ∷ raw)

abbrev pub uint32_max : ℕ
uint32_max = 4294967295

abbrev pub int64_max : ℕ
int64_max = 9223372036854775807

unfoldable pub parse_uint32 : Bytes → Option ℕ
parse_uint32 raw = parse_magnitude uint32_max raw

unfoldable pub negate : ℕ → ℤ
negate zero = pos 0
negate (suc n) = negsuc n

unfoldable pub parse_int64 : Bytes → Option ℤ
parse_int64 [] = none
parse_int64 (ch ∷ raw) =
    if ch == minus
    then elim (parse_magnitude (int64_max + 1) raw) [ none ↦ none | some n ↦ some (negate n) ]
    else elim (parse_magnitude int64_max (ch ∷ raw)) [ none ↦ none | some n ↦ some (pos n) ]

-- `out << n`, with fuel.
unfoldable pub digits : ℕ → ℕ → Bytes
digits zero n = []
digits (suc fuel) n =
    let rest = digits fuel (n / 10) in
    if ltb n 10 then (48 + n) ∷ [] else rest ++ (48 + n % 10) ∷ []

unfoldable pub format : ℕ → Bytes
format n = digits (suc n) n

unfoldable pub format_int : ℤ → Bytes
format_int (pos n) = format n
format_int (negsuc n) = minus ∷ format (suc n)

-- An `int64_t`.
abbrev pub IsInt64 : ℤ → Type 0
IsInt64 (pos n) = n ≤ int64_max
IsInt64 (negsuc n) = n ≤ int64_max

parse_digit :
    (limit acc d : ℕ) (raw : Bytes)
    → d < 10
    → acc * 10 + d ≤ limit
    → parse_digits limit acc ((48 + d) ∷ raw) ≡ parse_digits limit (acc * 10 + d) raw
unfolding parse_digits is_digit
parse_digit limit acc d raw s b =
    let same : 48 + d - 48 ≡ d = omega arith in
    let ok : (leb 48 (48 + d) && leb (48 + d) 57 && leb (acc * 10 + d) limit) ≡ true =
      ground arith in
    rw same (ground (arith, s, b))

parse_digits-digits :
    (fuel limit n : ℕ) (raw : Bytes)
    → n < fuel
    → n ≤ limit
    → parse_digits limit 0 (digits fuel n ++ raw) ≡ parse_digits limit n raw
unfolding digits
parse_digits-digits zero limit n raw f b = absurd (omega arith)
parse_digits-digits (suc fuel) limit n raw f b = elim (Bool-cases (ltb n 10)) [
  | inl e ↦
      let small = ltb→lt n 10 e in
      let same : 0 * 10 + n ≡ n = omega arith in
      rw e (parse_digit limit 0 n raw small (omega arith) ∙ ap (λ m. parse_digits limit m raw) same)
  | inr e ↦
      let big = ltb→ge n 10 e in
      let value : n / 10 * 10 + n % 10 ≡ n = omega arith in
      rw (e, append_assoc (digits fuel (n / 10)) ((48 + n % 10) ∷ []) raw)
        (parse_digits-digits fuel limit (n / 10) ((48 + n % 10) ∷ raw) (omega arith) (omega arith)
          ∙ parse_digit limit (n / 10) (n % 10) raw (omega arith) (omega arith)
          ∙ ap (λ m. parse_digits limit m raw) value)
]

IsWritten : Bytes → Type 0
IsWritten [] = ⊥
IsWritten (ch ∷ raw) = (ch == minus) ≡ false

digits-IsWritten : (fuel n : ℕ) → n < fuel → IsWritten (digits fuel n)
unfolding digits IsWritten
digits-IsWritten zero n f = absurd (omega arith)
digits-IsWritten (suc fuel) n f = elim (Bool-cases (ltb n 10)) [
  | inl e ↦ rw e (ground arith)
  | inr e ↦
      let big = ltb→ge n 10 e in
      rw e
        (append-IsWritten (digits fuel (n / 10)) _ (digits-IsWritten fuel (n / 10) (omega arith)))
]
  where
    append-IsWritten : (a b : Bytes) → IsWritten a → IsWritten (a ++ b)
    append-IsWritten [] b h = absurd h
    append-IsWritten (c ∷ a) b h = h

parse_magnitude_written :
    (limit : ℕ) (raw : Bytes) → IsWritten raw → parse_magnitude limit raw ≡ parse_digits limit 0 raw
unfolding parse_magnitude IsWritten
parse_magnitude_written limit [] h = absurd h
parse_magnitude_written limit (ch ∷ raw) h = refl

parse_magnitude-format : (limit n : ℕ) → n ≤ limit → parse_magnitude limit (format n) ≡ some n
unfolding format parse_digits
parse_magnitude-format limit n b =
    parse_magnitude_written limit (digits (suc n) n) (digits-IsWritten (suc n) n (omega arith))
    ∙ ap (parse_digits limit 0) (sym (append-nil (digits (suc n) n)))
    ∙ parse_digits-digits (suc n) limit n [] (omega arith) b

pub parse_digits-format : (limit n : ℕ) → n ≤ limit → parse_digits limit 0 (format n) ≡ some n
unfolding format parse_digits
parse_digits-format limit n b =
    ap (parse_digits limit 0) (sym (append-nil (digits (suc n) n)))
    ∙ parse_digits-digits (suc n) limit n [] (omega arith) b

-- Leading zeros do not count.
pub parse_digits-zeros :
    (limit k : ℕ) (raw : Bytes)
    → parse_digits limit 0 (replicate k b'0' ++ raw) ≡ parse_digits limit 0 raw
parse_digits-zeros limit zero raw = refl
parse_digits-zeros limit (suc k) raw =
    let none_yet : 0 * 10 + 0 ≡ 0 = omega arith in
    parse_digit limit 0 0 (replicate k b'0' ++ raw) (omega arith) (omega arith)
    ∙ ap (λ m. parse_digits limit m (replicate k b'0' ++ raw)) none_yet
    ∙ parse_digits-zeros limit k raw

-- `ParseUInt32` reads back what is written of a `uint32_t`.
pub parse_uint32-format : (n : ℕ) → n ≤ uint32_max → parse_uint32 (format n) ≡ some n
unfolding parse_uint32
parse_uint32-format n b = parse_magnitude-format uint32_max n b

parse_int64_written :
    (raw : Bytes) (n : ℕ)
    → IsWritten raw
    → parse_magnitude int64_max raw ≡ some n
    → parse_int64 raw ≡ some (pos n)
unfolding parse_int64 IsWritten
parse_int64_written [] n h e = absurd h
parse_int64_written (ch ∷ raw) n h e = rw (h, e) refl

parse_int64_negative :
    (n : ℕ) → n ≤ int64_max → parse_int64 (minus ∷ format (suc n)) ≡ some (negsuc n)
unfolding parse_int64 negate
parse_int64_negative n b = rw (parse_magnitude-format (int64_max + 1) (suc n) (omega arith)) refl

-- `ParseInt64` reads back what is written of an `int64_t`.
pub parse_int64-format_int : (i : ℤ) → IsInt64 i → parse_int64 (format_int i) ≡ some i
unfolding format_int
parse_int64-format_int (pos n) b =
    parse_int64_written (format n) n (unfold format in digits-IsWritten (suc n) n (omega arith))
      (parse_magnitude-format int64_max n b)
parse_int64-format_int (negsuc n) b = parse_int64_negative n b

digits-IsPlain : (fuel n : ℕ) → All IsPlain (digits fuel n)
unfolding digits
digits-IsPlain zero n = tt
digits-IsPlain (suc fuel) n = elim (Bool-cases (ltb n 10)) [
  | inl e ↦ rw e ((omega arith, omega arith), tt)
  | inr e ↦ rw e (
      All-append IsPlain (digits fuel (n / 10)) _ (digits-IsPlain fuel (n / 10))
        ((omega arith, omega arith), tt))
]

pub format-IsPlain : (n : ℕ) → All IsPlain (format n)
unfolding format
format-IsPlain n = digits-IsPlain (suc n) n

pub format_int-IsPlain : (i : ℤ) → All IsPlain (format_int i)
unfolding format_int
format_int-IsPlain (pos n) = format-IsPlain n
format_int-IsPlain (negsuc n) = ((omega arith, omega arith), format-IsPlain (suc n))
