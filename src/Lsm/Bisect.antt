-- ===== src/Lsm/Bisect.antt =====
-- The binary search that mokv/lsm/sst.hpp and mokv/lsm/manifest.hpp write three times: `DataBlockIndex::Get`,
-- `IndexBlockIndex::Get` and `Level::Get` differ in the test alone.
use moyuan_kv.Prelude.{
  ltb, ltb→lt, ltb→ge, Bool-cases, ℕ, zero, suc, ◌+◌, ◌-◌, ◌/◌, ◌≤◌, ◌<◌, ◌≡◌, subst, inl, inr,
  Bool, true, false, arith,
}

-- `while (l < r) { mid = (l + r) >> 1; if (left(mid)) l = mid + 1; else r = mid; }`, with fuel.
unfoldable pub bisect : ℕ → (ℕ → Bool) → ℕ → ℕ → ℕ
bisect zero left l r = r
bisect (suc fuel) left l r = elim (ltb l r) [
  | false ↦ r
  | true ↦ elim (left ((l + r) / 2)) [
    | true ↦ bisect fuel left ((l + r) / 2 + 1) r
    | false ↦ bisect fuel left l ((l + r) / 2)
  ]
]

-- The test holds up to some point and fails from there on.
pub record IsMonotone (left : ℕ → Bool) (n : ℕ) : Type 0 where
  pub down : (i j : ℕ) → i ≤ j → j < n → left j ≡ true → left i ≡ true

-- What the search has established about the part outside of `[l, r)`.
pub record Splits (left : ℕ → Bool) (n l r : ℕ) : Type 0 where
  pub order : l ≤ r
  pub bound : r ≤ n
  pub before : (i : ℕ) → i < l → left i ≡ true
  pub after : (i : ℕ) → r ≤ i → i < n → left i ≡ false

bisect_stop : (f : ℕ) (left : ℕ → Bool) (l r : ℕ) → r ≤ l → bisect (suc f) left l r ≡ r
unfolding bisect
bisect_stop f left l r h = ground arith

bisect_right :
    (f : ℕ) (left : ℕ → Bool) (l r : ℕ)
    → l < r
    → left ((l + r) / 2) ≡ true
    → bisect (suc f) left l r ≡ bisect f left ((l + r) / 2 + 1) r
unfolding bisect
bisect_right f left l r h e = ground arith

bisect_left :
    (f : ℕ) (left : ℕ → Bool) (l r : ℕ)
    → l < r
    → left ((l + r) / 2) ≡ false
    → bisect (suc f) left l r ≡ bisect f left l ((l + r) / 2)
unfolding bisect
bisect_left f left l r h e = ground arith

Splits-right :
    (left : ℕ → Bool) (n l r mid : ℕ)
    → IsMonotone left n
    → Splits left n l r
    → mid < r
    → left mid ≡ true
    → Splits left n (mid + 1) r
Splits-right left n l r mid m s h e = record {
  order = omega arith;
  bound = s.bound;
  before = λ i p. m.down i mid (omega arith) (omega (arith, s.bound)) e;
  after = s.after;
}

Splits-left :
    (left : ℕ → Bool) (n l r mid : ℕ)
    → IsMonotone left n
    → Splits left n l r
    → l ≤ mid
    → mid < r
    → left mid ≡ false
    → Splits left n l mid
Splits-left left n l r mid m s h k e = record {
  order = h;
  bound = omega (arith, s.bound);
  before = s.before;
  after = λ i p q. elim (Bool-cases (left i)) [ inl x ↦ cc (m.down mid i p q x) | inr x ↦ x ];
}

-- For a test that holds up to some point and fails from there on, with fuel above the width of the
-- interval and the outside of the interval established, the search ends at that point.
pub bisect-Splits :
    (fuel : ℕ) (left : ℕ → Bool) (n l r : ℕ)
    → IsMonotone left n
    → r - l < fuel
    → Splits left n l r
    → Splits left n (bisect fuel left l r) (bisect fuel left l r)
bisect-Splits zero left n l r m h s = elim h [ ]
bisect-Splits (suc f) left n l r m h s = elim (Bool-cases (ltb l r)) [
  | inr e ↦
      let same : l ≡ r = omega (arith, ltb→ge l r e, s.order) in
      rw (bisect_stop f left l r (ltb→ge l r e)) (subst (λ i. Splits left n i r) same s)
  | inl e ↦
      let h1 : l < r = ltb→lt l r e in
      elim (Bool-cases (left ((l + r) / 2))) [
        | inl x ↦ rw (bisect_right f left l r h1 x) (
            bisect-Splits f left n ((l + r) / 2 + 1) r m (omega arith)
              (Splits-right left n l r ((l + r) / 2) m s (omega arith) x))
        | inr x ↦ rw (bisect_left f left l r h1 x) (
            bisect-Splits f left n l ((l + r) / 2) m (omega arith)
              (Splits-left left n l r ((l + r) / 2) m s (omega arith) (omega arith) x))
      ]
]

pub Splits-start : (left : ℕ → Bool) (n : ℕ) → Splits left n 0 n
Splits-start left n = record {
  order = omega arith;
  bound = omega arith;
  before = λ i p. absurd (omega arith);
  after = λ i p q. absurd (omega arith);
}
