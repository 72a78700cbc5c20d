-- ===== src/Lsm/Runs.antt =====
-- A sequence of sorted runs, each known by its first key: the blocks of a table, and the tables of a
-- level above 0. A binary search on the first keys finds the one run that can hold a key.
use moyuan_kv.Prelude.{
  length, get_or, All, Bytes, blt_trans, blt, ℕ, zero, suc, ◌≤◌, ◌<◌, ◌≡◌, refl, sym, ap, ◌∙◌, Bool,
  true, false, not, Option, none, List, [], ◌∷◌, ◌++◌, arith,
}
use moyuan_kv.Lsm.Entries.{
  Entry, Sorted, Above, Below, Before, lookup, lookup-append, lookup-Above, lookup-Below,
  Above-trans, Sorted-append, Above-append, blt_of_le, or_else, or_else-none, blt_of_le,
}
use moyuan_kv.Lsm.Bisect.{IsMonotone, Splits, bisect, bisect-Splits, Splits-start}

-- The run is not empty and begins with the key that it is known by.
abbrev pub StartsWith : Bytes → List Entry → Type 0
StartsWith k [] = ⊥
StartsWith k (e ∷ es) = e.key ≡ k

-- A key below the first one of a run that leads a sorted list is below the whole list.
Above-of_start :
    (k j : Bytes) (es rest : List Entry)
    → StartsWith j es
    → Sorted (es ++ rest)
    → blt k j ≡ true
    → Above k (es ++ rest)
Above-of_start k j [] rest h s e = absurd h
Above-of_start k j (x ∷ es) rest h s e =
    let b : blt k x.key ≡ true = rw h e in (b, Above-trans k x.key (es ++ rest) b s.0)

-- The run before one that starts at or below `k` is below `k`.
Below-of_start :
    (k j : Bytes) (xs ys rest : List Entry)
    → StartsWith j ys
    → Before xs (ys ++ rest)
    → blt k j ≡ false
    → Below k xs
Below-of_start k j [] ys rest h b e = tt
Below-of_start k j (x ∷ xs) [] rest h b e = absurd h
Below-of_start k j (x ∷ xs) (y ∷ ys) rest h b e =
    (blt_of_le x.key j k (rw (← h) b.0.0) e, Below-of_start k j xs (y ∷ ys) rest h b.1 e)

module _ {A : Type 0} (first : A → Bytes) (items : A → List Entry) (d : A) where
  abbrev pub flat : List A → List Entry
  flat [] = []
  flat (x ∷ xs) = items x ++ flat xs

  abbrev pub Headed : List A → Type 0
  Headed xs = All (λ x. StartsWith (first x) (items x)) xs

  -- The test of the search: the run at `mid` starts at or below `k`.
  abbrev pub starts : List A → Bytes → ℕ → Bool
  starts xs k mid = not (blt k (first (get_or xs mid d)))

  -- What the search's result is used for.
  abbrev pub pick : List A → Bytes → ℕ → Option Bytes
  pick xs k zero = none
  pick xs k (suc r) = lookup k (items (get_or xs r d))

  Above-flat :
      (k : Bytes) (xs : List A)
      → Headed xs
      → Sorted (flat xs)
      → (0 < length xs → starts xs k 0 ≡ false)
      → Above k (flat xs)
  Above-flat k [] h s e = tt
  Above-flat k (x ∷ xs) h s e =
      let start = e (omega arith) in
      Above-of_start k (first x) (items x) (flat xs) h.0 s (ground arith)

  shift :
      (x : A) (xs : List A) (k : Bytes) (r : ℕ)
      → Splits (starts (x ∷ xs) k) (length (x ∷ xs)) (suc r) (suc r)
      → Splits (starts xs k) (length xs) r r
  shift x xs k r p = record {
    order = omega arith;
    bound = omega (arith, p.bound);
    before = λ i h. p.before (suc i) (omega arith);
    after = λ i h n. p.after (suc i) (omega arith) (omega arith);
  }

  -- The run just before the split point is the only one that can hold the key.
  pub pick-lookup :
      (xs : List A) (k : Bytes) (r : ℕ)
      → Headed xs
      → Sorted (flat xs)
      → Splits (starts xs k) (length xs) r r
      → pick xs k r ≡ lookup k (flat xs)
  pick-lookup [] k zero h s p = unfold lookup in refl
  pick-lookup [] k (suc r) h s p = absurd (omega (arith, p.bound))
  pick-lookup (x ∷ xs) k zero h s p =
      sym (
        lookup-Above k (flat (x ∷ xs)) (Above-flat k (x ∷ xs) h s (λ n. p.after 0 (omega arith) n)))
  pick-lookup (x ∷ xs) k (suc zero) h s p =
      let parts = Sorted-append (items x) (flat xs) s in
      let beyond =
        lookup-Above k (flat xs)
          (Above-flat k xs h.1 parts.1 (λ n. p.after 1 (omega arith) (omega arith))) in
      sym (
        lookup-append k (items x) (flat xs)
        ∙ ap (or_else (lookup k (items x))) beyond
        ∙ or_else-none (lookup k (items x)))
  pick-lookup (x ∷ []) k (suc (suc r)) h s p = absurd (omega (arith, p.bound))
  pick-lookup (x ∷ y ∷ ys) k (suc (suc r)) h s p =
      let parts = Sorted-append (items x) (flat (y ∷ ys)) s in
      let reached = p.before 1 (omega arith) in
      let low =
        lookup-Below k (items x)
          (Below-of_start k (first y) (items x) (items y) (flat ys) h.1.0 parts.2 (ground arith)) in
      pick-lookup (y ∷ ys) k (suc r) h.1 parts.1 (shift x (y ∷ ys) k (suc r) p)
      ∙ ap (λ o. or_else o (lookup k (flat (y ∷ ys)))) (sym low)
      ∙ sym (lookup-append k (items x) (flat (y ∷ ys)))

  -- A key below a sorted sequence of runs is below each first key.
  first-Above :
      (k : Bytes) (xs : List A) (j : ℕ)
      → Headed xs
      → Above k (flat xs)
      → j < length xs
      → blt k (first (get_or xs j d)) ≡ true
  first-Above k [] j h a n = elim n [ ]
  first-Above k (x ∷ xs) zero h a n =
      start (first x) (items x) h.0 (Above-append k (items x) (flat xs) a).0
    where
      start : (j : Bytes) (es : List Entry) → StartsWith j es → Above k es → blt k j ≡ true
      start j [] h a = absurd h
      start j (e ∷ es) h a = rw (← h) a.0
  first-Above k (x ∷ xs) (suc j) h a n =
      first-Above k xs j h.1 (Above-append k (items x) (flat xs) a).1 (omega arith)

  Above-head : (j : Bytes) (es rest : List Entry) → StartsWith j es → Before es rest → Above j rest
  Above-head j [] rest h b = absurd h
  Above-head j (e ∷ es) rest h b = rw (← h) b.0

  -- First keys rise with the position.
  starts_down :
      (xs : List A) (k : Bytes) (i j : ℕ)
      → Headed xs
      → Sorted (flat xs)
      → i ≤ j
      → j < length xs
      → starts xs k j ≡ true
      → starts xs k i ≡ true
  starts_down [] k i j h s m n e = elim n [ ]
  starts_down (x ∷ xs) k zero zero h s m n e = e
  starts_down (x ∷ xs) k zero (suc j) h s m n e =
      let parts = Sorted-append (items x) (flat xs) s in
      let above =
        first-Above (first x) xs j h.1 (Above-head (first x) (items x) (flat xs) h.0 parts.2)
          (omega arith) in
      ground (arith, blt_trans k (first x) (first (get_or xs j d)))
  starts_down (x ∷ xs) k (suc i) zero h s m n e = elim m [ ]
  starts_down (x ∷ xs) k (suc i) (suc j) h s m n e =
      starts_down xs k i j h.1 (Sorted-append (items x) (flat xs) s).1 (omega arith) (omega arith) e

  pub starts-IsMonotone :
      (xs : List A) (k : Bytes)
      → Headed xs
      → Sorted (flat xs)
      → IsMonotone (starts xs k) (length xs)
  starts-IsMonotone xs k h s = record { down = λ i j. starts_down xs k i j h s }

  -- The search over the first keys, and the reading of the run that it finds.
  pub pick-bisect :
      (xs : List A) (k : Bytes)
      → Headed xs
      → Sorted (flat xs)
      → pick xs k (bisect (suc (length xs)) (starts xs k) 0 (length xs)) ≡ lookup k (flat xs)
  pick-bisect xs k h s = pick-lookup xs k _ h s (
      bisect-Splits (suc (length xs)) (starts xs k) (length xs) 0 (length xs)
        (starts-IsMonotone xs k h s) (omega arith) (Splits-start _ _))
