-- ===== src/Lsm/Merge/Sources.antt =====
-- Which source a key is read from: the one of least rank, whatever the order of the queue.
use moyuan_kv.Prelude.{
  ltb, if◌then◌else◌, Bool-cases, All, All-map, Bytes, beq→eq, blt_trans, beq, blt, ℕ, ◌≤◌, ◌≡◌,
  refl, sym, ap, ◌∙◌, ◌≢◌, ◌⊎◌, inl, inr, true, false, Option, none, some, List, [], ◌∷◌, arith,
}
use moyuan_kv.Lsm.Entries.{lookup, blt_of_ne}
use moyuan_kv.Lsm.Merge.{Cursor, less, pop_top, cursor_entries, pending}

-- The better of two finds: the one of lower rank.
abbrev pub prefer : ℕ × Bytes → Option (ℕ × Bytes) → Option (ℕ × Bytes)
prefer (s, v) none = some (s, v)
prefer (s, v) (some (r, w)) = if ltb r s then some (r, w) else some (s, v)

abbrev pub join_find : Option Bytes → ℕ → Option (ℕ × Bytes) → Option (ℕ × Bytes)
join_find none s o = o
join_find (some v) s o = prefer (s, v) o

-- The find of least rank for a key among the sources of a queue.
unfoldable pub best : Bytes → List Cursor → Option (ℕ × Bytes)
best k [] = none
best k (c ∷ cs) = join_find (lookup k (cursor_entries c)) c.second_value (best k cs)

-- All ranks of a queue differ.
abbrev pub Apart : ℕ → List Cursor → Type 0
Apart s q = All (λ d. s ≢ d.second_value) q

abbrev pub Distinct : List Cursor → Type 0
Distinct [] = Unit
Distinct (c ∷ cs) = Apart c.second_value cs × Distinct cs

join_find_comm :
    (a b : Option Bytes) (s r : ℕ) (o : Option (ℕ × Bytes))
    → s ≢ r
    → join_find a s (join_find b r o) ≡ join_find b r (join_find a s o)
join_find_comm none b s r o h = refl
join_find_comm (some v) none s r o h = refl
join_find_comm (some v) (some w) s r none h = ground arith
join_find_comm (some v) (some w) s r (some (q, u)) h = ground arith

pub best_swap :
    (k : Bytes) (c d : Cursor) (q : List Cursor)
    → c.second_value ≢ d.second_value
    → best k (c ∷ d ∷ q) ≡ best k (d ∷ c ∷ q)
unfolding best
best_swap k c d q h = join_find_comm _ _ c.second_value d.second_value (best k q) h

-- `a` comes out of the queue before `b`, or they tie.
abbrev pub Leads : Cursor → Cursor → Type 0
Leads a b =
    (blt a.current.key b.current.key ≡ true)
    ⊎ ((a.current.key ≡ b.current.key) × (a.second_value ≤ b.second_value))

Leads-of_not_less : (a b : Cursor) → less a b ≡ false → Leads a b
unfolding less
Leads-of_not_less a b h = elim (Bool-cases (beq a.current.key b.current.key)) [
  | inl e ↦ inr (beq→eq _ _ e, ground (arith, e))
  | inr e ↦ inl (blt_of_ne a.current.key b.current.key e (ground (arith, e)))
]

Leads-of_less : (a b : Cursor) → less a b ≡ true → Leads b a
unfolding less
Leads-of_less a b h = elim (Bool-cases (beq a.current.key b.current.key)) [
  | inl e ↦ inr (sym (beq→eq _ _ e), ground (arith, e))
  | inr e ↦ inl (ground (arith, e))
]

Leads-trans : (a b c : Cursor) → Leads a b → Leads b c → Leads a c
Leads-trans a b c (inl h) (inl k) = inl (blt_trans _ _ _ h k)
Leads-trans a b c (inl h) (inr (e, n)) = inl (rw (← e) h)
Leads-trans a b c (inr (e, n)) (inl k) = inl (rw e k)
Leads-trans a b c (inr (e, n)) (inr (f, m)) = inr (e ∙ f, omega arith)

-- Facts about each cursor of a queue hold after `pop` as before.
pub pop_top-All :
    (P : Cursor → Type 0) (c : Cursor) (cs : List Cursor)
    → All P (c ∷ cs)
    → All P ((pop_top c cs).0 ∷ (pop_top c cs).1)
unfolding pop_top
pop_top-All P c [] h = h
pop_top-All P c (d ∷ ds) h =
    let ih = pop_top-All P d ds h.1 in
    elim (Bool-cases (less c (pop_top d ds).0)) [
      | inl e ↦ rw e (ih.0, (h.0, ih.1))
      | inr e ↦ rw e (h.0, ih)
    ]

ne_sym : {a b : ℕ} → a ≢ b → b ≢ a
ne_sym h e = h (sym e)

pub pop_top-Distinct :
    (c : Cursor) (cs : List Cursor)
    → Distinct (c ∷ cs)
    → Distinct ((pop_top c cs).0 ∷ (pop_top c cs).1)
unfolding pop_top
pop_top-Distinct c [] h = h
pop_top-Distinct c (d ∷ ds) h =
    let ih = pop_top-Distinct d ds h.1 in
    let apart = pop_top-All (λ x. c.second_value ≢ x.second_value) d ds h.0 in
    elim (Bool-cases (less c (pop_top d ds).0)) [
      | inl e ↦ rw e ((ne_sym apart.0, ih.0), (apart.1, ih.1))
      | inr e ↦ rw e (apart, ih)
    ]

pub best_cons :
    (k : Bytes) (c : Cursor) (p q : List Cursor)
    → best k p ≡ best k q
    → best k (c ∷ p) ≡ best k (c ∷ q)
unfolding best
best_cons k c p q h = ap (join_find (lookup k (cursor_entries c)) c.second_value) h

pub best-pop_top :
    (k : Bytes) (c : Cursor) (cs : List Cursor)
    → Distinct (c ∷ cs)
    → best k ((pop_top c cs).0 ∷ (pop_top c cs).1) ≡ best k (c ∷ cs)
unfolding pop_top
best-pop_top k c [] h = refl
best-pop_top k c (d ∷ ds) h =
    let t = (pop_top d ds).0 in
    let rest = (pop_top d ds).1 in
    let ih = best-pop_top k d ds h.1 in
    let apart = pop_top-All (λ x. c.second_value ≢ x.second_value) d ds h.0 in
    let same : best k (c ∷ t ∷ rest) ≡ best k (c ∷ d ∷ ds) = best_cons k c (t ∷ rest) (d ∷ ds) ih in
    elim (Bool-cases (less c (pop_top d ds).0)) [
      | inl e ↦ rw e (best_swap k t c rest (ne_sym apart.0) ∙ same)
      | inr e ↦ rw e same
    ]

-- The cursor taken out comes before all that are left.
pub pop_top-Leads : (c : Cursor) (cs : List Cursor) → All (Leads (pop_top c cs).0) (pop_top c cs).1
unfolding pop_top
pop_top-Leads c [] = tt
pop_top-Leads c (d ∷ ds) =
    let t = (pop_top d ds).0 in
    let ih = pop_top-Leads d ds in
    elim (Bool-cases (less c (pop_top d ds).0)) [
      | inl e ↦ rw e (Leads-of_less c t e, ih)
      | inr e ↦
          let first = Leads-of_not_less c t e in
          rw e (first, All-map _ (λ x. Leads-trans c t x first) ih)
    ]

pub pending-pop_top :
    (c : Cursor) (cs : List Cursor)
    → pending ((pop_top c cs).0 ∷ (pop_top c cs).1) ≡ pending (c ∷ cs)
unfolding pop_top
pending-pop_top c [] = refl
pending-pop_top c (d ∷ ds) = elim (Bool-cases (less c (pop_top d ds).0)) [
  | inl e ↦ rw e (omega (arith, pending-pop_top d ds))
  | inr e ↦ rw e (omega (arith, pending-pop_top d ds))
]
