-- ===== src/Lsm/SkipList/Writes.antt =====
-- `Put` as a write to the sorted list of the entries: the lists of nodes before and after it.
use moyuan_kv.Prelude.{
  if◌then◌else◌, lt→ltb, Bool-cases, length, All, All-map, Bytes, beq_comm, beq, blt, ℕ, suc, ◌≤◌,
  ◌≡◌, refl, sym, ap, ap₂, ◌∙◌, subst, ◌≢◌, inl, inr, Bool, true, false, none, some, List, [], ◌∷◌,
  ◌++◌, map, arith,
}
use moyuan_kv.Lsm.Entries.{Entry, blt_of_ne, bne_of_blt, blt_asym}
use moyuan_kv.Lsm.Insertion.{insert}
use moyuan_kv.Lsm.SkipList.{Node, matching, entry}
use moyuan_kv.Lsm.SkipList.Chains.{Distinct, first_taller}
use moyuan_kv.Lsm.SkipList.Walk.{Small, Large}
use moyuan_kv.Lsm.SkipList.Links.{Same}

pub entry-Same :
    (cells made : ℕ → Node) (a : ℕ) → Same (made a) (cells a) → entry made a ≡ entry cells a
entry-Same cells made a s = ap₂ (λ (x y : Bytes). record { key = x; value = y }) s.key s.value

pub All-insert {κ} :
    (P : ℕ → Type κ) (xs ys : List ℕ) (a : ℕ) → All P (xs ++ ys) → P a → All P (xs ++ a ∷ ys)
All-insert P [] ys a w h = (h, w)
All-insert P (x ∷ xs) ys a w h = (w.0, All-insert P xs ys a w.1 h)

pub Distinct-insert :
    (xs ys : List ℕ) (a : ℕ)
    → Distinct (xs ++ ys)
    → All (λ b. b ≢ a) (xs ++ ys)
    → Distinct (xs ++ a ∷ ys)
Distinct-insert [] ys a d n = (All-map ys (λ b h e. h (sym e)) n, d)
Distinct-insert (x ∷ xs) ys a d n = (All-insert _ xs ys a d.0 n.0, Distinct-insert xs ys a d.1 n.1)

pub length-insert : (xs ys : List ℕ) (a : ℕ) → length (xs ++ a ∷ ys) ≡ suc (length (xs ++ ys))
length-insert [] ys a = refl
length-insert (x ∷ xs) ys a = ap suc (length-insert xs ys a)

insert_past :
    (k v : Bytes) (e : Entry) (es : List Entry)
    → blt e.key k ≡ true
    → insert k v (e ∷ es) ≡ e ∷ insert k v es
unfolding insert
insert_past k v e es b = rw (bne_of_blt e.key k b, blt_asym e.key k b) refl

module _ (cells : ℕ → Node) (k : Bytes) where
  -- `Put` asks whether the first of the larger nodes has the key.
  pub matching-some :
      (post : List ℕ) (q : ℕ)
      → All (λ a. 1 ≤ (cells a).height) post
      → matching cells k (first_taller cells 0 post) ≡ some q
      → (qs : List ℕ) × (post ≡ q ∷ qs) × (beq (cells q).key k ≡ true)
  unfolding matching first_taller
  matching-some [] q h e = absurd (ground (arith, e))
  matching-some (a ∷ as') q h e = found a q as' (beq (cells a).key k) refl (opened ∙ e)
    where
      opened :
          (if beq (cells a).key k then some a else none)
          ≡ matching cells k (first_taller cells 0 (a ∷ as'))
      opened = rw (lt→ltb 0 (cells a).height h.0) refl

      found :
          (a q : ℕ) (as' : List ℕ) (b : Bool)
          → beq (cells a).key k ≡ b
          → (if b then some a else none) ≡ some q
          → (qs : List ℕ) × (a ∷ as' ≡ q ∷ qs) × (beq (cells q).key k ≡ true)
      found a q as' true f e =
          let same : a ≡ q = cc in
          (as', ap (λ x. x ∷ as') same, subst (λ (x : ℕ). beq (cells x).key k ≡ true) same f)
      found a q as' false f e = absurd (ground (arith, e))

  pub matching-none :
      (a : ℕ) (as' : List ℕ)
      → 1 ≤ (cells a).height
      → matching cells k (first_taller cells 0 (a ∷ as')) ≡ none
      → beq (cells a).key k ≡ false
  unfolding matching first_taller
  matching-none a as' h = rw (lt→ltb 0 (cells a).height h) (λ e.
      elim (Bool-cases (beq (cells a).key k)) [ inl f ↦ absurd (ground (arith, e, f)) | inr f ↦ f ])

  module _ (v : Bytes) (made : ℕ → Node) where
    map_same :
        (as' : List ℕ)
        → All (λ a. entry made a ≡ entry cells a) as'
        → map (entry cells) as' ≡ map (entry made) as'
    map_same [] e = refl
    map_same (a ∷ as') e = ap₂ ◌∷◌ (sym e.0) (map_same as' e.1)

    -- A new node for a key that no node has.
    pub insert-absent :
        (pre post : List ℕ) (node : ℕ)
        → entry made node ≡ record { key = k; value = v }
        → All (λ a. entry made a ≡ entry cells a) (pre ++ post)
        → All (Small cells k) pre
        → All (Large cells k) post
        → All (λ a. 1 ≤ (cells a).height) post
        → matching cells k (first_taller cells 0 post) ≡ none
        → insert k v (map (entry cells) (pre ++ post)) ≡ map (entry made) (pre ++ node ∷ post)
    unfolding insert
    insert-absent [] [] node n e s g h m = ap (λ (x : Entry). x ∷ []) (sym n)
    insert-absent [] (q ∷ qs) node n e s g h m =
        let other = matching-none q qs h.0 m in
        let above = blt_of_ne k (cells q).key (beq_comm k (cells q).key ∙ other) g.0 in
        rw (other, above) (ap₂ ◌∷◌ (sym n) (ap₂ ◌∷◌ (sym e.0) (map_same qs e.1)))
    insert-absent (a ∷ as') post node n e s g h m =
        insert_past k v (entry cells a) _ s.0
        ∙ ap₂ ◌∷◌ (sym e.0) (insert-absent as' post node n e.1 s.1 g h m)

    -- The node that has the key gets the value.
    pub insert-present :
        (pre qs : List ℕ) (q : ℕ)
        → entry made q ≡ record { key = (cells q).key; value = v }
        → All (λ a. entry made a ≡ entry cells a) (pre ++ qs)
        → All (Small cells k) pre
        → beq (cells q).key k ≡ true
        → insert k v (map (entry cells) (pre ++ q ∷ qs)) ≡ map (entry made) (pre ++ q ∷ qs)
    unfolding insert
    insert-present [] qs q n e s f = rw f (ap₂ ◌∷◌ (sym n) (map_same qs e))
    insert-present (a ∷ as') qs q n e s f =
        insert_past k v (entry cells a) _ s.0
        ∙ ap₂ ◌∷◌ (sym e.0) (insert-present as' qs q n e.1 s.1 f)
