-- ===== src/Lsm/SkipList/Contents.antt =====
-- The skip list as a sorted list of entries: its invariant, what an iterator sees, and what `Get` finds.
use moyuan_kv.Prelude.{
  lt→ltb, Bool-cases, length, All, length-append, All-right, Bytes, beq_comm, blt_trans, beq, blt,
  ℕ, zero, suc, ◌≤◌, ◌<◌, ◌≡◌, refl, sym, ap, ◌∙◌, subst, inl, inr, true, false, Option, List, [],
  ◌∷◌, ◌++◌, map, arith,
}
use mathlib.Core.Option
use moyuan_kv.Lsm.Entries.{Sorted, Above, lookup, lookup-Above, blt_of_ne, bne_of_blt}
use moyuan_kv.Lsm.SkipList.{
  Node, SkipList, new, new_node, get, descend, locate, matching, collect, entry, entries,
}
use moyuan_kv.Lsm.SkipList.Chains.{
  Reach, Distinct, Linked, Linked-Reach, first_taller, first_taller-Short,
}
use moyuan_kv.Lsm.SkipList.Walk.{Small, Large, Located, locate-Located, descend-locate}

-- The nodes are linked on every level that they have, their keys rise, and the head is as high as any.
pub record IsValid (t : SkipList) : Type 0 where
  pub nodes : List ℕ
  pub linked : Linked t.cells (0 ∷ nodes)
  pub sorted : Sorted (map (entry t.cells) nodes)
  pub distinct : Distinct (0 ∷ nodes)
  pub allocated : All (λ a. a < t.fresh) (0 ∷ nodes)
  pub heights : All (λ a. 1 ≤ (t.cells a).height) nodes
  pub low : All (λ a. (t.cells a).height ≤ (t.cells 0).height) nodes
  pub head : 1 ≤ (t.cells 0).height
  pub count : length nodes ≡ t.size

pub new-IsValid : IsValid new
unfolding new new_node first_taller
new-IsValid = record {
  nodes = [];
  linked = (λ l h. refl, tt);
  sorted = tt;
  distinct = (tt, tt);
  allocated = (omega arith, tt);
  heights = tt;
  low = tt;
  head = omega arith;
  count = refl;
}

module _ (cells : ℕ → Node) where
  pub collect-nodes :
      (n : ℕ) (as' : List ℕ)
      → length as' ≤ n
      → All (λ a. 1 ≤ (cells a).height) as'
      → Linked cells as'
      → collect cells n (first_taller cells 0 as') ≡ as'
  unfolding collect first_taller
  collect-nodes zero [] b h w = refl
  collect-nodes zero (a ∷ as') b h w = absurd (omega (arith, b))
  collect-nodes (suc n) [] b h w = refl
  collect-nodes (suc n) (a ∷ as') b h w =
      rw (lt→ltb 0 (cells a).height h.0, w.0 0 h.0)
        (ap (◌∷◌ a) (collect-nodes n as' (omega (arith, b)) h.1 w.1))

  module _ (k : Bytes) where
    pub lookup-Small :
        (pre post : List ℕ)
        → All (Small cells k) pre
        → lookup k (map (entry cells) (pre ++ post)) ≡ lookup k (map (entry cells) post)
    unfolding lookup
    lookup-Small [] post s = refl
    lookup-Small (a ∷ as') post s = rw (bne_of_blt (cells a).key k s.0) (lookup-Small as' post s.1)

    pub lookup-Large :
        (post : List ℕ)
        → All (Large cells k) post
        → All (λ a. 1 ≤ (cells a).height) post
        → Sorted (map (entry cells) post)
        → Option.map (λ q. (cells q).value) (matching cells k (first_taller cells 0 post))
          ≡ lookup k (map (entry cells) post)
    unfolding lookup matching first_taller
    lookup-Large [] g h s = refl
    lookup-Large (a ∷ as') g h s = elim (Bool-cases (beq (cells a).key k)) [
      | inl e ↦ rw (lt→ltb 0 (cells a).height h.0, e) refl
      | inr e ↦
          let above = blt_of_above (cells a).key as' (blt_of_ne' a e g.0) s.0 in
          rw (lt→ltb 0 (cells a).height h.0, e, lookup-Above k (map (entry cells) as') above) refl
    ]
      where
        blt_of_ne' :
            (a : ℕ)
            → beq (cells a).key k ≡ false
            → blt (cells a).key k ≡ false
            → blt k (cells a).key ≡ true
        blt_of_ne' a e g = blt_of_ne k (cells a).key (beq_comm k (cells a).key ∙ e) g

        blt_of_above :
            (j : Bytes) (as' : List ℕ)
            → blt k j ≡ true
            → Above j (map (entry cells) as')
            → Above k (map (entry cells) as')
        blt_of_above j [] b s = tt
        blt_of_above j (a ∷ as') b s = (blt_trans k j (cells a).key b s.0, blt_of_above j as' b s.1)

    -- The nodes with a smaller key come first.
    abbrev pub Split : List ℕ → Type 0
    Split nodes =
        (pre : List ℕ) × (post : List ℕ) × (nodes ≡ pre ++ post)
        × All (Small cells k) pre
        × All (Large cells k) post

    Above-Large :
        (j : Bytes) (as' : List ℕ)
        → blt j k ≡ false
        → Above j (map (entry cells) as')
        → All (Large cells k) as'
    Above-Large j [] e s = tt
    Above-Large j (a ∷ as') e s = (larger, Above-Large j as' e s.1)
      where
        larger : blt (cells a).key k ≡ false
        larger = elim (Bool-cases (blt (cells a).key k)) [
          | inl b ↦ absurd (ground (arith, e, blt_trans j (cells a).key k s.0 b))
          | inr b ↦ b
        ]

    pub split : (nodes : List ℕ) → Sorted (map (entry cells) nodes) → Split nodes
    split [] s = ([], [], refl, tt, tt)
    split (a ∷ as') s = elim (Bool-cases (blt (cells a).key k)) [
      | inl e ↦
          let rest = split as' s.1 in (a ∷ rest.0, rest.1, ap (◌∷◌ a) rest.2, (e, rest.3), rest.4)
      | inr e ↦ ([], a ∷ as', refl, tt, (e, Above-Large (cells a).key as' e s.0))
    ]

    pub next-Located :
        (p l q : ℕ) (pre post : List ℕ)
        → Linked cells (p ∷ pre ++ post)
        → Located cells k p l pre q
        → (cells q).nexts l ≡ first_taller cells l post
    next-Located p l q pre post w at =
        (Linked-Reach cells post at.1 w).0 l at.3 ∙ first_taller-Short cells l at.0 post at.2

pub entries-nodes : (t : SkipList) (w : IsValid t) → entries t ≡ map (entry t.cells) w.nodes
unfolding entries
entries-nodes t w = rw (w.linked.0 0 w.head) (
    ap (map (entry t.cells))
      (collect-nodes t.cells t.size w.nodes (omega (arith, w.count)) w.heights w.linked.1))

pub entries-Sorted : (t : SkipList) → IsValid t → Sorted (entries t)
entries-Sorted t w = rw (entries-nodes t w) w.sorted

-- Where `Put` finds each level, with the nodes split at the key.
module _ (t : SkipList) (w : IsValid t) (k : Bytes) where
  abbrev pub cut : Split t.cells k w.nodes
  cut = split t.cells k w.nodes w.sorted

  abbrev pub prevs : ℕ → ℕ
  prevs = locate t.cells k t.size (t.cells 0).height 0 (λ _. 0)

  pub linked_cut : Linked t.cells (0 ∷ cut.0 ++ cut.1)
  linked_cut = subst (λ (x : List ℕ). Linked t.cells (0 ∷ x)) cut.2 w.linked

  pub prevs-Located : (l : ℕ) → l < (t.cells 0).height → Located t.cells k 0 l cut.0 (prevs l)
  prevs-Located =
      locate-Located t.cells k 0 cut.0 cut.1 t.size (t.cells 0).height 0 _ cut.0
        (omega (arith, w.count, ap length cut.2, length-append cut.0 cut.1)) cut.3 cut.4 linked_cut
        Reach.here (omega arith)

  pub first_large : (t.cells (prevs 0)).nexts 0 ≡ first_taller t.cells 0 cut.1
  first_large = next-Located t.cells k 0 0 (prevs 0) cut.0 cut.1 linked_cut (prevs-Located 0 w.head)

  pub heights_cut : All (λ a. 1 ≤ (t.cells a).height) (cut.0 ++ cut.1)
  heights_cut = subst (All (λ a. 1 ≤ (t.cells a).height)) cut.2 w.heights

  pub Sorted-cut : Sorted (map (entry t.cells) (cut.0 ++ cut.1))
  Sorted-cut = subst (λ (x : List ℕ). Sorted (map (entry t.cells) x)) cut.2 w.sorted

right-Sorted :
    (cells : ℕ → Node) (xs ys : List ℕ)
    → Sorted (map (entry cells) (xs ++ ys))
    → Sorted (map (entry cells) ys)
right-Sorted cells [] ys s = s
right-Sorted cells (x ∷ xs) ys s = right-Sorted cells xs ys s.1

pub get_at :
    (t : SkipList) (k : Bytes) (q : ℕ)
    → descend t.cells k t.size (t.cells 0).height 0 ≡ q
    → get t k ≡ Option.map (λ a. (t.cells a).value) (matching t.cells k ((t.cells q).nexts 0))
unfolding get
get_at t k q e = rw e refl

-- `Get` ends where `Put` leaves the lowest level, since there is one.
descend-levels :
    (cells : ℕ → Node) (k : Bytes) (n c : ℕ) (prevs : ℕ → ℕ)
    → 1 ≤ c
    → descend cells k n c 0 ≡ locate cells k n c 0 prevs 0
descend-levels cells k n zero prevs h = absurd (omega (arith, h))
descend-levels cells k n (suc c) prevs h = descend-locate cells k n c 0 prevs

pub descend-prevs :
    (t : SkipList) (k : Bytes) (w : IsValid t)
    → descend t.cells k t.size (t.cells 0).height 0 ≡ prevs t w k 0
descend-prevs t k w = descend-levels t.cells k t.size (t.cells 0).height _ w.head

-- `Get` is a search of the entries that the iterator gives.
pub get-entries : (t : SkipList) (k : Bytes) → IsValid t → get t k ≡ lookup k (entries t)
get-entries t k w =
    get_at t k (prevs t w k 0) (descend-prevs t k w)
    ∙ ap (λ (o : Option ℕ). Option.map (λ q. (t.cells q).value) (matching t.cells k o))
        (first_large t w k)
    ∙ lookup-Large t.cells k (cut t w k).1 (cut t w k).4
        (All-right _ (cut t w k).0 (cut t w k).1 (heights_cut t w k))
        (right-Sorted t.cells (cut t w k).0 (cut t w k).1 (Sorted-cut t w k))
    ∙ sym (lookup-Small t.cells k (cut t w k).0 (cut t w k).1 (cut t w k).3)
    ∙ ap (λ x. lookup k (map (entry t.cells) x)) (sym (cut t w k).2)
    ∙ ap (lookup k) (sym (entries-nodes t w))
