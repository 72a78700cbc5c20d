-- ===== src/Lsm/SkipList/Puts.antt =====
-- `Put` keeps the skip list valid and writes to its sorted entries.
use moyuan_kv.Prelude.{
  ◌==◌, ==→eq, Bool-cases, Option-cases, length, All, All-right, All-map, Bytes, beq, ℕ, zero, suc,
  ◌≤◌, ◌<◌, ◌≡◌, refl, sym, ap, ◌∙◌, subst, ◌≢◌, inl, inr, true, Option, none, some, List, [], ◌∷◌,
  ◌++◌, map, arith,
}
use moyuan_kv.Lsm.Entries.{Entry, Sorted}
use moyuan_kv.Lsm.Insertion.{insert, insert-Sorted}
use moyuan_kv.Lsm.SkipList.{
  Node, SkipList, new_node, write, matching, link, rand_level, update, insert_node, put, entry,
  entries,
}
use moyuan_kv.Lsm.SkipList.Chains.{Distinct, Linked, first_taller}
use moyuan_kv.Lsm.SkipList.Contents.{
  IsValid, cut, prevs, first_large, heights_cut, entries-nodes, next-Located,
}
use moyuan_kv.Lsm.SkipList.Links.{Same, link-Same, write_self, write_ne}
use moyuan_kv.Lsm.SkipList.Splice.{
  Located-Cuts, Reach-apart, link-Linked, first_taller-heights, All-of,
}
use moyuan_kv.Lsm.SkipList.Growth.{
  All-both, made, made_node, made_head_height, old_cut, made-Linked, made-Located, prevs_apart,
}
use moyuan_kv.Lsm.SkipList.Writes.{
  entry-Same, All-insert, Distinct-insert, length-insert, matching-some, insert-absent,
  insert-present,
}

-- A skip list that a write leaves valid, with the entry in its place.
abbrev pub Written : Bytes → Bytes → SkipList → SkipList → Type 0
Written k v t u = (valid : IsValid u) × (entries u ≡ insert k v (entries t))

module _ (t : SkipList) (w : IsValid t) (k v : Bytes) where
  abbrev pre : List ℕ
  pre = (cut t w k).0

  abbrev post : List ℕ
  post = (cut t w k).1

  entries_cut : entries t ≡ map (entry t.cells) (pre ++ post)
  entries_cut = entries-nodes t w ∙ ap (map (entry t.cells)) (cut t w k).2

  Sorted-insert :
      (es : List Entry) → insert k v (map (entry t.cells) (pre ++ post)) ≡ es → Sorted es
  Sorted-insert es e = subst Sorted e (
      insert-Sorted k v _
        (subst (λ (x : List ℕ). Sorted (map (entry t.cells) x)) (cut t w k).2 w.sorted))

  module _ (new_level : ℕ) (positive : 1 ≤ new_level) where
    abbrev before : ℕ → Node
    before = made t w k v new_level

    abbrev after : ℕ → Node
    after = link (prevs t w k) t.fresh new_level before

    same : (b : ℕ) → Same (after b) (before b)
    same = link-Same (prevs t w k) t.fresh before new_level

    node_height : (before t.fresh).height ≡ new_level
    unfolding new_node
    node_height = ap (λ (n : Node). n.height) (made_node t w k v new_level)

    entry_node : entry after t.fresh ≡ record { key = k; value = v }
    unfolding new_node
    entry_node =
        entry-Same before after t.fresh (same t.fresh)
        ∙ ap (λ (n : Node). record { key = n.key; value = n.value }) (made_node t w k v new_level)

    entry_old : All (λ a. entry after a ≡ entry t.cells a) (pre ++ post)
    entry_old =
        All-map (pre ++ post)
          (λ a e.
            entry-Same before after a (same a)
            ∙ ap (λ (n : Node). record { key = n.key; value = n.value }) e)
          (old_cut t w k v new_level)

    height_old : All (λ a. (after a).height ≡ (t.cells a).height) (pre ++ post)
    height_old =
        All-map (pre ++ post) (λ a e. (same a).height ∙ ap (λ (n : Node). n.height) e)
          (old_cut t w k v new_level)

    allocated_cut : All (λ b. b < t.fresh) (0 ∷ pre ++ post)
    allocated_cut = (w.allocated.0, subst (All (λ b. b < t.fresh)) (cut t w k).2 w.allocated.1)

    Distinct-cut : Distinct (0 ∷ pre ++ post)
    Distinct-cut = subst (λ (x : List ℕ). Distinct (0 ∷ x)) (cut t w k).2 w.distinct

    apart_cut : All (λ b. b ≢ t.fresh) (0 ∷ pre ++ post)
    apart_cut = All-map (0 ∷ pre ++ post) (λ b h. omega (arith, h)) allocated_cut

    linked_after : Linked after (0 ∷ pre ++ t.fresh ∷ post)
    linked_after =
        let place = made-Located t w k v new_level in
        link-Linked before k (prevs t w k) t.fresh new_level post (prevs_apart t w k v new_level)
          node_height (0 ∷ pre) apart_cut
          (λ l h. Located-Cuts before k l 0 (prevs t w k l) pre post Distinct-cut (place l h))
          (λ l h. Reach-apart post (place l h).1 Distinct-cut)
          (λ l h.
            next-Located before k 0 l (prevs t w k l) pre post (made-Linked t w k v new_level)
              (place l h))
          (made-Linked t w k v new_level)

    head_after : ((t.cells 0).height ≤ (after 0).height) × (new_level ≤ (after 0).height)
    head_after = rw (same 0).height (made_head_height t w k v new_level)

    insert_node-Written :
        matching t.cells k (first_taller t.cells 0 post) ≡ none
        → Written k v t (insert_node (prevs t w k) new_level k v t)
    unfolding insert_node
    insert_node-Written m =
        let written =
          insert-absent t.cells k v after pre post t.fresh entry_node entry_old (cut t w k).3
            (cut t w k).4 (All-right _ pre post (heights_cut t w k)) m in
        let node = (same t.fresh).height ∙ node_height in
        let valid : IsValid (insert_node (prevs t w k) new_level k v t) = record {
          nodes = pre ++ t.fresh ∷ post;
          linked = linked_after;
          sorted = Sorted-insert _ written;
          distinct = Distinct-insert (0 ∷ pre) post t.fresh Distinct-cut apart_cut;
          allocated =
              All-insert _ (0 ∷ pre) post t.fresh
                (All-map (0 ∷ pre ++ post) (λ b h. omega (arith, h)) allocated_cut) (omega arith);
          heights =
              All-insert _ pre post t.fresh
                (All-both (pre ++ post) (λ a e h. rw e h) height_old (heights_cut t w k))
                (rw node positive);
          low =
              All-insert _ pre post t.fresh
                (All-both (pre ++ post) (λ a e h. rw e (omega (arith, h, head_after.0))) height_old
                  (subst (All (λ a. (t.cells a).height ≤ (t.cells 0).height)) (cut t w k).2 w.low))
                (rw node head_after.1);
          head = omega (arith, w.head, head_after.0);
          count = length-insert pre post t.fresh ∙ ap suc (ap length (sym (cut t w k).2) ∙ w.count);
        } in
        (valid, entries-nodes _ valid ∙ sym written ∙ ap (insert k v) (sym entries_cut))

  module _ (q : ℕ) (qs : List ℕ) (found : post ≡ q ∷ qs)
      (equal : beq (t.cells q).key k ≡ true) where
    abbrev replaced : ℕ → Node
    replaced = write t.cells q (record (t.cells q) { value = v })

    nodes_found : w.nodes ≡ pre ++ q ∷ qs
    nodes_found = (cut t w k).2 ∙ ap (λ (x : List ℕ). pre ++ x) found

    height_replaced : (b : ℕ) → (replaced b).height ≡ (t.cells b).height
    unfolding write
    height_replaced b = elim (Bool-cases (b == q)) [
      | inl e ↦ rw (e, ==→eq b q e) refl
      | inr e ↦ rw e refl
    ]

    nexts_replaced : (b l : ℕ) → (replaced b).nexts l ≡ (t.cells b).nexts l
    unfolding write
    nexts_replaced b l = elim (Bool-cases (b == q)) [
      | inl e ↦ rw (e, ==→eq b q e) refl
      | inr e ↦ rw e refl
    ]

    Linked-replaced : (as' : List ℕ) → Linked t.cells as' → Linked replaced as'
    Linked-replaced [] l = tt
    Linked-replaced (a ∷ as') x = (
      λ l h.
          nexts_replaced a l
          ∙ x.0 l (subst (λ (n : ℕ). l < n) (height_replaced a) h)
          ∙ sym (first_taller-heights t.cells replaced l as' (All-of height_replaced as')),
      Linked-replaced as' x.1,
    )

    replaced_ne : (b : ℕ) → b ≢ q → entry replaced b ≡ entry t.cells b
    replaced_ne b h =
        ap (λ (n : Node). record { key = n.key; value = n.value }) (write_ne t.cells q _ b h)

    Distinct-others : (xs : List ℕ) → Distinct (xs ++ q ∷ qs) → All (λ b. b ≢ q) (xs ++ qs)
    Distinct-others [] d = All-map qs (λ b h e. h (sym e)) d.0
    Distinct-others (x ∷ xs) d = ((All-right _ xs (q ∷ qs) d.0).0, Distinct-others xs d.1)

    entry_others : All (λ b. entry replaced b ≡ entry t.cells b) (pre ++ qs)
    entry_others =
        All-map (pre ++ qs) (λ b. replaced_ne b)
          (Distinct-others pre (subst Distinct nodes_found w.distinct.1))

    update-Written : Written k v t (update q v t)
    unfolding update
    update-Written =
        let written =
          insert-present t.cells k v replaced pre qs q
            (ap (λ (n : Node). record { key = n.key; value = n.value }) (write_self t.cells q _))
            entry_others (cut t w k).3 equal in
        let before = ap (λ (x : List ℕ). insert k v (map (entry t.cells) (pre ++ x))) found in
        let written_nodes = before ∙ written ∙ ap (map (entry replaced)) (sym nodes_found) in
        let valid : IsValid (update q v t) = record {
          nodes = w.nodes;
          linked = Linked-replaced (0 ∷ w.nodes) w.linked;
          sorted = Sorted-insert _ written_nodes;
          distinct = w.distinct;
          allocated = w.allocated;
          heights = All-map w.nodes (λ a h. rw (height_replaced a) h) w.heights;
          low = All-map w.nodes (λ a h. rw (height_replaced a, height_replaced 0) h) w.low;
          head = rw (height_replaced 0) w.head;
          count = w.count;
        } in
        (valid, entries-nodes _ valid ∙ sym written_nodes ∙ ap (insert k v) (sym entries_cut))

rand_level-positive : (draws : ℕ) → 1 ≤ rand_level draws
unfolding rand_level
rand_level-positive zero = omega arith
rand_level-positive (suc draws) = omega (arith, rand_level-positive draws)

pub put_at :
    (t : SkipList) (draws : ℕ) (k v : Bytes) (w : IsValid t) (o : Option ℕ)
    → matching t.cells k ((t.cells (prevs t w k 0)).nexts 0) ≡ o
    → put draws k v t
      ≡ elim o [ some q ↦ update q v t | none ↦ insert_node (prevs t w k) (rand_level draws) k v t ]
unfolding put
put_at t draws k v w o e =
    ap
      (λ (x : Option ℕ). elim x [
        | some q ↦ update q v t
        | none ↦ insert_node (prevs t w k) (rand_level draws) k v t
      ])
      e

-- A write to a valid skip list leaves a valid skip list, for any level that is drawn, and the
-- iterator then gives the entries of before with the key's entry in its place.
pub put-Written :
    (draws : ℕ) (k v : Bytes) (t : SkipList) → IsValid t → Written k v t (put draws k v t)
put-Written draws k v t w =
    let first = ap (matching t.cells k) (first_large t w k) in
    elim (Option-cases (matching t.cells k (first_taller t.cells 0 (cut t w k).1))) [
      | inl m ↦
          subst (Written k v t) (sym (put_at t draws k v w none (first ∙ m)))
            (insert_node-Written t w k v (rand_level draws) (rand_level-positive draws) m)
      | inr (q, m) ↦
          let found =
            matching-some t.cells k (cut t w k).1 q
              (All-right _ (cut t w k).0 (cut t w k).1 (heights_cut t w k)) m in
          subst (Written k v t) (sym (put_at t draws k v w (some q) (first ∙ m)))
            (update-Written t w k v q found.0 found.1 found.2)
    ]
