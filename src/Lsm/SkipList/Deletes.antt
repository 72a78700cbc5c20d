-- ===== src/Lsm/SkipList/Deletes.antt =====
-- `Delete` keeps the skip list valid and takes the key out of its entries.
use moyuan_kv.Prelude.{
  ltb, leb, ltb→lt, ltb→ge, Bool-cases, Option-cases, length, All, All-left, All-right, All-map,
  Bytes, beq→eq, beq, ℕ, ◌≤◌, ◌<◌, ◌≡◌, sym, ap, ◌∙◌, subst, ◌≢◌, inl, inr, true, Option, none,
  some, List, [], ◌∷◌, ◌++◌, map, arith,
}
use moyuan_kv.Lsm.Entries.{Sorted, Above}
use moyuan_kv.Lsm.Insertion.{erase, erase-Sorted, erase-absent}
use moyuan_kv.Lsm.SkipList.{
  Node, SkipList, matching, unlink, shrink, remove_node, delete, entry, entries,
}
use moyuan_kv.Lsm.SkipList.Chains.{Distinct, At, Linked, first_taller, first_taller-short_node}
use moyuan_kv.Lsm.SkipList.Contents.{
  IsValid, cut, prevs, prevs-Located, linked_cut, heights_cut, Sorted-cut, entries-nodes,
  next-Located,
}
use moyuan_kv.Lsm.SkipList.Splice.{Located-Cuts, Reach-apart}
use moyuan_kv.Lsm.SkipList.Growth.{All-both, prevs_above}
use moyuan_kv.Lsm.SkipList.Writes.{entry-Same, length-insert, matching-some}
use moyuan_kv.Lsm.SkipList.Sizes.{get-matching}
use moyuan_kv.Lsm.SkipList.Unlinks.{unlink-Same, unlink-Linked, trim-positive, unlink-none}
use moyuan_kv.Lsm.SkipList.Shrinks.{
  shrink-Linked, shrink-low, shrink_old, shrink_height, head_height, matching-Above, Above-absent,
  matching-first, erase-present,
}

-- A skip list that a deletion leaves valid, without the key.
abbrev pub Erased : Bytes → SkipList → Option SkipList → Type 0
Erased k t o =
    (u : SkipList) × (o ≡ some u) × (valid : IsValid u) × (entries u ≡ erase k (entries t))

module _ (t : SkipList) (w : IsValid t) (k : Bytes) where
  abbrev pre : List ℕ
  pre = (cut t w k).0

  abbrev post : List ℕ
  post = (cut t w k).1

  abbrev levels : ℕ
  levels = (t.cells 0).height

  abbrev targets : ℕ → Option ℕ
  targets l = matching t.cells k ((t.cells (prevs t w k l)).nexts l)

  abbrev unlinked : ℕ → Node
  unlinked = unlink (prevs t w k) targets levels t.cells

  targets_first :
      (l : ℕ) → l < levels → targets l ≡ matching t.cells k (first_taller t.cells l post)
  targets_first l h = ap (matching t.cells k) (
      next-Located t.cells k 0 l (prevs t w k l) pre post (linked_cut t w k)
        (prevs-Located t w k l h))

  right-Sorted :
      (xs ys : List ℕ) → Sorted (map (entry t.cells) (xs ++ ys)) → Sorted (map (entry t.cells) ys)
  right-Sorted [] ys s = s
  right-Sorted (x ∷ xs) ys s = right-Sorted xs ys s.1

  post-Sorted : Sorted (map (entry t.cells) post)
  post-Sorted = right-Sorted pre post (Sorted-cut t w k)

  post-heights : All (λ a. 1 ≤ (t.cells a).height) post
  post-heights = All-right _ pre post (heights_cut t w k)

  -- Without the key nothing is written.
  unlinked_same : matching t.cells k (first_taller t.cells 0 post) ≡ none → unlinked ≡ t.cells
  unlinked_same m =
      let above = Above-absent t.cells k post (cut t w k).4 post-heights post-Sorted m in
      unlink-none (prevs t w k) targets levels t.cells
        (λ l h. targets_first l h ∙ matching-Above t.cells k l post above)

  delete_at :
      (o : Option ℕ)
      → levels ≤ 32
      → targets 0 ≡ o
      → delete k t
        ≡ some (elim o [ none ↦ record t { cells = unlinked } | some d ↦ remove_node unlinked d t ])
  unfolding delete
  delete_at o h e =
      let room : leb levels 32 ≡ true = ground (arith, h) in
      rw room (
        ap
          (λ (x : Option ℕ).
            some
              (elim x [ none ↦ record t { cells = unlinked } | some d ↦ remove_node unlinked d t ]))
          e)

  module _ (d : ℕ) (qs : List ℕ) (found : post ≡ d ∷ qs)
      (equal : beq (t.cells d).key k ≡ true) where
    nodes_found : w.nodes ≡ pre ++ d ∷ qs
    nodes_found = (cut t w k).2 ∙ ap (λ (x : List ℕ). pre ++ x) found

    linked_found : Linked t.cells (0 ∷ pre ++ d ∷ qs)
    linked_found = subst (λ (x : List ℕ). Linked t.cells (0 ∷ x)) nodes_found w.linked

    Distinct-found : Distinct (0 ∷ pre ++ d ∷ qs)
    Distinct-found = subst (λ (x : List ℕ). Distinct (0 ∷ x)) nodes_found w.distinct

    All-found : (P : ℕ → Type 0) → All P w.nodes → All P (pre ++ d ∷ qs)
    All-found P = subst (All P) nodes_found

    All-without : (P : ℕ → Type 0) (xs : List ℕ) → All P (xs ++ d ∷ qs) → All P (xs ++ qs)
    All-without P [] h = h.1
    All-without P (x ∷ xs) h = (h.0, All-without P xs h.1)

    Distinct-without : (xs : List ℕ) → Distinct (xs ++ d ∷ qs) → Distinct (xs ++ qs)
    Distinct-without [] h = h.1
    Distinct-without (x ∷ xs) h = (All-without _ xs h.0, Distinct-without xs h.1)

    Above-found : Above k (map (entry t.cells) qs)
    Above-found =
        let sorted = subst (λ (x : List ℕ). Sorted (map (entry t.cells) x)) found post-Sorted in
        subst (λ (x : Bytes). Above x (map (entry t.cells) qs)) (beq→eq (t.cells d).key k equal)
          sorted.0

    All-behind : (l : ℕ) → l < levels → All (λ b. prevs t w k l ≢ b) (d ∷ qs)
    All-behind l h = Reach-apart (d ∷ qs) (prevs-Located t w k l h).1 Distinct-found

    apart : (l : ℕ) → prevs t w k l ≢ d
    apart l = elim (Bool-cases (ltb l levels)) [
      | inl e ↦ (All-behind l (ltb→lt l levels e)).0
      | inr e ↦ λ f.
          (All-right _ pre (d ∷ qs) Distinct-found.0).0
            (sym (prevs_above t w k [] 0 l (ltb→ge l levels e)) ∙ f)
    ]

    hit : (l : ℕ) → l < levels → l < (t.cells d).height → targets l ≡ some d
    hit l h tall =
        targets_first l h
        ∙ ap (λ x. matching t.cells k (first_taller t.cells l x)) found
        ∙ matching-first t.cells k l d qs tall equal

    miss : (l : ℕ) → l < levels → (t.cells d).height ≤ l → targets l ≡ none
    miss l h low =
        targets_first l h
        ∙ ap (λ x. matching t.cells k (first_taller t.cells l x)) found
        ∙ ap (matching t.cells k) (first_taller-short_node t.cells l d qs low)
        ∙ matching-Above t.cells k l qs Above-found

    Linked-right : (xs : List ℕ) → Linked t.cells (xs ++ d ∷ qs) → At t.cells d qs
    Linked-right [] x = x.0
    Linked-right (a ∷ xs) x = Linked-right xs x.1

    linked_after : Linked unlinked (0 ∷ pre ++ qs)
    linked_after =
        unlink-Linked t.cells (prevs t w k) targets levels d qs apart hit miss
          (Linked-right (0 ∷ pre) linked_found) (0 ∷ pre)
          (omega arith, All-left _ pre (d ∷ qs) (All-found _ w.low))
          (λ l h.
            Located-Cuts t.cells k l 0 (prevs t w k l) pre (d ∷ qs) Distinct-found
              (prevs-Located t w k l h))
          (λ l h. (All-behind l h).1) linked_found

    abbrev nodes : List ℕ
    nodes = pre ++ qs

    not_head : All (λ b. b ≢ 0) nodes
    not_head = All-map nodes (λ b h e. h (sym e)) (All-without _ pre (All-found _ w.distinct.0))

    same_height : (b : ℕ) → (unlinked b).height ≡ (t.cells b).height
    same_height b = (unlink-Same (prevs t w k) targets levels t.cells b).height

    entry_after : All (λ a. entry (shrink unlinked) a ≡ entry t.cells a) nodes
    entry_after =
        All-map nodes
          (λ a e.
            ap (λ (n : Node). record { key = n.key; value = n.value }) e
            ∙ entry-Same t.cells unlinked a (unlink-Same (prevs t w k) targets levels t.cells a))
          (shrink_old unlinked nodes not_head linked_after)

    remove_node-valid :
        (valid : IsValid (remove_node unlinked d t)) × (entries (remove_node unlinked d t)
          ≡ erase k (entries t))
    unfolding remove_node
    remove_node-valid =
        let erased =
          erase-present t.cells (shrink unlinked) k pre qs d entry_after (cut t w k).3 equal in
        let sorted = subst (λ (x : List ℕ). Sorted (map (entry t.cells) x)) nodes_found w.sorted in
        let top = head_height unlinked nodes not_head linked_after in
        let valid : IsValid (remove_node unlinked d t) = record {
          nodes = nodes;
          linked = shrink-Linked unlinked nodes not_head linked_after;
          sorted = subst Sorted erased (erase-Sorted k _ sorted);
          distinct = Distinct-without (0 ∷ pre) Distinct-found;
          allocated = (w.allocated.0, All-without _ pre (All-found _ w.allocated.1));
          heights =
              All-both nodes (λ a x y. omega (arith, x, y, same_height a))
                (shrink_height unlinked nodes not_head linked_after)
                (All-without _ pre (All-found _ w.heights));
          low = shrink-low unlinked nodes not_head linked_after (
              All-map nodes (λ a h. omega (arith, h, same_height a, same_height 0))
                (All-without _ pre (All-found _ w.low)));
          head =
              let positive =
                trim-positive (unlinked 0).nexts (unlinked 0).height
                  (omega (arith, w.head, same_height 0)) in
              omega (arith, positive, top);
          count = omega (arith, w.count, ap length nodes_found, length-insert pre qs d);
        } in
        (
          valid,
          entries-nodes _ valid
              ∙ sym erased
              ∙ ap (λ (x : List ℕ). erase k (map (entry t.cells) x)) (sym nodes_found)
              ∙ ap (erase k) (sym (entries-nodes t w)),
        )

-- A deletion from a valid skip list whose head has at most 32 levels leaves a valid skip list, and the
-- iterator then gives the entries of before without the key's, or the same where it has none.
pub delete-Erased :
    (k : Bytes) (t : SkipList) → IsValid t → (t.cells 0).height ≤ 32 → Erased k t (delete k t)
delete-Erased k t w h =
    let first = targets_first t w k 0 w.head in
    elim (Option-cases (matching t.cells k (first_taller t.cells 0 (cut t w k).1))) [
      | inl m ↦
          let same = ap (λ x. record t { cells = x }) (unlinked_same t w k m) in
          let absent = get-matching t k w none (first ∙ m) in
          (
            t,
            delete_at t w k none h (first ∙ m) ∙ ap some same,
            w,
            sym (erase-absent k (entries t) absent),
          )
      | inr (d, m) ↦
          let found = matching-some t.cells k (cut t w k).1 d (post-heights t w k) m in
          let valid = remove_node-valid t w k d found.0 found.1 found.2 in
          (
            remove_node (unlinked t w k) d t,
            delete_at t w k (some d) h (first ∙ m),
            valid.0,
            valid.1,
          )
    ]
