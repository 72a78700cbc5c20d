-- ===== src/Lsm/SkipList/Shrinks.antt =====
-- A head without its empty levels, and the search for a key to delete.
use moyuan_kv.Prelude.{
  ltb, ltb→lt, lt→ltb, ltb→ge, Bool-cases, All, All-map, Bytes, beq_comm, beq, ℕ, ◌≤◌, ◌<◌, ◌≡◌,
  refl, sym, ap, ap₂, ◌∙◌, ◌≢◌, inl, inr, true, none, some, List, [], ◌∷◌, ◌++◌, map, arith,
}
use moyuan_kv.Lsm.Entries.{Sorted, Above, blt_of_ne, bne_of_blt, beq_of_blt}
use moyuan_kv.Lsm.Insertion.{Above-below, erase}
use moyuan_kv.Lsm.SkipList.{Node, matching, trim, shrink, entry}
use moyuan_kv.Lsm.SkipList.Chains.{Linked, Short, first_taller}
use moyuan_kv.Lsm.SkipList.Walk.{Small, Large}
use moyuan_kv.Lsm.SkipList.Links.{write_self, write_ne}
use moyuan_kv.Lsm.SkipList.Splice.{first_taller-heights}
use moyuan_kv.Lsm.SkipList.Growth.{All-both, Linked-same}
use moyuan_kv.Lsm.SkipList.Writes.{matching-none}
use moyuan_kv.Lsm.SkipList.Unlinks.{trim_le, trim-none}

module _ (cells : ℕ → Node) where
  shrink_ne : (b : ℕ) → b ≢ 0 → shrink cells b ≡ cells b
  unfolding shrink
  shrink_ne b h = write_ne cells 0 _ b h

  shrink_head : shrink cells 0 ≡ record (cells 0) { height = trim (cells 0).nexts (cells 0).height }
  unfolding shrink
  shrink_head = write_self cells 0 _

  -- No node has a level on which the chain from the head is empty.
  none-Short : (l : ℕ) (as' : List ℕ) → first_taller cells l as' ≡ none → Short cells l as'
  unfolding first_taller
  none-Short l [] = λ e. tt
  none-Short l (a ∷ as') = elim (Bool-cases (ltb l (cells a).height)) [
    | inl t ↦ rw t (λ e. absurd (ground (arith, e)))
    | inr t ↦ rw t (λ e. (ltb→ge l (cells a).height t, none-Short l as' e))
  ]

  module _ (nodes : List ℕ) (apart : All (λ b. b ≢ 0) nodes)
      (linked : Linked cells (0 ∷ nodes)) where
    pub shrink_old : All (λ b. shrink cells b ≡ cells b) nodes
    shrink_old = All-map nodes (λ b h. shrink_ne b h) apart

    pub shrink_height : All (λ b. (shrink cells b).height ≡ (cells b).height) nodes
    shrink_height = All-map nodes (λ b. ap (λ (n : Node). n.height)) shrink_old

    pub head_height : (shrink cells 0).height ≡ trim (cells 0).nexts (cells 0).height
    head_height = ap (λ (n : Node). n.height) shrink_head

    pub shrink-Linked : Linked (shrink cells) (0 ∷ nodes)
    shrink-Linked = (
      λ l h.
          let less = trim_le (cells 0).nexts (cells 0).height in
          ap (λ (n : Node). n.nexts l) shrink_head
          ∙ linked.0 l (omega (arith, h, head_height, less))
          ∙ sym (first_taller-heights cells (shrink cells) l nodes shrink_height),
      Linked-same cells (shrink cells) nodes shrink_old linked.1,
    )

    -- The head keeps every level that a node has.
    pub shrink-low :
        Short cells (cells 0).height nodes
        → All (λ b. (shrink cells b).height ≤ (shrink cells 0).height) nodes
    shrink-low low =
        let top = trim (cells 0).nexts (cells 0).height in
        let kept : Short cells top nodes = elim (Bool-cases (ltb top (cells 0).height)) [
          | inl e ↦
              let inside = ltb→lt top (cells 0).height e in
              none-Short top nodes (
                sym (linked.0 top inside)
                ∙ trim-none (cells 0).nexts (cells 0).height top (omega arith) inside)
          | inr e ↦ All-map nodes (λ b h. omega (arith, h, ltb→ge top (cells 0).height e)) low
        ] in
        All-both nodes (λ b x y. omega (arith, x, y, head_height)) shrink_height kept

  -- Nothing is found among larger keys.
  pub matching-Above :
      (k : Bytes) (l : ℕ) (as' : List ℕ)
      → Above k (map (entry cells) as')
      → matching cells k (first_taller cells l as') ≡ none
  unfolding matching first_taller
  matching-Above k l [] w = refl
  matching-Above k l (a ∷ as') w = elim (Bool-cases (ltb l (cells a).height)) [
    | inl e ↦ rw (e, beq_of_blt k (cells a).key w.0) refl
    | inr e ↦ rw e (matching-Above k l as' w.1)
  ]

  -- A key that the first of the larger nodes does not have is below all of them.
  pub Above-absent :
      (k : Bytes) (post : List ℕ)
      → All (Large cells k) post
      → All (λ a. 1 ≤ (cells a).height) post
      → Sorted (map (entry cells) post)
      → matching cells k (first_taller cells 0 post) ≡ none
      → Above k (map (entry cells) post)
  Above-absent k [] g h s m = tt
  Above-absent k (a ∷ as') g h s m =
      let other = matching-none cells k a as' h.0 m in
      let above = blt_of_ne k (cells a).key (beq_comm k (cells a).key ∙ other) g.0 in
      (above, Above-below k (cells a).key (map (entry cells) as') above s.0)

  pub matching-first :
      (k : Bytes) (l d : ℕ) (qs : List ℕ)
      → l < (cells d).height
      → beq (cells d).key k ≡ true
      → matching cells k (first_taller cells l (d ∷ qs)) ≡ some d
  unfolding matching first_taller
  matching-first k l d qs h e = rw (lt→ltb l (cells d).height h, e) refl

  pub erase-present :
      (made : ℕ → Node) (k : Bytes) (pre qs : List ℕ) (d : ℕ)
      → All (λ a. entry made a ≡ entry cells a) (pre ++ qs)
      → All (Small cells k) pre
      → beq (cells d).key k ≡ true
      → erase k (map (entry cells) (pre ++ d ∷ qs)) ≡ map (entry made) (pre ++ qs)
  unfolding erase
  erase-present made k [] qs d e s f = rw f (sym (map_equal qs e))
    where
      map_equal :
          (as' : List ℕ)
          → All (λ a. entry made a ≡ entry cells a) as'
          → map (entry made) as' ≡ map (entry cells) as'
      map_equal [] e = refl
      map_equal (a ∷ as') e = ap₂ ◌∷◌ e.0 (map_equal as' e.1)
  erase-present made k (a ∷ as') qs d e s f =
      rw (bne_of_blt (cells a).key k s.0)
        (ap₂ ◌∷◌ (sym e.0) (erase-present made k as' qs d e.1 s.1 f))
