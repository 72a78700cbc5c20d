-- ===== src/Lsm/SkipList/Growth.antt =====
-- The heap of a skip list just before a new node is linked: the head has grown, the node is there.
use moyuan_kv.Prelude.{
  ltb, ltb→lt, ltb→ge, Bool-cases, All, All-left, All-map, Bytes, ℕ, ◌≤◌, ◌<◌, ◌≡◌, refl, sym, ap,
  ◌∙◌, subst, ◌≢◌, inl, inr, none, List, [], ◌∷◌, ◌++◌, append-nil, arith,
}
use moyuan_kv.Lsm.SkipList.{Node, SkipList, new_node, write, grow}
use moyuan_kv.Lsm.SkipList.Chains.{
  Reach, All-Reach, one-Reach, At, Linked, Short, first_taller, first_taller-Short,
}
use moyuan_kv.Lsm.SkipList.Walk.{Located, locate-above}
use moyuan_kv.Lsm.SkipList.Contents.{IsValid, cut, prevs, prevs-Located, linked_cut}
use moyuan_kv.Lsm.SkipList.Links.{write_self, write_ne}
use moyuan_kv.Lsm.SkipList.Splice.{first_taller-heights}

pub All-both {κ} :
    {P Q R : ℕ → Type κ} (as' : List ℕ)
    → ((a : ℕ) → P a → Q a → R a)
    → All P as'
    → All Q as'
    → All R as'
All-both [] f x y = tt
All-both (a ∷ as') f x y = (f a x.0 y.0, All-both as' f x.1 y.1)

pub Linked-same :
    (cells made : ℕ → Node) (as' : List ℕ)
    → All (λ b. made b ≡ cells b) as'
    → Linked cells as'
    → Linked made as'
Linked-same cells made [] e w = tt
Linked-same cells made (a ∷ as') e w = (
  λ l h.
      ap (λ (n : Node). n.nexts l) e.0
      ∙ w.0 l (subst (λ (n : Node). l < n.height) e.0 h)
      ∙ sym (
          first_taller-heights cells made l as'
            (All-map as' (λ b. ap (λ (n : Node). n.height)) e.1)),
  Linked-same cells made as' e.1 w.1,
)

module _ (cells : ℕ → Node) (new_level : ℕ) where
  pub grow_ne : (b : ℕ) → b ≢ 0 → grow new_level cells b ≡ cells b
  unfolding grow
  grow_ne b h = elim (Bool-cases (ltb (cells 0).height new_level)) [
    | inl e ↦ rw e (write_ne cells 0 _ b h)
    | inr e ↦ rw e refl
  ]

  none_above : (l : ℕ) (as' : List ℕ) → Short cells l as' → first_taller cells l as' ≡ none
  unfolding first_taller
  none_above l as' s =
      ap (first_taller cells l) (sym (append-nil as')) ∙ first_taller-Short cells l as' [] s

  pub grow_height :
      ((cells 0).height ≤ (grow new_level cells 0).height)
      × (new_level ≤ (grow new_level cells 0).height)
  unfolding grow write
  grow_height = elim (Bool-cases (ltb (cells 0).height new_level)) [
    | inl e ↦ rw e (omega (arith, ltb→lt (cells 0).height new_level e), omega arith)
    | inr e ↦ rw e (omega arith, ltb→ge (cells 0).height new_level e)
  ]

  -- The levels that the head gains are empty, as no node has them.
  grow_nexts :
      (as' : List ℕ)
      → Short cells (cells 0).height as'
      → At cells 0 as'
      → (l : ℕ) → l < (grow new_level cells 0).height
      → (grow new_level cells 0).nexts l ≡ first_taller cells l as'
  unfolding grow write
  grow_nexts as' s w = elim (Bool-cases (ltb (cells 0).height new_level)) [
    | inl e ↦ rw e (λ l h. elim (Bool-cases (ltb l (cells 0).height)) [
      | inl f ↦ rw f (w l (ltb→lt l (cells 0).height f))
      | inr f ↦
          let high = ltb→ge l (cells 0).height f in
          rw f (sym (none_above l as' (All-map as' (λ a m. omega (arith, m, high)) s)))
    ])
    | inr e ↦ rw e w
  ]

module _ (t : SkipList) (w : IsValid t) (k v : Bytes) (new_level : ℕ) where
  abbrev pub made : ℕ → Node
  made = write (grow new_level t.cells) t.fresh (new_node k v new_level)

  pub made_node : made t.fresh ≡ new_node k v new_level
  made_node = write_self (grow new_level t.cells) t.fresh _

  pub made_ne : (b : ℕ) → b ≢ t.fresh → b ≢ 0 → made b ≡ t.cells b
  made_ne b h z = write_ne (grow new_level t.cells) t.fresh _ b h ∙ grow_ne t.cells new_level b z

  pub made_head : made 0 ≡ grow new_level t.cells 0
  made_head = write_ne (grow new_level t.cells) t.fresh _ 0 (omega (arith, w.allocated.0))

  pub made_head_height : ((t.cells 0).height ≤ (made 0).height) × (new_level ≤ (made 0).height)
  made_head_height = rw made_head (grow_height t.cells new_level)

  -- The addresses of the nodes are neither the head's nor the new one.
  pub old_cut : All (λ b. made b ≡ t.cells b) ((cut t w k).0 ++ (cut t w k).1)
  old_cut =
      All-both _ (λ b x y. made_ne b (omega (arith, x)) (λ e. y (sym e)))
        (subst (All (λ a. a < t.fresh)) (cut t w k).2 w.allocated.1)
        (subst (All (λ b. 0 ≢ b)) (cut t w k).2 w.distinct.0)

  pub low_cut : Short t.cells (t.cells 0).height ((cut t w k).0 ++ (cut t w k).1)
  low_cut = subst (Short t.cells (t.cells 0).height) (cut t w k).2 w.low

  pub made-Linked : Linked made (0 ∷ (cut t w k).0 ++ (cut t w k).1)
  made-Linked = (
    λ l h.
        ap (λ (n : Node). n.nexts l) made_head
        ∙ grow_nexts t.cells new_level _ low_cut (linked_cut t w k).0 l
            (subst (λ (n : Node). l < n.height) made_head h)
        ∙ sym (
            first_taller-heights t.cells made l _
              (All-map _ (λ b. ap (λ (n : Node). n.height)) old_cut)),
    Linked-same t.cells made _ old_cut (linked_cut t w k).1,
  )

  old_left : All (λ b. made b ≡ t.cells b) (cut t w k).0
  old_left = All-left _ (cut t w k).0 (cut t w k).1 old_cut

  pub prevs_above : (l : ℕ) → (t.cells 0).height ≤ l → prevs t w k l ≡ 0
  prevs_above l h = locate-above t.cells k t.size (t.cells 0).height 0 _ l h

  pub made-Located : (l : ℕ) → l < new_level → Located made k 0 l (cut t w k).0 (prevs t w k l)
  made-Located l h = elim (Bool-cases (ltb l (t.cells 0).height)) [
    | inl e ↦
        let at = prevs-Located t w k l (ltb→lt l (t.cells 0).height e) in
        let kept =
          All-both at.0 (λ b x y. subst (λ (n : Node). n.height ≤ l) (sym x) y)
            (All-Reach _ at.1 old_left) at.2 in
        let tall =
          one-Reach (λ b. (t.cells b).height ≤ (made b).height) at.1 made_head_height.0
            (All-map _ (λ b x. rw x (omega arith)) old_left) in
        (at.0, at.1, kept, omega (arith, tall, at.3))
    | inr e ↦
        let high = ltb→ge l (t.cells 0).height e in
        let reaches : l < (made 0).height = omega (arith, h, made_head_height.1) in
        let short =
          All-both (cut t w k).0 (λ b x y. rw x (omega (arith, y, high))) old_left
            (All-left _ (cut t w k).0 (cut t w k).1 low_cut) in
        subst (λ (x : ℕ). Located made k 0 l (cut t w k).0 x) (sym (prevs_above l high))
          ((cut t w k).0, Reach.here, short, reaches)
  ]

  pub prevs_apart : (l : ℕ) → prevs t w k l ≢ t.fresh
  prevs_apart l = elim (Bool-cases (ltb l (t.cells 0).height)) [
    | inl e ↦
        let at = prevs-Located t w k l (ltb→lt l (t.cells 0).height e) in
        let below =
          one-Reach (λ b. b < t.fresh) at.1 w.allocated.0
            (All-left _ (cut t w k).0 (cut t w k).1
              (subst (All (λ a. a < t.fresh)) (cut t w k).2 w.allocated.1)) in
        omega (arith, below)
    | inr e ↦ rw (prevs_above l (ltb→ge l (t.cells 0).height e)) (omega (arith, w.allocated.0))
  ]
