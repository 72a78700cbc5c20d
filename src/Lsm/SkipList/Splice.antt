-- ===== src/Lsm/SkipList/Splice.antt =====
-- A node linked after its predecessors on every level stands between them and the larger nodes.
use moyuan_kv.Prelude.{
  ltb, ltb→lt, ltb→ge, Bool-cases, All, All-left, All-right, Bytes, ℕ, ◌≤◌, ◌<◌, ◌≡◌, refl, sym, ap,
  ◌∙◌, subst, ◌≢◌, ◌⊎◌, inl, inr, List, [], ◌∷◌, ◌++◌, arith,
}
use moyuan_kv.Lsm.SkipList.{Node, link}
use moyuan_kv.Lsm.SkipList.Chains.{
  Reach, one-Reach, Distinct, At, Linked, Short, first_taller, first_taller-Short,
  first_taller-tall,
}
use moyuan_kv.Lsm.SkipList.Walk.{Located}
use moyuan_kv.Lsm.SkipList.Links.{link-Same, link_other, link_prev, link_node}

-- The node reached is none of those that come later.
pub Reach-apart :
    {p q : ℕ} {pre suf : List ℕ} (post : List ℕ)
    → Reach p pre q suf
    → Distinct (p ∷ pre ++ post)
    → All (λ b. q ≢ b) post
Reach-apart {p} {q} {pre} post Reach.here d = All-right _ pre post d.0
Reach-apart post (Reach.there x) d = Reach-apart post x d.1

Distinct-left : (xs ys : List ℕ) → Distinct (xs ++ ys) → Distinct xs
Distinct-left [] ys d = tt
Distinct-left (x ∷ xs) ys d = (All-left _ xs ys d.0, Distinct-left xs ys d.1)

module _ (cells : ℕ → Node) where
  -- At each node of the list: it is `q` and the last one with the level, or neither.
  abbrev pub Cuts : ℕ → ℕ → List ℕ → Type 0
  Cuts l q [] = Unit
  Cuts l q (a ∷ as') =
      (((q ≡ a) × Short cells l as') ⊎ ((q ≢ a) × (l < (cells a).height → ¬ Short cells l as')))
      × Cuts l q as'

  Cuts-after : (l q : ℕ) (as' : List ℕ) → All (λ b. q ≢ b) as' → Short cells l as' → Cuts l q as'
  Cuts-after l q [] d s = tt
  Cuts-after l q (a ∷ as') d s =
      (inr (d.0, λ h t. absurd (omega (arith, h, s.0))), Cuts-after l q as' d.1 s.1)

  Reach-Cuts :
      (l : ℕ) {p q : ℕ} {pre suf : List ℕ}
      → Reach p pre q suf
      → Short cells l suf
      → l < (cells q).height
      → Distinct (p ∷ pre)
      → Cuts l q (p ∷ pre)
  Reach-Cuts l {p} {q} {pre} Reach.here s h d = (inl (refl, s), Cuts-after l p pre d.0 s)
  Reach-Cuts l {p = p} {q = q} {pre = a ∷ as'} (Reach.there x) s h d =
      let differ : q ≢ p = λ e. one-Reach (λ b. p ≢ b) x d.0.0 d.0.1 (sym e) in
      let taller : ¬ Short cells l (a ∷ as') =
        λ t. absurd (omega (arith, h, one-Reach (λ b. (cells b).height ≤ l) x t.0 t.1)) in
      (inr (differ, λ m. taller), Reach-Cuts l x s h d.1)

  pub Located-Cuts :
      (k : Bytes) (l p q : ℕ) (pre post : List ℕ)
      → Distinct (p ∷ pre ++ post)
      → Located cells k p l pre q
      → Cuts l q (p ∷ pre)
  Located-Cuts k l p q pre post d at = Reach-Cuts l at.1 at.2 at.3 (Distinct-left (p ∷ pre) post d)

  pub first_taller-found :
      (l : ℕ) (as' bs cs : List ℕ)
      → ¬ Short cells l as'
      → first_taller cells l (as' ++ bs) ≡ first_taller cells l (as' ++ cs)
  unfolding first_taller
  first_taller-found l [] bs cs n = absurd (n tt)
  first_taller-found l (a ∷ as') bs cs n = elim (Bool-cases (ltb l (cells a).height)) [
    | inl e ↦ rw e refl
    | inr e ↦ rw e (first_taller-found l as' bs cs (λ s. n (ltb→ge l (cells a).height e, s)))
  ]

  pub first_taller-insert :
      (l : ℕ) (as' bs : List ℕ) (node : ℕ)
      → (cells node).height ≤ l
      → first_taller cells l (as' ++ node ∷ bs) ≡ first_taller cells l (as' ++ bs)
  unfolding first_taller
  first_taller-insert l [] bs node h = first_taller-Short cells l (node ∷ []) bs (h, tt)
  first_taller-insert l (a ∷ as') bs node h = elim (Bool-cases (ltb l (cells a).height)) [
    | inl e ↦ rw e refl
    | inr e ↦ rw e (first_taller-insert l as' bs node h)
  ]

pub first_taller-heights :
    (cells made : ℕ → Node) (l : ℕ) (as' : List ℕ)
    → All (λ a. (made a).height ≡ (cells a).height) as'
    → first_taller made l as' ≡ first_taller cells l as'
unfolding first_taller
first_taller-heights cells made l [] e = refl
first_taller-heights cells made l (a ∷ as') e =
    rw (e.0, first_taller-heights cells made l as' e.1) refl

pub All-of {κ} : {P : ℕ → Type κ} → ((a : ℕ) → P a) → (as' : List ℕ) → All P as'
All-of f [] = tt
All-of f (a ∷ as') = (f a, All-of f as')

module _ (cells : ℕ → Node) (k : Bytes) (prevs : ℕ → ℕ) (node new_level : ℕ) (post : List ℕ) where
  abbrev linked : ℕ → Node
  linked = link prevs node new_level cells

  taller_linked : (l : ℕ) (as' : List ℕ) → first_taller linked l as' ≡ first_taller cells l as'
  taller_linked l as' =
      first_taller-heights cells linked l as'
        (All-of (λ a. (link-Same prevs node cells new_level a).height) as')

  module _ (apart : (l : ℕ) → prevs l ≢ node) (height : (cells node).height ≡ new_level) where
    -- The larger nodes keep their pointers.
    Linked_after :
        (as' : List ℕ)
        → All (λ b. b ≢ node) as'
        → ((l : ℕ) → l < new_level → All (λ b. prevs l ≢ b) as')
        → Linked cells as'
        → Linked linked as'
    Linked_after [] n d w = tt
    Linked_after (a ∷ as') n d w = (
      λ l h.
          link_other prevs node cells new_level a l n.0 (λ m. (d l m).0)
          ∙ w.0 l (subst (λ (x : ℕ). l < x) (link-Same prevs node cells new_level a).height h)
          ∙ sym (taller_linked l as'),
      Linked_after as' n.1 (λ l m. (d l m).1) w.1,
    )

    At-before :
        (a : ℕ) (as' : List ℕ)
        → a ≢ node
        → ((l : ℕ) → l < new_level → Cuts cells l (prevs l) (a ∷ as'))
        → At cells a (as' ++ post)
        → At linked a (as' ++ node ∷ post)
    At-before a as' n c w l h =
        let tall = subst (λ (x : ℕ). l < x) (link-Same prevs node cells new_level a).height h in
        elim (Bool-cases (ltb l new_level)) [
          | inl e ↦
              let below = ltb→lt l new_level e in
              elim (c l below).0 [
                | inl (q, s) ↦
                    ap (λ x. (linked x).nexts l) (sym q)
                    ∙ link_prev prevs node cells apart new_level l below
                    ∙ sym (first_taller-tall cells l node post (omega (arith, below, height)))
                    ∙ sym (first_taller-Short cells l as' (node ∷ post) s)
                | inr (q, s) ↦
                    link_other prevs node cells new_level a l n (λ m. q)
                    ∙ w l tall
                    ∙ first_taller-found cells l as' post (node ∷ post) (s tall)
              ]
          | inr e ↦
              let above = ltb→ge l new_level e in
              link_other prevs node cells new_level a l n (λ m. absurd (omega (arith, m, above)))
              ∙ w l tall
              ∙ sym (first_taller-insert cells l as' post node (omega (arith, above, height)))
        ]
        ∙ sym (taller_linked l (as' ++ node ∷ post))

    -- The node stands where its predecessors point.
    pub link-Linked :
        (as' : List ℕ)
        → All (λ b. b ≢ node) (as' ++ post)
        → ((l : ℕ) → l < new_level → Cuts cells l (prevs l) as')
        → ((l : ℕ) → l < new_level → All (λ b. prevs l ≢ b) post)
        → ((l : ℕ) → l < new_level → (cells (prevs l)).nexts l ≡ first_taller cells l post)
        → Linked cells (as' ++ post)
        → Linked linked (as' ++ node ∷ post)
    link-Linked [] n c d f w = (
      λ l h.
          let below =
            subst (λ (x : ℕ). l < x) ((link-Same prevs node cells new_level node).height ∙ height)
              h in
          link_node prevs node cells apart new_level l below
          ∙ f l below
          ∙ sym (taller_linked l post),
      Linked_after post n d w,
    )
    link-Linked (a ∷ as') n c d f w =
        (At-before a as' n.0 c w.0, link-Linked as' n.1 (λ l m. (c l m).1) d f w.1)
