-- ===== src/Lsm/SkipList/Links.antt =====
-- What the loop of `Put` that links a node writes, pointer by pointer.
use moyuan_kv.Prelude.{
  ◌==◌, ==→eq, ==_refl, Bool-cases, ℕ, zero, suc, ◌<◌, ◌≡◌, refl, sym, ap, ◌∙◌, ◌≢◌, inl, inr,
  false, Option, some, arith,
}
use moyuan_kv.Lsm.SkipList.{Node, write, set_next, link}

-- A step that leaves keys, values and heights alone.
pub record Same (n m : Node) : Type 0 where
  pub key : n.key ≡ m.key
  pub value : n.value ≡ m.value
  pub height : n.height ≡ m.height

pub Same-refl : (n : Node) → Same n n
Same-refl n = record { key = refl; value = refl; height = refl }

pub Same-trans : (n m o : Node) → Same n m → Same m o → Same n o
Same-trans n m o x y = record {
  key = x.key ∙ y.key;
  value = x.value ∙ y.value;
  height = x.height ∙ y.height;
}

pub write_self : (cells : ℕ → Node) (a : ℕ) (n : Node) → write cells a n a ≡ n
unfolding write
write_self cells a n = rw (==_refl a) refl

pub write_ne : (cells : ℕ → Node) (a : ℕ) (n : Node) (b : ℕ) → b ≢ a → write cells a n b ≡ cells b
unfolding write
write_ne cells a n b h = let other : (b == a) ≡ false = ground (arith, h) in rw other refl

module _ (cells : ℕ → Node) where
  pub set_next-Same :
      (a level : ℕ) (o : Option ℕ) (b : ℕ) → Same (set_next cells a level o b) (cells b)
  unfolding set_next write
  set_next-Same a level o b = elim (Bool-cases (b == a)) [
    | inl e ↦ rw (e, ==→eq b a e) (record { key = refl; value = refl; height = refl })
    | inr e ↦ rw e (Same-refl (cells b))
  ]

  pub set_next_self : (a level : ℕ) (o : Option ℕ) → (set_next cells a level o a).nexts level ≡ o
  unfolding set_next write
  set_next_self a level o = rw (==_refl a, ==_refl level) refl

  pub set_next_ne :
      (a level : ℕ) (o : Option ℕ) (b l : ℕ)
      → ((l ≡ level) → b ≢ a)
      → (set_next cells a level o b).nexts l ≡ (cells b).nexts l
  unfolding set_next write
  set_next_ne a level o b l h = elim (Bool-cases (b == a)) [
    | inl e ↦
        let other : (l == level) ≡ false = elim (Bool-cases (l == level)) [
          | inl f ↦ absurd (h (==→eq l level f) (==→eq b a e))
          | inr f ↦ f
        ] in
        rw (e, other, ==→eq b a e) refl
    | inr e ↦ rw e refl
  ]

module _ (prevs : ℕ → ℕ) (node : ℕ) (cells : ℕ → Node) where
  pub link-Same : (n b : ℕ) → Same (link prevs node n cells b) (cells b)
  unfolding link
  link-Same zero b = Same-refl (cells b)
  link-Same (suc n) b =
      let below = link prevs node n cells in
      let linked = set_next below node n ((below (prevs n)).nexts n) in
      Same-trans _ (linked b) _ (set_next-Same linked (prevs n) n (some node) b)
        (Same-trans _ (below b) _ (set_next-Same below node n _ b) (link-Same n b))

  pub link_other :
      (n b l : ℕ)
      → b ≢ node
      → (l < n → prevs l ≢ b)
      → (link prevs node n cells b).nexts l ≡ (cells b).nexts l
  unfolding link
  link_other zero b l h k = refl
  link_other (suc n) b l h k =
      let below = link prevs node n cells in
      let linked = set_next below node n ((below (prevs n)).nexts n) in
      set_next_ne linked (prevs n) n (some node) b l
        (λ e f. k (omega (arith, e)) (ap prevs e ∙ sym f))
      ∙ set_next_ne below node n _ b l (λ e. h)
      ∙ link_other n b l h (λ m. k (omega (arith, m)))

  module _ (apart : (l : ℕ) → prevs l ≢ node) where
    pub link_prev : (n l : ℕ) → l < n → (link prevs node n cells (prevs l)).nexts l ≡ some node
    unfolding link
    link_prev zero l h = absurd (omega (arith, h))
    link_prev (suc n) l h =
        let below = link prevs node n cells in
        let linked = set_next below node n ((below (prevs n)).nexts n) in
        elim (Bool-cases (l == n)) [
          | inl e ↦ rw (==→eq l n e) (set_next_self linked (prevs n) n (some node))
          | inr e ↦
              let other : l ≢ n = ground (arith, e) in
              set_next_ne linked (prevs n) n (some node) (prevs l) l (λ f. absurd (other f))
              ∙ set_next_ne below node n _ (prevs l) l (λ f. absurd (other f))
              ∙ link_prev n l (ground (arith, h, e))
        ]

    pub link_node :
        (n l : ℕ) → l < n → (link prevs node n cells node).nexts l ≡ (cells (prevs l)).nexts l
    unfolding link
    link_node zero l h = absurd (omega (arith, h))
    link_node (suc n) l h =
        let below = link prevs node n cells in
        let linked = set_next below node n ((below (prevs n)).nexts n) in
        set_next_ne linked (prevs n) n (some node) node l (λ e f. apart n (sym f))
        ∙ elim (Bool-cases (l == n)) [
          | inl e ↦ rw (==→eq l n e) (
              set_next_self below node n _
              ∙ link_other n (prevs n) n (apart n) (λ m. absurd (omega (arith, m))))
          | inr e ↦
              let other : l ≢ n = ground (arith, e) in
              set_next_ne below node n _ node l (λ f. absurd (other f))
              ∙ link_node n l (ground (arith, h, e))
        ]
