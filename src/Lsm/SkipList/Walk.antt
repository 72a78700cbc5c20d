-- ===== src/Lsm/SkipList/Walk.antt =====
-- Where the loops of a skip list end: on every level, the last node that has the level and a smaller key.
use moyuan_kv.Prelude.{
  ltb, ◌==◌, if◌then◌else◌, ltb→lt, ltb→ge, ==→eq, Bool-cases, length, All, Bytes, blt, ℕ, zero,
  suc, ◌≤◌, ◌<◌, ◌≡◌, refl, ◌∙◌, inl, inr, true, false, Option, none, some, List, [], ◌∷◌, ◌++◌,
  arith,
}
use moyuan_kv.Lsm.SkipList.{Node, smaller, walk, descend, locate}
use moyuan_kv.Lsm.SkipList.Chains.{
  Reach, Reach-trans, length-Reach, All-Reach, Linked, Short, Linked-Reach, first_taller,
  first_taller-short_node, first_taller-tall, Reach-skip,
}

module _ (cells : ℕ → Node) (k : Bytes) where
  abbrev pub Small : ℕ → Type 0
  Small a = blt (cells a).key k ≡ true

  abbrev pub Large : ℕ → Type 0
  Large a = blt (cells a).key k ≡ false

  pub smaller-first :
      (l : ℕ) (post : List ℕ) → All Large post → smaller cells k (first_taller cells l post) ≡ none
  unfolding smaller first_taller
  smaller-first l [] w = refl
  smaller-first l (a ∷ as') w = elim (Bool-cases (ltb l (cells a).height)) [
    | inl e ↦ rw (e, w.0) refl
    | inr e ↦ rw e (smaller-first l as' w.1)
  ]

  walk_stop : (l n p : ℕ) → smaller cells k ((cells p).nexts l) ≡ none → walk cells k l n p ≡ p
  unfolding walk
  walk_stop l zero p h = refl
  walk_stop l (suc n) p h = rw (walk, h) refl

  smaller-some : (a : ℕ) (o : Option ℕ) → o ≡ some a → Small a → smaller cells k o ≡ some a
  unfolding smaller
  smaller-some a o e h = rw (e, h) refl

  walk_move :
      (l n p a : ℕ)
      → (cells p).nexts l ≡ some a
      → Small a
      → walk cells k l (suc n) p ≡ walk cells k l n a
  unfolding walk
  walk_move l n p a e h = rw (walk, smaller-some a _ e h) refl

  -- The place of a level, seen from `p` with the smaller nodes after it.
  abbrev pub Located : ℕ → ℕ → List ℕ → ℕ → Type 0
  Located p l pre q =
      (suf : List ℕ) × Reach p pre q suf × Short cells l suf × (l < (cells q).height)

  walk-Located :
      (l : ℕ) (post : List ℕ) (n p : ℕ) (pre : List ℕ)
      → length pre ≤ n
      → All Small pre
      → All Large post
      → (cells p).nexts l ≡ first_taller cells l (pre ++ post)
      → l < (cells p).height
      → Linked cells (pre ++ post)
      → Located p l pre (walk cells k l n p)
  walk-Located l post n p [] b s g e h w =
      rw (walk_stop l n p (rw e (smaller-first l post g))) ([], Reach.here, tt, h)
  walk-Located l post zero p (a ∷ as') b s g e h w = absurd (omega (arith, b))
  walk-Located l post (suc n) p (a ∷ as') b s g e h w = elim (Bool-cases (ltb l (cells a).height)) [
    | inl t ↦
        let tall = ltb→lt l (cells a).height t in
        let next = e ∙ first_taller-tall cells l a (as' ++ post) tall in
        let rest = walk-Located l post n a as' (omega arith) s.1 g (w.0 l tall) tall w.1 in
        rw (walk_move l n p a next s.0) (rest.0, Reach.there rest.1, rest.2, rest.3)
    | inr t ↦
        let low = ltb→ge l (cells a).height t in
        let next = e ∙ first_taller-short_node cells l a (as' ++ post) low in
        let rest = walk-Located l post (suc n) p as' (omega arith) s.1 g next h w.1 in
        let skip = Reach-skip cells low rest.1 rest.2 in (skip.0, skip.1, skip.2, rest.3)
  ]

  -- What a level writes down, the lower levels keep.
  pub locate-above :
      (n c p : ℕ) (prevs : ℕ → ℕ) (l : ℕ) → c ≤ l → locate cells k n c p prevs l ≡ prevs l
  unfolding locate
  locate-above n zero p prevs l h = refl
  locate-above n (suc c) p prevs l h =
      let other : (l == c) ≡ false = ground arith in
      locate-above n c _ _ l (omega arith) ∙ rw other refl

  -- `Get` ends where `Put` leaves the lowest level.
  pub descend-locate :
      (n c p : ℕ) (prevs : ℕ → ℕ) → descend cells k n (suc c) p ≡ locate cells k n (suc c) p prevs 0
  unfolding descend locate
  descend-locate n zero p prevs = refl
  descend-locate n (suc c) p prevs = descend-locate n c _ _

  module _ (head : ℕ) (pre post : List ℕ) where
    pub locate-Located :
        (n c p : ℕ) (prevs : ℕ → ℕ) (suf : List ℕ)
        → length pre ≤ n
        → All Small pre
        → All Large post
        → Linked cells (head ∷ pre ++ post)
        → Reach head pre p suf
        → c ≤ (cells p).height
        → (l : ℕ) → l < c
        → Located head l pre (locate cells k n c p prevs l)
    unfolding locate
    locate-Located n zero p prevs suf b s g w r h l z = absurd (omega (arith, z))
    locate-Located n (suc c) p prevs suf b s g w r h l z =
        let from = Linked-Reach cells post r w in
        let short = length-Reach r in
        let step =
          walk-Located c post n p suf (omega arith) (All-Reach Small r s) g (from.0 c (omega arith))
            (omega arith) from.1 in
        let at = Reach-trans r step.1 in
        elim (Bool-cases (l == c)) [
          | inl e ↦
              rw
                (
                  locate-above n c _ (λ j. if j == c then walk cells k c n p else prevs j) l
                      (ground (arith, e)),
                  e,
                  ==→eq l c e,
                )
                (step.0, at, step.2, step.3)
          | inr e ↦
              locate-Located n c _ _ step.0 b s g w at (omega (arith, step.3)) l
                (ground (arith, e, z))
        ]
