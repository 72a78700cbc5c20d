-- ===== src/Lsm/SkipList/Unlinks.antt =====
-- What the loop of `Delete` writes, pointer by pointer, and the chains behind it.
use moyuan_kv.Prelude.{
  ltb, ◌==◌, ltb→lt, ltb→ge, ==→eq, Bool-cases, Option-cases, All, ℕ, zero, suc, ◌≤◌, ◌<◌, ◌≡◌,
  refl, sym, ap, ◌∙◌, subst, ◌≢◌, ◌⊎◌, inl, inr, Option, none, some, List, [], ◌∷◌, ◌++◌, arith,
}
use moyuan_kv.Lsm.SkipList.{Node, detach, unlink, trim}
use moyuan_kv.Lsm.SkipList.Chains.{At, Linked, first_taller, first_taller-Short}
use moyuan_kv.Lsm.SkipList.Links.{
  Same, Same-refl, Same-trans, set_next-Same, set_next_self, set_next_ne,
}
use moyuan_kv.Lsm.SkipList.Splice.{
  Cuts, first_taller-found, first_taller-insert, first_taller-heights, All-of,
}

detach-Same :
    (prev n : ℕ) (o : Option ℕ) (cells : ℕ → Node) (b : ℕ)
    → Same (detach prev n o cells b) (cells b)
unfolding detach
detach-Same prev n none cells b = Same-refl (cells b)
detach-Same prev n (some d) cells b = set_next-Same cells prev n ((cells d).nexts n) b

detach_keep :
    (prev n : ℕ) (o : Option ℕ) (cells : ℕ → Node) (b l : ℕ)
    → ((l ≡ n) → (o ≡ none) ⊎ (b ≢ prev))
    → (detach prev n o cells b).nexts l ≡ (cells b).nexts l
unfolding detach
detach_keep prev n none cells b l h = refl
detach_keep prev n (some d) cells b l h =
    set_next_ne cells prev n ((cells d).nexts n) b l
      (λ f. elim (h f) [ inl z ↦ absurd (ground (arith, z)) | inr z ↦ z ])

detach_found :
    (prev n d : ℕ) (o : Option ℕ) (cells : ℕ → Node)
    → o ≡ some d
    → (detach prev n o cells prev).nexts n ≡ (cells d).nexts n
unfolding detach
detach_found prev n d o cells e =
    ap (λ x. (detach prev n x cells prev).nexts n) e
    ∙ set_next_self cells prev n ((cells d).nexts n)

module _ (prevs : ℕ → ℕ) (targets : ℕ → Option ℕ) where
  pub unlink-Same :
      (n : ℕ) (cells : ℕ → Node) (b : ℕ) → Same (unlink prevs targets n cells b) (cells b)
  unfolding unlink
  unlink-Same zero cells b = Same-refl (cells b)
  unlink-Same (suc n) cells b =
      Same-trans _ (detach (prevs n) n (targets n) cells b) _
        (unlink-Same n (detach (prevs n) n (targets n) cells) b)
        (detach-Same (prevs n) n (targets n) cells b)

  pub unlink_keep :
      (n : ℕ) (cells : ℕ → Node) (b l : ℕ)
      → (l < n → (targets l ≡ none) ⊎ (b ≢ prevs l))
      → (unlink prevs targets n cells b).nexts l ≡ (cells b).nexts l
  unfolding unlink
  unlink_keep zero cells b l h = refl
  unlink_keep (suc n) cells b l h =
      unlink_keep n (detach (prevs n) n (targets n) cells) b l (λ m. h (omega (arith, m)))
      ∙ detach_keep (prevs n) n (targets n) cells b l
          (λ e. subst (λ (x : ℕ). (targets x ≡ none) ⊎ (b ≢ prevs x)) e (h (omega (arith, e))))

  pub unlink_target :
      (d n : ℕ) (cells : ℕ → Node) (l : ℕ)
      → ((m : ℕ) → prevs m ≢ d)
      → l < n
      → targets l ≡ some d
      → (unlink prevs targets n cells (prevs l)).nexts l ≡ (cells d).nexts l
  unfolding unlink
  unlink_target d zero cells l a h e = absurd (omega (arith, h))
  unlink_target d (suc n) cells l a h e = elim (Bool-cases (l == n)) [
    | inl f ↦
        let same = ==→eq l n f in
        unlink_keep n (detach (prevs n) n (targets n) cells) (prevs l) l
          (λ m. absurd (omega (arith, m, same)))
        ∙ subst
            (λ (x : ℕ).
              (detach (prevs n) n (targets n) cells (prevs x)).nexts x ≡ (cells d).nexts x)
            (sym same)
            (detach_found (prevs n) n d (targets n) cells
              (subst (λ (x : ℕ). targets x ≡ some d) same e))
    | inr f ↦
        let other : l ≢ n = ground (arith, f) in
        unlink_target d n (detach (prevs n) n (targets n) cells) l a (ground (arith, h, f)) e
        ∙ detach_keep (prevs n) n (targets n) cells d l (λ g. absurd (other g))
  ]

module _ (cells : ℕ → Node) (prevs : ℕ → ℕ) (targets : ℕ → Option ℕ) (levels d : ℕ)
    (qs : List ℕ) where
  abbrev unlinked : ℕ → Node
  unlinked = unlink prevs targets levels cells

  taller_unlinked : (l : ℕ) (as' : List ℕ) → first_taller unlinked l as' ≡ first_taller cells l as'
  taller_unlinked l as' =
      first_taller-heights cells unlinked l as'
        (All-of (λ a. (unlink-Same prevs targets levels cells a).height) as')

  -- The nodes behind keep their pointers.
  Linked_behind :
      (as' : List ℕ)
      → ((l : ℕ) → l < levels → All (λ b. prevs l ≢ b) as')
      → Linked cells as'
      → Linked unlinked as'
  Linked_behind [] n w = tt
  Linked_behind (a ∷ as') n w = (
    λ l h.
        unlink_keep prevs targets levels cells a l (λ m. inr (λ e. (n l m).0 (sym e)))
        ∙ w.0 l (subst (λ (x : ℕ). l < x) (unlink-Same prevs targets levels cells a).height h)
        ∙ sym (taller_unlinked l as'),
    Linked_behind as' (λ l m. (n l m).1) w.1,
  )

  module _ (apart : (l : ℕ) → prevs l ≢ d)
      (hit : (l : ℕ) → l < levels → l < (cells d).height → targets l ≡ some d)
      (miss : (l : ℕ) → l < levels → (cells d).height ≤ l → targets l ≡ none)
      (next : At cells d qs) where
    At-unlinked :
        (a : ℕ) (as' : List ℕ)
        → (cells a).height ≤ levels
        → ((l : ℕ) → l < levels → Cuts cells l (prevs l) (a ∷ as'))
        → At cells a (as' ++ d ∷ qs)
        → At unlinked a (as' ++ qs)
    At-unlinked a as' low c w l h =
        let tall = subst (λ (x : ℕ). l < x) (unlink-Same prevs targets levels cells a).height h in
        let below : l < levels = omega (arith, tall, low) in
        elim (c l below).0 [
          | inl (q, s) ↦ elim (Bool-cases (ltb l (cells d).height)) [
            | inl e ↦
                let has = ltb→lt l (cells d).height e in
                ap (λ x. (unlinked x).nexts l) (sym q)
                ∙ unlink_target prevs targets d levels cells l apart below (hit l below has)
                ∙ next l has
                ∙ sym (first_taller-Short cells l as' qs s)
            | inr e ↦
                let lacks = ltb→ge l (cells d).height e in
                unlink_keep prevs targets levels cells a l (λ m. inl (miss l below lacks))
                ∙ w l tall
                ∙ first_taller-insert cells l as' qs d lacks
          ]
          | inr (q, s) ↦
              unlink_keep prevs targets levels cells a l (λ m. inr (λ e. q (sym e)))
              ∙ w l tall
              ∙ first_taller-found cells l as' (d ∷ qs) qs (s tall)
        ]
        ∙ sym (taller_unlinked l (as' ++ qs))

    -- The chains lead past the node.
    pub unlink-Linked :
        (as' : List ℕ)
        → All (λ a. (cells a).height ≤ levels) as'
        → ((l : ℕ) → l < levels → Cuts cells l (prevs l) as')
        → ((l : ℕ) → l < levels → All (λ b. prevs l ≢ b) qs)
        → Linked cells (as' ++ d ∷ qs)
        → Linked unlinked (as' ++ qs)
    unlink-Linked [] low c n w = Linked_behind qs n w.1
    unlink-Linked (a ∷ as') low c n w =
        (At-unlinked a as' low.0 c w.0, unlink-Linked as' low.1 (λ l m. (c l m).1) n w.1)

pub trim_le : (nexts : ℕ → Option ℕ) (n : ℕ) → trim nexts n ≤ n
unfolding trim
trim_le nexts zero = omega arith
trim_le nexts (suc zero) = omega arith
trim_le nexts (suc (suc n)) = elim (Option-cases (nexts (suc n))) [
  | inl e ↦ rw (trim, e) (omega (arith, trim_le nexts (suc n)))
  | inr (q, e) ↦ rw (trim, e) (omega arith)
]

pub trim-positive : (nexts : ℕ → Option ℕ) (n : ℕ) → 1 ≤ n → 1 ≤ trim nexts n
unfolding trim
trim-positive nexts zero h = h
trim-positive nexts (suc zero) h = omega arith
trim-positive nexts (suc (suc n)) h = elim (Option-cases (nexts (suc n))) [
  | inl e ↦ rw (trim, e) (trim-positive nexts (suc n) (omega arith))
  | inr (q, e) ↦ rw (trim, e) (omega arith)
]

pub trim-none : (nexts : ℕ → Option ℕ) (n l : ℕ) → trim nexts n ≤ l → l < n → nexts l ≡ none
unfolding trim
trim-none nexts zero l = λ h k. absurd (omega (arith, k))
trim-none nexts (suc zero) l = λ h k. absurd (omega (arith, h, k))
trim-none nexts (suc (suc n)) l = elim (Option-cases (nexts (suc n))) [
  | inl e ↦
      rw (trim, e)
        (λ h k. elim (Bool-cases (l == suc n)) [
          | inl f ↦ ap nexts (==→eq l (suc n) f) ∙ e
          | inr f ↦ trim-none nexts (suc n) l h (ground (arith, f, k))
        ])
  | inr (q, e) ↦ rw (trim, e) (λ h k. absurd (omega (arith, h, k)))
]

-- Where nothing was found, nothing is written.
pub unlink-none :
    (prevs : ℕ → ℕ) (targets : ℕ → Option ℕ) (n : ℕ) (cells : ℕ → Node)
    → ((l : ℕ) → l < n → targets l ≡ none)
    → unlink prevs targets n cells ≡ cells
unfolding unlink detach
unlink-none prevs targets zero cells h = refl
unlink-none prevs targets (suc n) cells h =
    ap (λ o. unlink prevs targets n (detach (prevs n) n o cells)) (h n (omega arith))
    ∙ unlink-none prevs targets n cells (λ l m. h l (omega (arith, m)))
