-- ===== src/Lsm/SkipList/Chains.antt =====
-- The chains of a skip list: what its pointers are, given the list of its nodes in order.
use moyuan_kv.Prelude.{
  ltb, if◌then◌else◌, lt→ltb, length, All, ℕ, ◌≤◌, ◌<◌, ◌≡◌, refl, ◌≢◌, false, Option, none, some,
  List, [], ◌∷◌, ◌++◌, arith,
}
use moyuan_kv.Lsm.SkipList.{Node}

-- A walk along a list of nodes, from the one before it to one of them and what follows.
pub data Reach : ℕ → List ℕ → ℕ → List ℕ → Type 0 where
  here : {p : ℕ} {as' : List ℕ} → Reach p as' p as'
  there : {p a q : ℕ} {as' suf : List ℕ} → Reach a as' q suf → Reach p (a ∷ as') q suf

pub Reach-trans :
    {p q r : ℕ} {as' bs cs : List ℕ} → Reach p as' q bs → Reach q bs r cs → Reach p as' r cs
Reach-trans here y = y
Reach-trans (there x) y = there (Reach-trans x y)

pub length-Reach : {p q : ℕ} {as' bs : List ℕ} → Reach p as' q bs → length bs ≤ length as'
length-Reach here = omega arith
length-Reach (there x) = omega (arith, length-Reach x)

pub All-Reach {κ} :
    (P : ℕ → Type κ) {p q : ℕ} {as' bs : List ℕ} → Reach p as' q bs → All P as' → All P bs
All-Reach P here w = w
All-Reach P (there x) w = All-Reach P x w.1

pub one-Reach {κ} :
    (P : ℕ → Type κ) {p q : ℕ} {as' bs : List ℕ} → Reach p as' q bs → P p → All P as' → P q
one-Reach P here h w = h
one-Reach P (there x) h w = one-Reach P x w.0 w.1

-- No address occurs twice.
abbrev pub Distinct : List ℕ → Type 0
Distinct [] = Unit
Distinct (a ∷ as') = All (λ b. a ≢ b) as' × Distinct as'

module _ (cells : ℕ → Node) where
  -- The first node with a pointer at the level.
  unfoldable pub first_taller : ℕ → List ℕ → Option ℕ
  first_taller l [] = none
  first_taller l (a ∷ as') = if ltb l (cells a).height then some a else first_taller l as'

  -- The pointers of one node, at the levels that it has.
  abbrev pub At : ℕ → List ℕ → Type 0
  At a as' = (l : ℕ) → l < (cells a).height → (cells a).nexts l ≡ first_taller l as'

  abbrev pub Linked : List ℕ → Type 0
  Linked [] = Unit
  Linked (a ∷ as') = At a as' × Linked as'

  -- No node has the level.
  abbrev pub Short : ℕ → List ℕ → Type 0
  Short l as' = All (λ a. (cells a).height ≤ l) as'

  pub Linked-Reach :
      {p q : ℕ} {pre suf : List ℕ} (post : List ℕ)
      → Reach p pre q suf
      → Linked (p ∷ pre ++ post)
      → Linked (q ∷ suf ++ post)
  Linked-Reach post here w = w
  Linked-Reach post (there x) w = Linked-Reach post x w.1

  pub first_taller-Short :
      (l : ℕ) (as' bs : List ℕ) → Short l as' → first_taller l (as' ++ bs) ≡ first_taller l bs
  unfolding first_taller
  first_taller-Short l [] bs w = refl
  first_taller-Short l (a ∷ as') bs w =
      let low : ltb l (cells a).height ≡ false = ground (arith, w.0) in
      rw low (first_taller-Short l as' bs w.1)

  pub first_taller-short_node :
      (l a : ℕ) (as' : List ℕ)
      → (cells a).height ≤ l
      → first_taller l (a ∷ as') ≡ first_taller l as'
  first_taller-short_node l a as' h = first_taller-Short l (a ∷ []) as' (h, tt)

  pub first_taller-tall :
      (l a : ℕ) (as' : List ℕ) → l < (cells a).height → first_taller l (a ∷ as') ≡ some a
  unfolding first_taller
  first_taller-tall l a as' h = rw (lt→ltb l (cells a).height h) refl

  -- A walk that skips a node without the level.
  pub Reach-skip :
      {l p a q : ℕ} {as' suf : List ℕ}
      → (cells a).height ≤ l
      → Reach p as' q suf
      → Short l suf
      → (s : List ℕ) × Reach p (a ∷ as') q s × Short l s
  Reach-skip {l} {p} {a} {q} {as'} h here w = (a ∷ as', here, (h, w))
  Reach-skip {l} {p} {a} {q} {as'} {suf} h (there x) w = (suf, there (there x), w)
