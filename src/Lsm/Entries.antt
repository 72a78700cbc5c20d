-- ===== src/Lsm/Entries.antt =====
-- The entries of a table, and the plain reading of a list of them: the first entry with a key wins.
use moyuan_kv.Prelude.{
  if◌then◌else◌, Bool-cases, All, All-append, Bytes, beq_refl, beq→eq, blt_irrefl, blt_trans,
  eq_of_not_blt, beq, blt, ◌≡◌, refl, sym, ap, subst, inl, inr, true, false, Option, none, some,
  List, [], ◌∷◌, ◌++◌, arith,
}

-- `EntryIndex` and `EntryView` of mokv/lsm/sst.hpp: a key and its value.
pub record Entry : Type 0 where
  pub key : Bytes
  pub value : Bytes

-- A sequential search: the specification of the searches of the program.
unfoldable pub lookup : Bytes → List Entry → Option Bytes
lookup k [] = none
lookup k (e ∷ es) = if beq e.key k then some e.value else lookup k es

abbrev pub or_else {ℓ} : {A : Type ℓ} → Option A → Option A → Option A
or_else none b = b
or_else (some a) b = some a

-- `k` is below every key.
abbrev pub Above : Bytes → List Entry → Type 0
Above k es = All (λ e. blt k e.key ≡ true) es

-- The keys rise strictly.
abbrev pub Sorted : List Entry → Type 0
Sorted [] = Unit
Sorted (e ∷ es) = Above e.key es × Sorted es

pub lookup-append :
    (k : Bytes) (xs ys : List Entry) → lookup k (xs ++ ys) ≡ or_else (lookup k xs) (lookup k ys)
unfolding lookup
lookup-append k [] ys = refl
lookup-append k (x ∷ xs) ys = ground (arith, lookup-append k xs ys)

pub beq_of_blt : (a b : Bytes) → blt a b ≡ true → beq b a ≡ false
beq_of_blt a b h = elim (Bool-cases (beq b a)) [
  | inl e ↦ absurd (ground (arith, beq→eq b a e, blt_irrefl a))
  | inr e ↦ e
]

pub bne_of_blt : (a b : Bytes) → blt a b ≡ true → beq a b ≡ false
bne_of_blt a b h = elim (Bool-cases (beq a b)) [
  | inl e ↦ absurd (ground (arith, beq→eq a b e, blt_irrefl a))
  | inr e ↦ e
]

pub blt_asym : (a b : Bytes) → blt a b ≡ true → blt b a ≡ false
blt_asym a b h = ground (arith, blt_trans a b a h, blt_irrefl a)

-- Of two keys that differ, one is below the other.
pub blt_of_ne : (a b : Bytes) → beq a b ≡ false → blt b a ≡ false → blt a b ≡ true
blt_of_ne a b n h = elim (Bool-cases (blt a b)) [
  | inl e ↦ e
  | inr e ↦
      let same = eq_of_not_blt a b e h in
      ground (arith, beq_refl b, ap (λ (x : Bytes). beq x b) same)
]

-- `a < b` and `b ≤ c`.
pub blt_of_le : (a b c : Bytes) → blt a b ≡ true → blt c b ≡ false → blt a c ≡ true
blt_of_le a b c h n = elim (Bool-cases (blt b c)) [
  | inl e ↦ blt_trans a b c h e
  | inr e ↦ subst (λ (x : Bytes). blt a x ≡ true) (eq_of_not_blt b c e n) h
]

-- `a ≤ b` and `b < c`.
pub blt_of_le_lt : (a b c : Bytes) → blt b a ≡ false → blt b c ≡ true → blt a c ≡ true
blt_of_le_lt a b c n h = elim (Bool-cases (blt a b)) [
  | inl e ↦ blt_trans a b c e h
  | inr e ↦ subst (λ (x : Bytes). blt x c ≡ true) (sym (eq_of_not_blt a b e n)) h
]

-- A key below all others is not found among them.
pub lookup-Above : (k : Bytes) (es : List Entry) → Above k es → lookup k es ≡ none
unfolding lookup
lookup-Above k [] h = refl
lookup-Above k (e ∷ es) h = rw (beq_of_blt k e.key h.0) (lookup-Above k es h.1)

pub Above-trans : (j k : Bytes) (es : List Entry) → blt j k ≡ true → Above k es → Above j es
Above-trans j k [] h a = tt
Above-trans j k (e ∷ es) h a = (blt_trans j k e.key h a.0, Above-trans j k es h a.1)

pub Above-append : (k : Bytes) (xs ys : List Entry) → Above k (xs ++ ys) → Above k xs × Above k ys
Above-append k [] ys a = (tt, a)
Above-append k (x ∷ xs) ys a = let rest = Above-append k xs ys a.1 in ((a.0, rest.0), rest.1)

-- Every key of the first list is below every key of the second.
abbrev pub Before : List Entry → List Entry → Type 0
Before xs ys = All (λ x. Above x.key ys) xs

pub Sorted-append : (xs ys : List Entry) → Sorted (xs ++ ys) → Sorted xs × Sorted ys × Before xs ys
Sorted-append [] ys s = (tt, s, tt)
Sorted-append (x ∷ xs) ys s =
    let rest = Sorted-append xs ys s.1 in
    let above = Above-append x.key xs ys s.0 in ((above.0, rest.0), rest.1, (above.1, rest.2))

pub append-Sorted : (xs ys : List Entry) → Sorted xs → Sorted ys → Before xs ys → Sorted (xs ++ ys)
append-Sorted [] ys s t b = t
append-Sorted (x ∷ xs) ys s t b = (All-append _ xs ys s.0 b.0, append-Sorted xs ys s.1 t b.1)

-- Every key is below `k`.
abbrev pub Below : Bytes → List Entry → Type 0
Below k es = All (λ e. blt e.key k ≡ true) es

pub lookup-Below : (k : Bytes) (es : List Entry) → Below k es → lookup k es ≡ none
unfolding lookup
lookup-Below k [] h = refl
lookup-Below k (e ∷ es) h = rw (bne_of_blt e.key k h.0) (lookup-Below k es h.1)

pub or_else-none {ℓ} : {A : Type ℓ} (o : Option A) → or_else o none ≡ o
or_else-none none = refl
or_else-none (some a) = refl

pub Before-append : (xs ys zs : List Entry) → Before xs (ys ++ zs) → Before xs ys × Before xs zs
Before-append [] ys zs b = (tt, tt)
Before-append (x ∷ xs) ys zs b =
    let first = Above-append x.key ys zs b.0 in
    let rest = Before-append xs ys zs b.1 in ((first.0, rest.0), (first.1, rest.1))

pub Before-both : (xs ys zs : List Entry) → Before xs ys → Before xs zs → Before xs (ys ++ zs)
Before-both [] ys zs b c = tt
Before-both (x ∷ xs) ys zs b c = (All-append _ ys zs b.0 c.0, Before-both xs ys zs b.1 c.1)

pub or_else_assoc {ℓ} :
    {A : Type ℓ} (a b c : Option A) → or_else (or_else a b) c ≡ or_else a (or_else b c)
or_else_assoc none b c = refl
or_else_assoc (some x) b c = refl
