-- ===== src/Lsm/Manifest/Positions.antt =====
-- Facts on a list of levels that the compaction of two neighbours needs: what a search through the
-- levels finds after a write, and what holds of the levels at a position.
use moyuan_kv.Prelude.{
  ◌==◌, ==→eq, Bool-cases, length, set, get_or, All, length-append, All-append, Bytes, beq→eq, beq,
  ℕ, zero, suc, ◌+◌, ◌<◌, ◌≡◌, refl, sym, ap, ap₂, ◌∙◌, ◌≢◌, ◌⊎◌, inl, inr, Option, none, some,
  List, [], ◌∷◌, ◌++◌, reverse, reverse-cons, append-nil, arith,
}
use moyuan_kv.Lsm.Entries.{
  Entry, Sorted, Sorted-append, Before, lookup, lookup-append, or_else, or_else-none, lookup-Above,
}
use moyuan_kv.Lsm.Sst.{Sst, entries}
use moyuan_kv.Lsm.Level.{Level}
use moyuan_kv.Lsm.Level.Search.{IsValidLevel, ranked, all_entries, ValidSsts}
use moyuan_kv.Lsm.Manifest.Scan.{NotEmpty}
use moyuan_kv.Lsm.Manifest.Tables.{KeysNotEmpty, all_entries-append, tables-NotEmpty}
use moyuan_kv.Lsm.Entries.{or_else_assoc}
use moyuan_kv.Lsm.Manifest.Reading.{Numbered, search_levels}
use moyuan_kv.Lsm.Manifest.{no_level, with_next}

-- A key is in at most one of two lists of which the first lies before the second.
pub one_holds :
    (k : Bytes) (xs ys : List Entry) → Before xs ys → (lookup k xs ≡ none) ⊎ (lookup k ys ≡ none)
unfolding lookup
one_holds k [] ys b = inl refl
one_holds k (x ∷ xs) ys b = elim (Bool-cases (beq x.key k)) [
  | inl e ↦ inr (lookup-Above k ys (rw (← beq→eq x.key k e) b.0))
  | inr e ↦ rw e (one_holds k xs ys b.1)
]

pub or_else_comm : (a b : Option Bytes) → (a ≡ none) ⊎ (b ≡ none) → or_else a b ≡ or_else b a
or_else_comm none b e = sym (or_else-none b)
or_else_comm (some x) none e = refl
or_else_comm (some x) (some y) (inl e) = cc
or_else_comm (some x) (some y) (inr e) = cc

-- On disjoint tables the order of reading does not matter.
pub lookup-reverse :
    (k : Bytes) (ss : List Sst)
    → Sorted (all_entries ss)
    → lookup k (all_entries (reverse ss)) ≡ lookup k (all_entries ss)
lookup-reverse k [] s = refl
lookup-reverse k (t ∷ ts) s =
    let parts = Sorted-append (entries t) (all_entries ts) s in
    ap (λ l. lookup k (all_entries l)) (reverse-cons t ts)
    ∙ ap (lookup k) (all_entries-append (reverse ts) (t ∷ []))
    ∙ lookup-append k (all_entries (reverse ts)) (all_entries (t ∷ []))
    ∙ ap₂ or_else (lookup-reverse k ts parts.1) (ap (lookup k) (append-nil (entries t)))
    ∙ or_else_comm (lookup k (all_entries ts)) (lookup k (entries t))
        (swap (one_holds k (entries t) (all_entries ts) parts.2))
    ∙ sym (lookup-append k (entries t) (all_entries ts))
  where
    swap : {A B : Type 0} → A ⊎ B → B ⊎ A
    swap (inl a) = inr a
    swap (inr b) = inl b

pub reverse-ne-nil :
    (s : Sst) (ss : List Sst)
    → NotEmpty (entries s)
    → All (λ t. NotEmpty (entries t)) ss
    → NotEmpty (all_entries (reverse (s ∷ ss)))
reverse-ne-nil s ss n v =
    rw (reverse-cons s ss, all_entries-append (reverse ss) (s ∷ []))
      (append_right (all_entries (reverse ss)) _ (append_left (entries s) n))
  where
    append_right : (xs ys : List Entry) → NotEmpty ys → NotEmpty (xs ++ ys)
    append_right [] ys h = h
    append_right (x ∷ xs) ys h = tt

    append_left : (xs : List Entry) → NotEmpty xs → NotEmpty (xs ++ [])
    append_left [] h = absurd h
    append_left (x ∷ xs) h = tt

pub newest-NotEmpty : (ss : List Sst) → ValidSsts ss → ss ≢ [] → NotEmpty (all_entries (reverse ss))
newest-NotEmpty [] v n = absurd (n refl)
newest-NotEmpty (s ∷ ss) v n =
    let filled = tables-NotEmpty (s ∷ ss) v in reverse-ne-nil s ss filled.0 filled.1

-- Reading a level whose number is known.
pub ranked_deeper : (v : Level) (n : ℕ) → v.level ≡ suc n → ranked v ≡ all_entries v.ssts
ranked_deeper v n e = ground (arith, e)

pub lookup-ranked_newest :
    (k : Bytes) (v : Level)
    → IsValidLevel v
    → lookup k (ranked v) ≡ lookup k (all_entries (reverse v.ssts))
lookup-ranked_newest k v h = elim (Bool-cases (v.level == 0)) [
  | inl e ↦ rw e refl
  | inr e ↦ rw e (sym (lookup-reverse k v.ssts (h.disjoint (λ z. ground (arith, z, e)))))
]

pub lookup-ranked_nil : (k : Bytes) (v : Level) → lookup k (ranked (record v { ssts = [] })) ≡ none
lookup-ranked_nil k v = elim (Bool-cases (v.level == 0)) [
  | inl e ↦ rw e (unfold lookup in refl)
  | inr e ↦ rw e (unfold lookup in refl)
]

-- Replacing two neighbours that answer alike leaves the answers of all levels alone.
pub search-set :
    (k : Bytes) (vs : List Level) (i : ℕ) (u v : Level)
    → suc i < length vs
    → or_else (lookup k (ranked u)) (lookup k (ranked v))
      ≡ or_else
          (lookup k (ranked (get_or vs i no_level)))
          (lookup k (ranked (get_or vs (suc i) no_level)))
    → search_levels k (set (set vs i u) (suc i) v) ≡ search_levels k vs
search-set k [] i u v h e = elim h [ ]
search-set k (x ∷ []) i u v h e = absurd (omega arith)
search-set k (x ∷ y ∷ ys) zero u v h e =
    sym (or_else_assoc (lookup k (ranked u)) (lookup k (ranked v)) (search_levels k ys))
    ∙ ap (λ o. or_else o (search_levels k ys)) e
    ∙ or_else_assoc (lookup k (ranked x)) (lookup k (ranked y)) (search_levels k ys)
search-set k (x ∷ y ∷ ys) (suc i) u v h e =
    ap (or_else (lookup k (ranked x))) (search-set k (y ∷ ys) i u v (omega arith) e)

pub search-append :
    (k : Bytes) (vs ws : List Level)
    → search_levels k (vs ++ ws) ≡ or_else (search_levels k vs) (search_levels k ws)
search-append k [] ws = refl
search-append k (v ∷ vs) ws =
    ap (or_else (lookup k (ranked v))) (search-append k vs ws)
    ∙ sym (or_else_assoc (lookup k (ranked v)) (search_levels k vs) (search_levels k ws))

-- What holds of all levels holds of the one at a position, and is kept by a write that has it.
pub All-get_or :
    (P : Level → Type 0) (vs : List Level) (i : ℕ)
    → All P vs
    → i < length vs
    → P (get_or vs i no_level)
All-get_or P [] i h n = elim n [ ]
All-get_or P (v ∷ vs) zero h n = h.0
All-get_or P (v ∷ vs) (suc i) h n = All-get_or P vs i h.1 (omega arith)

pub All-set :
    (P : Level → Type 0) (vs : List Level) (i : ℕ) (w : Level) → All P vs → P w → All P (set vs i w)
All-set P [] i w h p = tt
All-set P (v ∷ vs) zero w h p = (p, h.1)
All-set P (v ∷ vs) (suc i) w h p = (h.0, All-set P vs i w h.1 p)

pub Numbered-get_or :
    (n : ℕ) (vs : List Level) (i : ℕ)
    → Numbered n vs
    → i < length vs
    → (get_or vs i no_level).level ≡ n + i
Numbered-get_or n [] i h m = elim m [ ]
Numbered-get_or n (v ∷ vs) zero h m = omega (arith, h.0)
Numbered-get_or n (v ∷ vs) (suc i) h m =
    omega (arith, Numbered-get_or (suc n) vs i h.1 (omega arith))

pub Numbered-set :
    (n : ℕ) (vs : List Level) (i : ℕ) (w : Level)
    → Numbered n vs
    → w.level ≡ n + i
    → Numbered n (set vs i w)
Numbered-set n [] i w h e = tt
Numbered-set n (v ∷ vs) zero w h e = (omega arith, h.1)
Numbered-set n (v ∷ vs) (suc i) w h e = (h.0, Numbered-set (suc n) vs i w h.1 (omega arith))

pub Numbered-append :
    (n : ℕ) (vs : List Level) (w : Level)
    → Numbered n vs
    → w.level ≡ n + length vs
    → Numbered n (vs ++ w ∷ [])
Numbered-append n [] w h e = (omega arith, tt)
Numbered-append n (v ∷ vs) w h e = (h.0, Numbered-append (suc n) vs w h.1 (omega arith))

-- The levels of a valid manifest.
pub record ValidLevels (vs : List Level) : Type 0 where
  pub numbered : Numbered 0 vs
  pub levels : All IsValidLevel vs
  pub filled : All (λ v. KeysNotEmpty v.ssts) vs

pub with_next-ValidLevels :
    (i : ℕ) (vs : List Level) → ValidLevels vs → ValidLevels (with_next i vs)
unfolding with_next
with_next-ValidLevels i vs r = elim (Bool-cases (i + 1 == length vs)) [
  | inr e ↦ rw e r
  | inl e ↦ rw e (record {
    numbered = Numbered-append 0 vs _ r.numbered (omega (arith, ==→eq (i + 1) (length vs) e));
    levels = All-append IsValidLevel vs _ r.levels (record { valid = tt; disjoint = λ n. tt }, tt);
    filled = All-append _ vs _ r.filled (tt, tt);
  })
]

pub search-with_next :
    (k : Bytes) (i : ℕ) (vs : List Level) → search_levels k (with_next i vs) ≡ search_levels k vs
unfolding with_next
search-with_next k i vs = elim (Bool-cases (i + 1 == length vs)) [
  | inr e ↦ rw e refl
  | inl e ↦
      let fresh : Level = record { level = i + 1; ssts = [] } in
      rw e (
        search-append k vs (fresh ∷ [])
        ∙ ap (λ o. or_else (search_levels k vs) (or_else o none)) (lookup-ranked_nil k fresh)
        ∙ or_else-none (search_levels k vs))
]

pub length-with_next : (i : ℕ) (vs : List Level) → i < length vs → suc i < length (with_next i vs)
unfolding with_next
length-with_next i vs h = elim (Bool-cases (i + 1 == length vs)) [
  | inl e ↦ rw e (omega (arith, length-append vs (record { level = i + 1; ssts = [] } ∷ [])))
  | inr e ↦ rw e (ground (arith, e))
]

pub get_or-with_next :
    (i : ℕ) (vs : List Level)
    → i < length vs
    → get_or (with_next i vs) i no_level ≡ get_or vs i no_level
unfolding with_next
get_or-with_next i vs h = elim (Bool-cases (i + 1 == length vs)) [
  | inr e ↦ rw e refl
  | inl e ↦ rw e (get_or-append vs _ i h)
]
  where
    get_or-append :
        (vs ws : List Level) (i : ℕ)
        → i < length vs
        → get_or (vs ++ ws) i no_level ≡ get_or vs i no_level
    get_or-append [] ws i h = elim h [ ]
    get_or-append (v ∷ vs) ws zero h = refl
    get_or-append (v ∷ vs) ws (suc i) h = get_or-append vs ws i (omega arith)
