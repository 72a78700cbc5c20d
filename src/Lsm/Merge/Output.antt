-- ===== src/Lsm/Merge/Output.antt =====
-- The merge puts out sorted entries in which each key has the value of its source of least rank.
use moyuan_kv.Prelude.{
  if◌then◌else◌, Bool-cases, length, All, Bytes, beq_refl, beq→eq, blt_irrefl, blt_trans, beq, blt,
  ℕ, zero, suc, ◌+◌, ◌≤◌, ◌≡◌, refl, sym, ap, ◌∙◌, subst, inl, inr, true, false, Option, none, some,
  List, [], ◌∷◌, arith,
}
use moyuan_kv.Lsm.Entries.{
  Entry, Sorted, Above, lookup, lookup-Above, Above-trans, blt_asym, blt_of_ne,
}
use moyuan_kv.Lsm.Merge.{
  Cursor, pop_top, emplace, advance, cursor_entries, pending, is_last, merge_loop, merge,
}
use moyuan_kv.Lsm.Merge.Sources.{
  best, best-pop_top, Apart, Distinct, Leads, pop_top-All, pop_top-Distinct, pop_top-Leads,
  pending-pop_top, join_find, prefer,
}

abbrev pub value_of : Option (ℕ × Bytes) → Option Bytes
value_of none = none
value_of (some (s, v)) = some v

-- `key` is not below the last key put out.
abbrev pub Reached : Option Bytes → Bytes → Type 0
Reached none key = Unit
Reached (some last) key = blt key last ≡ false

abbrev pub AfterLast : Option Bytes → List Entry → Type 0
AfterLast none es = Unit
AfterLast (some last) es = Above last es

-- The state of the loop: sorted sources of different ranks, none of which is behind the output.
pub record IsReady (last : Option Bytes) (q : List Cursor) : Type 0 where
  pub sorted : All (λ c. Sorted (cursor_entries c)) q
  pub distinct : Distinct q
  pub reached : All (λ c. Reached last c.current.key) q

-- What the loop puts out.
pub record Merged (last : Option Bytes) (q : List Cursor) (out : List Entry) : Type 0 where
  pub sorted : Sorted out
  pub after : AfterLast last out
  pub found : (k : Bytes) → lookup k out ≡ (if is_last last k then none else value_of (best k q))

-- Among cursors whose heads all lie beyond `k` there is no find.
best_beyond :
    (k : Bytes) (q : List Cursor)
    → All (λ c. Sorted (cursor_entries c)) q
    → All (λ c. blt k c.current.key ≡ true) q
    → best k q ≡ none
unfolding best
best_beyond k [] s h = refl
best_beyond k (c ∷ cs) s h =
    rw (lookup-Above k (cursor_entries c) (h.0, Above-trans k c.current.key c.rest h.0 s.0.0))
      (best_beyond k cs s.1 h.1)

-- A find that has no smaller rank than `s`.
abbrev NotBefore : ℕ → Option (ℕ × Bytes) → Type 0
NotBefore s none = Unit
NotBefore s (some (r, w)) = s ≤ r

join_find-NotBefore :
    (a : Option Bytes) (s r : ℕ) (o : Option (ℕ × Bytes))
    → s ≤ r
    → NotBefore s o
    → NotBefore s (join_find a r o)
join_find-NotBefore none s r o h n = n
join_find-NotBefore (some v) s r none h n = h
join_find-NotBefore (some v) s r (some (q, u)) h n = ground arith

best-NotBefore :
    (t : Cursor) (q : List Cursor)
    → All (λ c. Sorted (cursor_entries c)) q
    → All (Leads t) q
    → NotBefore t.second_value (best t.current.key q)
unfolding best
best-NotBefore t [] s l = tt
best-NotBefore t (c ∷ cs) s l = elim l.0 [
  | inl h ↦
      rw
        (lookup-Above t.current.key (cursor_entries c)
          (h, Above-trans t.current.key c.current.key c.rest h s.0.0))
        (best-NotBefore t cs s.1 l.1)
  | inr (e, n) ↦
      join_find-NotBefore (lookup t.current.key (cursor_entries c)) t.second_value c.second_value _
        n (best-NotBefore t cs s.1 l.1)
]

prefer_first :
    (s : ℕ) (v : Bytes) (o : Option (ℕ × Bytes))
    → NotBefore s o
    → value_of (prefer (s, v) o) ≡ some v
prefer_first s v none n = refl
prefer_first s v (some (r, w)) n = ground arith

-- The head of the leading cursor is the find for its key.
best_leader :
    (t : Cursor) (q : List Cursor)
    → All (λ c. Sorted (cursor_entries c)) q
    → All (Leads t) q
    → value_of (best t.current.key (t ∷ q)) ≡ some t.current.value
unfolding best lookup
best_leader t q s l =
    rw (beq_refl t.current.key)
      (prefer_first t.second_value t.current.value (best t.current.key q) (best-NotBefore t q s l))

best-emplace :
    (k : Bytes) (e : Entry) (es : List Entry) (v : ℕ) (q : List Cursor)
    → beq e.key k ≡ false
    → best k (emplace q es v) ≡ best k (record { current = e; rest = es; second_value = v } ∷ q)
unfolding emplace best lookup
best-emplace k e [] v q n = rw n refl
best-emplace k e (f ∷ es) v q n = rw n refl

-- Advancing past a key keeps the finds of the other keys.
best-advance :
    (k : Bytes) (t : Cursor) (q : List Cursor)
    → beq t.current.key k ≡ false
    → best k (advance t q) ≡ best k (t ∷ q)
unfolding advance
best-advance k t q n = best-emplace k t.current t.rest t.second_value q n

emplace-IsReady :
    (key : Bytes) (q : List Cursor) (es : List Entry) (v : ℕ)
    → IsReady (some key) q
    → Sorted es
    → Above key es
    → Apart v q
    → IsReady (some key) (emplace q es v)
unfolding emplace
emplace-IsReady key q [] v r s a p = r
emplace-IsReady key q (e ∷ es) v r s a p = record {
  sorted = (s, r.sorted);
  distinct = (p, r.distinct);
  reached = (blt_asym key e.key a.0, r.reached);
}

Reached-of_Leads :
    (t : Cursor) (q : List Cursor)
    → All (Leads t) q
    → All (λ c. Reached (some t.current.key) c.current.key) q
Reached-of_Leads t [] l = tt
Reached-of_Leads t (c ∷ cs) l = (
  elim l.0 [
    | inl h ↦ blt_asym t.current.key c.current.key h
    | inr (e, n) ↦ rw e (blt_irrefl c.current.key)
  ],
  Reached-of_Leads t cs l.1,
)

advance-IsReady :
    (last : Option Bytes) (t : Cursor) (q : List Cursor)
    → IsReady last (t ∷ q)
    → All (Leads t) q
    → IsReady (some t.current.key) (advance t q)
unfolding advance
advance-IsReady last t q r l =
    emplace-IsReady t.current.key q t.rest t.second_value
      (record { sorted = r.sorted.1; distinct = r.distinct.1; reached = Reached-of_Leads t q l })
      r.sorted.0.1 r.sorted.0.0 r.distinct.0

-- One round of the loop, on the rest of the output.
abbrev emit : Option Bytes → Entry → List Entry → List Entry
emit last e out = if is_last last e.key then out else e ∷ out

emit_again :
    (key : Bytes) (t : Cursor) (q : List Cursor) (out : List Entry)
    → beq key t.current.key ≡ true
    → Merged (some t.current.key) (advance t q) out
    → Merged (some key) (t ∷ q) out
unfolding is_last
emit_again key t q out e m =
    let same = beq→eq key t.current.key e in
    rw same (record {
      sorted = m.sorted;
      after = m.after;
      found = λ k. elim (Bool-cases (beq t.current.key k)) [
        | inl h ↦ rw h (m.found k ∙ rw h refl)
        | inr h ↦ rw h (m.found k ∙ rw h (ap value_of (best-advance k t q h)))
      ];
    })

beyond_of_Leads :
    (k : Bytes) (t : Cursor) (q : List Cursor)
    → All (Leads t) q
    → blt k t.current.key ≡ true
    → All (λ c. blt k c.current.key ≡ true) q
beyond_of_Leads k t [] l h = tt
beyond_of_Leads k t (c ∷ cs) l h = (
  elim l.0 [ inl a ↦ blt_trans k t.current.key c.current.key h a | inr (e, n) ↦ rw (← e) h ],
  beyond_of_Leads k t cs l.1 h,
)

-- The first entry with a key that was not put out before.
emit_found :
    (last : Option Bytes) (t : Cursor) (q : List Cursor) (out : List Entry) (k : Bytes)
    → All (λ c. Sorted (cursor_entries c)) q
    → All (Leads t) q
    → Merged (some t.current.key) (advance t q) out
    → lookup k (t.current ∷ out) ≡ value_of (best k (t ∷ q))
unfolding is_last
emit_found last t q out k s l m = elim (Bool-cases (beq t.current.key k)) [
  | inl h ↦
      unfold lookup in
      rw h (
        subst (λ (x : Bytes). some t.current.value ≡ value_of (best x (t ∷ q)))
          (beq→eq t.current.key k h) (sym (best_leader t q s l)))
  | inr h ↦ lookup_next t.current out k h ∙ m.found k ∙ rw h (ap value_of (best-advance k t q h))
]
  where
    lookup_next :
        (e : Entry) (es : List Entry) (k : Bytes)
        → beq e.key k ≡ false
        → lookup k (e ∷ es) ≡ lookup k es
    lookup_next e es k h = unfold lookup in rw h refl

emit_new :
    (last : Option Bytes) (t : Cursor) (q : List Cursor) (out : List Entry)
    → is_last last t.current.key ≡ false
    → IsReady last (t ∷ q)
    → All (Leads t) q
    → Merged (some t.current.key) (advance t q) out
    → Merged last (t ∷ q) (t.current ∷ out)
unfolding is_last
emit_new none t q out n r l m = record {
  sorted = (m.after, m.sorted);
  after = tt;
  found = λ k. emit_found none t q out k r.sorted.1 l m;
}
emit_new (some key) t q out n r l m =
    let first : blt key t.current.key ≡ true = blt_of_ne key t.current.key n r.reached.0 in
    let above : Above key (t.current ∷ out) =
      (first, Above-trans key t.current.key out first m.after) in
    record {
      sorted = (m.after, m.sorted);
      after = above;
      found = λ k. elim (Bool-cases (beq key k)) [
        | inr h ↦ rw h (emit_found (some key) t q out k r.sorted.1 l m)
        | inl h ↦ rw h (
            subst (λ (x : Bytes). lookup x (t.current ∷ out) ≡ none) (beq→eq key k h)
              (lookup-Above key (t.current ∷ out) above))
      ];
    }

emit_skip :
    (last : Option Bytes) (t : Cursor) (q : List Cursor) (out : List Entry)
    → is_last last t.current.key ≡ true
    → Merged (some t.current.key) (advance t q) out
    → Merged last (t ∷ q) out
unfolding is_last
emit_skip none t q out e m = cc
emit_skip (some key) t q out e m = emit_again key t q out e m

merge_round :
    (last : Option Bytes) (t : Cursor) (q : List Cursor) (out : List Entry)
    → IsReady last (t ∷ q)
    → All (Leads t) q
    → Merged (some t.current.key) (advance t q) out
    → Merged last (t ∷ q) (emit last t.current out)
merge_round last t q out r l m = elim (Bool-cases (is_last last t.current.key)) [
  | inr n ↦ rw n (emit_new last t q out n r l m)
  | inl e ↦ rw e (emit_skip last t q out e m)
]

pop_top-IsReady :
    (last : Option Bytes) (c : Cursor) (cs : List Cursor)
    → IsReady last (c ∷ cs)
    → IsReady last ((pop_top c cs).0 ∷ (pop_top c cs).1)
pop_top-IsReady last c cs r = record {
  sorted = pop_top-All (λ d. Sorted (cursor_entries d)) c cs r.sorted;
  distinct = pop_top-Distinct c cs r.distinct;
  reached = pop_top-All (λ d. Reached last d.current.key) c cs r.reached;
}

pending-advance : (t : Cursor) (q : List Cursor) → pending (advance t q) + 1 ≡ pending (t ∷ q)
unfolding advance
pending-advance t q = pending_rest t.current t.rest
  where
    pending_rest :
        (e : Entry) (es : List Entry)
        → pending (emplace q es t.second_value) + 1 ≡ length (e ∷ es) + pending q
    pending_rest e [] = unfold emplace in omega arith
    pending_rest e (f ∷ es) = unfold emplace in omega arith

Merged-nil : (last : Option Bytes) → Merged last [] []
Merged-nil last = record {
  sorted = tt;
  after = nothing last;
  found = λ k. unfold lookup best is_last in ground arith;
}
  where
    nothing : (l : Option Bytes) → AfterLast l []
    nothing none = tt
    nothing (some key) = tt

merge_loop-Merged :
    (fuel : ℕ) (last : Option Bytes) (q : List Cursor)
    → pending q ≤ fuel
    → IsReady last q
    → Merged last q (merge_loop fuel last q)
unfolding merge_loop
merge_loop-Merged zero last [] h r = Merged-nil last
merge_loop-Merged zero last (c ∷ cs) h r = absurd (omega arith)
merge_loop-Merged (suc f) last [] h r = Merged-nil last
merge_loop-Merged (suc f) last (c ∷ cs) h r =
    let t = (pop_top c cs).0 in
    let q = (pop_top c cs).1 in
    let ready = pop_top-IsReady last c cs r in
    let leads = pop_top-Leads c cs in
    let m =
      merge_loop-Merged f (some t.current.key) (advance t q)
        (omega (arith, pending-advance t q, pending-pop_top c cs))
        (advance-IsReady last t q ready leads) in
    let done = merge_round last t q _ ready leads m in
    record {
      sorted = done.sorted;
      after = done.after;
      found = λ k. rw (← best-pop_top k c cs r.distinct) (done.found k);
    }

-- The merge of sorted sources of different ranks is sorted without repetition, and a key has the
-- value of the source of least rank that holds it.
pub merge-Merged :
    (q : List Cursor)
    → IsReady none q
    → Sorted (merge q) × ((k : Bytes) → lookup k (merge q) ≡ value_of (best k q))
unfolding merge
merge-Merged q r =
    let m = merge_loop-Merged (pending q) none q (omega arith) r in
    (m.sorted, λ k. m.found k ∙ unfold is_last in refl)

advance-All :
    (P : Entry → Type 0) (t : Cursor) (q : List Cursor)
    → All (λ c. All P (cursor_entries c)) (t ∷ q)
    → All (λ c. All P (cursor_entries c)) (advance t q)
unfolding advance
advance-All P t q h = rest t.rest h.0.1
  where
    rest :
        (es : List Entry)
        → All P es
        → All (λ c. All P (cursor_entries c)) (emplace q es t.second_value)
    rest [] a = unfold emplace in h.1
    rest (e ∷ es) a = unfold emplace in (a, h.1)

merge_loop-All :
    (P : Entry → Type 0) (fuel : ℕ) (last : Option Bytes) (q : List Cursor)
    → All (λ c. All P (cursor_entries c)) q
    → All P (merge_loop fuel last q)
unfolding merge_loop
merge_loop-All P zero last q h = tt
merge_loop-All P (suc f) last [] h = tt
merge_loop-All P (suc f) last (c ∷ cs) h =
    let all = pop_top-All (λ d. All P (cursor_entries d)) c cs h in
    let t = (pop_top c cs).0 in
    let ih =
      merge_loop-All P f (some t.current.key) (advance t (pop_top c cs).1)
        (advance-All P t _ all) in
    elim (Bool-cases (is_last last t.current.key)) [ inl e ↦ rw e ih | inr e ↦ rw e (all.0.0, ih) ]

-- Nothing is put out that is in no source.
pub merge-All :
    (P : Entry → Type 0) (q : List Cursor) → All (λ c. All P (cursor_entries c)) q → All P (merge q)
unfolding merge
merge-All P q h = merge_loop-All P (pending q) none q h
