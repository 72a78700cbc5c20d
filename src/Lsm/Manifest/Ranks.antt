-- ===== src/Lsm/Manifest/Ranks.antt =====
-- The queue that the tables are put into: what it finds is what a search through the tables in the
-- order of their ranks finds.
use moyuan_kv.Prelude.{
  All, All-left, All-right, Bytes, ℕ, ◌+◌, ◌<◌, ◌≡◌, refl, sym, ap, ◌∙◌, Option, none, some, List,
  [], ◌∷◌, arith,
}
use moyuan_kv.Lsm.Entries.{
  Entry, Sorted, lookup, lookup-append, or_else, or_else-none, or_else_assoc,
}
use moyuan_kv.Lsm.Sst.{Sst, entries}
use moyuan_kv.Lsm.Level.Search.{all_entries}
use moyuan_kv.Lsm.Merge.{Cursor, emplace, cursor_entries}
use moyuan_kv.Lsm.Merge.Sources.{best, Distinct, Apart, join_find}
use moyuan_kv.Lsm.Merge.Output.{value_of}
use moyuan_kv.Lsm.Manifest.{Queue, push, push_all}

abbrev RanksBelow : ℕ → List Cursor → Type 0
RanksBelow n q = All (λ c. c.second_value < n) q

-- Sorted sources, whose ranks differ and lie below the next one to give out.
pub record IsRanked (q : Queue) : Type 0 where
  pub sorted : All (λ c. Sorted (cursor_entries c)) q.cursors
  pub distinct : Distinct q.cursors
  pub ranks : RanksBelow q.value q.cursors

ranks-Apart : (n : ℕ) (q : List Cursor) → RanksBelow n q → Apart n q
ranks-Apart n [] h = tt
ranks-Apart n (c ∷ cs) h = ((λ e. omega arith), ranks-Apart n cs h.1)

ranks_suc : (n : ℕ) (q : List Cursor) → RanksBelow n q → RanksBelow (n + 1) q
ranks_suc n [] h = tt
ranks_suc n (c ∷ cs) h = (omega arith, ranks_suc n cs h.1)

emplace-IsRanked :
    (q : Queue) (es : List Entry)
    → IsRanked q
    → Sorted es
    → IsRanked (record { cursors = emplace q.cursors es q.value; value = q.value + 1 })
unfolding emplace
emplace-IsRanked q [] r s = record {
  sorted = r.sorted;
  distinct = r.distinct;
  ranks = ranks_suc q.value q.cursors r.ranks;
}
emplace-IsRanked q (e ∷ es) r s = record {
  sorted = (s, r.sorted);
  distinct = (ranks-Apart q.value q.cursors r.ranks, r.distinct);
  ranks = (omega arith, ranks_suc q.value q.cursors r.ranks);
}

pub push_all-IsRanked :
    (q : Queue) (ss : List Sst)
    → IsRanked q
    → All (λ s. Sorted (entries s)) ss
    → IsRanked (push_all q ss)
unfolding push_all
push_all-IsRanked q [] r v = r
push_all-IsRanked q (s ∷ ss) r v =
    push_all-IsRanked (push q s) ss (emplace-IsRanked q (entries s) r v.0) v.1

abbrev FoundBelow : ℕ → Option (ℕ × Bytes) → Type 0
FoundBelow n none = Unit
FoundBelow n (some (r, v)) = r < n

join_find-FoundBelow :
    (a : Option Bytes) (s n : ℕ) (o : Option (ℕ × Bytes))
    → s < n
    → FoundBelow n o
    → FoundBelow n (join_find a s o)
join_find-FoundBelow none s n o h f = f
join_find-FoundBelow (some v) s n none h f = h
join_find-FoundBelow (some v) s n (some (r, w)) h f = ground arith

best-FoundBelow : (k : Bytes) (n : ℕ) (q : List Cursor) → RanksBelow n q → FoundBelow n (best k q)
unfolding best
best-FoundBelow k n [] h = tt
best-FoundBelow k n (c ∷ cs) h =
    join_find-FoundBelow (lookup k (cursor_entries c)) c.second_value n (best k cs) h.0
      (best-FoundBelow k n cs h.1)

join_find_later :
    (a : Option Bytes) (n : ℕ) (o : Option (ℕ × Bytes))
    → FoundBelow n o
    → value_of (join_find a n o) ≡ or_else (value_of o) a
join_find_later none n none f = refl
join_find_later none n (some (r, w)) f = refl
join_find_later (some v) n none f = refl
join_find_later (some v) n (some (r, w)) f = ground arith

best-emplace_later :
    (k : Bytes) (q : Queue) (es : List Entry)
    → IsRanked q
    → value_of (best k (emplace q.cursors es q.value))
      ≡ or_else (value_of (best k q.cursors)) (lookup k es)
unfolding emplace best
best-emplace_later k q [] r = unfold lookup in sym (or_else-none _)
best-emplace_later k q (e ∷ es) r =
    join_find_later (lookup k (e ∷ es)) q.value (best k q.cursors)
      (best-FoundBelow k q.value q.cursors r.ranks)

pub best-push_all :
    (k : Bytes) (q : Queue) (ss : List Sst)
    → IsRanked q
    → All (λ s. Sorted (entries s)) ss
    → value_of (best k (push_all q ss).cursors)
      ≡ or_else (value_of (best k q.cursors)) (lookup k (all_entries ss))
unfolding push_all
best-push_all k q [] r v = unfold lookup in sym (or_else-none _)
best-push_all k q (s ∷ ss) r v =
    best-push_all k (push q s) ss (emplace-IsRanked q (entries s) r v.0) v.1
    ∙ ap (λ o. or_else o (lookup k (all_entries ss))) (best-emplace_later k q (entries s) r)
    ∙ or_else_assoc (value_of (best k q.cursors)) (lookup k (entries s)) (lookup k (all_entries ss))
    ∙ ap (or_else (value_of (best k q.cursors)))
        (sym (lookup-append k (entries s) (all_entries ss)))

-- Any fact about every entry of the tables holds of every entry of the queue.
pub push_all-All :
    (P : Entry → Type 0) (q : Queue) (ss : List Sst)
    → All (λ c. All P (cursor_entries c)) q.cursors
    → All P (all_entries ss)
    → All (λ c. All P (cursor_entries c)) (push_all q ss).cursors
unfolding push_all
push_all-All P q [] h v = h
push_all-All P q (s ∷ ss) h v =
    push_all-All P (push q s) ss
      (emplace_All (entries s) (All-left P (entries s) (all_entries ss) v))
      (All-right P (entries s) (all_entries ss) v)
  where
    emplace_All :
        (es : List Entry)
        → All P es
        → All (λ c. All P (cursor_entries c)) (emplace q.cursors es q.value)
    emplace_All [] w = unfold emplace in h
    emplace_All (e ∷ es) w = unfold emplace in (w, h)
