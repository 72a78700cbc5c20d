-- ===== src/Raft/Log/Applied.antt =====
-- What a log holds, and what has reached the database, over all sequences of calls.
use moyuan_kv.Prelude.{
  ltb, ◌==◌, ltb→lt, lt→ltb, Bool-cases, take, ℕ, ◌+◌, ◌-◌, ◌≤◌, ◌<◌, ◌≡◌, refl, sym, ap, ◌∙◌, inl,
  inr, true, false, [], ◌∷◌, ◌++◌, arith,
}
use moyuan_kv.Raft.Ring.{ring_buffer_size, is_full, push_back, truncate, at, size, min}
use moyuan_kv.Raft.Ring.Items.{slice, items, pushed, slice-suc, slice-write, take-slice, min_le}
use moyuan_kv.Raft.Log.{
  LogEntry, RaftLog, open_log, raise_commited, put_entry, reset, max, update_commit, apply_next,
}

-- The entries of the queue are those from `start_index_ + 1` to `index_`; what is applied is
-- committed, what is committed is there, and the database has had the first entries, in their order.
pub record IsValid (log : RaftLog) : Type 0 where
  pub front : log.queue_.tail_ ≡ 0
  pub bound : log.queue_.head_ < ring_buffer_size
  pub count : log.index_ ≡ log.start_index_ + log.queue_.head_
  pub start_le : log.start_index_ ≤ log.last_append_
  pub append_le : log.last_append_ ≤ log.commited_
  pub commit_le : log.commited_ ≤ log.index_
  pub applied : log.puts ≡ slice log.queue_.data_ 1 (log.last_append_ - log.start_index_)

-- The states of a log, over its calls and the rounds of its thread. The callers pass an entry that is
-- not committed beyond the log that it ends, and reset no committed entry.
pub data Reach : RaftLog → Type 0 where
  opens : (cells : ℕ → LogEntry) (start : ℕ) → Reach (open_log cells start)
  stops : (log : RaftLog) → Reach log → Reach (record log { stop_ = true })
  puts_entry :
      (log : RaftLog) (entry : LogEntry)
      → entry.commited ≤ log.index_ + 1
      → Reach log
      → Reach (put_entry log entry).0
  resets : (log : RaftLog) (index : ℕ) → log.commited_ ≤ index → Reach log → Reach (reset log index)
  commits :
      (log : RaftLog) (leader_commit : ℕ) → Reach log → Reach (update_commit log leader_commit)
  applies : (log : RaftLog) → Reach log → Reach (apply_next log)

open_log-IsValid : (cells : ℕ → LogEntry) (start : ℕ) → IsValid (open_log cells start)
unfolding open_log slice
open_log-IsValid cells start = record {
  front = refl;
  bound = omega arith;
  count = omega arith;
  start_le = omega arith;
  append_le = omega arith;
  commit_le = omega arith;
  applied = let z : start - start ≡ 0 = omega arith in rw z refl;
}

raise_commited-IsValid :
    (log : RaftLog) (c : ℕ) → c ≤ log.index_ → IsValid log → IsValid (raise_commited log c)
unfolding raise_commited
raise_commited-IsValid log c h v = elim (Bool-cases (ltb log.commited_ c)) [
  | inl e ↦ rw e (record {
    front = v.front;
    bound = v.bound;
    count = v.count;
    start_le = v.start_le;
    append_le = let a = v.append_le in let b = ltb→lt log.commited_ c e in omega arith;
    commit_le = h;
    applied = v.applied;
  })
  | inr e ↦ rw e v
]

appended : RaftLog → LogEntry → RaftLog
appended log entry = record log { queue_ = pushed log.queue_ entry; index_ = log.index_ + 1 }

appended-IsValid :
    (log : RaftLog) (entry : LogEntry)
    → is_full log.queue_ ≡ false
    → IsValid log
    → IsValid (appended log entry)
unfolding appended is_full
appended-IsValid log entry h v = record {
  front = v.front;
  bound = let a = v.bound in let b = v.front in ground (arith, h);
  count = let a = v.count in omega arith;
  start_le = v.start_le;
  append_le = v.append_le;
  commit_le = let a = v.commit_le in omega arith;
  applied =
      let a = v.count in
      let b = v.commit_le in
      let c = v.append_le in
      let d = v.start_le in
      v.applied
      ∙ sym (
          slice-write log.queue_.data_ 1 (log.last_append_ - log.start_index_)
            (log.queue_.head_ + 1) entry (omega arith));
}

put_entry-IsValid :
    (log : RaftLog) (entry : LogEntry)
    → entry.commited ≤ log.index_ + 1
    → IsValid log
    → IsValid (put_entry log entry).0
unfolding put_entry push_back
put_entry-IsValid log entry h v = elim (Bool-cases log.stop_) [
  | inl s ↦ simp s v
  | inr s ↦ rw s (elim (Bool-cases (is_full log.queue_)) [
    | inl f ↦ simp f v
    | inr f ↦ rw f (
        unfold appended in
        raise_commited-IsValid (appended log entry) entry.commited h
          (appended-IsValid log entry f v))
  ])
]

reset-IsValid :
    (log : RaftLog) (index : ℕ) → log.commited_ ≤ index → IsValid log → IsValid (reset log index)
unfolding reset truncate size
reset-IsValid log index h v = elim (Bool-cases (ltb index log.index_)) [
  | inr e ↦ simp e v
  | inl e ↦ elim (Bool-cases (log.queue_.tail_ == log.queue_.head_)) [
    | inl f ↦
        rw (e, f)
          (record {
            front = v.front;
            bound = v.bound;
            count = let a = v.count in omega arith;
            start_le = v.start_le;
            append_le = v.append_le;
            commit_le = let a = v.commit_le in omega arith;
            applied = v.applied;
          })
    | inr f ↦
        let m = min_le (log.index_ - index) (log.queue_.head_ - log.queue_.tail_) in
        let p = m.0 in
        let q = m.1 in
        let a = v.count in
        let b = v.commit_le in
        let c = v.bound in
        let less = ltb→lt index log.index_ e in
        rw (e, f)
          (record {
            front = v.front;
            bound = omega arith;
            count = omega arith;
            start_le = v.start_le;
            append_le = v.append_le;
            commit_le = omega arith;
            applied = v.applied;
          })
  ]
]

update_commit-IsValid : (log : RaftLog) (c : ℕ) → IsValid log → IsValid (update_commit log c)
unfolding update_commit max min
update_commit-IsValid log c v = record {
  front = v.front;
  bound = v.bound;
  count = v.count;
  start_le = v.start_le;
  append_le = let a = v.append_le in ground arith;
  commit_le = let a = v.commit_le in ground arith;
  applied = v.applied;
}

apply_next-IsValid : (log : RaftLog) → IsValid log → IsValid (apply_next log)
unfolding apply_next at
apply_next-IsValid log v = elim (Bool-cases (ltb log.last_append_ log.commited_)) [
  | inr e ↦ rw e v
  | inl e ↦
      let a = v.start_le in
      let b = v.front in
      let n = log.last_append_ - log.start_index_ in
      rw e (record {
        front = v.front;
        bound = v.bound;
        count = v.count;
        start_le = omega arith;
        append_le = let c = ltb→lt log.last_append_ log.commited_ e in omega arith;
        commit_le = v.commit_le;
        applied = rw v.applied (
            ap (λ j. slice log.queue_.data_ 1 n ++ log.queue_.data_ j ∷ []) (omega arith)
            ∙ sym (slice-suc log.queue_.data_ 1 n)
            ∙ ap (slice log.queue_.data_ 1) (omega arith));
      })
]

-- Every state of a log is valid.
pub Reach-IsValid : (log : RaftLog) → Reach log → IsValid log
Reach-IsValid _ (opens cells start) = open_log-IsValid cells start
Reach-IsValid _ (stops log r) =
    let v = Reach-IsValid log r in
    record {
      front = v.front;
      bound = v.bound;
      count = v.count;
      start_le = v.start_le;
      append_le = v.append_le;
      commit_le = v.commit_le;
      applied = v.applied;
    }
Reach-IsValid _ (puts_entry log entry h r) = put_entry-IsValid log entry h (Reach-IsValid log r)
Reach-IsValid _ (resets log index h r) = reset-IsValid log index h (Reach-IsValid log r)
Reach-IsValid _ (commits log c r) = update_commit-IsValid log c (Reach-IsValid log r)
Reach-IsValid _ (applies log r) = apply_next-IsValid log (Reach-IsValid log r)

-- In every state that a log reaches, where entries come with no commit index beyond their place and
-- no committed entry is reset, the database has been given exactly the first entries of the log, in
-- their order and each once, up to `last_append_`, and all of them are committed.
pub puts-Reach :
    (log : RaftLog)
    → Reach log
    → (log.puts ≡ take (log.last_append_ - log.start_index_) (items log.queue_))
      × (log.last_append_ ≤ log.commited_)
      × (log.commited_ ≤ log.index_)
unfolding items size
puts-Reach log r =
    let v = Reach-IsValid log r in
    let a = v.count in
    let b = v.commit_le in
    let c = v.append_le in
    let d = v.front in
    let e = v.start_le in
    let n = log.last_append_ - log.start_index_ in
    let first : 1 ≡ log.queue_.tail_ + 1 = omega arith in
    (
      v.applied
          ∙ ap (λ (j : ℕ). slice log.queue_.data_ j n) first
          ∙ sym (
              take-slice log.queue_.data_ (log.queue_.tail_ + 1)
                (log.queue_.head_ - log.queue_.tail_) n (omega arith)),
      c,
      b,
    )

-- On a running log with room, whose commit index is within it, an entry that carries a commit index
-- beyond its own place takes the commit index of the log beyond its end.
pub put_entry-beyond :
    (log : RaftLog) (entry : LogEntry)
    → log.stop_ ≡ false
    → is_full log.queue_ ≡ false
    → log.commited_ ≤ log.index_
    → log.index_ + 1 < entry.commited
    → ((put_entry log entry).0.commited_ ≡ entry.commited)
      × ((put_entry log entry).0.index_ < (put_entry log entry).0.commited_)
unfolding put_entry push_back raise_commited
put_entry-beyond log entry s f c h =
    let up : ltb log.commited_ entry.commited ≡ true =
      lt→ltb log.commited_ entry.commited (omega arith) in
    rw (s, f, up) (refl, h)
