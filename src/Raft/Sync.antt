-- ===== src/Raft/Sync.antt =====
-- The inner loop of `Follower::Run` (mokv/raft/pod.hpp), which brings one entry to the pod behind a
-- follower. Calls over the network that fail change nothing and are left out.
use moyuan_kv.Prelude.{
  ltb, ◌==◌, if◌then◌else◌, Bool-cases, ℕ, zero, suc, ◌+◌, ◌-◌, ◌%◌, ◌≤◌, ◌<◌, ◌≡◌, refl, sym, ap,
  ◌∙◌, subst, inl, inr, Bool, true, false, ◌&&◌, [], ◌∷◌, arith,
}
use moyuan_kv.Raft.Log.{LogEntry, RaftLog, entry_at, update_commit, put_entry, max}
use moyuan_kv.Raft.Ring.{min, is_full, push_back}
use moyuan_kv.Raft.Pod.{
  sent, succ_index, pred_index, as_int32, Follower, Pod, AppendReq, AppendCode, appended,
  index_not_match, not_support, solve_append, accept_leader, step_down, follows, update_raft_log,
  put_at_end, is_nil,
}

-- The request: neither its term nor its commit index is set.
unfoldable pub sync_request : ℕ → RaftLog → Follower → AppendReq
sync_request leader_id log f = record {
  id = leader_id;
  term = 0;
  commited_index = 0;
  entrys = sent log f ∷ [];
}

-- `rsp.base().code() == 0`.
unfoldable pub is_ok : AppendCode → Bool
is_ok appended = true
is_ok index_not_match = false
is_ok not_support = false

-- The loop for at most the given number of requests, from a leader's log: whether one has succeeded,
-- the follower and the pod.
unfoldable pub sync : ℕ → ℕ → ℕ → RaftLog → Follower → Pod → Bool × Follower × Pod
sync zero now leader_id log f pod = (false, f, pod)
sync (suc n) now leader_id log f pod =
    let answer = solve_append now (sync_request leader_id log f) pod in
    let back =
      sync n now leader_id log (record f { nextindex_ = pred_index f.nextindex_ }) answer.0 in
    if is_ok answer.1
    then (true, record f { nextindex_ = succ_index f.nextindex_ }, answer.0)
    else back

max-min_zero : (c i : ℕ) → max c (min i 0) ≡ c
unfolding max min
max-min_zero c i = ground arith

commit_nothing : (log : RaftLog) → update_commit log 0 ≡ log
unfolding update_commit
commit_nothing log =
    ap (λ (c : ℕ). record log { commited_ = c }) (max-min_zero log.commited_ log.index_)

accept_leader-log :
    (now leader_id : ℕ) (log : RaftLog) (f : Follower) (pod : Pod)
    → (accept_leader now (sync_request leader_id log f) pod).raft_log_ ≡ pod.raft_log_
unfolding accept_leader sync_request step_down
accept_leader-log now leader_id log f pod =
    elim (Bool-cases (follows (sync_request leader_id log f) pod)) [
      | inl e ↦ rw e (commit_nothing pod.raft_log_)
      | inr e ↦ rw e (commit_nothing pod.raft_log_)
    ]

update-refused :
    (log : RaftLog) (entry : LogEntry)
    → (entry.index == log.index_ + 1) ≡ false
    → update_raft_log log (entry ∷ []) 0 ≡ (log, index_not_match)
unfolding update_raft_log put_at_end
update-refused log entry e =
    let no_reset : (ltb 0 log.index_ && ltb log.commited_ 0) ≡ false = ground arith in
    rw (e, no_reset) refl

-- A request for another index than the next one of the pod's log changes nothing in that log.
refused :
    (now leader_id : ℕ) (log : RaftLog) (f : Follower) (pod : Pod)
    → ((sent log f).index == pod.raft_log_.index_ + 1) ≡ false
    → ((solve_append now (sync_request leader_id log f) pod).0.raft_log_ ≡ pod.raft_log_)
      × ((solve_append now (sync_request leader_id log f) pod).1 ≡ index_not_match)
unfolding solve_append is_nil sync_request
refused now leader_id log f pod e =
    let same = accept_leader-log now leader_id log f pod in
    let update = update-refused pod.raft_log_ (sent log f) e in rw (same, update) (refl, refl)

-- A request for the next index of the pod's log is answered with success.
accepted :
    (now leader_id : ℕ) (log : RaftLog) (f : Follower) (pod : Pod)
    → ((sent log f).index == pod.raft_log_.index_ + 1) ≡ true
    → ((solve_append now (sync_request leader_id log f) pod).1 ≡ appended)
      × ((solve_append now (sync_request leader_id log f) pod).0.raft_log_
          ≡ (put_entry pod.raft_log_ (sent log f)).0)
unfolding solve_append is_nil sync_request update_raft_log
accepted now leader_id log f pod e =
    let same = accept_leader-log now leader_id log f pod in rw (same, e) (refl, refl)

-- The `nextindex_` of `x` after `i` steps back.
abbrev back_by : ℕ → ℕ → ℕ
back_by x i = (x + 18446744073709551616 - i) % 18446744073709551616

other_index :
    (log : RaftLog) (f : Follower) (x i index : ℕ)
    → f.nextindex_ ≡ back_by x i
    → x < index
    → index < 2147483648
    → i < 2147483648
    → ((sent log f).index == index + 1) ≡ false
unfolding sent
other_index log f x i index e a b c = ground (arith, e, a, b, c)

-- The requests that follow `i` refused ones are refused as well.
sync-back :
    (n i x now leader_id : ℕ) (log : RaftLog) (f : Follower) (pod : Pod)
    → f.nextindex_ ≡ back_by x i
    → x < pod.raft_log_.index_
    → pod.raft_log_.index_ < 2147483648
    → n + i ≤ 2147483648
    → ((sync n now leader_id log f pod).0 ≡ false)
      × ((sync n now leader_id log f pod).1 ≡ record f { nextindex_ = back_by x (n + i) })
      × ((sync n now leader_id log f pod).2.raft_log_ ≡ pod.raft_log_)
unfolding sync is_ok
sync-back zero i x now leader_id log f pod e a b c =
    let here : f.nextindex_ ≡ back_by x (0 + i) = omega (arith, e) in
    (refl, ap (λ (j : ℕ). record f { nextindex_ = j }) here, refl)
sync-back (suc n) i x now leader_id log f pod e a b c =
    let no =
      refused now leader_id log f pod
        (other_index log f x i pod.raft_log_.index_ e a b (omega (arith, c))) in
    let next : Pod = (solve_append now (sync_request leader_id log f) pod).0 in
    let same : next.raft_log_.index_ ≡ pod.raft_log_.index_ = ap (λ (l : RaftLog). l.index_) no.0 in
    let rest =
      sync-back n (i + 1) x now leader_id log (record f { nextindex_ = pred_index f.nextindex_ })
        next (omega (arith, e, a, b, c)) (omega (arith, a, same)) (omega (arith, b, same))
        (omega (arith, c)) in
    let count : n + (i + 1) ≡ suc n + i = omega arith in
    rw no.1
      (rest.0, rest.1 ∙ ap (λ (j : ℕ). record f { nextindex_ = back_by x j }) count, rest.2 ∙ no.0)

-- If the pod's log ends behind `nextindex_`, and `n` is at most 2 ^ 31, all of `n` requests are refused:
-- each steps `nextindex_` back by one, through 0 and on below it, and the pod's log stays what it is.
-- Its index is an `int32_t`.
pub sync-ahead :
    (n now leader_id : ℕ) (log : RaftLog) (f : Follower) (pod : Pod)
    → f.nextindex_ < pod.raft_log_.index_
    → pod.raft_log_.index_ < 2147483648
    → n ≤ 2147483648
    → ((sync n now leader_id log f pod).0 ≡ false)
      × ((sync n now leader_id log f pod).1 ≡ record f {
        nextindex_ = (f.nextindex_ + 18446744073709551616 - n) % 18446744073709551616;
      })
      × ((sync n now leader_id log f pod).2.raft_log_ ≡ pod.raft_log_)
sync-ahead n now leader_id log f pod a b c =
    let none_yet : f.nextindex_ ≡ back_by f.nextindex_ 0 = omega (arith, a, b) in
    let count : n + 0 ≡ n = omega arith in
    let done = sync-back n 0 f.nextindex_ now leader_id log f pod none_yet a b (omega (arith, c)) in
    (
      done.0,
      done.1 ∙ ap (λ (j : ℕ). record f { nextindex_ = back_by f.nextindex_ j }) count,
      done.2,
    )

put_entry-open :
    (log : RaftLog) (e : LogEntry)
    → log.stop_ ≡ false
    → is_full log.queue_ ≡ false
    → put_entry log e ≡ ((put_entry log e).0, true)
unfolding put_entry push_back
put_entry-open log e s h = rw (s, h) refl

-- The outcome of the loop: a request has succeeded, `nextindex_` is the next index of the log `old`,
-- and the leader's entry of that index has been put there.
abbrev pub Outcome : RaftLog → Follower → RaftLog → Bool × Follower × Pod → Type 0
Outcome log f old r =
    (r.0 ≡ true)
    × (r.1 ≡ record f { nextindex_ = old.index_ + 1 })
    × (put_entry old (record (entry_at log (old.index_ + 1)) {
      index = old.index_ + 1;
      mode = 0;
      commited = log.commited_;
    })
        ≡ (r.2.raft_log_, true))

next_sent :
    (log : RaftLog) (f : Follower) (index : ℕ)
    → f.nextindex_ ≡ index
    → index < 2147483647
    → sent log f
      ≡ record (entry_at log (index + 1)) { index = index + 1; mode = 0; commited = log.commited_ }
unfolding sent
next_sent log f index e h =
    let next : succ_index f.nextindex_ ≡ index + 1 = omega (arith, e, h) in
    let narrow : as_int32 (index + 1) ≡ index + 1 = ground (arith, h) in rw (next, narrow) refl

beyond :
    (log : RaftLog) (f : Follower) (index : ℕ)
    → index < f.nextindex_
    → f.nextindex_ < 2147483647
    → ((sent log f).index == index + 1) ≡ false
unfolding sent
beyond log f index a b = ground (arith, a, b)

-- If `nextindex_` is `n` more than the index of the pod's log and below that of the leader's, which is
-- an `int32_t`, and the pod's log is neither stopped nor full, the loop ends with the request `n + 1`:
-- the leader's entry of the next index is put into the pod's log, and `nextindex_` is its index.
pub sync-behind :
    (n now leader_id : ℕ) (log : RaftLog) (f : Follower) (pod : Pod)
    → f.nextindex_ ≡ n + pod.raft_log_.index_
    → f.nextindex_ < log.index_
    → log.index_ < 2147483648
    → pod.raft_log_.stop_ ≡ false
    → is_full pod.raft_log_.queue_ ≡ false
    → Outcome log f pod.raft_log_ (sync (suc n) now leader_id log f pod)
unfolding sync is_ok
sync-behind zero now leader_id log f pod h a b s q =
    let same : f.nextindex_ ≡ pod.raft_log_.index_ = omega (arith, h) in
    let entry = next_sent log f pod.raft_log_.index_ same (omega (arith, same, a, b)) in
    let index : ((sent log f).index == pod.raft_log_.index_ + 1) ≡ true = rw entry (ground arith) in
    let yes = accepted now leader_id log f pod index in
    let next : succ_index f.nextindex_ ≡ pod.raft_log_.index_ + 1 = omega (arith, same, a, b) in
    rw yes.0 (
      refl,
      ap (λ (i : ℕ). record f { nextindex_ = i }) next,
      subst
          (λ (e : LogEntry).
            put_entry pod.raft_log_ e
            ≡ ((solve_append now (sync_request leader_id log f) pod).0.raft_log_, true))
          entry
          (put_entry-open pod.raft_log_ (sent log f) s q
            ∙ ap (λ (l : RaftLog). (l, true)) (sym yes.1)),
    )
sync-behind (suc n) now leader_id log f pod h a b s q =
    let no =
      refused now leader_id log f pod
        (beyond log f pod.raft_log_.index_ (omega (arith, h)) (omega (arith, a, b))) in
    let next : Pod = (solve_append now (sync_request leader_id log f) pod).0 in
    let less : pred_index f.nextindex_ ≡ n + pod.raft_log_.index_ = omega (arith, h, a, b) in
    rw no.1 (
      subst
        (λ (l : RaftLog).
          Outcome log f l (
            sync (suc n) now leader_id log (record f { nextindex_ = pred_index f.nextindex_ })
              next))
        no.0
        (sync-behind n now leader_id log (record f { nextindex_ = pred_index f.nextindex_ }) next
          (less ∙ ap (λ (l : RaftLog). n + l.index_) (sym no.0)) (omega (arith, h, less, a)) b
          (ap (λ (l : RaftLog). l.stop_) no.0 ∙ s)
          (ap (λ (l : RaftLog). is_full l.queue_) no.0 ∙ q)))
