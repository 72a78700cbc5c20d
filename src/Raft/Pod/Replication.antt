-- ===== src/Raft/Pod/Replication.antt =====
-- What a pod's handlers do to its log, and when a client's `Put` returns.
use moyuan_kv.Prelude.{
  ltb, ◌==◌, ==→eq, Bool-cases, length, All, ℕ, ◌+◌, ◌≤◌, ◌<◌, ◌≡◌, refl, inl, inr, false, ◌&&◌,
  List, [], ◌∷◌, arith,
}
use moyuan_kv.Raft.Log.{RaftLog, LogEntry, reset}
use moyuan_kv.Raft.Log.Applied.{Reach, puts_entry, resets, commits}
use moyuan_kv.Raft.Pod.{
  Pod, Follower, AppendReq, solve_append, accept_leader, step_down, update_raft_log, put_at_end,
  is_nil, follows, count_synced, is_synced,
}

put_at_end-Reach :
    (log : RaftLog) (e : LogEntry) → e.commited ≤ e.index → Reach log → Reach (put_at_end log e).0
unfolding put_at_end
put_at_end-Reach log e h r = elim (Bool-cases (e.index == log.index_ + 1)) [
  | inl s ↦ let same = ==→eq e.index (log.index_ + 1) s in rw s (puts_entry log e (omega arith) r)
  | inr s ↦ rw s r
]

update_raft_log-Reach :
    (log : RaftLog) (es : List LogEntry) (c : ℕ)
    → All (λ e. e.commited ≤ e.index) es
    → Reach log
    → Reach (update_raft_log log es c).0
unfolding update_raft_log
update_raft_log-Reach log [] c h r = r
update_raft_log-Reach log (e ∷ f ∷ es) c h r = r
update_raft_log-Reach log (e ∷ []) c h r = elim (Bool-cases (e.index == log.index_ + 1)) [
  | inl s ↦
      let same = ==→eq e.index (log.index_ + 1) s in
      let b = h.0 in rw s (puts_entry log e (omega arith) r)
  | inr s ↦ elim (Bool-cases (ltb c log.index_ && ltb log.commited_ c)) [
    | inl t ↦
        rw (s, t)
          (put_at_end-Reach (reset log log.commited_) e h.0
            (resets log log.commited_ (omega arith) r))
    | inr t ↦ rw (s, t) (put_at_end-Reach log e h.0 r)
  ]
]

accept_leader-Reach :
    (now : ℕ) (req : AppendReq) (pod : Pod)
    → Reach pod.raft_log_
    → Reach (accept_leader now req pod).raft_log_
unfolding accept_leader step_down
accept_leader-Reach now req pod r = elim (Bool-cases (follows req pod)) [
  | inl f ↦ rw f (commits pod.raft_log_ req.commited_index r)
  | inr f ↦ rw f (commits pod.raft_log_ req.commited_index r)
]

-- If no entry of an append request is committed beyond its own index, the request leads from a log
-- that its calls can reach to another such log.
pub solve_append-Reach :
    (now : ℕ) (req : AppendReq) (pod : Pod)
    → All (λ e. e.commited ≤ e.index) req.entrys
    → Reach pod.raft_log_
    → Reach (solve_append now req pod).0.raft_log_
unfolding solve_append
solve_append-Reach now req pod h r = elim (Bool-cases (is_nil req.entrys)) [
  | inl n ↦ rw n (accept_leader-Reach now req pod r)
  | inr n ↦ rw n (
      update_raft_log-Reach (accept_leader now req pod).raft_log_ req.entrys req.commited_index h
        (accept_leader-Reach now req pod r))
]

count_synced_none :
    (now_idx : ℕ) (fs : List Follower)
    → All (λ f. f.nextindex_ ≤ now_idx) fs
    → count_synced now_idx fs ≡ 1
unfolding count_synced
count_synced_none now_idx [] h = refl
count_synced_none now_idx (f ∷ fs) h =
    let rest = count_synced_none now_idx fs h.1 in let a = h.0 in ground arith

-- With at least one follower, while the `nextindex_` of no follower, cast to `size_t`, is beyond the
-- entry that was put, the loop of `InnerPut` goes on, although every follower may have the entry.
pub is_synced_none :
    (now_idx : ℕ) (pod : Pod)
    → 0 < length pod.followers_
    → All (λ f. f.nextindex_ ≤ now_idx) pod.followers_
    → is_synced now_idx pod ≡ false
unfolding is_synced
is_synced_none now_idx pod n h =
    let one = count_synced_none now_idx pod.followers_ h in rw one (ground arith)
