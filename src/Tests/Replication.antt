-- ===== src/Tests/Replication.antt =====
-- A log with one entry, and a pod with one follower.
use moyuan_kv.Prelude.{
  take, ℕ, ◌+◌, ◌-◌, ◌%◌, ◌≤◌, ◌<◌, ◌≡◌, refl, true, false, none, [], ◌∷◌, arith,
}
use moyuan_kv.Raft.Ring.{is_full, push_back, min}
use moyuan_kv.Raft.Ring.Items.{items}
use moyuan_kv.Raft.Log.{LogEntry, RaftLog, open_log, put_entry, apply_next, max}
use moyuan_kv.Raft.Log.Applied.{Reach, opens, puts_entry, applies, puts-Reach}
use moyuan_kv.Raft.Sync.{Outcome, sync, sync-ahead, sync-behind}
use moyuan_kv.Raft.Pod
use moyuan_kv.Raft.Log
use moyuan_kv.Raft.Pod.{
  Pod, RequestVoteReq, AppendReq, follower, vote, solve_append, follows, is_synced, Follower,
}
use moyuan_kv.Raft.Pod.Election.{
  Votes, starts, asked, appends, Falling, record_vote, Votes-Falling, vote-again,
}
use moyuan_kv.Raft.Pod.Replication.{solve_append-Reach, is_synced_none}

abbrev entry : LogEntry
entry = record { term = 1; index = 1; key = b'k' ∷ []; value = b'v' ∷ []; mode = 0; commited = 1 }

abbrev no_cells : ℕ → LogEntry
no_cells i = entry

abbrev empty_log : RaftLog
empty_log = open_log no_cells 0

abbrev full_history : RaftLog
full_history = apply_next (put_entry empty_log entry).0

entry-first : entry.commited ≤ empty_log.index_ + 1
unfolding open_log
entry-first = omega arith

full_history-Reach : Reach full_history
full_history-Reach = applies _ (puts_entry empty_log entry entry-first (opens no_cells 0))

puts-Reach_example :
    (full_history.puts
      ≡ take (full_history.last_append_ - full_history.start_index_) (items full_history.queue_))
    × (full_history.last_append_ ≤ full_history.commited_)
    × (full_history.commited_ ≤ full_history.index_)
puts-Reach_example = puts-Reach full_history full_history-Reach

abbrev pod : Pod
pod = record {
  id_ = 1;
  leader_id_ = none;
  voted_ = false;
  status_ = follower;
  term_ = 1;
  last_time_ = 0;
  followers_ = record { id = 2; address = []; nextindex_ = 1; runs = true } ∷ [];
  raft_log_ = empty_log;
}

abbrev vote_request : RequestVoteReq
vote_request = record { id = 2; term = 1; index = 1 }

abbrev append_request : AppendReq
append_request = record { term = 1; commited_index = 0; id = 2; entrys = entry ∷ [] }

-- A vote, a request to append of the next term, and a vote of the term behind that.
abbrev voted_once : Pod
voted_once = (vote 0 vote_request pod).0

abbrev later_append : AppendReq
later_append = record append_request { term = 2 }

abbrev following : Pod
following = (solve_append 1 later_append voted_once).0

abbrev later_request : RequestVoteReq
later_request = record vote_request { term = 3 }

append_is_later : follows later_append voted_once ≡ true → voted_once.term_ < later_append.term
unfolding vote open_log
append_is_later f = omega arith

votes : Votes (vote 2 later_request following).0 (
    record_vote (vote 2 later_request following).1 3 (record_vote (vote 0 vote_request pod).1 1 []))
votes =
    asked 2 later_request following _ (
      appends 1 later_append voted_once _ append_is_later
        (asked 0 vote_request pod [] (starts pod)))

-- Both requests are granted.
two_grants :
    record_vote (vote 2 later_request following).1 3 (record_vote (vote 0 vote_request pod).1 1 [])
    ≡ 3 ∷ 1 ∷ []
unfolding record_vote vote solve_append Pod.accept_leader Pod.step_down Pod.is_nil
    Pod.update_raft_log put_entry push_back is_full open_log follows Pod.first_is_ahead
    Pod.int32_rank Log.raise_commited Log.update_commit max min
two_grants = refl

Votes-Falling_example : Falling (
    record_vote (vote 2 later_request following).1 3 (record_vote (vote 0 vote_request pod).1 1 []))
Votes-Falling_example = Votes-Falling (vote 2 later_request following).0 _ votes

pod-follows : follows append_request pod ≡ true
unfolding follows open_log Pod.first_is_ahead Pod.int32_rank
pod-follows = refl

append_index : (solve_append 0 append_request pod).0.raft_log_.index_ ≤ vote_request.index
unfolding solve_append Pod.accept_leader Pod.step_down Pod.is_nil Pod.update_raft_log put_entry
    push_back is_full open_log follows Pod.first_is_ahead Pod.int32_rank Log.raise_commited
    Log.update_commit max min
append_index = omega arith

vote-again_example : (vote 0 vote_request (solve_append 0 append_request pod).0).1 ≡ true
vote-again_example = vote-again 0 append_request vote_request pod refl pod-follows refl append_index

solve_append-Reach_example : Reach (solve_append 0 append_request pod).0.raft_log_
solve_append-Reach_example =
    solve_append-Reach 0 append_request pod (omega arith, tt) (opens no_cells 0)

is_synced_none_example : is_synced 1 pod ≡ false
is_synced_none_example = is_synced_none 1 pod (omega arith) (omega arith, tt)

abbrev two_entries : RaftLog
two_entries = (put_entry (put_entry empty_log entry).0 entry).0

-- The log of a leader.
abbrev long_log : RaftLog
long_log = (put_entry two_entries entry).0

abbrev lagging : Follower
lagging = record { id = 1; address = []; nextindex_ = 2; runs = true }

sync-behind_example : Outcome long_log lagging pod.raft_log_ (sync 3 7 2 long_log lagging pod)
unfolding open_log put_entry is_full push_back Log.raise_commited
sync-behind_example =
    sync-behind 2 7 2 long_log lagging pod refl (omega arith) (omega arith) refl refl

abbrev long_pod : Pod
long_pod = record pod { raft_log_ = two_entries }

abbrev near : Follower
near = record lagging { nextindex_ = 1 }

sync-ahead_example :
    ((sync 5 7 2 long_log near long_pod).0 ≡ false)
    × ((sync 5 7 2 long_log near long_pod).1
        ≡ record near { nextindex_ = (1 + 18446744073709551616 - 5) % 18446744073709551616 })
    × ((sync 5 7 2 long_log near long_pod).2.raft_log_ ≡ long_pod.raft_log_)
unfolding open_log put_entry is_full push_back Log.raise_commited
sync-ahead_example =
    sync-ahead 5 7 2 long_log near long_pod (omega arith) (omega arith) (omega arith)
