-- ===== src/Raft/Pod.antt =====
-- `Pod` and the bookkeeping of `Follower` of mokv/raft/pod.hpp: the handlers of votes, appends and
-- clients' calls. A handler is one step; a call that waits is two, before and behind the wait.
pub mod Election
pub mod Replication
use moyuan_kv.Prelude.{
  ltb, leb, ◌==◌, if◌then◌else◌, length, Bytes, ℕ, ◌+◌, ◌/◌, ◌%◌, ◌^◌, Bool, true, false, ◌&&◌,
  ◌||◌, Option, none, some, List, [], ◌∷◌,
}
use moyuan_kv.Raft.Log
use moyuan_kv.Raft.Log.{RaftLog, LogEntry, put_entry, reset, update_commit, entry_at}

pub data PodStatus : Type 0 where
  candidate : PodStatus
  leader : PodStatus
  follower : PodStatus

unfoldable pub is_leader : PodStatus → Bool
is_leader candidate = false
is_leader leader = true
is_leader follower = false

unfoldable pub is_candidate : PodStatus → Bool
is_candidate candidate = true
is_candidate leader = false
is_candidate follower = false

-- A follower as its leader sees it; `runs` is `!stop_`, and `nextindex_`, an `int64_t`, is here the
-- `size_t` that it is cast to, so -1 is 2 ^ 64 - 1.
pub record Follower : Type 0 where
  pub id : ℕ
  pub address : Bytes
  pub nextindex_ : ℕ
  pub runs : Bool

pub record Pod : Type 0 where
  pub id_ : ℕ
  -- `none` is -1.
  pub leader_id_ : Option ℕ
  pub voted_ : Bool
  pub status_ : PodStatus
  pub term_ : ℕ
  pub last_time_ : ℕ
  pub followers_ : List Follower
  pub raft_log_ : RaftLog

pub record RequestVoteReq : Type 0 where
  pub id : ℕ
  pub term : ℕ
  pub index : ℕ

pub record AppendReq : Type 0 where
  pub term : ℕ
  pub commited_index : ℕ
  pub id : ℕ
  pub entrys : List LogEntry

unfoldable pub stop_all : List Follower → List Follower
stop_all [] = []
stop_all (f ∷ fs) = record f { runs = false } ∷ stop_all fs

-- `if (status_ == PodStatus::Leader) for (…) follower->Stop(); status_ = PodStatus::Follower;`
unfoldable pub step_down : Pod → Pod
step_down pod = record pod {
  followers_ = if is_leader pod.status_ then stop_all pod.followers_ else pod.followers_;
  status_ = follower;
}

-- `Vote`, at time `now`.
unfoldable pub vote : ℕ → RequestVoteReq → Pod → Pod × Bool
vote now req pod =
    let seen : Pod = record pod { last_time_ = now } in
    if ltb req.term pod.term_
    then (seen, false)
    else if req.term == pod.term_ && ltb req.index pod.raft_log_.index_
    then (seen, false)
    else if req.term == pod.term_ && pod.voted_
    then (seen, false)
    else if ltb pod.term_ req.term
    then (record (step_down (record seen { term_ = req.term })) { voted_ = true }, true)
    else (record seen { voted_ = true }, true)

-- The order of `static_cast<int32_t>`.
unfoldable pub int32_rank : ℕ → ℕ
int32_rank n = (n + 2 ^ 31) % 2 ^ 32

unfoldable pub first_is_ahead : List LogEntry → ℕ → Bool
first_is_ahead [] index = false
first_is_ahead (e ∷ es) index = ltb (int32_rank index) (int32_rank e.index)

-- The results 0, -2 and -3 of `UpdateRaftLog`.
pub data AppendCode : Type 0 where
  appended : AppendCode
  index_not_match : AppendCode
  not_support : AppendCode

-- `UpdateRaftLog` behind its first test, where the log may have been cut back.
unfoldable pub put_at_end : RaftLog → LogEntry → RaftLog × AppendCode
put_at_end log entry =
    if entry.index == log.index_ + 1
    then ((put_entry log entry).0, appended)
    else (log, index_not_match)

unfoldable pub update_raft_log : RaftLog → List LogEntry → ℕ → RaftLog × AppendCode
update_raft_log log [] leader_commit = (log, not_support)
update_raft_log log (entry ∷ []) leader_commit =
    if entry.index == log.index_ + 1
    then ((put_entry log entry).0, appended)
    else if ltb leader_commit log.index_ && ltb log.commited_ leader_commit
    then put_at_end (reset log log.commited_) entry
    else put_at_end log entry
update_raft_log log (entry ∷ other ∷ entries) leader_commit = (log, not_support)

-- The test of `SolveAppend`.
unfoldable pub follows : AppendReq → Pod → Bool
follows req pod =
    ltb pod.term_ req.term
    || (req.term == pod.term_ && first_is_ahead req.entrys pod.raft_log_.index_)

-- The first part of `SolveAppend`, under the election lock.
unfoldable pub accept_leader : ℕ → AppendReq → Pod → Pod
accept_leader now req pod =
    let seen : Pod = record pod { last_time_ = now } in
    let next : Pod =
      if follows req pod
      then record (step_down (record seen { term_ = req.term; voted_ = false })) {
        leader_id_ = some req.id;
      }
      else seen in
    record next { raft_log_ = update_commit next.raft_log_ req.commited_index }

unfoldable pub is_nil {ℓ} : {A : Type ℓ} → List A → Bool
is_nil [] = true
is_nil (x ∷ xs) = false

unfoldable pub solve_append : ℕ → AppendReq → Pod → Pod × AppendCode
solve_append now req pod =
    let next : Pod = accept_leader now req pod in
    if is_nil req.entrys then (next, appended) else (
      record next { raft_log_ = (update_raft_log next.raft_log_ req.entrys req.commited_index).0 },
      (update_raft_log next.raft_log_ req.entrys req.commited_index).1,
    )

-- The election: the timeout, which starts `RequestVote`, and its end with the replies.
unfoldable pub start_election : Pod → Pod
start_election pod = record pod { status_ = candidate; term_ = pod.term_ + 1 }

unfoldable pub count_tickets : List Bool → ℕ
count_tickets [] = 1
count_tickets (granted ∷ replies) =
    let rest = count_tickets replies in if granted then rest + 1 else rest

unfoldable pub run_all : ℕ → List Follower → List Follower
run_all nextindex [] = []
run_all nextindex (f ∷ fs) = record f { nextindex_ = nextindex; runs = true } ∷ run_all nextindex fs

unfoldable pub finish_election : List Bool → Pod → Pod × Bool
finish_election replies pod =
    if is_candidate pod.status_
    then (if ltb ((length pod.followers_ + 1) / 2) (count_tickets replies)
        then (
          record pod {
            status_ = leader;
            followers_ = run_all pod.raft_log_.commited_ pod.followers_;
          },
          true,
        )
        else (pod, false))
    else (pod, false)

-- `InnerPut`: the sum of its loop, over the followers that are behind the entry.
unfoldable pub count_synced : ℕ → List Follower → ℕ
count_synced now_idx [] = 1
count_synced now_idx (f ∷ fs) =
    let rest = count_synced now_idx fs in if ltb now_idx f.nextindex_ then rest + 1 else rest

unfoldable pub is_synced : ℕ → Pod → Bool
is_synced now_idx pod = ltb ((length pod.followers_ + 1) / 2) (count_synced now_idx pod.followers_)

-- The round of the loop that ends it; the call returns once `is_applied` holds.
unfoldable pub end_put : ℕ → Pod → Pod
end_put now_idx pod =
    if is_synced now_idx pod
    then record pod { raft_log_ = update_commit pod.raft_log_ now_idx }
    else pod

unfoldable pub find_leader_address : Option ℕ → List Follower → Option Bytes
find_leader_address leader_id [] = none
find_leader_address none (f ∷ fs) = none
find_leader_address (some i) (f ∷ fs) =
    let rest = find_leader_address (some i) fs in if f.id == i then some f.address else rest

-- The conversion to `int32_t`, and from there to `size_t`.
abbrev pub as_int32 : ℕ → ℕ
as_int32 n =
    let low = n % 4294967296 in if ltb low 2147483648 then low else low + 18446744069414584320

-- `++` and `--` of an `int64_t`.
abbrev pub succ_index : ℕ → ℕ
succ_index n = (n + 1) % 18446744073709551616

abbrev pub pred_index : ℕ → ℕ
pred_index n = (n + 18446744073709551615) % 18446744073709551616

-- `Follower::Run`: the entry that is sent.
unfoldable pub sent : RaftLog → Follower → LogEntry
sent log f = record (entry_at log (succ_index f.nextindex_)) {
  index = as_int32 (succ_index f.nextindex_);
  mode = 0;
  commited = log.commited_;
}

-- The test that starts to send.
unfoldable pub has_next : RaftLog → Follower → Bool
has_next log f = ltb f.nextindex_ log.index_

-- `int64_t` numbers compare by this.
unfoldable pub int64_rank : ℕ → ℕ
int64_rank n = (n + 9223372036854775808) % 18446744073709551616

unfoldable pub count_matched : ℕ → List Follower → ℕ
count_matched nextindex [] = 2
count_matched nextindex (f ∷ fs) =
    let rest = count_matched nextindex fs in
    if leb (int64_rank nextindex) (int64_rank f.nextindex_) then rest + 1 else rest

-- Behind the inner loop: the commit index moves when enough of the others have the entry.
unfoldable pub matched : Follower → List Follower → RaftLog → RaftLog
matched f others log =
    if ltb ((length others + 2) / 2) (count_matched f.nextindex_ others)
    then update_commit log f.nextindex_
    else log
