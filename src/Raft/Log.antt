-- ===== src/Raft/Log.antt =====
-- `RaftLog` of mokv/raft/raft_log.hpp: the entries in a ring buffer, the commit index, and the thread
-- that applies committed entries to the database. A call holds the lock for all of its work, and a
-- round of the thread is one step; a round takes its entry in the step in which it raises `last_append_`.
pub mod Applied
use moyuan_kv.Prelude.{
  ltb, leb, if◌then◌else◌, Bytes, ℕ, ◌+◌, ◌-◌, Bool, true, false, ◌||◌, Option, none, some, List,
  [], ◌∷◌, ◌++◌,
}
use moyuan_kv.Raft.Ring.{RingBufferQueue, push_back, truncate, at, r_at, min, size_sub}

-- `Entry` of mokv/raft/protos/raft.proto, with numbers that are not negative.
pub record LogEntry : Type 0 where
  pub term : ℕ
  pub index : ℕ
  pub key : Bytes
  pub value : Bytes
  pub mode : ℕ
  pub commited : ℕ

pub record RaftLog : Type 0 where
  pub stop_ : Bool
  pub index_ : ℕ
  pub queue_ : RingBufferQueue LogEntry
  pub commited_ : ℕ
  pub last_append_ : ℕ
  pub start_index_ : ℕ
  -- The entries that `db_->Put` was called with, from the first to the last.
  pub puts : List LogEntry

-- The constructor: `start` is the commit index that the file of an earlier run holds, or 0.
unfoldable pub open_log : (ℕ → LogEntry) → ℕ → RaftLog
open_log cells start = record {
  stop_ = false;
  index_ = start;
  queue_ = record { data_ = cells; head_ = 0; tail_ = 0 };
  commited_ = start;
  last_append_ = start;
  start_index_ = start;
  puts = [];
}

-- `At`.
unfoldable pub entry_at : RaftLog → ℕ → LogEntry
entry_at log index = r_at log.queue_ (size_sub log.index_ index)

-- `if (entry.commited() > commited_) commited_ = entry.commited();`
unfoldable pub raise_commited : RaftLog → ℕ → RaftLog
raise_commited log commited =
    if ltb log.commited_ commited then record log { commited_ = commited } else log

-- `Put(entry)`.
unfoldable pub put_entry : RaftLog → LogEntry → RaftLog × Bool
put_entry log entry = if log.stop_ then (log, false) else elim (push_back log.queue_ entry) [
  | none ↦ (log, false)
  | some queue ↦
      (raise_commited (record log { queue_ = queue; index_ = log.index_ + 1 }) entry.commited, true)
]

-- `Put(key, value, term, idx)`; the entry's `commited` has its default, and `idx` is the new `index_`.
unfoldable pub put : RaftLog → Bytes → Bytes → ℕ → RaftLog × Option ℕ
put log key value term =
    let entry : LogEntry = record {
      term = term;
      index = log.index_ + 1;
      key = key;
      value = value;
      mode = 0;
      commited = 0;
    } in
    let (next, done) = put_entry log entry in
    if done then (next, some next.index_) else (next, none)

unfoldable pub reset : RaftLog → ℕ → RaftLog
reset log expect_index =
    if ltb expect_index log.index_
    then (let (queue, removed) = truncate log.queue_ (log.index_ - expect_index) in
        record log { queue_ = queue; index_ = log.index_ - removed })
    else log

-- `std::max`.
unfoldable pub max : ℕ → ℕ → ℕ
max a b = if ltb a b then b else a

unfoldable pub update_commit : RaftLog → ℕ → RaftLog
update_commit log leader_commit = record log {
  commited_ = max log.commited_ (min log.index_ leader_commit);
}

-- One round of the applying thread; with nothing to apply it waits.
unfoldable pub apply_next : RaftLog → RaftLog
apply_next log =
    if ltb log.last_append_ log.commited_
    then record log {
      last_append_ = log.last_append_ + 1;
      puts = log.puts ++ at log.queue_ (log.last_append_ - log.start_index_) ∷ [];
    }
    else log

-- The condition that `WaitUntilApplied` waits for.
unfoldable pub is_applied : RaftLog → ℕ → Bool
is_applied log index = log.stop_ || leb index log.last_append_
