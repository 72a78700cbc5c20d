-- ===== src/Raft/Clients.antt =====
-- `Pod::Put` and `Pod::Get` of mokv/raft/pod.hpp: what a client is answered.
use moyuan_kv.Prelude.{
  if◌then◌else◌, Bytes, ℕ, ◌≡◌, refl, Bool, true, false, not, ◌&&◌, Option, none, some,
}
use moyuan_kv.Raft.Log.{put}
use moyuan_kv.Raft.Pod.{Pod, is_leader, find_leader_address}

-- The codes 0, 1, -1 and -2 of a reply.
pub data Code : Type 0 where
  done : Code
  empty : Code
  failed : Code
  redirect : Code

pub record Reply : Type 0 where
  pub code : Code
  pub value : Option Bytes
  pub leader_addr : Option Bytes

-- The answer of a pod that is not the leader.
unfoldable pub redirect_reply : Pod → Reply
redirect_reply pod = elim (find_leader_address pod.leader_id_ pod.followers_) [
  | none ↦ record { code = failed; value = none; leader_addr = none }
  | some addr ↦ record { code = redirect; value = none; leader_addr = some addr }
]

unfoldable pub value_reply : Option Bytes → Reply
value_reply none = record { code = empty; value = none; leader_addr = none }
value_reply (some v) = record { code = done; value = some v; leader_addr = none }

-- `Get`, where `db` is what `db_->Get` returns for the key.
unfoldable pub get : Bool → Option Bytes → Pod → Reply
get read_from_leader db pod =
    if read_from_leader && not (is_leader pod.status_) then redirect_reply pod else value_reply db

-- What `Put` does before it waits: an answer, or the index of the new entry.
pub data Started : Type 0 where
  answered : Reply → Started
  waits : ℕ → Started

unfoldable pub started : Option ℕ → Started
started none = answered (record { code = failed; value = none; leader_addr = none })
started (some now_idx) = waits now_idx

unfoldable pub start_put : Bytes → Bytes → Pod → Pod × Started
start_put key value pod =
    if is_leader pod.status_
    then (
      record pod { raft_log_ = (put pod.raft_log_ key value pod.term_).0 },
      started (put pod.raft_log_ key value pod.term_).1,
    )
    else (pod, answered (redirect_reply pod))

redirect_reply-value : (pod : Pod) → (redirect_reply pod).value ≡ none
unfolding redirect_reply
redirect_reply-value pod = go (find_leader_address pod.leader_id_ pod.followers_)
  where
    go :
        (a : Option Bytes)
        → Reply.value (elim a [
          | none ↦ record { code = failed; value = none; leader_addr = none }
          | some addr ↦ record { code = redirect; value = none; leader_addr = some addr }
        ])
          ≡ none
    go none = refl
    go (some addr) = refl

-- A read that asks for the leader returns no value from another pod.
get-elsewhere :
    (db : Option Bytes) (pod : Pod) → is_leader pod.status_ ≡ false → (get true db pod).value ≡ none
unfolding get
get-elsewhere db pod h = rw h (redirect_reply-value pod)

-- A pod that is not the leader starts no `Put`.
start_put-elsewhere :
    (key value : Bytes) (pod : Pod)
    → is_leader pod.status_ ≡ false
    → start_put key value pod ≡ (pod, answered (redirect_reply pod))
unfolding start_put
start_put-elsewhere key value pod h = rw h refl
