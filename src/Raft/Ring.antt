-- ===== src/Raft/Ring.antt =====
-- `RingBufferQueue` of mokv/utils/ring_buffer_queue.hpp. The array is a function from positions; the
-- positions that the program may touch are those below `ring_buffer_size`.
pub mod Items
use moyuan_kv.Prelude.{ltb, ◌==◌, if◌then◌else◌, ℕ, ◌+◌, ◌-◌, ◌%◌, Bool, Option, none, some}

abbrev pub ring_buffer_size : ℕ
ring_buffer_size = 262144

pub record RingBufferQueue {ℓ} (T : Type ℓ) : Type ℓ where
  pub data_ : ℕ → T
  pub head_ : ℕ
  pub tail_ : ℕ

-- `data_[i] = x`.
unfoldable pub write {ℓ} : {T : Type ℓ} → (ℕ → T) → ℕ → T → ℕ → T
write cells i x j = if j == i then x else cells j

-- `((head_ + 1) & ring_buffer_size_musk_) == tail_`.
unfoldable pub is_full {ℓ} : {T : Type ℓ} → RingBufferQueue T → Bool
is_full q = (q.head_ + 1) % ring_buffer_size == q.tail_

unfoldable pub push_back {ℓ} : {T : Type ℓ} → RingBufferQueue T → T → Option (RingBufferQueue T)
push_back q rhs =
    if is_full q
    then none
    else some (record q { data_ = write q.data_ (q.head_ + 1) rhs; head_ = q.head_ + 1 })

unfoldable pub is_empty {ℓ} : {T : Type ℓ} → RingBufferQueue T → Bool
is_empty q = q.head_ == q.tail_

unfoldable pub pop_front {ℓ} : {T : Type ℓ} → RingBufferQueue T → Option (RingBufferQueue T)
pop_front q = if q.tail_ == q.head_ then none else some (record q { tail_ = q.tail_ + 1 })

unfoldable pub pop_back {ℓ} : {T : Type ℓ} → RingBufferQueue T → Option (RingBufferQueue T)
pop_back q = if q.tail_ == q.head_ then none else some (record q { head_ = q.head_ - 1 })

unfoldable pub size {ℓ} : {T : Type ℓ} → RingBufferQueue T → ℕ
size q = q.head_ - q.tail_

-- `std::min`.
unfoldable pub min : ℕ → ℕ → ℕ
min a b = if ltb b a then b else a

-- The queue, and the number of elements that were removed.
unfoldable pub truncate {ℓ} : {T : Type ℓ} → RingBufferQueue T → ℕ → RingBufferQueue T × ℕ
truncate q count =
    if q.tail_ == q.head_
    then (q, 0)
    else (record q { head_ = q.head_ - min count (size q) }, min count (size q))

unfoldable pub at {ℓ} : {T : Type ℓ} → RingBufferQueue T → ℕ → T
at q index = q.data_ (q.tail_ + index + 1)

-- `a - b` of type `size_t`.
abbrev pub size_sub : ℕ → ℕ → ℕ
size_sub a b = (a + 18446744073709551616 - b) % 18446744073709551616

unfoldable pub r_at {ℓ} : {T : Type ℓ} → RingBufferQueue T → ℕ → T
r_at q index = q.data_ (size_sub q.head_ index)
