-- ===== src/Raft/Ring/Items.antt =====
-- A ring buffer as the list of its elements.
use moyuan_kv.Prelude.{
  ◌==◌, ==→eq, Bool-cases, get_elem?, take, ℕ, zero, suc, ◌+◌, ◌-◌, ◌≤◌, ◌<◌, ◌≡◌, refl, sym, ap,
  ◌∙◌, inl, inr, false, some, List, [], ◌∷◌, ◌++◌, arith,
}
use moyuan_kv.Raft.Ring.{
  RingBufferQueue, ring_buffer_size, write, is_full, push_back, size, min, truncate, at, r_at,
}

-- `n` cells from position `i` on.
unfoldable pub slice {ℓ} : {T : Type ℓ} → (ℕ → T) → ℕ → ℕ → List T
slice cells i zero = []
slice cells i (suc n) = cells i ∷ slice cells (i + 1) n

-- The elements from the front to the back.
unfoldable pub items {ℓ} : {T : Type ℓ} → RingBufferQueue T → List T
items q = slice q.data_ (q.tail_ + 1) (size q)

-- The back is not before the front, and is inside of the array.
pub record IsValid {ℓ} {T : Type ℓ} (q : RingBufferQueue T) : Type ℓ where
  pub order : q.tail_ ≤ q.head_
  pub bound : q.head_ < ring_buffer_size

pub min_le : (a b : ℕ) → (min a b ≤ a) × (min a b ≤ b)
unfolding min
min_le a b = ground arith

min_zero : (a b : ℕ) → b ≡ 0 → 0 ≡ min a b
unfolding min
min_zero a b h = ground (arith, h)

module _ {ℓ} {T : Type ℓ} where
  pub slice-write :
      (cells : ℕ → T) (i n j : ℕ) (x : T)
      → i + n ≤ j
      → slice (write cells j x) i n ≡ slice cells i n
  unfolding slice write
  slice-write cells i zero j x h = refl
  slice-write cells i (suc n) j x h =
      let later = slice-write cells (i + 1) n j x (omega arith) in
      let apart : (i == j) ≡ false = ground (arith, h) in rw (apart, later) refl

  pub slice-suc :
      (cells : ℕ → T) (i n : ℕ) → slice cells i (suc n) ≡ slice cells i n ++ cells (i + n) ∷ []
  unfolding slice
  slice-suc cells i zero = ap (λ j. cells j ∷ []) (omega arith)
  slice-suc cells i (suc n) =
      ap (λ l. cells i ∷ l)
        (slice-suc cells (i + 1) n ∙ ap (λ j. slice cells (i + 1) n ++ cells j ∷ []) (omega arith))

  pub take-slice : (cells : ℕ → T) (i n k : ℕ) → k ≤ n → take k (slice cells i n) ≡ slice cells i k
  unfolding slice
  take-slice cells i n zero h = refl
  take-slice cells i zero (suc k) h = absurd (omega arith)
  take-slice cells i (suc n) (suc k) h =
      ap (λ l. cells i ∷ l) (take-slice cells (i + 1) n k (omega arith))

  pub get-slice :
      (cells : ℕ → T) (i n k : ℕ) → k < n → get_elem? (slice cells i n) k ≡ some (cells (i + k))
  unfolding slice
  get-slice cells i zero k h = absurd (omega arith)
  get-slice cells i (suc n) zero h = ap (λ j. some (cells j)) (omega arith)
  get-slice cells i (suc n) (suc k) h =
      get-slice cells (i + 1) n k (omega arith) ∙ ap (λ j. some (cells j)) (omega arith)

  abbrev pub pushed : RingBufferQueue T → T → RingBufferQueue T
  pushed q x = record q { data_ = write q.data_ (q.head_ + 1) x; head_ = q.head_ + 1 }

  write_same : (cells : ℕ → T) (i j : ℕ) (x : T) → j ≡ i → write cells i x j ≡ x
  unfolding write
  write_same cells i j x h = ground (arith, h)

  items-pushed :
      (q : RingBufferQueue T) (x : T) → IsValid q → items (pushed q x) ≡ items q ++ x ∷ []
  unfolding items size
  items-pushed q x v =
      let n = q.head_ - q.tail_ in
      let cells = write q.data_ (q.head_ + 1) x in
      let low = v.order in
      ap (slice cells (q.tail_ + 1)) (omega arith)
      ∙ slice-suc cells (q.tail_ + 1) n
      ∙ rw
          (
            slice-write q.data_ (q.tail_ + 1) n (q.head_ + 1) x (omega arith),
            write_same q.data_ (q.head_ + 1) (q.tail_ + 1 + n) x (omega arith),
          )
          refl

  -- A push on a valid queue that is not full succeeds, and puts the element behind the others.
  pub items-push_back :
      (q : RingBufferQueue T) (x : T)
      → IsValid q
      → is_full q ≡ false
      → (push_back q x ≡ some (pushed q x)) × (items (pushed q x) ≡ items q ++ x ∷ [])
  unfolding push_back
  items-push_back q x v h = (rw h refl, items-pushed q x v)

  abbrev shorter : RingBufferQueue T → ℕ → RingBufferQueue T
  shorter q count = record q { head_ = q.head_ - min count (size q) }

  items-shorter :
      (q : RingBufferQueue T) (count : ℕ)
      → IsValid q
      → items (shorter q count) ≡ take (size q - min count (size q)) (items q)
  unfolding items size
  items-shorter q count v =
      let n = q.head_ - q.tail_ in
      let c = min count n in
      let low = v.order in
      let bound = (min_le count n).1 in
      ap (slice q.data_ (q.tail_ + 1)) (omega arith)
      ∙ sym (take-slice q.data_ (q.tail_ + 1) n (n - c) (omega arith))

  all_items : (q : RingBufferQueue T) → take (size q - 0) (items q) ≡ items q
  unfolding items size
  all_items q =
      take-slice q.data_ (q.tail_ + 1) (q.head_ - q.tail_) (q.head_ - q.tail_ - 0) (omega arith)
      ∙ ap (slice q.data_ (q.tail_ + 1)) (omega arith)

  none_of : (q : RingBufferQueue T) → q.tail_ ≡ q.head_ → size q ≡ 0
  unfolding size
  none_of q e = omega arith

  -- On a valid queue `Truncate` takes elements off the back: `count` of them, or all where there are
  -- fewer.
  pub items-truncate :
      (q : RingBufferQueue T) (count : ℕ)
      → IsValid q
      → (items (truncate q count).0 ≡ take (size q - (truncate q count).1) (items q))
        × ((truncate q count).1 ≡ min count (size q))
  unfolding truncate
  items-truncate q count v = elim (Bool-cases (q.tail_ == q.head_)) [
    | inl e ↦
        rw e (sym (all_items q), min_zero count (size q) (none_of q (==→eq q.tail_ q.head_ e)))
    | inr e ↦ rw e (items-shorter q count v, refl)
  ]

  -- On a valid queue `At` and `RAt` read the elements from the front and from the back.
  pub get-items :
      (q : RingBufferQueue T) (i : ℕ)
      → IsValid q
      → i < size q
      → (get_elem? (items q) i ≡ some (at q i))
        × (get_elem? (items q) (size q - 1 - i) ≡ some (r_at q i))
  unfolding items at r_at size
  get-items q i v h =
      let n = q.head_ - q.tail_ in
      let low = v.order in
      (
        get-slice q.data_ (q.tail_ + 1) n i h ∙ ap (λ j. some (q.data_ j)) (omega arith),
        get-slice q.data_ (q.tail_ + 1) n (n - 1 - i) (omega arith)
            ∙ ap (λ j. some (q.data_ j)) (omega arith),
      )
