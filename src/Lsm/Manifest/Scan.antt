-- ===== src/Lsm/Manifest/Scan.antt =====
-- The scan over the next level: which tables lie below, across and above the merged key range.
use moyuan_kv.Prelude.{
  Bool-cases, length, All, Bytes, blt_irrefl, blt_trans, blt, ℕ, ◌+◌, ◌≡◌, refl, ap, ◌⊎◌, inl, inr,
  true, false, List, [], ◌∷◌, ◌++◌, arith,
}
use moyuan_kv.Lsm.Entries.{
  Entry, Sorted, Sorted-append, Before, Above, blt_asym, Above-append, Before-append,
}
use moyuan_kv.Lsm.Runs.{StartsWith}
use moyuan_kv.Lsm.Sst.{Sst, entries}
use moyuan_kv.Lsm.Level.Search.{all_entries}
use moyuan_kv.Lsm.Manifest.{
  ScanState, begin_key_of, end_key_of, begin_key, end_key, push, push_all, scan,
}

abbrev pub NotEmpty : List Entry → Type 0
NotEmpty [] = ⊥
NotEmpty (e ∷ es) = Unit

pub NotEmpty-of_start : (k : Bytes) (es : List Entry) → StartsWith k es → NotEmpty es
NotEmpty-of_start k [] h = absurd h
NotEmpty-of_start k (e ∷ es) h = tt

-- What holds of every key holds of the first and of the last.
pub begin_All :
    (P : Bytes → Type 0) (es : List Entry)
    → NotEmpty es
    → All (λ e. P e.key) es
    → P (begin_key_of es)
begin_All P [] n h = absurd n
begin_All P (e ∷ es) n h = h.0

pub end_All :
    (P : Bytes → Type 0) (es : List Entry) → NotEmpty es → All (λ e. P e.key) es → P (end_key_of es)
end_All P [] n h = absurd n
end_All P (e ∷ []) n h = h.0
end_All P (e ∷ f ∷ es) n h = end_All P (f ∷ es) tt h.1

-- No key of a sorted list is above its last one, or below its first one.
pub end_bound : (es : List Entry) → Sorted es → All (λ e. blt (end_key_of es) e.key ≡ false) es
end_bound [] s = tt
end_bound (e ∷ []) s = (blt_irrefl e.key, tt)
end_bound (e ∷ f ∷ es) s = (
  blt_asym e.key (end_key_of (f ∷ es)) (end_All (λ k. blt e.key k ≡ true) (f ∷ es) tt s.0),
  end_bound (f ∷ es) s.1,
)

pub begin_bound : (es : List Entry) → Sorted es → All (λ e. blt e.key (begin_key_of es) ≡ false) es
begin_bound [] s = tt
begin_bound (e ∷ es) s = (blt_irrefl e.key, not_below es s.0)
  where
    not_below : (fs : List Entry) → Above e.key fs → All (λ f. blt f.key e.key ≡ false) fs
    not_below [] a = tt
    not_below (f ∷ fs) a = (blt_asym e.key f.key a.0, not_below fs a.1)

-- In a sorted sequence of tables the last keys rise.
ends_rise :
    (xs : List Entry) (ss : List Sst)
    → NotEmpty xs
    → All (λ s. NotEmpty (entries s)) ss
    → Before xs (all_entries ss)
    → All (λ s. blt (end_key_of xs) (end_key s) ≡ true) ss
unfolding end_key
ends_rise xs [] n v b = tt
ends_rise xs (s ∷ ss) n v b =
    let last = end_All (λ k. Above k (all_entries (s ∷ ss))) xs n b in
    let parts = Above-append (end_key_of xs) (entries s) (all_entries ss) last in
    (
      end_All (λ k. blt (end_key_of xs) k ≡ true) (entries s) v.0 parts.0,
      ends_rise xs ss n v.1 (Before-append xs (entries s) (all_entries ss) b).1,
    )

-- The tables above the range: none, or the first of them starts above its end.
abbrev pub HighFrom : Bytes → List Sst → Type 0
HighFrom max_key [] = Unit
HighFrom max_key (s ∷ ss) = blt max_key (begin_key s) ≡ true

module _ (min_key max_key : Bytes) where
  -- What the scan ends with when no table lies below the range.
  record ScannedAcross (i : ℕ) (st : ScanState) (ss : List Sst) (end : ScanState) : Type 0 where
    across : List Sst
    high : List Sst
    parts : ss ≡ across ++ high
    high_above : HighFrom max_key high
    left : end.insert_l ≡ st.insert_l
    right : ((high ≡ []) × (end.insert_r ≡ st.insert_r)) ⊎ (end.insert_r ≡ i + length across)
    queue : end.queue ≡ push_all st.queue across

  scan_across :
      (ss : List Sst) (i : ℕ) (st : ScanState)
      → All (λ s. blt (end_key s) min_key ≡ false) ss
      → ScannedAcross i st ss (scan min_key max_key ss i st)
  unfolding scan push_all
  scan_across [] i st h = record {
    across = [];
    high = [];
    parts = refl;
    high_above = tt;
    left = refl;
    right = inl (refl, refl);
    queue = refl;
  }
  scan_across (s ∷ ss) i st h = elim (Bool-cases (blt max_key (begin_key s))) [
    | inl e ↦
        rw (h.0, e, scan)
          (record {
            across = [];
            high = s ∷ ss;
            parts = refl;
            high_above = e;
            left = refl;
            right = inr (omega arith);
            queue = refl;
          })
    | inr e ↦
        let r = scan_across ss (i + 1) (record st { queue = push st.queue s }) h.1 in
        rw (h.0, e, scan)
          (record {
            across = s ∷ r.across;
            high = r.high;
            parts = ap (◌∷◌ s) r.parts;
            high_above = r.high_above;
            left = r.left;
            right = elim r.right [ inl x ↦ inl x | inr x ↦ inr (omega arith) ];
            queue = r.queue;
          })
  ]

  -- What the scan over sorted tables ends with: those below the range, those across it and those
  -- above it, in this order, with the positions between them and the overlapping ones in the queue.
  pub record Scanned (i : ℕ) (st : ScanState) (ss : List Sst) (end : ScanState) : Type 0 where
    pub low : List Sst
    pub across : List Sst
    pub high : List Sst
    pub parts : ss ≡ low ++ (across ++ high)
    pub low_below : All (λ s. blt (end_key s) min_key ≡ true) low
    pub high_above : HighFrom max_key high
    pub left : ((low ≡ []) × (end.insert_l ≡ st.insert_l)) ⊎ (end.insert_l ≡ i + length low)
    pub right :
        ((high ≡ []) × (end.insert_r ≡ st.insert_r))
        ⊎ (end.insert_r ≡ i + length low + length across)
    pub queue : end.queue ≡ push_all st.queue across

  above_ends :
      (k : Bytes) (ss : List Sst)
      → blt k min_key ≡ false
      → All (λ s. blt k (end_key s) ≡ true) ss
      → All (λ s. blt (end_key s) min_key ≡ false) ss
  above_ends k [] n a = tt
  above_ends k (s ∷ ss) n a = (
    elim (Bool-cases (blt (end_key s) min_key)) [
      | inl e ↦ cc (blt_trans k (end_key s) min_key a.0 e)
      | inr e ↦ e
    ],
    above_ends k ss n a.1,
  )

  pub scan-Scanned :
      (ss : List Sst) (i : ℕ) (st : ScanState)
      → All (λ s. NotEmpty (entries s)) ss
      → Sorted (all_entries ss)
      → Scanned i st ss (scan min_key max_key ss i st)
  unfolding scan
  scan-Scanned [] i st v s = record {
    low = [];
    across = [];
    high = [];
    parts = refl;
    low_below = tt;
    high_above = tt;
    left = inl (refl, refl);
    right = inl (refl, refl);
    queue = unfold push_all in refl;
  }
  scan-Scanned (t ∷ ts) i st v s = elim (Bool-cases (blt (end_key t) min_key)) [
    | inl e ↦
        let r =
          scan-Scanned ts (i + 1) (record st { insert_l = i + 1 }) v.1
            (Sorted-append (entries t) (all_entries ts) s).1 in
        rw (e, scan)
          (record {
            low = t ∷ r.low;
            across = r.across;
            high = r.high;
            parts = ap (◌∷◌ t) r.parts;
            low_below = (e, r.low_below);
            high_above = r.high_above;
            left = inr (elim r.left [ inl (x, y) ↦ rw x (omega arith) | inr x ↦ omega arith ]);
            right = elim r.right [ inl x ↦ inl x | inr x ↦ inr (omega arith) ];
            queue = r.queue;
          })
    | inr e ↦
        let parts = Sorted-append (entries t) (all_entries ts) s in
        let rising = ends_rise (entries t) ts v.0 v.1 parts.2 in
        let r =
          scan_across (t ∷ ts) i st (e, above_ends (end_key t) ts e (unfold end_key in rising)) in
        record {
          low = [];
          across = r.across;
          high = r.high;
          parts = r.parts;
          low_below = tt;
          high_above = r.high_above;
          left = inl (refl, r.left);
          right = elim r.right [ inl x ↦ inl x | inr x ↦ inr (omega arith) ];
          queue = r.queue;
        }
  ]
