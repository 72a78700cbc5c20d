-- ===== src/Codec/Splitting.antt =====
-- `Split` of codec.hpp against joining by the delimiter.
use moyuan_kv.Prelude.{
  ◌==◌, ==→eq, Bool-cases, Option-cases, length, take, drop, All, length-append, take-append,
  drop-length-suc, Bytes, ℕ, zero, suc, ◌+◌, ◌≤◌, ◌<◌, ◌≡◌, refl, sym, ap, ap₂, ◌∙◌, subst, ◌≢◌,
  inl, inr, Option, none, some, List, [], ◌∷◌, ◌++◌, arith,
}
use moyuan_kv.Codec.{find, split_loop, split}

-- The fields of a line, with the delimiter between them.
abbrev pub join_with : ℕ → List Bytes → Bytes
join_with d [] = []
join_with d (t ∷ []) = t
join_with d (t ∷ u ∷ ts) = t ++ d ∷ join_with d (u ∷ ts)

abbrev pub Lacks : ℕ → Bytes → Type 0
Lacks d t = All (λ ch. ch ≢ d) t

pub find-append : (d : ℕ) (t rest : Bytes) → Lacks d t → find d (t ++ d ∷ rest) ≡ some (length t)
unfolding find
find-append d [] rest h = ground arith
find-append d (x ∷ t) rest h = ground (arith, find-append d t rest h.1, h.0)

pub find_lacking : (d : ℕ) (t : Bytes) → Lacks d t → find d t ≡ none
unfolding find
find_lacking d [] h = refl
find_lacking d (x ∷ t) h = ground (arith, find_lacking d t h.1, h.0)

-- What `find` reports: the text before the position lacks the byte, and the byte stands there.
abbrev Found : ℕ → Bytes → Option ℕ → Type 0
Found d raw none = Lacks d raw
Found d raw (some pos) =
    Lacks d (take pos raw)
    × (raw ≡ take pos raw ++ d ∷ drop (suc pos) raw)
    × (length (drop (suc pos) raw) < length raw)

find_suc :
    (d ch : ℕ) (raw : Bytes) (o : Option ℕ)
    → ch ≢ d
    → Found d raw o
    → Found d (ch ∷ raw) (elim o [ none ↦ none | some pos ↦ some (suc pos) ])
find_suc d ch raw none h f = (h, f)
find_suc d ch raw (some pos) h (l, e, n) = ((h, l), ap (◌∷◌ ch) e, omega arith)

pub find-Found : (d : ℕ) (raw : Bytes) → Found d raw (find d raw)
unfolding find
find-Found d [] = tt
find-Found d (ch ∷ raw) = elim (Bool-cases (ch == d)) [
  | inl e ↦ rw e (tt, ap (λ (c : ℕ). c ∷ raw) (==→eq ch d e), omega arith)
  | inr e ↦ rw e (find_suc d ch raw (find d raw) (ground arith) (find-Found d raw))
]

split_loop-none : (f d : ℕ) (raw : Bytes) → find d raw ≡ none → split_loop (suc f) d raw ≡ raw ∷ []
unfolding split_loop
split_loop-none f d raw e = rw (e, split_loop) refl

split_loop-some :
    (f d : ℕ) (raw : Bytes) (pos : ℕ)
    → find d raw ≡ some pos
    → split_loop (suc f) d raw ≡ take pos raw ∷ split_loop f d (drop (pos + 1) raw)
unfolding split_loop
split_loop-some f d raw pos e = rw (e, split_loop) refl

split_loop-ne-nil : (f d : ℕ) (raw : Bytes) → length raw < f → split_loop f d raw ≢ []
split_loop-ne-nil zero d raw h = elim h [ ]
split_loop-ne-nil (suc f) d raw h = elim (Option-cases (find d raw)) [
  | inl e ↦ rw (split_loop-none f d raw e) (λ k. cc)
  | inr (pos, e) ↦ rw (split_loop-some f d raw pos e) (λ k. cc)
]

join_with_cons :
    (d : ℕ) (t : Bytes) (ts : List Bytes) → ts ≢ [] → join_with d (t ∷ ts) ≡ t ++ d ∷ join_with d ts
join_with_cons d t [] h = absurd (h refl)
join_with_cons d t (u ∷ ts) h = refl

-- One round takes the first field off, and the rest is shorter.
split_round :
    (f d : ℕ) (raw : Bytes) (pos : ℕ)
    → find d raw ≡ some pos
    → Lacks d (take pos raw)
      × (raw ≡ take pos raw ++ d ∷ drop (pos + 1) raw)
      × (length (drop (pos + 1) raw) < length raw)
split_round f d raw pos e =
    let step : suc pos ≡ pos + 1 = omega arith in
    subst
      (λ n.
        Lacks d (take pos raw)
        × (raw ≡ take pos raw ++ d ∷ drop n raw)
        × (length (drop n raw) < length raw))
      step (subst (Found d raw) e (find-Found d raw))

join_with-split_loop :
    (f d : ℕ) (raw : Bytes) → length raw < f → join_with d (split_loop f d raw) ≡ raw
join_with-split_loop zero d raw h = elim h [ ]
join_with-split_loop (suc f) d raw h = elim (Option-cases (find d raw)) [
  | inl e ↦ rw (split_loop-none f d raw e) refl
  | inr (pos, e) ↦
      let round = split_round f d raw pos e in
      let shorter : length (drop (pos + 1) raw) < f = omega arith in
      rw (split_loop-some f d raw pos e) (
        join_with_cons d (take pos raw) _ (split_loop-ne-nil f d (drop (pos + 1) raw) shorter)
        ∙ ap (λ ts. take pos raw ++ d ∷ ts) (join_with-split_loop f d (drop (pos + 1) raw) shorter)
        ∙ sym round.1)
]

-- Joining the fields of `Split` with the delimiter gives the text back, for every text.
pub join_with-split : (raw : Bytes) (d : ℕ) → join_with d (split raw d) ≡ raw
unfolding split
join_with-split raw d = join_with-split_loop (suc (length raw)) d raw (omega arith)

split_loop-join_with :
    (f d : ℕ) (t : Bytes) (ts : List Bytes)
    → All (Lacks d) (t ∷ ts)
    → length ts < f
    → split_loop f d (join_with d (t ∷ ts)) ≡ t ∷ ts
split_loop-join_with zero d t ts l h = elim h [ ]
split_loop-join_with (suc f) d t [] l h = split_loop-none f d t (find_lacking d t l.0)
split_loop-join_with (suc f) d t (u ∷ ts) l h =
    let rest = join_with d (u ∷ ts) in
    split_loop-some f d (t ++ d ∷ rest) (length t) (find-append d t rest l.0)
    ∙ ap₂ ◌∷◌ (take-append t (d ∷ rest)) (
        ap (λ n. split_loop f d (drop n (t ++ d ∷ rest))) {y = suc (length t)} (omega arith)
        ∙ ap (split_loop f d) (drop-length-suc t rest d)
        ∙ split_loop-join_with f d u ts l.1 (omega arith))

fields-le : (d : ℕ) (t : Bytes) (ts : List Bytes) → length ts ≤ length (join_with d (t ∷ ts))
fields-le d t [] = omega arith
fields-le d t (u ∷ ts) = omega (arith, fields-le d u ts, length-append t (d ∷ join_with d (u ∷ ts)))

-- `Split` returns exactly the fields that were joined, when none of them holds the delimiter.
pub split-join_with :
    (d : ℕ) (t : Bytes) (ts : List Bytes)
    → All (Lacks d) (t ∷ ts)
    → split (join_with d (t ∷ ts)) d ≡ t ∷ ts
unfolding split
split-join_with d t ts l =
    split_loop-join_with (suc (length (join_with d (t ∷ ts)))) d t ts l
      (omega (arith, fields-le d t ts))
