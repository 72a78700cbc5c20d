-- ===== src/Lsm/Insertion.antt =====
-- Writing a key to a sorted list of entries, with what a read sees afterwards.
use moyuan_kv.Prelude.{
  if◌then◌else◌, Bool-cases, Bytes, beq_comm, beq→eq, blt_trans, beq, blt, ◌≡◌, refl, sym, ap, inl,
  inr, true, false, none, some, List, [], ◌∷◌, arith,
}
use moyuan_kv.Lsm.Entries.{Entry, Sorted, Above, lookup, lookup-Above, blt_of_ne}

-- A write to a sorted list of entries: the specification of the writes of the program.
unfoldable pub insert : Bytes → Bytes → List Entry → List Entry
insert k v [] = record { key = k; value = v } ∷ []
insert k v (e ∷ es) =
    let rest = insert k v es in
    if beq e.key k
    then record { key = e.key; value = v } ∷ es
    else if blt k e.key
    then record { key = k; value = v } ∷ e ∷ es
    else e ∷ rest

same_key : (a b j : Bytes) → beq a b ≡ true → beq a j ≡ beq b j
same_key a b j e = ap (λ (x : Bytes). beq x j) (beq→eq a b e)

pub lookup-insert :
    (k v : Bytes) (es : List Entry) (j : Bytes)
    → lookup j (insert k v es) ≡ (if beq k j then some v else lookup j es)
unfolding lookup insert
lookup-insert k v [] j = refl
lookup-insert k v (e ∷ es) j = elim (Bool-cases (beq e.key k)) [
  | inl s ↦ rw (s, same_key e.key k j s) (ground arith)
  | inr n ↦ rw n (elim (Bool-cases (blt k e.key)) [
    | inl b ↦ rw b refl
    | inr b ↦
        rw (b, lookup-insert k v es j)
          (elim (Bool-cases (beq e.key j)) [
            | inl f ↦
                let differ : beq k j ≡ false = elim (Bool-cases (beq k j)) [
                  | inl g ↦
                      absurd
                        (ground (arith, n, beq_comm k j, g, same_key e.key j k f, beq_comm j k))
                  | inr g ↦ g
                ] in
                rw (f, differ) refl
            | inr f ↦ rw f refl
          ])
  ])
]

Above-insert :
    (a k v : Bytes) (es : List Entry) → blt a k ≡ true → Above a es → Above a (insert k v es)
unfolding insert
Above-insert a k v [] h w = (h, tt)
Above-insert a k v (e ∷ es) h w = elim (Bool-cases (beq e.key k)) [
  | inl s ↦ rw s w
  | inr n ↦ rw n (elim (Bool-cases (blt k e.key)) [
    | inl b ↦ rw b (h, w)
    | inr b ↦ rw b (w.0, Above-insert a k v es h w.1)
  ])
]

pub Above-below : (a b : Bytes) (es : List Entry) → blt a b ≡ true → Above b es → Above a es
Above-below a b [] h w = tt
Above-below a b (e ∷ es) h w = (blt_trans a b e.key h w.0, Above-below a b es h w.1)

pub insert-Sorted : (k v : Bytes) (es : List Entry) → Sorted es → Sorted (insert k v es)
unfolding insert
insert-Sorted k v [] h = (tt, tt)
insert-Sorted k v (e ∷ es) h = elim (Bool-cases (beq e.key k)) [
  | inl s ↦ rw s h
  | inr n ↦ rw n (elim (Bool-cases (blt k e.key)) [
    | inl b ↦ rw b ((b, Above-below k e.key es b h.0), h)
    | inr b ↦ rw b (Above-insert e.key k v es (blt_of_ne e.key k n b) h.0, insert-Sorted k v es h.1)
  ])
]

-- Taking a key out of a list of entries.
unfoldable pub erase : Bytes → List Entry → List Entry
erase k [] = []
erase k (e ∷ es) = if beq e.key k then es else e ∷ erase k es

pub lookup-erase :
    (k : Bytes) (es : List Entry) (j : Bytes)
    → Sorted es
    → lookup j (erase k es) ≡ (if beq k j then none else lookup j es)
unfolding lookup erase
lookup-erase k [] j s = elim (Bool-cases (beq k j)) [ inl e ↦ rw e refl | inr e ↦ rw e refl ]
lookup-erase k (e ∷ es) j s = elim (Bool-cases (beq e.key k)) [
  | inl f ↦
      rw (f, sym (same_key e.key k j f))
        (elim (Bool-cases (beq e.key j)) [
          | inl g ↦ rw (g, sym (beq→eq e.key j g)) (lookup-Above e.key es s.0)
          | inr g ↦ rw g refl
        ])
  | inr f ↦
      rw (f, lookup-erase k es j s.1)
        (elim (Bool-cases (beq e.key j)) [
          | inl g ↦
              let differ : beq k j ≡ false = elim (Bool-cases (beq k j)) [
                | inl h ↦
                    absurd (ground (arith, f, beq_comm k j, h, same_key e.key j k g, beq_comm j k))
                | inr h ↦ h
              ] in
              rw (g, differ) refl
          | inr g ↦ rw g refl
        ])
]

pub Above-erase : (a k : Bytes) (es : List Entry) → Above a es → Above a (erase k es)
unfolding erase
Above-erase a k [] w = tt
Above-erase a k (e ∷ es) w = elim (Bool-cases (beq e.key k)) [
  | inl f ↦ rw f w.1
  | inr f ↦ rw f (w.0, Above-erase a k es w.1)
]

pub erase-Sorted : (k : Bytes) (es : List Entry) → Sorted es → Sorted (erase k es)
unfolding erase
erase-Sorted k [] s = tt
erase-Sorted k (e ∷ es) s = elim (Bool-cases (beq e.key k)) [
  | inl f ↦ rw f s.1
  | inr f ↦ rw f (Above-erase e.key k es s.0, erase-Sorted k es s.1)
]

pub erase-absent : (k : Bytes) (es : List Entry) → lookup k es ≡ none → erase k es ≡ es
unfolding lookup erase
erase-absent k [] = λ h. refl
erase-absent k (e ∷ es) = elim (Bool-cases (beq e.key k)) [
  | inl f ↦ rw f (λ h. absurd (ground (arith, h)))
  | inr f ↦ rw f (λ h. ap (◌∷◌ e) (erase-absent k es h))
]
