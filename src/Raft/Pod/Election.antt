-- ===== src/Raft/Pod/Election.antt =====
-- The requests for votes that one pod grants. Its own ticket in its own election is no such request.
use moyuan_kv.Prelude.{
  ltb, ◌==◌, if◌then◌else◌, ltb→lt, Bool-cases, length, All, ℕ, ◌+◌, ◌/◌, ◌≤◌, ◌<◌, ◌≡◌, refl, sym,
  ◌∙◌, ◌⊎◌, inl, inr, Bool, true, false, ◌&&◌, List, [], ◌∷◌, arith,
}
use moyuan_kv.Raft.Pod.{
  Pod, RequestVoteReq, AppendReq, vote, step_down, follows, accept_leader, solve_append, is_nil,
  start_election, finish_election, is_candidate, count_tickets,
}

unfoldable pub record_vote : Bool → ℕ → List ℕ → List ℕ
record_vote granted term ts = if granted then term ∷ ts else ts

-- The states of a pod with the terms of the requests that `Vote` has granted, the last one first. An append
-- request that the pod follows is of a later term.
pub data Votes : Pod → List ℕ → Type 0 where
  starts : (pod : Pod) → Votes pod []
  asked :
      (now : ℕ) (req : RequestVoteReq) (pod : Pod) (ts : List ℕ)
      → Votes pod ts
      → Votes (vote now req pod).0 (record_vote (vote now req pod).1 req.term ts)
  appends :
      (now : ℕ) (req : AppendReq) (pod : Pod) (ts : List ℕ)
      → (follows req pod ≡ true → pod.term_ < req.term)
      → Votes pod ts
      → Votes (solve_append now req pod).0 ts
  times_out : (pod : Pod) (ts : List ℕ) → Votes pod ts → Votes (start_election pod) ts
  ends :
      (replies : List Bool) (pod : Pod) (ts : List ℕ)
      → Votes pod ts
      → Votes (finish_election replies pod).0 ts

-- Every term is below the ones before it in the list.
abbrev pub Falling : List ℕ → Type 0
Falling [] = Unit
Falling (t ∷ ts) = All (λ u. u < t) ts × Falling ts

abbrev Upto : ℕ → List ℕ → Type 0
Upto n ts = All (λ t. t ≤ n) ts

abbrev Below : ℕ → List ℕ → Type 0
Below n ts = All (λ t. t < n) ts

Upto-mono : (m n : ℕ) (ts : List ℕ) → m ≤ n → Upto m ts → Upto n ts
Upto-mono m n [] h a = tt
Upto-mono m n (t ∷ ts) h a = let b = a.0 in (omega arith, Upto-mono m n ts h a.1)

Below-of_Upto : (m n : ℕ) (ts : List ℕ) → m < n → Upto m ts → Below n ts
Below-of_Upto m n [] h a = tt
Below-of_Upto m n (t ∷ ts) h a = let b = a.0 in (omega arith, Below-of_Upto m n ts h a.1)

record IsSettled (pod : Pod) (ts : List ℕ) : Type 0 where
  falling : Falling ts
  upto : Upto pod.term_ ts
  free : pod.voted_ ≡ false → Below pod.term_ ts

-- What a request changes: nothing where it is refused; where it is granted its term is new, or the
-- pod has no vote in it yet.
record Refused (pod next : Pod) (granted : Bool) : Type 0 where
  no : granted ≡ false
  term : next.term_ ≡ pod.term_
  voted : next.voted_ ≡ pod.voted_

record Granted (pod next : Pod) (granted : Bool) (t : ℕ) : Type 0 where
  yes : granted ≡ true
  term : next.term_ ≡ t
  voted : next.voted_ ≡ true
  fresh : (pod.term_ < t) ⊎ ((t ≡ pod.term_) × (pod.voted_ ≡ false))

vote-cases :
    (now : ℕ) (req : RequestVoteReq) (pod : Pod)
    → Refused pod (vote now req pod).0 (vote now req pod).1
      ⊎ Granted pod (vote now req pod).0 (vote now req pod).1 req.term
unfolding vote step_down
vote-cases now req pod = elim (Bool-cases (ltb req.term pod.term_)) [
  | inl a ↦ rw a (inl (record { no = refl; term = refl; voted = refl }))
  | inr a ↦ elim (Bool-cases (req.term == pod.term_ && ltb req.index pod.raft_log_.index_)) [
    | inl b ↦ rw (a, b) (inl (record { no = refl; term = refl; voted = refl }))
    | inr b ↦ elim (Bool-cases (req.term == pod.term_ && pod.voted_)) [
      | inl c ↦ rw (a, b, c) (inl (record { no = refl; term = refl; voted = refl }))
      | inr c ↦ elim (Bool-cases (ltb pod.term_ req.term)) [
        | inl d ↦
            rw (a, b, c, d)
              (inr (record {
                yes = refl;
                term = refl;
                voted = refl;
                fresh = inl (ltb→lt pod.term_ req.term d);
              }))
        | inr d ↦
            let same : req.term ≡ pod.term_ = ground (arith, a, d) in
            let unvoted : pod.voted_ ≡ false = ground (arith, c, same) in
            rw (a, b, c, d)
              (inr
                (record { yes = refl; term = sym same; voted = refl; fresh = inr (same, unvoted) }))
      ]
    ]
  ]
]

Refused-IsSettled :
    (pod next : Pod) (granted : Bool) (t : ℕ) (ts : List ℕ)
    → IsSettled pod ts
    → Refused pod next granted
    → IsSettled next (record_vote granted t ts)
unfolding record_vote
Refused-IsSettled pod next granted t ts s r = rw r.no (record {
  falling = s.falling;
  upto = rw r.term s.upto;
  free = λ f. rw r.term (s.free (sym r.voted ∙ f));
})

Below-fresh :
    (pod : Pod) (t : ℕ) (ts : List ℕ)
    → IsSettled pod ts
    → (pod.term_ < t) ⊎ ((t ≡ pod.term_) × (pod.voted_ ≡ false))
    → Below t ts
Below-fresh pod t ts s (inl h) = Below-of_Upto pod.term_ t ts h s.upto
Below-fresh pod t ts s (inr h) = rw h.0 (s.free h.1)

Granted-IsSettled :
    (pod next : Pod) (granted : Bool) (t : ℕ) (ts : List ℕ)
    → IsSettled pod ts
    → Granted pod next granted t
    → IsSettled next (record_vote granted t ts)
unfolding record_vote
Granted-IsSettled pod next granted t ts s g =
    let below = Below-fresh pod t ts s g.fresh in
    rw g.yes (record {
      falling = (below, s.falling);
      upto =
          let same = g.term in
          Upto-mono t next.term_ (t ∷ ts) (omega arith) (omega arith, Upto_of_Below t ts below);
      free = λ f. absurd (ground (arith, f, g.voted));
    })
  where
    Upto_of_Below : (n : ℕ) (us : List ℕ) → Below n us → Upto n us
    Upto_of_Below n [] a = tt
    Upto_of_Below n (u ∷ us) a = let b = a.0 in (omega arith, Upto_of_Below n us a.1)

-- Where a term is later and the vote is withdrawn, or neither of the two changes.
later-IsSettled :
    (pod next : Pod) (ts : List ℕ)
    → IsSettled pod ts
    → (pod.term_ < next.term_) ⊎ ((next.term_ ≡ pod.term_) × (next.voted_ ≡ pod.voted_))
    → IsSettled next ts
later-IsSettled pod next ts s (inl h) = record {
  falling = s.falling;
  upto = Upto-mono pod.term_ next.term_ ts (omega arith) s.upto;
  free = λ f. Below-of_Upto pod.term_ next.term_ ts h s.upto;
}
later-IsSettled pod next ts s (inr h) = record {
  falling = s.falling;
  upto = rw h.0 s.upto;
  free = λ f. rw h.0 (s.free (sym h.1 ∙ f));
}

solve_append-later :
    (now : ℕ) (req : AppendReq) (pod : Pod)
    → (follows req pod ≡ true → pod.term_ < req.term)
    → (pod.term_ < (solve_append now req pod).0.term_)
      ⊎ (((solve_append now req pod).0.term_ ≡ pod.term_)
          × ((solve_append now req pod).0.voted_ ≡ pod.voted_))
unfolding solve_append accept_leader step_down
solve_append-later now req pod h = elim (Bool-cases (follows req pod)) [
  | inl f ↦ elim (Bool-cases (is_nil req.entrys)) [
    | inl n ↦ rw (f, n) (inl (h f))
    | inr n ↦ rw (f, n) (inl (h f))
  ]
  | inr f ↦ elim (Bool-cases (is_nil req.entrys)) [
    | inl n ↦ rw (f, n) (inr (refl, refl))
    | inr n ↦ rw (f, n) (inr (refl, refl))
  ]
]

finish_election-same :
    (replies : List Bool) (pod : Pod)
    → ((finish_election replies pod).0.term_ ≡ pod.term_)
      × ((finish_election replies pod).0.voted_ ≡ pod.voted_)
unfolding finish_election
finish_election-same replies pod = elim (Bool-cases (is_candidate pod.status_)) [
  | inl c ↦ elim (Bool-cases (ltb ((length pod.followers_ + 1) / 2) (count_tickets replies))) [
    | inl w ↦ rw (c, w) (refl, refl)
    | inr w ↦ rw (c, w) (refl, refl)
  ]
  | inr c ↦ rw c (refl, refl)
]

start_election-later : (pod : Pod) → pod.term_ < (start_election pod).term_
unfolding start_election
start_election-later pod = omega arith

Votes-IsSettled : (pod : Pod) (ts : List ℕ) → Votes pod ts → IsSettled pod ts
Votes-IsSettled _ _ (starts pod) = record { falling = tt; upto = tt; free = λ f. tt }
Votes-IsSettled _ _ (asked now req pod ts v) =
    let s = Votes-IsSettled pod ts v in
    elim (vote-cases now req pod) [
      | inl r ↦ Refused-IsSettled pod _ _ req.term ts s r
      | inr g ↦ Granted-IsSettled pod _ _ req.term ts s g
    ]
Votes-IsSettled _ _ (appends now req pod ts h v) =
    later-IsSettled pod (solve_append now req pod).0 ts (Votes-IsSettled pod ts v)
      (solve_append-later now req pod h)
Votes-IsSettled _ _ (times_out pod ts v) =
    later-IsSettled pod (start_election pod) ts (Votes-IsSettled pod ts v)
      (inl (start_election-later pod))
Votes-IsSettled _ _ (ends replies pod ts v) =
    later-IsSettled pod (finish_election replies pod).0 ts (Votes-IsSettled pod ts v)
      (inr (finish_election-same replies pod))

-- The calls of `Vote` on a pod grant at most one request in a term, and requests of rising terms only,
-- if the append requests that it follows are of a later term than its own. The ticket that the pod
-- counts for itself in its own election is not among these.
pub Votes-Falling : (pod : Pod) (ts : List ℕ) → Votes pod ts → Falling ts
Votes-Falling pod ts v = let s = Votes-IsSettled pod ts v in s.falling

solve_append-reset :
    (now : ℕ) (req : AppendReq) (pod : Pod)
    → follows req pod ≡ true
    → ((solve_append now req pod).0.term_ ≡ req.term)
      × ((solve_append now req pod).0.voted_ ≡ false)
unfolding solve_append accept_leader step_down
solve_append-reset now req pod f = elim (Bool-cases (is_nil req.entrys)) [
  | inl n ↦ rw (f, n) (refl, refl)
  | inr n ↦ rw (f, n) (refl, refl)
]

vote_free :
    (now : ℕ) (req : RequestVoteReq) (pod : Pod)
    → req.term ≡ pod.term_
    → pod.voted_ ≡ false
    → pod.raft_log_.index_ ≤ req.index
    → (vote now req pod).1 ≡ true
unfolding vote
vote_free now req pod t v i =
    let a : ltb req.term pod.term_ ≡ false = ground (arith, t) in
    let b : (req.term == pod.term_ && ltb req.index pod.raft_log_.index_) ≡ false =
      ground (arith, i) in
    let c : (req.term == pod.term_ && pod.voted_) ≡ false = ground (arith, v) in
    let d : ltb pod.term_ req.term ≡ false = ground (arith, t) in rw (a, b, c, d) refl

-- An append request of the pod's own term with an entry beyond its log withdraws the vote of that
-- term: a request of that term with a log as long is then granted, whatever was granted before.
pub vote-again :
    (now : ℕ) (append : AppendReq) (req : RequestVoteReq) (pod : Pod)
    → append.term ≡ pod.term_
    → follows append pod ≡ true
    → req.term ≡ pod.term_
    → (solve_append now append pod).0.raft_log_.index_ ≤ req.index
    → (vote now req (solve_append now append pod).0).1 ≡ true
vote-again now append req pod a f t i =
    let r = solve_append-reset now append pod f in
    vote_free now req (solve_append now append pod).0 (t ∙ sym a ∙ sym r.0) r.1 i
