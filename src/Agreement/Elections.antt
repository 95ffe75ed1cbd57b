-- ===== src/Agreement/Elections.antt =====
-- An election while its members answer: the candidate's own vote, its request, and one talk at a time.
use mathlib.Core.Option.{some-injective}
use atomix_go_raft.Base.{
  ℕ, ◌+◌, ◌≤◌, ◌≡◌, refl, sym, ap, subst, ◌∙◌, Bool, true, false, not, inl, inr, Option, none, some,
  List, [], ◌∷◌, ◌++◌, arith, ltb, length, if◌then◌else◌, if_cases, ◌==◌, str_eq, eq_iff, All, Elem,
  Elem-middle, Elem-middle_rest, Elem-append_right, Bool-cases, Option-cases, add64,
}
use atomix_go_raft.Store.Log.{Log, last_entry}
use atomix_go_raft.Protocol.Cluster.{MemberId}
use atomix_go_raft.Protocol.Raft.{Raft, set_term, set_last_voted_for}
use atomix_go_raft.Protocol.Raft.Invariant.{set_term-Grows}
use atomix_go_raft.Protocol.Messages.{VoteRequest, VoteResponse}
use atomix_go_raft.Roles.Candidacy.{Round, Ballot, begin_election, vote_request, answer_vote}
use atomix_go_raft.Agreement.{
  Talk, waiting, answered, granted, refused, Election, Grant, open_talks, talk_after,
}
use atomix_go_raft.Agreement.Talks.{
  keys, voters, gathered, is_granted, keys-replace, length-voters_more,
}
use atomix_go_raft.Agreement.Invariant.{vote_of, IsTrue, IsFair}

set_last_voted_for_ok :
    (id : MemberId) (r : Raft)
    → (set_last_voted_for id r).1 ≡ none
    → ((set_last_voted_for id r).0.term ≡ r.term)
      × ((set_last_voted_for id r).0.last_voted_for ≡ some id)
unfolding set_last_voted_for
set_last_voted_for_ok id r h = ground (arith, h)

-- A candidate that begins an election has voted for itself in the new term.
pub begin_election-voted :
    (active : Bool) (r : Raft) {term : ℕ}
    → (begin_election active r).1 ≡ some term
    → ((begin_election active r).0.term ≡ term)
      × ((begin_election active r).0.last_voted_for ≡ some r.cluster.member)
unfolding begin_election
begin_election-voted false r h = cc
begin_election-voted true r {term} h =
    let r₁ = (set_term (add64 r.term 1) r).0 in
    let r₂ = (set_last_voted_for r₁.cluster.member r₁).0 in
    elim (Option-cases (set_term (add64 r.term 1) r).1) [
      | inr (e, failed) ↦ absurd (let k : none ≡ some term = rw failed at h in cc)
      | inl ok ↦ elim (Option-cases (set_last_voted_for r₁.cluster.member r₁).1) [
        | inr (e, failed) ↦ absurd (let k : none ≡ some term = rw (ok, failed) at h in cc)
        | inl voted ↦
            let k : some r₂.term ≡ some term = rw (ok, voted) at h in
            let same : r₁.cluster ≡ r.cluster = (set_term-Grows (add64 r.term 1) r).cluster in
            rw (ok, voted)
              (
                some-injective _ _ k,
                (set_last_voted_for_ok r₁.cluster.member r₁ voted).1 ∙ ap (λ c. some c.member) same,
              )
      ]
    ]

pub vote_request_lem :
    (term : ℕ) (l : Log) (r : Raft)
    → ((vote_request term l r).term ≡ term) × ((vote_request term l r).candidate ≡ r.cluster.member)
unfolding vote_request
vote_request_lem term l r = elim (Option-cases (last_entry l)) [
  | inl empty ↦ rw (empty, vote_request) (refl, refl)
  | inr (e, last) ↦ rw (last, vote_request) (refl, refl)
]

-- One election replaced by another.
pub replaced-IsFair :
    (members : List MemberId) (grants : List Grant) (front back elections : List Election)
    (e f : Election)
    → elections ≡ front ++ e ∷ back
    → ((x : Election) → Elem x elections → IsFair members grants x)
    → (IsFair members grants e → IsFair members grants f)
    → (x : Election) → Elem x (front ++ f ∷ back)
    → IsFair members grants x
replaced-IsFair members grants front back elections e f at fair keeps x there =
    elim (Elem-middle x f front back there) [
      | inl same ↦ subst (IsFair members grants) (sym same) (
          keeps
            (fair e (subst (Elem e) (sym at) (Elem-append_right e front (e ∷ back) (inl refl)))))
      | inr rest ↦ fair x (subst (Elem x) (sym at) (Elem-middle_rest x e front back rest))
    ]

-- One member's talk replaced by another.
All-middle :
    (P : MemberId × Talk → Type 0) (xs ys : List (MemberId × Talk)) (t u : MemberId × Talk)
    → All P (xs ++ t ∷ ys)
    → (P t → P u)
    → All P (xs ++ u ∷ ys)
All-middle P [] ys t u h k = (k h.0, h.1)
All-middle P (x ∷ xs) ys t u h k = (h.0, All-middle P xs ys t u h.1 k)

pub All-at :
    (P : MemberId × Talk → Type 0) (xs ys : List (MemberId × Talk)) (t : MemberId × Talk)
    → All P (xs ++ t ∷ ys)
    → P t
All-at P [] ys t h = h.0
All-at P (x ∷ xs) ys t h = All-at P xs ys t h.1

-- A talk that was pending goes on, and the round may gather the vote that it becomes.
pub talked-IsFair :
    (members : List MemberId) (grants : List Grant) (e : Election) (round : Round)
    (xs ys : List (MemberId × Talk)) (id : MemberId) (t u : Talk)
    → e.talks ≡ xs ++ (id, t) ∷ ys
    → is_granted t ≡ false
    → (IsTrue grants e.request (id, t) → IsTrue grants e.request (id, u))
    → round.term ≡ e.round.term
    → gathered round ≤ gathered e.round + (if is_granted u then 1 else 0)
    → IsFair members grants e
    → IsFair members grants (record e { round = round; talks = xs ++ (id, u) ∷ ys })
talked-IsFair members grants e round xs ys id t u at pending true_of term more f = record {
  keys = sym (keys-replace id t u ys xs) ∙ ap keys (sym at) ∙ f.keys;
  talks =
      All-middle (IsTrue grants e.request) xs ys (id, t) (id, u)
        (subst (All (IsTrue grants e.request)) at f.talks) true_of;
  gathered = omega (
    arith,
    more,
    f.gathered,
    length-voters_more id t u ys xs pending,
    ap (λ ts. length (voters ts)) at,
  );
  term = term ∙ f.term;
}

-- The talks of a new election: the candidate has its own vote, and the others have not answered.
pub open_talks-IsTrue :
    (grants : List Grant) (request : VoteRequest) (self : MemberId)
    → request.candidate ≡ self
    → Elem (vote_of self request) grants
    → (ms : List MemberId) → All (IsTrue grants request) (open_talks self ms)
unfolding open_talks
open_talks-IsTrue grants request self own given [] = tt
open_talks-IsTrue grants request self own given (m ∷ ms) = elim (Bool-cases (str_eq m self)) [
  | inl same ↦ rw same (
    subst (λ v. Elem (vote_of v request) grants) (sym ((eq_iff m self).0 same)) given,
    open_talks-IsTrue grants request self own given ms,
  )
  | inr other ↦ rw other (
    (λ e. let yes' = (eq_iff m self).1 (e ∙ own) in cc),
    open_talks-IsTrue grants request self own given ms,
  )
]

-- What a candidate makes of an answer is true if the answer is.
pub answer_vote-IsTrue :
    (grants : List Grant) (request : VoteRequest) (id : MemberId) (o : Option VoteResponse)
    (r : Raft)
    → IsTrue grants request (id, answered o)
    → IsTrue grants request (id, talk_after (answer_vote request o r).1)
unfolding answer_vote
answer_vote-IsTrue grants request id none r h = tt
answer_vote-IsTrue grants request id (some response) r h =
    let P : Raft × Ballot → Type 0 = λ o. IsTrue grants request (id, talk_after o.1) in
    if_cases P (ltb request.term response.term) _ _ (λ newer. tt)
      (λ current.
        if_cases P (not response.voted) _ _ (λ no_vote. tt)
          (λ voted.
            if_cases P (not (response.term == r.term)) _ _ (λ other. tt)
              (λ same. h (ground (arith, voted)))))

-- The votes that a candidate has were given.
pub voters-given :
    (grants : List Grant) (request : VoteRequest) (v : MemberId) (ts : List (MemberId × Talk))
    → All (IsTrue grants request) ts
    → Elem v (voters ts)
    → Elem (vote_of v request) grants
voters-given grants request v [] h there = absurd there
voters-given grants request v ((m, granted) ∷ ts) h (inl e) =
    subst (λ x. Elem (vote_of x request) grants) (sym e) h.0
voters-given grants request v ((m, granted) ∷ ts) h (inr there) =
    voters-given grants request v ts h.1 there
voters-given grants request v ((m, waiting) ∷ ts) h there =
    voters-given grants request v ts h.1 there
voters-given grants request v ((m, answered o) ∷ ts) h there =
    voters-given grants request v ts h.1 there
voters-given grants request v ((m, refused) ∷ ts) h there =
    voters-given grants request v ts h.1 there
