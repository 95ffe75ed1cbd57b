-- ===== src/Roles/Candidacy/Ballots.antt =====
-- The channel of votes: what happens to the ballots that come after it is closed.
use atomix_go_raft.Base.{
  ◌≡◌, ◌<◌, refl, ap, ◌∙◌, true, Option, none, some, List, [], ◌∷◌, ◌++◌, ◌>>=◌, inl, inr, arith,
  ltb, if_cases, Bool-cases, Option-cases,
}
use atomix_go_raft.Protocol.Raft.{Raft}
use atomix_go_raft.Protocol.Messages.{VoteRequest, VoteResponse}
use atomix_go_raft.Roles.Candidacy.{Round, Ballot, casts, closes, answer_vote, cast_ballot}

-- The ballots of an election, in the order in which their goroutines come to the channel.
unfoldable pub cast_ballots : List Ballot → Round → Option Round
cast_ballots [] round = some round
cast_ballots (b ∷ bs) round = cast_ballot b round >>= λ next. cast_ballots bs next

cast_ballots-closed :
    (b : Ballot) (bs : List Ballot) (round : Round)
    → round.closed ≡ true
    → cast_ballots (b ∷ bs) round ≡ none
unfolding cast_ballots cast_ballot
cast_ballots-closed (casts v) bs round h = rw h refl
cast_ballots-closed closes bs round h = rw h refl

-- Whichever ballot comes after a close panics.
cast_ballots-panic :
    (before after : List Ballot) (b : Ballot) (round : Round)
    → cast_ballots (before ++ closes ∷ b ∷ after) round ≡ none
unfolding cast_ballots
cast_ballots-panic [] after b round = elim (Bool-cases round.closed) [
  | inl shut ↦ cast_ballots-closed closes (b ∷ after) round shut
  | inr usable ↦
      unfold cast_ballot in
      rw (cast_ballots, cast_ballot, usable)
        (cast_ballots-closed b after (record round { closed = true }) refl)
]
cast_ballots-panic (a ∷ before) after b round = elim (Option-cases (cast_ballot a round)) [
  | inl panics ↦ rw (cast_ballots, panics) refl
  | inr (next, ok) ↦ rw (cast_ballots, ok) (cast_ballots-panic before after b next)
]

-- The answer to the request for a vote that a goroutine gets, or `none` for an error of the call, and the
-- state in which it handles it.
pub record Heard : Type 0 where
  pub raft : Raft
  pub response : Option VoteResponse

abbrev pub ballots : VoteRequest → List Heard → List Ballot
ballots request [] = []
ballots request (h ∷ hs) = (answer_vote request h.response h.raft).1 ∷ ballots request hs

ballots-append :
    (request : VoteRequest) (xs ys : List Heard)
    → ballots request (xs ++ ys) ≡ ballots request xs ++ ballots request ys
ballots-append request [] ys = refl
ballots-append request (x ∷ xs) ys =
    ap (◌∷◌ (answer_vote request x.response x.raft).1) (ballots-append request xs ys)

answer_vote_closes :
    (request : VoteRequest) (response : VoteResponse) (r : Raft)
    → request.term < response.term
    → (answer_vote request (some response) r).1 ≡ closes
unfolding answer_vote
answer_vote_closes request response r h =
    if_cases (λ (o : Raft × Ballot). o.1 ≡ closes) (ltb request.term response.term) _ _
      (λ greater. refl) (λ within. absurd (ground (arith, h, within)))

-- If a member answers the request for a vote with a greater term, and the goroutine of another member of
-- the same election comes to the channel of votes after that, whatever it heard and in whatever states the
-- goroutines handle what they hear, then the election ends in a panic.
pub greater_term_panics :
    (request : VoteRequest) (response : VoteResponse) (r : Raft) (before after : List Heard)
    (next : Heard) (round : Round)
    → request.term < response.term
    → cast_ballots
        (ballots request (before ++ record { raft = r; response = some response } ∷ next ∷ after))
        round
      ≡ none
greater_term_panics request response r before after next round greater =
    let h : Heard = record { raft = r; response = some response } in
    let b = (answer_vote request next.response next.raft).1 in
    ap (λ bs. cast_ballots bs round) (ballots-append request before (h ∷ next ∷ after))
    ∙ ap (λ x. cast_ballots (ballots request before ++ x ∷ b ∷ ballots request after) round)
        (answer_vote_closes request response r greater)
    ∙ cast_ballots-panic (ballots request before) (ballots request after) b round
