-- ===== src/Roles/Candidacy.antt =====
-- A candidate's election (`sendVoteRequests` of roles/candidate.go). Timers are not modelled. The code
-- runs in goroutines of one role object; whether that object is still `active` is an argument.
pub mod Ballots
use atomix_go_raft.Base.{
  ℕ, zero, suc, ◌+◌, ◌/◌, Bool, true, false, not, ◌&&◌, ◌||◌, Option, none, some, List, [], ◌∷◌,
  ◌++◌, ltb, ◌==◌, if◌then◌else◌, length, add64, str_eq, ◌>>=◌,
}
use atomix_go_raft.Store.Log.{Log, last_entry}
use atomix_go_raft.Protocol.Cluster.{MemberId}
use atomix_go_raft.Protocol.Raft.{Raft, set_term, set_last_voted_for}
use atomix_go_raft.Protocol.Messages.{VoteRequest, VoteResponse}
use atomix_go_raft.Roles.Server.{is_nil}
use atomix_go_raft.Roles.Transition.{become_follower, become_leader}

-- The start of an election: the new term, or `none` where the election ends before it begins.
unfoldable pub begin_election : Bool → Raft → Raft × Option ℕ
begin_election active r =
    if not active
    then (r, none)
    else (let (r₁, term_error) = set_term (add64 r.term 1) r in
        elim term_error [
          | some e ↦ (become_follower r₁, none)
          | none ↦
              let (r₂, vote_error) = set_last_voted_for r₁.cluster.member r₁ in
              elim vote_error [ some e ↦ (become_follower r₂, none) | none ↦ (r₂, some r₂.term) ]
        ])

-- `int(math.Floor(float64(n)/2.0) + 1)`.
unfoldable pub quorum_of : ℕ → ℕ
quorum_of n = n / 2 + 1

-- The goroutine that counts the votes of a term, and the channel that it reads from. The channel holds a
-- vote for each member, so a send does not wait.
pub record Round : Type 0 where
  pub term : ℕ
  pub vote_count : ℕ
  pub reject_count : ℕ
  pub counting : Bool
  pub votes : List Bool
  pub closed : Bool

-- What the member goroutines send: the index and the term of the last log entry, zeros for none.
unfoldable pub vote_request : ℕ → Log → Raft → VoteRequest
vote_request term l r = elim (last_entry l) [
  | none ↦ record {
    term = term;
    candidate = r.cluster.member;
    last_log_index = 0;
    last_log_term = 0;
  }
  | some e ↦ record {
    term = term;
    candidate = r.cluster.member;
    last_log_index = e.index;
    last_log_term = e.entry.term;
  }
]

-- The loop over the members: the server votes for itself, and asks the others.
unfoldable pub own_votes : MemberId → List MemberId → List Bool
own_votes self [] = []
own_votes self (id ∷ ids) =
    let rest = own_votes self ids in if str_eq id self then true ∷ rest else rest

unfoldable pub asked : MemberId → List MemberId → List MemberId
asked self [] = []
asked self (id ∷ ids) = let rest = asked self ids in if str_eq id self then rest else id ∷ rest

unfoldable pub new_round : ℕ → MemberId → List MemberId → Round
new_round term self members = record {
  term = term;
  vote_count = 0;
  reject_count = 0;
  counting = true;
  votes = own_votes self members;
  closed = false;
}

-- What a member goroutine does with the channel.
pub data Ballot : Type 0 where
  casts : Bool → Ballot
  closes : Ballot

-- A response, or `none` for an error of the call.
unfoldable pub answer_vote : VoteRequest → Option VoteResponse → Raft → Raft × Ballot
answer_vote request none r = (r, casts false)
answer_vote request (some response) r =
    if ltb request.term response.term
    then (become_follower (set_term response.term r).0, closes)
    else if not response.voted
    then (r, casts false)
    else if not (response.term == r.term)
    then (r, casts false)
    else (r, casts true)

-- `none` is a panic: a send on a closed channel, or a close of one.
unfoldable pub cast_ballot : Ballot → Round → Option Round
cast_ballot (casts b) round =
    if round.closed then none else some (record round { votes = round.votes ++ b ∷ [] })
cast_ballot closes round = if round.closed then none else some (record round { closed = true })

pub data Verdict : Type 0 where
  open_still won lost : Verdict

abbrev pub stop_counting : Round → Round
stop_counting round = record round { counting = false }

-- A vote for and a vote against, under the write lock.
unfoldable pub count_accept : ℕ → Round → Raft → Round × Raft × Verdict
count_accept quorum round r =
    let counted = record round { vote_count = round.vote_count + 1 } in
    if is_nil r.leader && counted.vote_count == quorum
    then (stop_counting counted, become_leader r, won)
    else (counted, r, open_still)

unfoldable pub count_reject : ℕ → Round → Raft → Round × Raft × Verdict
count_reject quorum round r =
    let counted = record round { reject_count = round.reject_count + 1 } in
    if counted.reject_count == quorum
    then (stop_counting counted, become_follower r, lost)
    else (counted, r, open_still)

unfoldable pub count_one : ℕ → Bool → Bool → Round → Raft → Round × Raft × Verdict
count_one quorum active vote round r =
    if not active || not (r.term == round.term)
    then (stop_counting round, r, open_still)
    else if vote
    then count_accept quorum round r
    else count_reject quorum round r

abbrev pub count_from_channel : ℕ → Bool → List Bool → Round → Raft → Round × Raft × Verdict
count_from_channel quorum active [] round r =
    if round.closed then (stop_counting round, r, open_still) else (round, r, open_still)
count_from_channel quorum active (vote ∷ votes) round r =
    count_one quorum active vote (record round { votes = votes }) r

-- One turn of the counting goroutine, in a cluster of so many members. Without a vote it waits, or ends
-- when the channel is closed.
unfoldable pub count_vote : ℕ → Bool → Round → Raft → Round × Raft × Verdict
count_vote members active round r =
    if round.counting
    then count_from_channel (quorum_of members) active round.votes round r
    else (round, r, open_still)
