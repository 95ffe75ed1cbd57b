-- ===== src/Agreement.antt =====
-- The servers of a cluster together, through any number of elections: what each server does by itself,
-- and what passes between a candidate and the others. Requests and responses may be delayed and lost,
-- and servers may stop for any time. No server restarts: its term and vote are in memory only.
pub mod Talks
pub mod Moves
pub mod Invariant
pub mod Elections
pub mod Granted
pub mod Steps
pub mod Leaders
use atomix_go_raft.Base.{
  ℕ, ◌≡◌, Bool, true, false, Option, none, some, List, [], ◌∷◌, ◌++◌, map, length, if◌then◌else◌,
  str_eq,
}
use atomix_go_raft.Store.Log.{Log}
use atomix_go_raft.Protocol.Cluster.{MemberId, Cluster, new_cluster}
use atomix_go_raft.Protocol.Raft.{Raft, RoleType, role_type}
use atomix_go_raft.Protocol.Raft.Invariant.{IsValid}
use atomix_go_raft.Protocol.Messages.{VoteRequest, VoteResponse}
use atomix_go_raft.Roles.Steps.{Call, goes_on, run_call}
use atomix_go_raft.Roles.Election.{vote}
use atomix_go_raft.Roles.Candidacy.{
  Round, begin_election, new_round, vote_request, answer_vote, Ballot, casts, closes, cast_ballot,
  Verdict, won, count_vote,
}

-- Where the goroutine that asks a member stands: before the request is handled, with the response, or
-- past the channel. The candidate's own vote is `granted`.
pub data Talk : Type 0 where
  waiting : Talk
  answered : Option VoteResponse → Talk
  granted refused : Talk

-- An election: the request that the candidate sends, its channel and count, and the members.
pub record Election : Type 0 where
  pub request : VoteRequest
  pub round : Round
  pub talks : List (MemberId × Talk)

-- A vote that a server gave.
pub record Grant : Type 0 where
  pub voter : MemberId
  pub term : ℕ
  pub candidate : MemberId

-- The servers' states, the elections, and two histories: the votes given and the elections won.
pub record System : Type 0 where
  pub servers : MemberId → Raft
  pub elections : List Election
  pub grants : List Grant
  pub leaders : List (ℕ × MemberId)

unfoldable pub update : MemberId → Raft → (MemberId → Raft) → MemberId → Raft
update id r servers other = if str_eq id other then r else servers other

abbrev pub ids : List (MemberId × MemberId) → List MemberId
ids = map λ c. c.0

unfoldable pub open_talks : MemberId → List MemberId → List (MemberId × Talk)
open_talks self [] = []
open_talks self (id ∷ ms) = (id, if str_eq id self then granted else waiting) ∷ open_talks self ms

abbrev pub grant_of : MemberId → VoteRequest → VoteResponse → List Grant
grant_of voter request response =
    if response.voted
    then record { voter = voter; term = request.term; candidate = request.candidate } ∷ []
    else []

abbrev pub talk_after : Ballot → Talk
talk_after (casts true) = granted
talk_after (casts false) = refused
talk_after closes = refused

abbrev pub win_of : Verdict → ℕ → MemberId → List (ℕ × MemberId)
win_of won term id = (term, id) ∷ []
win_of _ term id = []

abbrev pub is_pending : Talk → Bool
is_pending waiting = true
is_pending (answered r) = true
is_pending _ = false

abbrev pub counted : List (MemberId × MemberId) → System → Bool → Election → Round × Raft × Verdict
counted config s active e =
    count_vote (length (ids config)) active e.round (s.servers e.request.candidate)

module _ (config : List (MemberId × MemberId)) (s : System) where
  pub data Step : System → Type 0 where
    -- A call of the Raft interface.
    acts :
        (id : MemberId) (c : Call)
        → goes_on c ≡ true
        → Step (record s { servers = update id (run_call c (s.servers id)) s.servers })
    -- A candidate begins an election, or fails to.
    campaigns :
        (id : MemberId) (active : Bool) (l : Log) (term : ℕ)
        → (begin_election active (s.servers id)).1 ≡ some term
        → Step (record s {
          servers = update id (begin_election active (s.servers id)).0 s.servers;
          elections =
              record {
                request = vote_request term l (s.servers id);
                round = new_round term id (ids config);
                talks = open_talks id (ids config);
              }
              ∷ s.elections;
          grants = record { voter = id; term = term; candidate = id } ∷ s.grants;
        })
    fails :
        (id : MemberId) (active : Bool)
        → Step (record s { servers = update id (begin_election active (s.servers id)).0 s.servers })
    -- A member handles a candidate's request, in the role that it has.
    votes :
        (front back : List Election) (e : Election) (xs ys : List (MemberId × Talk)) (id : MemberId)
        (t : RoleType) (l : Log)
        → s.elections ≡ front ++ e ∷ back
        → e.talks ≡ xs ++ (id, waiting) ∷ ys
        → role_type (s.servers id) ≡ some t
        → Step (record s {
          servers = update id (vote t e.request l (s.servers id)).0 s.servers;
          elections =
              front
              ++ record e {
                talks = xs ++ (id, answered (some (vote t e.request l (s.servers id)).1)) ∷ ys;
              }
                ∷ back;
          grants = grant_of id e.request (vote t e.request l (s.servers id)).1 ++ s.grants;
        })
    -- A request or a response is lost.
    loses :
        (front back : List Election) (e : Election) (xs ys : List (MemberId × Talk)) (id : MemberId)
        (talk : Talk)
        → s.elections ≡ front ++ e ∷ back
        → e.talks ≡ xs ++ (id, talk) ∷ ys
        → is_pending talk ≡ true
        → Step (record s {
          elections = front ++ record e { talks = xs ++ (id, answered none) ∷ ys } ∷ back;
        })
    -- A response, or an error, reaches the candidate, which does not panic.
    hears :
        (front back : List Election) (e : Election) (xs ys : List (MemberId × Talk)) (id : MemberId)
        (response : Option VoteResponse) (round : Round)
        → s.elections ≡ front ++ e ∷ back
        → e.talks ≡ xs ++ (id, answered response) ∷ ys
        → cast_ballot (answer_vote e.request response (s.servers e.request.candidate)).1 e.round
          ≡ some round
        → Step (record s {
          servers =
              update e.request.candidate
                (answer_vote e.request response (s.servers e.request.candidate)).0
                s.servers;
          elections =
              front
              ++ record e {
                round = round;
                talks =
                    xs
                    ++ (
                      id,
                      talk_after (answer_vote e.request response (s.servers e.request.candidate)).1,
                    )
                      ∷ ys;
              }
                ∷ back;
        })
    -- The candidate counts a vote.
    counts :
        (front back : List Election) (e : Election) (active : Bool)
        → s.elections ≡ front ++ e ∷ back
        → Step (record s {
          servers = update e.request.candidate (counted config s active e).1 s.servers;
          elections = front ++ record e { round = (counted config s active e).0 } ∷ back;
          leaders =
              win_of (counted config s active e).2 e.round.term e.request.candidate ++ s.leaders;
        })

-- A cluster before its first election: every server has its own member id and the cluster's
-- configuration, and a valid protocol state.
pub record IsFresh (config : List (MemberId × MemberId)) (s : System) : Type 0 where
  pub valid : (id : MemberId) → IsValid (s.servers id)
  pub clusters : (id : MemberId) → (s.servers id).cluster ≡ new_cluster id config
  pub elections : s.elections ≡ []
  pub grants : s.grants ≡ []
  pub leaders : s.leaders ≡ []

pub data Reach (config : List (MemberId × MemberId)) : System → Type 0 where
  start : {s : System} → IsFresh config s → Reach config s
  next : {s t : System} → Reach config s → Step config s t → Reach config t
