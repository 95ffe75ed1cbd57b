-- ===== src/Examples/Elections.antt =====
-- A run of three servers in which one is elected, and an election that ends in a panic.
use atomix_go_raft.Base.{
  ◌≡◌, ◌≢◌, refl, true, false, inl, inr, Option, none, some, [], ◌∷◌, arith, eq_iff, Elem,
  IsDistinct, str_eq,
}
use atomix_go_raft.Store.Log.{last_entry}
use atomix_go_raft.Protocol.Cluster.{MemberId, new_cluster, get_member, lookup_member}
use atomix_go_raft.Protocol.Metadata.{store_term, store_vote}
use atomix_go_raft.Protocol.Raft.{follower, set_term, set_last_voted_for, set_leader, notify}
use atomix_go_raft.Protocol.Messages.{VoteRequest, VoteResponse, ok_status, no_leader}
use atomix_go_raft.Roles.Server.{update_term_and_leader}
use atomix_go_raft.Roles.Transition.{become_leader}
use atomix_go_raft.Roles.Election.{vote, follower_vote, handle_vote, is_log_up_to_date}
use atomix_go_raft.Roles.Candidacy.{
  Round, begin_election, new_round, vote_request, answer_vote, cast_ballot, own_votes, count_vote,
  count_one, count_accept, quorum_of,
}
use atomix_go_raft.Roles.Candidacy.Ballots.{Heard, ballots, cast_ballots, greater_term_panics}
use atomix_go_raft.Agreement.{
  waiting, answered, granted, Election, System, ids, update, open_talks, campaigns, votes, hears,
  counts, IsFresh, Reach, start, next,
}
use atomix_go_raft.Agreement.Leaders.{one_leader_in_term}
use atomix_go_raft.Examples.Data.{a, b, c, config, three, new_server}

abbrev first : System
first = record { servers = new_server; elections = []; grants = []; leaders = [] }

first-IsFresh : IsFresh config first
first-IsFresh = record {
  valid = λ id. record {
    stored_term = unfold atomix_go_raft.Protocol.Metadata.load_term in refl;
    stored_vote = unfold atomix_go_raft.Protocol.Metadata.load_vote in refl;
    known_vote = tt;
    known_leader = tt;
    caught_up = λ h. cc;
  };
  clusters = λ id. refl;
  elections = refl;
  grants = refl;
  leaders = refl;
}

other_string : (x y : MemberId) → str_eq x y ≡ false → x ≢ y
other_string x y h same = let yes' = (eq_iff x y).1 same in cc

config-IsDistinct : IsDistinct (ids config)
config-IsDistinct = (
  (λ h. elim h [
    | inl x ↦ other_string a b refl x
    | inr (inl x) ↦ other_string a c refl x
    | inr (inr h) ↦ absurd h
  ]),
  ((λ h. elim h [ inl x ↦ other_string b c refl x | inr h ↦ absurd h ]), ((λ h. absurd h), tt)),
)

-- The election of a, before b votes, after its vote, and with that vote in the channel.
abbrev asked_b : Election
asked_b = record {
  request = vote_request 1 three (new_server a);
  round = new_round 1 a (ids config);
  talks = (a, granted) ∷ (b, waiting) ∷ (c, waiting) ∷ [];
}

abbrev response_b : Option VoteResponse
response_b = some (vote follower asked_b.request three (new_server b)).1

abbrev voted_b : Election
voted_b = record asked_b { talks = (a, granted) ∷ (b, answered response_b) ∷ (c, waiting) ∷ [] }

abbrev both : Round
both = record (new_round 1 a (ids config)) { votes = true ∷ true ∷ [] }

abbrev heard_b : Election
heard_b = record asked_b { round = both; talks = (a, granted) ∷ (b, granted) ∷ (c, waiting) ∷ [] }

abbrev counted_one : Election
counted_one = record heard_b { round = record both { vote_count = 1; votes = true ∷ [] } }

-- a begins an election, b votes for it, a hears of the vote and counts two.
a-wins : (s : System) × Reach config s × Elem (1, a) s.leaders
unfolding open_talks update begin_election set_term set_last_voted_for new_round own_votes
    vote_request last_entry vote follower_vote update_term_and_leader set_leader notify handle_vote
    get_member lookup_member new_cluster is_log_up_to_date answer_vote cast_ballot count_vote
    count_one count_accept quorum_of become_leader store_term store_vote
a-wins =
    let one = next (start first-IsFresh) (campaigns a true three 1 refl) in
    let two = next one (
      votes [] [] asked_b ((a, granted) ∷ []) ((c, waiting) ∷ []) b follower three refl refl
        refl) in
    let three' = next two (
      hears [] [] voted_b ((a, granted) ∷ []) ((c, waiting) ∷ []) b response_b both refl refl
        refl) in
    let four = next three' (counts [] [] heard_b true refl) in
    let five = next four (counts [] [] counted_one true refl) in (_, five, inl refl)

one_leader_in_term_example : a ≡ a
one_leader_in_term_example =
    one_leader_in_term config 1 a a config-IsDistinct a-wins.1 a-wins.2 a-wins.2

-- a asks in term 1. b answers from term 2, and then c answers.
abbrev of_b : VoteResponse
of_b = record { status = ok_status; error = no_leader; term = 2; voted = false }

abbrev of_c : Heard
of_c = record { raft = new_server a; response = none }

abbrev asks : VoteRequest
asks = record { term = 1; candidate = a; last_log_index = 0; last_log_term = 0 }

greater_term_panics_example :
    cast_ballots
      (ballots asks (record { raft = new_server a; response = some of_b } ∷ of_c ∷ []))
      (new_round 1 a (ids config))
    ≡ none
greater_term_panics_example =
    greater_term_panics asks of_b (new_server a) [] [] of_c (new_round 1 a (ids config))
      (omega arith)
