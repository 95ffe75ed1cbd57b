-- ===== src/Examples/Polls.antt =====
-- A follower of three that two members are for.
use atomix_go_raft.Base.{◌*◌, ◌<◌, ◌≡◌, ◌⊎◌, Bool, true, false, List, [], ◌∷◌, ◌++◌}
use atomix_go_raft.Protocol.Raft.{Raft, spawn, reset_heartbeat_timeout}
use atomix_go_raft.Roles.Server.{is_nil}
use atomix_go_raft.Roles.Transition.{become_candidate}
use atomix_go_raft.Roles.Candidacy.{quorum_of}
use atomix_go_raft.Roles.Polling.{Turn, new_count, count_polls}
use atomix_go_raft.Roles.Polling.Quorum.{
  Split, states, accepts_in, rejects_in, count_polls_majority,
}
use atomix_go_raft.Examples.Data.{a, new_server}

abbrev follower_a : Raft
follower_a = new_server a

-- Its term changes between the second vote and the third.
abbrev follower_later : Raft
follower_later = record follower_a { term = 2 }

abbrev polled : Raft → Bool → Turn
polled r vote = record { raft = r; active = true; vote = vote }

abbrev turns : List Turn
turns = polled follower_a true ∷ polled follower_a false ∷ polled follower_later true ∷ []

count_polls_majority_example :
    let left = count_polls (quorum_of 3) turns new_count in
    (left ≡ states turns)
    ⊎ ((s : Split turns left become_candidate) × (is_nil s.turn.raft.leader ≡ true)
        × (3 < 2 * accepts_in (s.before ++ s.turn ∷ [])))
    ⊎ ((s : Split turns left (spawn reset_heartbeat_timeout)) × (3
          < 2 * rejects_in (s.before ++ s.turn ∷ [])))
count_polls_majority_example = count_polls_majority 3 turns
