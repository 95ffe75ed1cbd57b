-- ===== src/Examples/Commands.antt =====
-- Commands and queries of a leader and of a member, and a write that finds the leader.
use atomix_go_raft.Base.{
  ℕ, ◌≡◌, ◌≢◌, ◌↔◌, refl, ◌⊎◌, inl, inr, true, none, some, List, [], ◌∷◌, map, arith, if◌then◌else◌,
  if_cases, str_eq, eq_iff, All,
}
use atomix_go_raft.Store.Log.{zero_time}
use atomix_go_raft.Protocol.Cluster.{MemberId, new_cluster}
use atomix_go_raft.Protocol.Raft.{Raft}
use atomix_go_raft.Protocol.Raft.Invariant.{pointee}
use atomix_go_raft.Protocol.Streams.{
  sequential, QueryRequest, CommandResponse, CallError, responded, Answer, call_fails, streams,
}
use atomix_go_raft.Roles.Server.{Server}
use atomix_go_raft.Roles.Commands.{
  Result, returns, applies, passive_query, query_entry, passive_command, leader_command,
  command_responses, command_response, apply_query, query_linearizable,
}
use atomix_go_raft.Roles.Commands.Results.{
  HasBytes, results_of, outcome, told_by_command, told_by_query, confirmed,
  command_answers_like_query, query_linearizable-confirmed,
}
use atomix_go_raft.Roles.Commands.Routes.{IsLocal, passive_query_iff, write_reaches_leader}
use atomix_go_raft.Client.{Client, new_client, next_node}
use atomix_go_raft.Client.Leader.{Writes}
use atomix_go_raft.Client.Places.{IsAt}
use atomix_go_raft.Examples.Data.{a, b, c, config, three, new_server}

abbrev seven : Result
seven = record { value = some (7 ∷ []); error = none }

abbrev wrong : Result
wrong = record { value = some []; error = some "wrong" }

abbrev outputs : List (Raft × Result)
outputs = (new_server c, seven) ∷ (new_server c, wrong) ∷ []

outputs-HasBytes : All HasBytes (results_of outputs)
outputs-HasBytes = ((7 ∷ [], refl), (([], refl), tt))

command_answers_like_query_example :
    ((leader_command true outputs).1 ≡ returns)
    × ((apply_query (results_of outputs)).1 ≡ returns)
    × (map told_by_command (leader_command true outputs).0 ≡ map outcome (results_of outputs))
    × (map told_by_query (apply_query (results_of outputs)).0 ≡ map outcome (results_of outputs))
command_answers_like_query_example = command_answers_like_query outputs outputs-HasBytes

abbrev lost_call : CallError
lost_call = record { unavailable = true; text = "" }

query_linearizable-confirmed_example :
    (query_linearizable ((none, seven) ∷ (some lost_call, seven) ∷ [])).0
    ≡ (apply_query (confirmed ((none, seven) ∷ (some lost_call, seven) ∷ []))).0
query_linearizable-confirmed_example =
    query_linearizable-confirmed ((none, seven) ∷ (some lost_call, seven) ∷ [])

abbrev asked : QueryRequest
asked = record { value = []; read_consistency = sequential }

abbrev server_b : Server
server_b = record { raft = new_server b; log = three; reader = 0; changes = []; overflow = 0 }

passive_query_iff_example :
    (passive_query asked zero_time server_b ≡ applies (query_entry asked zero_time server_b))
    ↔ IsLocal asked server_b
passive_query_iff_example = passive_query_iff asked zero_time server_b

-- a is not there, b knows that c leads, and c answers.
abbrev server_of_b : Raft
server_of_b = record (new_server b) { leader = some (record { address = 0; id = c }) }

abbrev network : ℕ → MemberId → Answer CommandResponse
network k m =
    if str_eq m c
    then streams (map responded (leader_command true ((new_server c, seven) ∷ [])).0)
    else if str_eq m b
    then streams (responded (passive_command server_of_b) ∷ [])
    else call_fails lost_call

abbrev Refuses : Answer CommandResponse → Type 0
Refuses answer =
    ((e : CallError) × (e.unavailable ≡ true) × (answer ≡ call_fails e))
    ⊎ ((r : Raft) × (answer ≡ streams (responded (passive_command r) ∷ []))
        × ((pointee r.leader ≡ none) ⊎ (pointee r.leader ≡ some c)))

network-Refuses : (k : ℕ) (m : MemberId) → m ≢ c → Refuses (network k m)
network-Refuses k m other =
    if_cases Refuses (str_eq m c) _ _ (λ same. absurd (other ((eq_iff m c).0 same)))
      (λ different.
        if_cases Refuses (str_eq m b) _ _ (λ knows. inr (server_of_b, refl, inr refl))
          (λ gone. inl (lost_call, refl, refl)))

abbrev client : Client
client = new_client (new_cluster a config) sequential

client-IsAt : IsAt 0 client
unfolding new_client new_cluster next_node
client-IsAt = record { inside = omega arith; place = inr (refl, refl) }

write_reaches_leader_example : Writes 4 network client c
unfolding new_client new_cluster leader_command command_responses command_response
write_reaches_leader_example =
    write_reaches_leader c 2 4 network client 0 (omega arith) refl
      (λ k. (true, (new_server c, seven) ∷ [], refl, refl)) network-Refuses client-IsAt
      (omega arith)
