-- ===== src/Roles/Commands/Results.antt =====
-- The results of the state machine, as the handlers of commands and queries pass them on.
use atomix_go_raft.Base.{
  ℕ, ◌≡◌, refl, ap, inl, inr, true, String, Option, none, some, List, [], ◌∷◌, map, All,
  Option-cases,
}
use atomix_go_raft.Protocol.Raft.{Raft}
use atomix_go_raft.Protocol.Messages.{ResponseStatus, ok_status, error_status}
use atomix_go_raft.Protocol.Streams.{CallError, CommandResponse, QueryResponse}
use atomix_go_raft.Roles.Commands.{
  Result, returns, command_response, command_responses, leader_command, query_response, apply_query,
  query_linearizable,
}

-- A result whose value has the type of bytes; the value of an error may have that type too, and no bytes.
abbrev pub HasBytes : Result → Type 0
HasBytes r = (v : List ℕ) × (r.value ≡ some v)

abbrev pub results_of : List (Raft × Result) → List Result
results_of = map λ x. x.1

-- What a caller is to learn of a result, and what it learns from a response.
abbrev pub outcome : Result → ResponseStatus × String
outcome result = elim result.error [ none ↦ (ok_status, "") | some text ↦ (error_status, text) ]

abbrev pub told_by_command : CommandResponse → ResponseStatus × String
told_by_command response = (response.status, response.message)

abbrev pub told_by_query : QueryResponse → ResponseStatus × String
told_by_query response = (response.status, response.message)

apply_query_outcomes :
    (rs : List Result)
    → All HasBytes rs
    → ((apply_query rs).1 ≡ returns) × (map told_by_query (apply_query rs).0 ≡ map outcome rs)
unfolding apply_query query_response
apply_query_outcomes [] h = (refl, refl)
apply_query_outcomes (r ∷ rs) h =
    let (v, value) = h.0 in
    let (ended, told) = apply_query_outcomes rs h.1 in
    elim (Option-cases r.error) [
      | inl fine ↦
          rw (apply_query, query_response, fine, value) (ended, ap (◌∷◌ (ok_status, "")) told)
      | inr (text, wrong) ↦
          rw (apply_query, query_response, wrong) (ended, ap (◌∷◌ (error_status, text)) told)
    ]

command_responses_outcomes :
    (xs : List (Raft × Result))
    → All HasBytes (results_of xs)
    → ((command_responses xs).1 ≡ returns)
      × (map told_by_command (command_responses xs).0 ≡ map outcome (results_of xs))
unfolding command_responses command_response
command_responses_outcomes [] h = (refl, refl)
command_responses_outcomes ((r, result) ∷ xs) h =
    let (v, value) = h.0 in
    let (ended, told) = command_responses_outcomes xs h.1 in
    elim (Option-cases result.error) [
      | inl fine ↦
          rw (command_responses, command_response, value, fine)
            (ended, ap (◌∷◌ (ok_status, "")) told)
      | inr (text, wrong) ↦
          rw (command_responses, command_response, value, wrong)
            (ended, ap (◌∷◌ (error_status, text)) told)
    ]

-- The same results, each with a value of the type of bytes, an error or not, given to a command of the
-- leader that was committed and to a sequential query: both handlers return, and both give one response to
-- each result, in order: an error with its text for an error, and all is well otherwise.
pub command_answers_like_query :
    (xs : List (Raft × Result))
    → All HasBytes (results_of xs)
    → ((leader_command true xs).1 ≡ returns)
      × ((apply_query (results_of xs)).1 ≡ returns)
      × (map told_by_command (leader_command true xs).0 ≡ map outcome (results_of xs))
      × (map told_by_query (apply_query (results_of xs)).0 ≡ map outcome (results_of xs))
unfolding leader_command
command_answers_like_query xs h =
    let (commanded, told) = command_responses_outcomes xs h in
    let (queried, told') = apply_query_outcomes (results_of xs) h in
    (commanded, queried, told, told')

-- The results before the first heartbeat that fails.
abbrev pub confirmed : List (Option CallError × Result) → List Result
confirmed [] = []
confirmed ((some e, result) ∷ rest) = []
confirmed ((none, result) ∷ rest) = result ∷ confirmed rest

-- A linearizable query gets the responses that a sequential one gets to the results before the first
-- heartbeat that fails, and no other.
pub query_linearizable-confirmed :
    (xs : List (Option CallError × Result))
    → (query_linearizable xs).0 ≡ (apply_query (confirmed xs)).0
unfolding query_linearizable apply_query
query_linearizable-confirmed [] = refl
query_linearizable-confirmed ((some e, result) ∷ rest) = refl
query_linearizable-confirmed ((none, result) ∷ rest) = elim (Option-cases (query_response result)) [
  | inl wrong ↦ rw (query_linearizable, apply_query, wrong) refl
  | inr (q, fine) ↦
      rw (query_linearizable, apply_query, fine) (ap (◌∷◌ q) (query_linearizable-confirmed rest))
]
