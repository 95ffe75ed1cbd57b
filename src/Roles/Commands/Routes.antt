-- ===== src/Roles/Commands/Routes.antt =====
-- Where a member takes a query, and where its refusals take a client.
use mathlib.Core.Option.{some-injective}
use atomix_go_raft.Base.{
  Bool-cases, Option-cases, ltb→ge, ge→ltb, ℕ, ◌≤◌, ◌<◌, ◌≡◌, ◌≢◌, ◌↔◌, refl, sym, ap, subst, ◌∙◌,
  ◌⊎◌, inl, inr, Bool, true, false, none, some, List, [], ◌∷◌, map, ltb, length, get_elem?, All,
}
use atomix_go_raft.Store.Log.{Time, last_index}
use atomix_go_raft.Protocol.Cluster.{MemberId}
use atomix_go_raft.Protocol.Raft.{Raft, Status, stopped, running, ready, same_status}
use atomix_go_raft.Protocol.Raft.Invariant.{pointee}
use atomix_go_raft.Protocol.Streams.{
  ReadConsistency, sequential, linearizable, linearizable_lease, QueryRequest, CommandResponse,
  CallError, responded, Answer, call_fails, streams, is_illegal_member_state,
}
use atomix_go_raft.Roles.Server.{Server}
use atomix_go_raft.Roles.Commands.{
  Result, returns, applies, passive_query, query_entry, passive_command, leader_command,
  command_responses, command_response, is_sequential, leader_name,
}
use atomix_go_raft.Client.{Client}
use atomix_go_raft.Client.Places.{IsAt}
use atomix_go_raft.Client.Writes.{IsAccepted, IsReferred}
use atomix_go_raft.Client.Leader.{Writes, write_finishes}

-- The conditions of a local answer.
pub record IsLocal (request : QueryRequest) (s : Server) : Type 0 where
  pub in_sync : s.raft.status ≡ ready
  pub asked : request.read_consistency ≡ sequential
  pub stored : s.raft.commit_index ≤ last_index s.log

same_status_ready : (status : Status) → same_status status ready ≡ true → status ≡ ready
same_status_ready ready h = refl
same_status_ready running h = absurd (let no' = h in cc)
same_status_ready stopped h = absurd (let no' = h in cc)

is_sequential_lem : (c : ReadConsistency) → is_sequential c ≡ true → c ≡ sequential
is_sequential_lem sequential h = refl
is_sequential_lem linearizable h = absurd (let no' = h in cc)
is_sequential_lem linearizable_lease h = absurd (let no' = h in cc)

-- A member that does not lead applies the entry of a query itself exactly if it is ready, the query asks
-- for sequential consistency, and the log reaches the commit index.
pub passive_query_iff :
    (request : QueryRequest) (now : Time) (s : Server)
    → (passive_query request now s ≡ applies (query_entry request now s)) ↔ IsLocal request s
unfolding passive_query
passive_query_iff request now s = (
  (λ h. elim (Bool-cases (same_status s.raft.status ready)) [
    | inr behind ↦ absurd (let no' = (rw behind at h) in cc)
    | inl in_sync ↦ elim (Bool-cases (is_sequential request.read_consistency)) [
      | inr other ↦ absurd (let no' = (rw (in_sync, other) at h) in cc)
      | inl asked ↦ elim (Bool-cases (ltb (last_index s.log) s.raft.commit_index)) [
        | inl short ↦ absurd (let no' = (rw (in_sync, asked, short) at h) in cc)
        | inr stored ↦ record {
          in_sync = same_status_ready s.raft.status in_sync;
          asked = is_sequential_lem request.read_consistency asked;
          stored = ltb→ge (last_index s.log) s.raft.commit_index stored;
        }
      ]
    ]
  ]),
  (λ l. rw (l.in_sync, l.asked, ge→ltb (last_index s.log) s.raft.commit_index l.stored) refl),
)

-- The answer of a leader has no refusal for its state.
command_response_legal :
    (r : Raft) (result : Result) (q : CommandResponse)
    → command_response r result ≡ some q
    → is_illegal_member_state q.error ≡ false
unfolding command_response
command_response_legal r result q h = elim (Option-cases result.value) [
  | inl missing ↦ absurd (let no' = (rw missing at h) in cc)
  | inr (v, value) ↦ elim (Option-cases result.error) [
    | inl fine ↦
        let k = (rw (value, fine) at h) in
        sym (ap (λ x. is_illegal_member_state x.error) (some-injective _ _ k))
    | inr (text, wrong) ↦
        let k = (rw (value, wrong) at h) in
        sym (ap (λ x. is_illegal_member_state x.error) (some-injective _ _ k))
  ]
]

command_responses-IsAccepted : (xs : List (Raft × Result)) → All IsAccepted (command_responses xs).0
unfolding command_responses
command_responses-IsAccepted [] = tt
command_responses-IsAccepted ((r, result) ∷ xs) = elim (Option-cases (command_response r result)) [
  | inl stuck ↦ rw (command_responses, stuck) tt
  | inr (q, there) ↦
      rw (command_responses, there)
        (inr (command_response_legal r result q there), command_responses-IsAccepted xs)
]

leader_command-IsAccepted :
    (committed : Bool) (xs : List (Raft × Result)) → All IsAccepted (leader_command committed xs).0
unfolding leader_command
leader_command-IsAccepted true xs = command_responses-IsAccepted xs
leader_command-IsAccepted false xs = (inr refl, tt)

passive_command-IsReferred :
    (live : MemberId) (r : Raft)
    → (pointee r.leader ≡ none) ⊎ (pointee r.leader ≡ some live)
    → IsReferred live (streams (responded (passive_command r) ∷ []))
unfolding passive_command
passive_command-IsReferred live r knows = (
  refl,
  refl,
  elim (Option-cases r.leader) [
    | inl free ↦ inl (ap leader_name free)
    | inr (p, led) ↦ elim knows [
      | inl none' ↦ absurd (let no' = sym (ap pointee led) ∙ none' in cc)
      | inr its ↦ inr (ap leader_name led ∙ some-injective _ _ (sym (ap pointee led) ∙ its))
    ]
  ],
)

-- A write on a cluster is served: if the leader is a member and its handler returns from every command with
-- some responses, and every other member is not there, or refuses as a role does that does not lead and
-- knows that leader or none, then from any place, whatever leader the client believes in, within at most
-- one attempt more than there are members the caller gets the values and the messages of the responses that
-- the leader gave to one of the attempts, and nothing else.
pub write_reaches_leader :
    (live : MemberId) (p n : ℕ) (network : ℕ → MemberId → Answer CommandResponse) (c : Client)
    (q : ℕ)
    → p < length c.members
    → get_elem? c.members p ≡ some live
    → ((k : ℕ)
        → (committed : Bool) × (xs : List (Raft × Result)) × ((leader_command committed xs).1
            ≡ returns)
          × (network k live ≡ streams (map responded (leader_command committed xs).0)))
    → ((k : ℕ) (m : MemberId)
        → m ≢ live
        → ((e : CallError) × (e.unavailable ≡ true) × (network k m ≡ call_fails e))
          ⊎ ((r : Raft) × (network k m ≡ streams (responded (passive_command r) ∷ []))
              × ((pointee r.leader ≡ none) ⊎ (pointee r.leader ≡ some live))))
    → IsAt q c
    → length c.members < n
    → Writes n network c live
write_reaches_leader live p n network c q inside there leads others at enough =
    write_finishes live p n network c q inside there
      (λ k.
        let (committed, xs, ended, answers) = leads k in
        ((leader_command committed xs).0, (answers, leader_command-IsAccepted committed xs)))
      (λ k m other. elim (others k m other) [
        | inl (e, lost, gone) ↦ subst (IsReferred live) (sym gone) lost
        | inr (r, answers, knows) ↦
            subst (IsReferred live) (sym answers) (passive_command-IsReferred live r knows)
      ])
      at enough
