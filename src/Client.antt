-- ===== src/Client.antt =====
-- client/client.go: the client of a cluster. It sends writes to the leader that it knows and reads to a
-- member, and goes on to another when one is not there or refuses. The locks are not modelled: an attempt
-- is one run of `sendWrite` or `sendRead`. What the caller's stream gets is the list `outputs`.
pub mod Attempts
pub mod Places
pub mod Reads
pub mod Writes
pub mod Resets
pub mod Leader
use atomix_go_raft.Base.{
  ℕ, zero, suc, ◌+◌, Bool, true, false, not, ◌&&◌, String, Option, none, some, List, [], ◌∷◌, ◌++◌,
  ltb, length, get_elem?, if◌then◌else◌, str_eq, ◌>>=◌,
}
use atomix_go_raft.Protocol.Cluster.{MemberId, Cluster}
use atomix_go_raft.Protocol.Streams.{
  Answer, call_fails, streams, ReadConsistency, CommandRequest, CommandResponse, QueryRequest,
  QueryResponse, CallError, Streamed, failed, responded, is_ok, is_illegal_member_state,
}

-- `node` is the place of the list element `memberNode`.
pub record Client : Type 0 where
  pub members : List MemberId
  pub node : Option ℕ
  pub member : Option MemberId
  pub leader : Option MemberId
  pub consistency : ReadConsistency

unfoldable pub new_client : Cluster → ReadConsistency → Client
new_client cluster consistency = record {
  members = cluster.member_ids;
  node = none;
  member = none;
  leader = none;
  consistency = consistency;
}

-- The element after `memberNode`, or the first one.
unfoldable pub next_node : Client → ℕ
next_node c = elim c.node [
  | none ↦ 0
  | some q ↦ if ltb (q + 1) (length c.members) then q + 1 else 0
]

-- Without members it panics, which is `none`.
unfoldable pub get_member_safe : Client → Option (MemberId × Client)
get_member_safe c = elim c.member [
  | some m ↦ some (m, c)
  | none ↦ elim (get_elem? c.members (next_node c)) [
    | none ↦ none
    | some m ↦ some (m, record c { node = some (next_node c); member = some m })
  ]
]

unfoldable pub get_member : Client → Option (MemberId × Client)
get_member c = elim c.member [ none ↦ get_member_safe c | some m ↦ some (m, c) ]

unfoldable pub get_leader : Client → Option (MemberId × Client)
get_leader c = elim c.leader [
  | some l ↦ some (l, c)
  | none ↦ elim c.member [ some m ↦ some (m, c) | none ↦ get_member_safe c ]
]

unfoldable pub reset_member : Client → Client
reset_member c = record c { member = none }

unfoldable pub reset_if : MemberId → Client → Client
reset_if expected c = elim c.member [
  | none ↦ c
  | some m ↦ if str_eq m expected then record c { member = none } else c
]

unfoldable pub reset_leader : MemberId → Option MemberId → Client → Client × Bool
reset_leader expected leader c = elim c.leader [
  | none ↦ elim leader [
    | some l ↦ (record c { leader = some l }, true)
    | none ↦ (reset_if expected c, true)
  ]
  | some q ↦ elim leader [
    | none ↦ (record c { leader = none }, true)
    | some l ↦ if not (str_eq q l) then (record c { leader = some l }, true) else (c, false)
  ]
]

-- What the caller's stream gets: values, errors, and the end.
pub data Output : Type 0 where
  sends_value : List ℕ → Output
  sends_error : CallError → Output
  sends_message : String → Output
  closes_stream : Output

-- What an attempt comes to; `again` tells that the request is sent another time.
pub record Attempt : Type 0 where
  pub client : Client
  pub outputs : List Output
  pub again : Bool

abbrev pub try_again : Client → Attempt
try_again c = record { client = c; outputs = []; again = true }

abbrev pub give_up : Output → Client → Attempt
give_up o c = record { client = c; outputs = o ∷ closes_stream ∷ []; again = false }

abbrev pub after : List Output → Attempt → Attempt
after os o = record o { outputs = os ++ o.outputs }

unfoldable pub retry_write : MemberId → Client → Attempt
retry_write leader c = try_again (reset_leader leader none c).0

-- A member that does not lead says who does, or that it does not know.
unfoldable pub redirect : MemberId → CommandResponse → Client → Attempt
redirect leader r c =
    if str_eq leader r.leader
    then retry_write leader c
    else (let o = reset_leader leader (if str_eq r.leader "" then none else some r.leader) c in
        if o.1 then try_again o.0 else give_up (sends_message r.message) o.0)

unfoldable pub receive_write : MemberId → List (Streamed CommandResponse) → Client → Attempt
receive_write leader [] c = record { client = c; outputs = closes_stream ∷ []; again = false }
receive_write leader (failed e ∷ rs) c =
    let c₁ = (reset_leader leader none c).0 in
    if e.unavailable then retry_write leader c₁ else give_up (sends_error e) c₁
receive_write leader (responded r ∷ rs) c =
    let rest = receive_write leader rs c in
    if is_ok r.status
    then after (sends_value r.output ∷ []) rest
    else if is_illegal_member_state r.error
    then redirect leader r c
    else after (sends_message r.message ∷ []) rest

unfoldable pub answered_write : MemberId → Answer CommandResponse → Client → Attempt
answered_write leader (call_fails e) c =
    if e.unavailable then retry_write leader c else give_up (sends_error e) c
answered_write leader (streams rs) c = receive_write leader rs c

-- What each member answers is an argument.
unfoldable pub send_write : (MemberId → Answer CommandResponse) → Client → Option Attempt
send_write answers c =
    get_leader c >>= λ (leader, c₁). some (answered_write leader (answers leader) c₁)

unfoldable pub retry_read : Client → Attempt
retry_read c = try_again (reset_member c)

unfoldable pub receive_read : List (Streamed QueryResponse) → Client → Attempt
receive_read [] c = record { client = c; outputs = closes_stream ∷ []; again = false }
receive_read (failed e ∷ rs) c = if e.unavailable then retry_read c else give_up (sends_error e) c
receive_read (responded r ∷ rs) c =
    let rest = receive_read rs c in
    if is_ok r.status
    then after (sends_value r.output ∷ []) rest
    else if is_illegal_member_state r.error
    then retry_read c
    else after (sends_message r.message ∷ []) rest

unfoldable pub answered_read : Answer QueryResponse → Client → Attempt
answered_read (call_fails e) c = if e.unavailable then retry_read c else give_up (sends_error e) c
answered_read (streams rs) c = receive_read rs c

unfoldable pub send_read : (MemberId → Answer QueryResponse) → Client → Option Attempt
send_read answers c = get_member c >>= λ (member, c₁). some (answered_read (answers member) c₁)

-- Attempts, so many at most, until one is the last. What the members answer may change between them.
unfoldable pub attempts :
    {A : Type 0}
    → ((MemberId → Answer A) → Client → Option Attempt)
    → ℕ
    → (ℕ → MemberId → Answer A)
    → Client
    → Option Attempt
attempts send zero network c = some (try_again c)
attempts send (suc n) network c = send (network 0) c >>= λ o. elim o.again [
  | false ↦ some o
  | true ↦ attempts send n (λ k. network (suc k)) o.client >>= λ rest. some (after o.outputs rest)
]

abbrev pub write : ℕ → (ℕ → MemberId → Answer CommandResponse) → Client → Option Attempt
write = attempts send_write

abbrev pub read : ℕ → (ℕ → MemberId → Answer QueryResponse) → Client → Option Attempt
read = attempts send_read
