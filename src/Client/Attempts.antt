-- ===== src/Client/Attempts.antt =====
-- What the caller's stream gets from the attempts of a request.
use mathlib.Core.Option.{some-injective}
use atomix_go_raft.Base.{
  ℕ, zero, suc, ◌≡◌, refl, subst, inl, inr, Bool, true, false, Option, none, some, List, [], ◌∷◌,
  ◌++◌, if◌then◌else◌, if_cases, Option-cases, str_eq, Bool-cases,
}
use atomix_go_raft.Protocol.Cluster.{MemberId}
use atomix_go_raft.Protocol.Streams.{
  Answer, call_fails, streams, CommandResponse, QueryResponse, Streamed, failed, responded, is_ok,
  is_illegal_member_state,
}
use atomix_go_raft.Client.{
  Client, Output, sends_value, sends_error, sends_message, closes_stream, Attempt, after, try_again,
  retry_write, redirect, receive_write, answered_write, send_write, retry_read, receive_read,
  answered_read, send_read, attempts, write, read, reset_leader, get_leader, get_member,
}

-- The last attempt, and one after which the request is sent another time.
pub attempts_last :
    {A : Type 0} (send : (MemberId → Answer A) → Client → Option Attempt) (n : ℕ)
    (network : ℕ → MemberId → Answer A) (c next : Client) (os : List Output)
    → send (network 0) c ≡ some (record { client = next; outputs = os; again = false })
    → attempts send (suc n) network c ≡ some (record { client = next; outputs = os; again = false })
unfolding attempts
attempts_last send n network c next os sent = rw sent refl

pub attempts_again :
    {A : Type 0} (send : (MemberId → Answer A) → Client → Option Attempt) (n : ℕ)
    (network : ℕ → MemberId → Answer A) (c next : Client) (o : Attempt)
    → send (network 0) c ≡ some (try_again next)
    → attempts send n (λ k. network (suc k)) next ≡ some o
    → attempts send (suc n) network c ≡ some o
unfolding attempts
attempts_again send n network c next o sent went = rw (sent, went) refl

-- A stream is closed at the end of the last attempt, and nothing is sent after that.
abbrev pub IsEnded : Bool → List Output → Type 0
IsEnded again [] = again ≡ true
IsEnded again (closes_stream ∷ os) = (os ≡ []) × (again ≡ false)
IsEnded again (sends_value v ∷ os) = IsEnded again os
IsEnded again (sends_error e ∷ os) = IsEnded again os
IsEnded again (sends_message m ∷ os) = IsEnded again os

abbrev Ends : Attempt → Type 0
Ends o = IsEnded o.again o.outputs

append-IsEnded :
    (b : Bool) (os xs : List Output) → IsEnded true os → IsEnded b xs → IsEnded b (os ++ xs)
append-IsEnded b [] xs h k = k
append-IsEnded b (closes_stream ∷ os) xs h k = absurd (let no' = h.1 in cc)
append-IsEnded b (sends_value v ∷ os) xs h k = append-IsEnded b os xs h k
append-IsEnded b (sends_error e ∷ os) xs h k = append-IsEnded b os xs h k
append-IsEnded b (sends_message m ∷ os) xs h k = append-IsEnded b os xs h k

redirect-Ends : (leader : MemberId) (r : CommandResponse) (c : Client) → Ends (redirect leader r c)
unfolding redirect retry_write
redirect-Ends leader r c =
    if_cases Ends (str_eq leader r.leader) _ _ (λ own. refl)
      (λ other.
        let o = reset_leader leader (if str_eq r.leader "" then none else some r.leader) c in
        if_cases Ends o.1 _ _ (λ new. refl) (λ known. (refl, refl)))

receive_write-Ends :
    (leader : MemberId) (rs : List (Streamed CommandResponse)) (c : Client)
    → Ends (receive_write leader rs c)
unfolding receive_write retry_write
receive_write-Ends leader [] c = (refl, refl)
receive_write-Ends leader (failed e ∷ rs) c =
    if_cases Ends e.unavailable _ _ (λ gone. refl) (λ wrong. (refl, refl))
receive_write-Ends leader (responded r ∷ rs) c =
    if_cases Ends (is_ok r.status) _ _ (λ fine. receive_write-Ends leader rs c)
      (λ error.
        if_cases Ends (is_illegal_member_state r.error) _ _ (λ illegal. redirect-Ends leader r c)
          (λ other. receive_write-Ends leader rs c))

receive_read-Ends : (rs : List (Streamed QueryResponse)) (c : Client) → Ends (receive_read rs c)
unfolding receive_read retry_read
receive_read-Ends [] c = (refl, refl)
receive_read-Ends (failed e ∷ rs) c =
    if_cases Ends e.unavailable _ _ (λ gone. refl) (λ wrong. (refl, refl))
receive_read-Ends (responded r ∷ rs) c =
    if_cases Ends (is_ok r.status) _ _ (λ fine. receive_read-Ends rs c)
      (λ error.
        if_cases Ends (is_illegal_member_state r.error) _ _ (λ illegal. refl)
          (λ other. receive_read-Ends rs c))

answered_write-Ends :
    (leader : MemberId) (a : Answer CommandResponse) (c : Client) → Ends (answered_write leader a c)
unfolding answered_write retry_write
answered_write-Ends leader (call_fails e) c =
    if_cases Ends e.unavailable _ _ (λ gone. refl) (λ wrong. (refl, refl))
answered_write-Ends leader (streams rs) c = receive_write-Ends leader rs c

answered_read-Ends : (a : Answer QueryResponse) (c : Client) → Ends (answered_read a c)
unfolding answered_read retry_read
answered_read-Ends (call_fails e) c =
    if_cases Ends e.unavailable _ _ (λ gone. refl) (λ wrong. (refl, refl))
answered_read-Ends (streams rs) c = receive_read-Ends rs c

-- What is sent, if each attempt ends its part.
attempts-Ends :
    {A : Type 0} (send : (MemberId → Answer A) → Client → Option Attempt)
    → ((answers : MemberId → Answer A) (c : Client) (o : Attempt)
        → send answers c ≡ some o
        → Ends o)
    → (n : ℕ) (network : ℕ → MemberId → Answer A) (c : Client) (o : Attempt)
    → attempts send n network c ≡ some o
    → Ends o
unfolding attempts
attempts-Ends send ends zero network c o h = subst Ends (some-injective _ _ h) refl
attempts-Ends send ends (suc n) network c o h = elim (Option-cases (send (network 0) c)) [
  | inl panics ↦ absurd (let k : none ≡ some o = rw panics at h in cc)
  | inr (first, sent) ↦ elim (Bool-cases first.again) [
    | inr last ↦
        let k : some first ≡ some o = rw (sent, last) at h in
        subst Ends (some-injective _ _ k) (ends (network 0) c first sent)
    | inl again ↦ elim (Option-cases (attempts send n (λ k. network (suc k)) first.client)) [
      | inl panics ↦ absurd (let k : none ≡ some o = rw (sent, again, panics) at h in cc)
      | inr (rest, went) ↦
          let k : some (after first.outputs rest) ≡ some o = rw (sent, again, went) at h in
          subst Ends (some-injective _ _ k) (
            append-IsEnded rest.again first.outputs rest.outputs
              (subst (λ b. IsEnded b first.outputs) again (ends (network 0) c first sent))
              (attempts-Ends send ends n (λ k. network (suc k)) first.client rest went))
    ]
  ]
]

send_write-Ends :
    (answers : MemberId → Answer CommandResponse) (c : Client) (o : Attempt)
    → send_write answers c ≡ some o
    → Ends o
unfolding send_write
send_write-Ends answers c o h = elim (Option-cases (get_leader c)) [
  | inl panics ↦ absurd (let k : none ≡ some o = rw panics at h in cc)
  | inr ((leader, c₁), found) ↦
      let k : some (answered_write leader (answers leader) c₁) ≡ some o = rw found at h in
      subst Ends (some-injective _ _ k) (answered_write-Ends leader (answers leader) c₁)
]

send_read-Ends :
    (answers : MemberId → Answer QueryResponse) (c : Client) (o : Attempt)
    → send_read answers c ≡ some o
    → Ends o
unfolding send_read
send_read-Ends answers c o h = elim (Option-cases (get_member c)) [
  | inl panics ↦ absurd (let k : none ≡ some o = rw panics at h in cc)
  | inr ((member, c₁), found) ↦
      let k : some (answered_read (answers member) c₁) ≡ some o = rw found at h in
      subst Ends (some-injective _ _ k) (answered_read-Ends (answers member) c₁)
]

-- Whatever the members answer, and after any number of attempts of a write and of a read: the stream is
-- closed exactly when no other attempt follows, and nothing is sent on it after that.
pub outputs-IsEnded :
    (n : ℕ) (writes : ℕ → MemberId → Answer CommandResponse)
    (reads : ℕ → MemberId → Answer QueryResponse) (c : Client) (o o' : Attempt)
    → write n writes c ≡ some o
    → read n reads c ≡ some o'
    → IsEnded o.again o.outputs × IsEnded o'.again o'.outputs
outputs-IsEnded n writes reads c o o' wrote did_read = (
  attempts-Ends send_write send_write-Ends n writes c o wrote,
  attempts-Ends send_read send_read-Ends n reads c o' did_read,
)
