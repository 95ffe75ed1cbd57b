-- ===== src/Client/Reads.antt =====
-- Reads: the client finds a member that answers, wherever it starts, and the caller gets that answer.
use mathlib.Core.Option.{some-injective}
use atomix_go_raft.Base.{
  ℕ, zero, suc, ◌≤◌, ◌<◌, ◌≡◌, ◌≢◌, refl, sym, ap, subst, ◌∙◌, ◌⊎◌, inl, inr, true, false, some,
  List, [], ◌∷◌, map, arith, length, get_elem?, if◌then◌else◌, Bool-cases, All,
}
use atomix_go_raft.Protocol.Cluster.{MemberId}
use atomix_go_raft.Protocol.Streams.{
  Answer, call_fails, streams, QueryResponse, failed, responded, is_ok, is_illegal_member_state,
}
use atomix_go_raft.Client.{
  Client, Attempt, Output, after, retry_read, receive_read, answered_read, send_read, get_member,
  read, sends_value, sends_message, closes_stream, reset_member,
}
use atomix_go_raft.Client.Places.{
  IsAt, successor, distance, distance-successor, get_member-Chosen, reset_member-IsAt,
}
use atomix_go_raft.Client.Attempts.{attempts_last, attempts_again}

-- A response that is no refusal for the member's state.
abbrev pub IsAnswer : QueryResponse → Type 0
IsAnswer r = (is_ok r.status ≡ true) ⊎ (is_illegal_member_state r.error ≡ false)

-- A member serves a read with so many responses, and then ends the stream.
abbrev pub IsServed : List QueryResponse → Answer QueryResponse → Type 0
IsServed rs a = (a ≡ streams (map responded rs)) × All IsAnswer rs

-- A member is not there, or it refuses for its state.
abbrev pub IsRefused : Answer QueryResponse → Type 0
IsRefused (call_fails e) = e.unavailable ≡ true
IsRefused (streams []) = ⊥
IsRefused (streams (failed e ∷ ms)) = e.unavailable ≡ true
IsRefused (streams (responded r ∷ ms)) =
    (is_ok r.status ≡ false) × (is_illegal_member_state r.error ≡ true)

-- What the caller gets of responses: the values, and messages for errors, in order, and the end.
abbrev pub query_outputs : List QueryResponse → List Output
query_outputs [] = closes_stream ∷ []
query_outputs (r ∷ rs) =
    (if is_ok r.status then sends_value r.output else sends_message r.message) ∷ query_outputs rs

receive_read_served :
    (rs : List QueryResponse) (c : Client)
    → All IsAnswer rs
    → receive_read (map responded rs) c
      ≡ record { client = c; outputs = query_outputs rs; again = false }
unfolding receive_read
receive_read_served [] c h = refl
receive_read_served (r ∷ rs) c h = elim (Bool-cases (is_ok r.status)) [
  | inl fine ↦
      rw (receive_read, fine)
        (ap (after (sends_value r.output ∷ [])) (receive_read_served rs c h.1))
  | inr error ↦ elim h.0 [
    | inl fine ↦ absurd (let no' = sym error ∙ fine in cc)
    | inr legal ↦
        rw (receive_read, error, legal)
          (ap (after (sends_message r.message ∷ [])) (receive_read_served rs c h.1))
  ]
]

answered_read_refused :
    (a : Answer QueryResponse) (c : Client) → IsRefused a → answered_read a c ≡ retry_read c
unfolding answered_read receive_read
answered_read_refused (call_fails e) c h = rw h refl
answered_read_refused (streams []) c h = absurd h
answered_read_refused (streams (failed e ∷ ms)) c h = rw h refl
answered_read_refused (streams (responded r ∷ ms)) c h = rw (h.0, h.1) refl

send_read_found :
    (answers : MemberId → Answer QueryResponse) (c c₁ : Client) (m : MemberId) (o : Attempt)
    → get_member c ≡ some (m, c₁)
    → answered_read (answers m) c₁ ≡ o
    → send_read answers c ≡ some o
unfolding send_read
send_read_found answers c c₁ m o found answered = rw found (ap some answered)

retried :
    (c : Client) → retry_read c ≡ record { client = reset_member c; outputs = []; again = true }
unfolding retry_read
retried c = refl

answered_read_streams :
    (a : Answer QueryResponse) (rs : List QueryResponse) (c : Client)
    → IsServed rs a
    → answered_read a c ≡ record { client = c; outputs = query_outputs rs; again = false }
unfolding answered_read
answered_read_streams a rs c h = ap (λ a. answered_read a c) h.0 ∙ receive_read_served rs c h.1

-- A read that a member serves: in a turn among the first so many, the client asked a member, and the caller
-- got what that member answered then, and nothing else.
pub record Reads (n : ℕ) (network : ℕ → MemberId → Answer QueryResponse) (c : Client) : Type 0 where
  pub attempt : Attempt
  pub turn : ℕ
  pub place : ℕ
  pub member : MemberId
  pub responses : List QueryResponse
  pub within : turn < n
  pub there : get_elem? c.members place ≡ some member
  pub ran : read n network c ≡ some attempt
  pub served : IsServed responses (network turn member)
  pub outputs : attempt.outputs ≡ query_outputs responses
  pub last : attempt.again ≡ false

-- A read is served: if some member serves every read, and every other member, at every attempt, serves the
-- read, is not there or refuses for its state, then from any place a member serves the read within as many
-- attempts as there are members from that place around to the one that always serves, and the caller gets
-- what that member answered, and nothing else.
pub read_finishes :
    (live : MemberId) (p n : ℕ) (network : ℕ → MemberId → Answer QueryResponse) (c : Client) (q : ℕ)
    → p < length c.members
    → get_elem? c.members p ≡ some live
    → ((k : ℕ) → (rs : List QueryResponse) × IsServed rs (network k live))
    → ((k : ℕ) (m : MemberId)
        → ((rs : List QueryResponse) × IsServed rs (network k m)) ⊎ IsRefused (network k m))
    → IsAt q c
    → distance (length c.members) p q ≤ n
    → Reads n network c
unfolding reset_member
read_finishes live p zero network c q inside there serves others at enough =
    absurd (ground (arith, enough))
read_finishes live p (suc n) network c q inside there serves others at enough =
    let ((m, c₁), found, chosen) = get_member-Chosen q c at in
    let here : get_elem? c.members q ≡ some m =
      ap (λ ms. get_elem? ms q) (sym chosen.members) ∙ chosen.sits.there in
    elim (others 0 m) [
      | inl (rs, served) ↦
          let answered : answered_read (network 0 m) c₁
              ≡ record { client = c₁; outputs = query_outputs rs; again = false } =
            answered_read_streams (network 0 m) rs c₁ served in
          record {
            attempt = record { client = c₁; outputs = query_outputs rs; again = false };
            turn = 0;
            place = q;
            member = m;
            responses = rs;
            within = omega arith;
            there = here;
            ran =
                attempts_last send_read n network c c₁ (query_outputs rs)
                  (send_read_found (network 0) c c₁ m _ found answered);
            served = served;
            outputs = refl;
            last = refl;
          }
      | inr refused ↦
          let answered : answered_read (network 0 m) c₁
              ≡ record { client = reset_member c₁; outputs = []; again = true } =
            answered_read_refused (network 0 m) c₁ refused ∙ retried c₁ in
          let other : q ≢ p = λ e.
            let it : m ≡ live =
              some-injective _ _ (sym here ∙ ap (get_elem? c.members) e ∙ there) in
            let (rs, served) = serves 0 in
            let answered' : answered_read (network 0 m) c₁
                ≡ record { client = c₁; outputs = query_outputs rs; again = false } =
              ap (λ x. answered_read (network 0 x) c₁) it
              ∙ answered_read_streams (network 0 live) rs c₁ served in
            let no' : true ≡ false = ap (λ o. o.again) (sym answered ∙ answered') in cc in
          let size : length c₁.members ≡ length c.members = ap length chosen.members in
          let nearer = distance-successor (length c.members) p q inside at.inside other in
          let rest =
            read_finishes live p n (λ k. network (suc k)) (reset_member c₁)
              (successor (length c₁.members) q)
              (subst (λ ms. p < length ms) (sym chosen.members) inside)
              (ap (λ ms. get_elem? ms p) chosen.members ∙ there) (λ k. serves (suc k))
              (λ k. others (suc k))
              (reset_member-IsAt q m c₁ chosen.sits
                (subst (λ ms. q < length ms) (sym chosen.members) at.inside))
              (subst (λ k. distance k p (successor k q) ≤ n) (sym size)
                (omega (arith, nearer, enough))) in
          record {
            attempt = rest.attempt;
            turn = suc rest.turn;
            place = rest.place;
            member = rest.member;
            responses = rest.responses;
            within = omega (arith, rest.within);
            there = ap (λ ms. get_elem? ms rest.place) (sym chosen.members) ∙ rest.there;
            ran =
                attempts_again send_read n network c (reset_member c₁) rest.attempt
                  (send_read_found (network 0) c c₁ m _ found answered) rest.ran;
            served = rest.served;
            outputs = rest.outputs;
            last = rest.last;
          }
    ]
