-- ===== src/Client/Writes.antt =====
-- Writes: what an attempt makes of the client.
use atomix_go_raft.Base.{
  ◌≡◌, ◌≢◌, refl, sym, ap, subst, ◌∙◌, ◌⊎◌, inl, inr, Bool, true, false, Option, none, some, List,
  [], ◌∷◌, map, Bool-cases, if◌then◌else◌, if_cases, Option-cases, All, str_eq, eq_iff, not,
}
use atomix_go_raft.Protocol.Cluster.{MemberId}
use atomix_go_raft.Protocol.Streams.{
  Answer, call_fails, streams, CommandResponse, failed, responded, is_ok, is_illegal_member_state,
}
use atomix_go_raft.Client.{
  Client, Attempt, Output, closes_stream, after, try_again, give_up, sends_value, sends_message,
  retry_write, redirect, receive_write, answered_write, reset_leader,
}

-- A response that is no refusal for the member's state.
abbrev pub IsAccepted : CommandResponse → Type 0
IsAccepted r = (is_ok r.status ≡ true) ⊎ (is_illegal_member_state r.error ≡ false)

-- The leader serves a write with so many responses, and then ends the stream.
abbrev pub IsWritten : List CommandResponse → Answer CommandResponse → Type 0
IsWritten rs a = (a ≡ streams (map responded rs)) × All IsAccepted rs

-- Another member is not there, or it refuses for its state and names the leader or nobody.
abbrev pub IsReferred : MemberId → Answer CommandResponse → Type 0
IsReferred live (call_fails e) = e.unavailable ≡ true
IsReferred live (streams []) = ⊥
IsReferred live (streams (failed e ∷ rs)) = e.unavailable ≡ true
IsReferred live (streams (responded r ∷ rs)) =
    (is_ok r.status ≡ false)
    × (is_illegal_member_state r.error ≡ true)
    × ((r.leader ≡ "") ⊎ (r.leader ≡ live))

-- What the caller gets of responses: the values, and messages for errors, in order, and the end.
abbrev pub command_outputs : List CommandResponse → List Output
command_outputs [] = closes_stream ∷ []
command_outputs (r ∷ rs) =
    (if is_ok r.status then sends_value r.output else sends_message r.message) ∷ command_outputs rs

abbrev pub done : Client → List CommandResponse → Attempt
done c rs = record { client = c; outputs = command_outputs rs; again = false }

receive_write_served :
    (m : MemberId) (rs : List CommandResponse) (c : Client)
    → All IsAccepted rs
    → receive_write m (map responded rs) c ≡ done c rs
unfolding receive_write
receive_write_served m [] c h = refl
receive_write_served m (r ∷ rs) c h = elim (Bool-cases (is_ok r.status)) [
  | inl fine ↦
      rw (receive_write, fine)
        (ap (after (sends_value r.output ∷ [])) (receive_write_served m rs c h.1))
  | inr error ↦ elim h.0 [
    | inl fine ↦ absurd (let no' = sym error ∙ fine in cc)
    | inr legal ↦
        rw (receive_write, error, legal)
          (ap (after (sends_message r.message ∷ [])) (receive_write_served m rs c h.1))
  ]
]

pub answered_write_served :
    (m : MemberId) (a : Answer CommandResponse) (rs : List CommandResponse) (c : Client)
    → IsWritten rs a
    → answered_write m a c ≡ done c rs
unfolding answered_write
answered_write_served m a rs c h =
    ap (λ a. answered_write m a c) h.0 ∙ receive_write_served m rs c h.1

-- How the client goes on: it forgets the leader or the member that it asked, once or twice, or it has
-- learnt the leader.
pub data Turn (m live : MemberId) (c : Client) : Client → Type 0 where
  once : Turn m live c (reset_leader m none c).0
  twice : Turn m live c (reset_leader m none (reset_leader m none c).0).0
  learns : Turn m live c (record c { leader = some live })

-- The request is sent another time, and nothing was sent to the caller.
pub record Turns (m live : MemberId) (c : Client) (o : Attempt) : Type 0 where
  pub next : Client
  pub is : o ≡ try_again next
  pub turn : Turn m live c next

-- A new leader is learnt, unless it is the one that the client believes in.
learn_rule :
    (P : Client × Bool → Type 0) (m live : MemberId) (c : Client)
    → c.leader ≢ some live
    → P (record c { leader = some live }, true)
    → P (reset_leader m (some live) c)
unfolding reset_leader
learn_rule P m live c fresh new =
    let f : Option MemberId → Client × Bool = λ x. elim x [
      | none ↦ (record c { leader = some live }, true)
      | some q ↦ if not (str_eq q live) then (record c { leader = some live }, true) else (c, false)
    ] in
    elim (Option-cases c.leader) [
      | inl free ↦ subst P (sym (ap f free)) new
      | inr (q, led) ↦ elim (Bool-cases (str_eq q live)) [
        | inl same ↦ absurd (fresh (led ∙ ap some ((eq_iff q live).0 same)))
        | inr other ↦ subst P (sym (ap f led)) (rw other new)
      ]
    ]

reset_leader_done : (m : MemberId) (c : Client) → (reset_leader m none c).1 ≡ true
unfolding reset_leader
reset_leader_done m c = elim (Option-cases c.leader) [
  | inl free ↦ rw free refl
  | inr (q, led) ↦ rw led refl
]

redirect-Turns :
    (m live : MemberId) (r : CommandResponse) (c : Client)
    → (r.leader ≡ "") ⊎ (r.leader ≡ live)
    → c.leader ≢ some live
    → Turns m live c (redirect m r c)
unfolding redirect retry_write
redirect-Turns m live r c named fresh =
    let answer : Client × Bool → Attempt =
      λ o. if o.1 then try_again o.0 else give_up (sends_message r.message) o.0 in
    let target : Option MemberId = if str_eq r.leader "" then none else some r.leader in
    let P : Option MemberId → Type 0 = λ t. Turns m live c (answer (reset_leader m t c)) in
    if_cases (Turns m live c) (str_eq m r.leader) (retry_write m c)
      (answer (reset_leader m target c))
      (λ own. record { next = (reset_leader m none c).0; is = refl; turn = once })
      (λ other.
        if_cases P (str_eq r.leader "") none (some r.leader)
          (λ nobody. record {
            next = (reset_leader m none c).0;
            is = rw (reset_leader_done m c) refl;
            turn = once;
          })
          (λ somebody. elim named [
            | inl nobody ↦ absurd (let yes' = (eq_iff r.leader "").1 nobody in cc)
            | inr leads ↦
                subst (λ l. P (some l)) (sym leads)
                  (learn_rule (λ o. Turns m live c (answer o)) m live c fresh
                    (record { next = record c { leader = some live }; is = refl; turn = learns }))
          ]))

pub answered_write-Turns :
    (m live : MemberId) (a : Answer CommandResponse) (c : Client)
    → IsReferred live a
    → c.leader ≢ some live
    → Turns m live c (answered_write m a c)
unfolding answered_write receive_write retry_write
answered_write-Turns m live (call_fails e) c h fresh = record {
  next = (reset_leader m none c).0;
  is = rw h refl;
  turn = once;
}
answered_write-Turns m live (streams []) c h fresh = absurd h
answered_write-Turns m live (streams (failed e ∷ rs)) c h fresh = record {
  next = (reset_leader m none (reset_leader m none c).0).0;
  is = rw h refl;
  turn = twice;
}
answered_write-Turns m live (streams (responded r ∷ rs)) c h fresh =
    let (error, illegal, named) = h in rw (error, illegal) (redirect-Turns m live r c named fresh)
