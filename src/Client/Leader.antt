-- ===== src/Client/Leader.antt =====
-- Writes: the client finds the leader, if the others tell of it or refuse.
use mathlib.Core.Option.{some-injective}
use atomix_go_raft.Base.{
  ℕ, zero, suc, ◌≤◌, ◌<◌, ◌≡◌, ◌≢◌, refl, sym, ap, subst, ◌∙◌, inl, inr, false, none, some, List,
  str_eq, eq_iff, arith, length, get_elem?, Bool-cases, Option-cases,
}
use atomix_go_raft.Protocol.Cluster.{MemberId}
use atomix_go_raft.Protocol.Streams.{Answer, CommandResponse}
use atomix_go_raft.Client.Attempts.{attempts_last, attempts_again}
use atomix_go_raft.Client.{
  Client, Attempt, answered_write, send_write, write, reset_member, reset_leader, get_leader,
}
use atomix_go_raft.Client.Places.{
  Sits, IsAt, successor, distance, distance-successor, distance-le, distance-other,
  get_member-Chosen, get_leader_free, reset_member-IsAt, reset_member_somewhere, leader-IsAt,
}
use atomix_go_raft.Client.Writes.{
  IsWritten, IsReferred, Turn, once, twice, learns, done, command_outputs, answered_write_served,
  answered_write-Turns,
}
use atomix_go_raft.Client.Resets.{
  reset_leader_free, reset_leader_led, reset_if_own, reset_if_free, reset_if_rule,
}

-- A write that the leader serves: in a turn among the first so many, the caller got what the leader
-- answered then, and nothing else.
pub record Writes (n : ℕ) (network : ℕ → MemberId → Answer CommandResponse) (c : Client)
    (live : MemberId) : Type 0 where
  pub attempt : Attempt
  pub turn : ℕ
  pub responses : List CommandResponse
  pub within : turn < n
  pub ran : write n network c ≡ some attempt
  pub served : IsWritten responses (network turn live)
  pub outputs : attempt.outputs ≡ command_outputs responses
  pub last : attempt.again ≡ false

send_write_found :
    (answers : MemberId → Answer CommandResponse) (c c₁ : Client) (m : MemberId) (o : Attempt)
    → get_leader c ≡ some (m, c₁)
    → answered_write m (answers m) c₁ ≡ o
    → send_write answers c ≡ some o
unfolding send_write
send_write_found answers c c₁ m o found answered = rw found (ap some answered)

-- The member that the client turns to serves the write, or it sends the client elsewhere.
write_rule :
    (live : MemberId) (n : ℕ) (network : ℕ → MemberId → Answer CommandResponse) (c c₁ : Client)
    (m : MemberId)
    → get_leader c ≡ some (m, c₁)
    → (rs : List CommandResponse) × IsWritten rs (network 0 live)
    → (m ≢ live → IsReferred live (network 0 m))
    → (m ≢ live → c₁.leader ≢ some live)
    → (m ≢ live → (next : Client) → Turn m live c₁ next → Writes n (λ k. network (suc k)) next live)
    → Writes (suc n) network c live
write_rule live n network c c₁ m found (rs, served) refers fresh rest =
    elim (Bool-cases (str_eq m live)) [
      | inl same ↦
          let e = (eq_iff m live).0 same in
          let mine : IsWritten rs (network 0 m) =
            subst (λ x. IsWritten rs (network 0 x)) (sym e) served in
          record {
            attempt = done c₁ rs;
            turn = 0;
            responses = rs;
            within = omega arith;
            ran = attempts_last send_write n network c c₁ (command_outputs rs) (
                send_write_found (network 0) c c₁ m _ found
                  (answered_write_served m (network 0 m) rs c₁ mine));
            served = served;
            outputs = refl;
            last = refl;
          }
      | inr different ↦
          let other : m ≢ live =
            λ e. let same = (eq_iff m live).1 e in let no' = sym same ∙ different in cc in
          let turns = answered_write-Turns m live (network 0 m) c₁ (refers other) (fresh other) in
          let went = rest other turns.next turns.turn in
          record {
            attempt = went.attempt;
            turn = suc went.turn;
            responses = went.responses;
            within = omega (arith, went.within);
            ran =
                attempts_again send_write n network c turns.next went.attempt
                  (send_write_found (network 0) c c₁ m _ found turns.is) went.ran;
            served = went.served;
            outputs = went.outputs;
            last = went.last;
          }
    ]

module _ (live : MemberId) where
  -- Where the client stands after it turned to a member that is not the leader.
  free-Turn :
      (q : ℕ) (m : MemberId) (c next : Client) (P : Client → Type 0)
      → c.leader ≡ none
      → Sits q m c
      → P (reset_member c)
      → P (record c { leader = some live })
      → Turn m live c next
      → P next
  unfolding reset_member
  free-Turn q m c next P free sits moves leads once =
      subst P (sym (reset_leader_free m c free ∙ reset_if_own m c sits.member)) moves
  free-Turn q m c next P free sits moves leads twice =
      let first = reset_leader_free m c free ∙ reset_if_own m c sits.member in
      let c₁ = record c { member = none } in
      let second : (reset_leader m none c₁).0 ≡ c₁ =
        reset_leader_free m c₁ free ∙ reset_if_free m c₁ refl in
      subst P (sym (ap (λ x. (reset_leader m none x).0) first ∙ second)) moves
  free-Turn q m c next P free sits moves leads learns = leads

  led-Turn :
      (m : MemberId) (c next : Client) (P : Client → Type 0)
      → c.leader ≡ some m
      → P (record c { leader = none })
      → P (reset_member (record c { leader = none }))
      → P (record c { leader = some live })
      → Turn m live c next
      → P next
  led-Turn m c next P led keeps moves leads once = subst P (sym (reset_leader_led m m c led)) keeps
  led-Turn m c next P led keeps moves leads twice =
      let c₁ = record c { leader = none } in
      subst P
        (sym (
          ap (λ x. (reset_leader m none x).0) (reset_leader_led m m c led)
          ∙ reset_leader_free m c₁ refl))
        (reset_if_rule P m c₁ keeps moves)
  led-Turn m c next P led keeps moves leads learns = leads

  write_led_soon :
      (n : ℕ) (network : ℕ → MemberId → Answer CommandResponse) (c : Client)
      → 1 ≤ n
      → (rs : List CommandResponse) × IsWritten rs (network 0 live)
      → c.leader ≡ some live
      → Writes n network c live
  unfolding get_leader
  write_led_soon zero network c some_left served led = absurd (omega (arith, some_left))
  write_led_soon (suc n) network c some_left served led =
      write_rule live n network c c live (rw led refl) served (λ other. absurd (other refl))
        (λ other. absurd (other refl)) (λ other. absurd (other refl))

  -- Without a leader, the client goes around the members.
  write_free :
      (p n : ℕ) (network : ℕ → MemberId → Answer CommandResponse) (c : Client) (q : ℕ)
      → p < length c.members
      → get_elem? c.members p ≡ some live
      → ((k : ℕ) → (rs : List CommandResponse) × IsWritten rs (network k live))
      → ((k : ℕ) (m : MemberId) → m ≢ live → IsReferred live (network k m))
      → c.leader ≡ none
      → IsAt q c
      → distance (length c.members) p q ≤ n
      → Writes n network c live
  unfolding reset_member
  write_free p zero network c q inside there served refers free at enough =
      absurd (ground (arith, enough))
  write_free p (suc n) network c q inside there served refers free at enough =
      let ((m, c₁), found, chosen) = get_member-Chosen q c at in
      let size : length c₁.members ≡ length c.members = ap length chosen.members in
      let still = chosen.leader ∙ free in
      write_rule live n network c c₁ m (get_leader_free c free ∙ found) (served 0) (refers 0 m)
        (λ other led. let no' = sym still ∙ led in cc)
        λ other next turn.
          let elsewhere : q ≢ p = λ e. other (
            some-injective _ _ (
              sym chosen.sits.there
              ∙ ap (λ ms. get_elem? ms q) chosen.members
              ∙ ap (get_elem? c.members) e
              ∙ there)) in
          let nearer = distance-successor (length c.members) p q inside at.inside elsewhere in
          let far = distance-other (length c.members) p q inside at.inside elsewhere in
          free-Turn q m c₁ next (λ x. Writes n (λ k. network (suc k)) x live) still chosen.sits
            (write_free p n (λ k. network (suc k)) (reset_member c₁)
              (successor (length c₁.members) q)
              (subst (λ ms. p < length ms) (sym chosen.members) inside)
              (ap (λ ms. get_elem? ms p) chosen.members ∙ there) (λ k. served (suc k))
              (λ k. refers (suc k)) still
              (reset_member-IsAt q m c₁ chosen.sits
                (subst (λ ms. q < length ms) (sym chosen.members) at.inside))
              (subst (λ k. distance k p (successor k q) ≤ n) (sym size)
                (omega (arith, nearer, enough))))
            (write_led_soon n (λ k. network (suc k)) (record c₁ { leader = some live })
              (omega (arith, far, enough)) (served 1) refl)
            turn

-- A write is served: if the leader is a member and serves every write, and every other member is not there
-- or refuses for its state, naming that leader or nobody, then from any place, whatever leader the client
-- believes in, the leader serves the write within at most one attempt more than there are members, and the
-- caller gets what the leader answered, and nothing else.
pub write_finishes :
    (live : MemberId) (p n : ℕ) (network : ℕ → MemberId → Answer CommandResponse) (c : Client)
    (q : ℕ)
    → p < length c.members
    → get_elem? c.members p ≡ some live
    → ((k : ℕ) → (rs : List CommandResponse) × IsWritten rs (network k live))
    → ((k : ℕ) (m : MemberId) → m ≢ live → IsReferred live (network k m))
    → IsAt q c
    → length c.members < n
    → Writes n network c live
unfolding get_leader reset_member
write_finishes live p zero network c q inside there served refers at enough =
    absurd (omega (arith, enough))
write_finishes live p (suc n) network c q inside there served refers at enough =
    let near = distance-le (length c.members) p q inside at.inside in
    elim (Option-cases c.leader) [
      | inl free ↦
          write_free live p (suc n) network c q inside there served refers free at
            (omega (arith, near, enough))
      | inr (m, led) ↦
          let tail : ℕ → MemberId → Answer CommandResponse = λ k. network (suc k) in
          write_rule live n network c c m (rw led refl) (served 0) (refers 0 m)
            (λ other its. other (some-injective _ _ (sym led ∙ its)))
            λ other next turn.
              let (q', at') =
                reset_member_somewhere q (record c { leader = none }) (leader-IsAt q c at) in
              led-Turn live m c next (λ x. Writes n tail x live) led
                (write_free live p n tail (record c { leader = none }) q inside there
                  (λ k. served (suc k)) (λ k. refers (suc k)) refl (leader-IsAt q c at)
                  (omega (arith, near, enough)))
                (write_free live p n tail (reset_member (record c { leader = none })) q' inside
                  there (λ k. served (suc k)) (λ k. refers (suc k)) refl at'
                  (let near' = distance-le (length c.members) p q' inside at'.inside in
                    omega (arith, near', enough)))
                (write_led_soon live n tail (record c { leader = some live })
                  (omega (arith, inside, enough)) (served 1) refl)
                turn
    ]
