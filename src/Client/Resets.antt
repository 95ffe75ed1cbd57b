-- ===== src/Client/Resets.antt =====
-- What a reset makes of a client.
use atomix_go_raft.Base.{
  ◌≡◌, refl, sym, ap, subst, ◌∙◌, inl, inr, Bool, true, Option, none, some, if◌then◌else◌, if_cases,
  Option-cases, str_eq, eq_iff,
}
use atomix_go_raft.Protocol.Cluster.{MemberId}
use atomix_go_raft.Client.{Client, reset_member, reset_if, reset_leader}

-- What a reset makes of the client.
pub reset_leader_free :
    (m : MemberId) (c : Client) → c.leader ≡ none → (reset_leader m none c).0 ≡ reset_if m c
unfolding reset_leader
reset_leader_free m c free =
    ap
      (λ x.
        (elim x as (λ y. Client × Bool) [
          | none ↦ (reset_if m c, true)
          | some q ↦ (record c { leader = none }, true)
        ]).0)
      free

pub reset_leader_led :
    (m x : MemberId) (c : Client)
    → c.leader ≡ some x
    → (reset_leader m none c).0 ≡ record c { leader = none }
unfolding reset_leader
reset_leader_led m x c led =
    ap
      (λ x.
        (elim x as (λ y. Client × Bool) [
          | none ↦ (reset_if m c, true)
          | some q ↦ (record c { leader = none }, true)
        ]).0)
      led

pub reset_if_own : (m : MemberId) (c : Client) → c.member ≡ some m → reset_if m c ≡ reset_member c
unfolding reset_if reset_member
reset_if_own m c own =
    let f : Option MemberId → Client =
      λ x. elim x [ none ↦ c | some y ↦ if str_eq y m then record c { member = none } else c ] in
    let self : f (some m) ≡ record c { member = none } =
      ap {B = Client} (λ b. if b then record c { member = none } else c) ((eq_iff m m).1 refl) in
    ap f own ∙ self

pub reset_if_free : (m : MemberId) (c : Client) → c.member ≡ none → reset_if m c ≡ c
unfolding reset_if
reset_if_free m c free =
    ap {B = Client}
      (λ x. elim x [ none ↦ c | some y ↦ if str_eq y m then record c { member = none } else c ])
      free

pub reset_if_rule :
    (P : Client → Type 0) (m : MemberId) (c : Client) → P c → P (reset_member c) → P (reset_if m c)
unfolding reset_if reset_member
reset_if_rule P m c same free =
    let f : Option MemberId → Client =
      λ x. elim x [ none ↦ c | some y ↦ if str_eq y m then record c { member = none } else c ] in
    elim (Option-cases c.member) [
      | inl e ↦ subst P (sym (ap f e)) same
      | inr (y, e) ↦
          subst P (sym (ap f e)) (if_cases P (str_eq y m) _ _ (λ own. free) (λ other. same))
    ]
