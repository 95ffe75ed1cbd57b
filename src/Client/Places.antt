-- ===== src/Client/Places.antt =====
-- Which member the client turns to, and how it goes around all of them.
use atomix_go_raft.Base.{
  ℕ, ◌+◌, ◌-◌, ◌≤◌, ◌<◌, ◌≡◌, ◌≢◌, refl, ap, ◌∙◌, ◌⊎◌, inl, inr, Option, none, some, arith, ltb,
  leb, length, get_elem?, get_elem?-some, if◌then◌else◌,
}
use atomix_go_raft.Protocol.Cluster.{MemberId}
use atomix_go_raft.Client.{Client, next_node, get_member_safe, get_member, get_leader, reset_member}

-- The client has chosen the member at a place.
pub record Sits (q : ℕ) (m : MemberId) (c : Client) : Type 0 where
  pub node : c.node ≡ some q
  pub member : c.member ≡ some m
  pub there : get_elem? c.members q ≡ some m

-- The client will turn to the member at a place: it has chosen it, or it will go on to it.
pub record IsAt (q : ℕ) (c : Client) : Type 0 where
  pub inside : q < length c.members
  pub place : ((m : MemberId) × Sits q m c) ⊎ ((c.member ≡ none) × (next_node c ≡ q))

abbrev pub successor : ℕ → ℕ → ℕ
successor size q = if ltb (q + 1) size then q + 1 else 0

-- How many members the client turns to from one place on, up to another.
abbrev pub distance : ℕ → ℕ → ℕ → ℕ
distance size p q = if leb q p then p - q + 1 else size - q + p + 1

pub distance-successor :
    (size p q : ℕ)
    → p < size
    → q < size
    → q ≢ p
    → distance size p (successor size q) < distance size p q
distance-successor size p q hp hq other = ground arith

pub distance-le : (size p q : ℕ) → p < size → q < size → distance size p q ≤ size
distance-le size p q hp hq = ground arith

pub distance-other : (size p q : ℕ) → p < size → q < size → q ≢ p → 2 ≤ distance size p q
distance-other size p q hp hq other = ground arith

-- What a choice of a member leaves.
pub record Chosen (q : ℕ) (c : Client) (o : MemberId × Client) : Type 0 where
  pub sits : Sits q o.0 o.1
  pub members : o.1.members ≡ c.members
  pub leader : o.1.leader ≡ c.leader

get_member_free :
    (c : Client) (m : MemberId)
    → c.member ≡ none
    → get_elem? c.members (next_node c) ≡ some m
    → get_member c ≡ some (m, record c { node = some (next_node c); member = some m })
unfolding get_member get_member_safe
get_member_free c m free there =
    let pick : Option MemberId → Option (MemberId × Client) = λ x. elim x [
      | none ↦ none
      | some y ↦ some (y, record c { node = some (next_node c); member = some y })
    ] in
    let safe : get_member_safe c ≡ pick (get_elem? c.members (next_node c)) =
      ap (λ x. elim x [ some y ↦ some (y, c) | none ↦ pick (get_elem? c.members (next_node c)) ])
        free in
    ap (λ x. elim x [ none ↦ get_member_safe c | some y ↦ some (y, c) ]) free ∙ safe ∙ ap pick there

pub get_member-Chosen :
    (q : ℕ) (c : Client)
    → IsAt q c
    → (o : MemberId × Client) × (get_member c ≡ some o) × Chosen q c o
unfolding get_member
get_member-Chosen q c at = elim at.place [
  | inl (m, sits) ↦
      ((m, c), rw sits.member refl, record { sits = sits; members = refl; leader = refl })
  | inr (free, here) ↦
      let (m, there) = get_elem?-some c.members q at.inside in
      (
        (m, record c { node = some (next_node c); member = some m }),
        get_member_free c m free (ap (get_elem? c.members) here ∙ there),
        record {
          sits = record { node = ap some here; member = refl; there = there };
          members = refl;
          leader = refl;
        },
      )
]

-- Without a leader, a write goes where a read goes.
pub get_leader_free : (c : Client) → c.leader ≡ none → get_leader c ≡ get_member c
unfolding get_leader get_member
get_leader_free c h = rw h refl

-- Once it forgets the member, the client is at the next place.
pub reset_member-IsAt :
    (q : ℕ) (m : MemberId) (c : Client)
    → Sits q m c
    → q < length c.members
    → IsAt (successor (length c.members) q) (reset_member c)
unfolding reset_member next_node
reset_member-IsAt q m c sits inside = record {
  inside = ground arith;
  place = inr (refl, rw sits.node refl);
}

-- The place of a client does not depend on the leader that it believes in.
pub leader-IsAt : (q : ℕ) (c : Client) → IsAt q c → IsAt q (record c { leader = none })
unfolding next_node
leader-IsAt q c at = record {
  inside = at.inside;
  place = elim at.place [
    | inl (m, sits) ↦ inl (m, record { node = sits.node; member = sits.member; there = sits.there })
    | inr free ↦ inr free
  ];
}

-- A client that forgets its member is at some place.
pub reset_member_somewhere :
    (q : ℕ) (c : Client) → IsAt q c → (next : ℕ) × IsAt next (reset_member c)
unfolding reset_member next_node
reset_member_somewhere q c at = elim at.place [
  | inl (m, sits) ↦ (
    successor (length c.members) q,
    unfold reset_member in reset_member-IsAt q m c sits at.inside,
  )
  | inr free ↦ (q, record { inside = at.inside; place = inr (refl, free.1) })
]
