-- ===== src/Agreement/Moves.antt =====
-- How a server's protocol state may change in a step: it stays valid, the term does not fall, within a term
-- a vote stays, and the cluster is the same.
use atomix_go_raft.Base.{
  ℕ, ◌+◌, ◌≡◌, Bool, true, false, not, ◌&&◌, ◌||◌, inl, inr, Option, none, some, List, [], ◌∷◌, ltb,
  ◌==◌, Bool-cases, Option-cases, if◌then◌else◌, add64,
}
use atomix_go_raft.Store.Log.{Log}
use atomix_go_raft.Protocol.Raft.{Raft, RoleType, set_term, set_last_voted_for}
use atomix_go_raft.Protocol.Raft.Invariant.{
  IsValid, Grows, Grows-refl, Grows-trans, set_term-IsValid, set_term-Grows,
  set_last_voted_for-IsValid, set_last_voted_for-Grows, set_term-Grows,
}
use atomix_go_raft.Protocol.Messages.{VoteRequest, VoteResponse}
use atomix_go_raft.Roles.Server.{is_nil}
use atomix_go_raft.Roles.Transition.{become_follower, become_leader}
use atomix_go_raft.Roles.Transition.Invariant.{
  IsValid-IsStable, Grows-IsStable, become_leader_rule, become_follower-IsValid,
  become_follower-Grows,
}
use atomix_go_raft.Roles.Steps.{
  Call, goes_on, run_call, Keeps, Grows-Keeps, run_call-IsValid, run_call-Keeps, run_call-cluster,
}
use atomix_go_raft.Roles.Election.{vote}
use atomix_go_raft.Roles.Election.Record.{vote-IsValid, vote-Grows}
use atomix_go_raft.Roles.Candidacy.{
  Round, begin_election, answer_vote, count_accept, count_reject, count_one, count_vote,
  count_from_channel, quorum_of, Verdict,
}

pub record Moves (r s : Raft) : Type 0 where
  pub valid : IsValid s
  pub keeps : Keeps r s
  pub cluster : s.cluster ≡ r.cluster

-- The steps below grow the state and keep it valid.
record Sound (r s : Raft) : Type 0 where
  valid : IsValid s
  grows : Grows r s

Sound-Moves : {r s : Raft} → Sound r s → Moves r s
Sound-Moves h = record { valid = h.valid; keeps = Grows-Keeps h.grows; cluster = h.grows.cluster }

Sound-refl : (r : Raft) → IsValid r → Sound r r
Sound-refl r v = record { valid = v; grows = Grows-refl r }

Sound-trans : {r s t : Raft} → Sound r s → Sound s t → Sound r t
Sound-trans h k = record { valid = k.valid; grows = Grows-trans h.grows k.grows }

set_term-Sound : (term : ℕ) (r : Raft) → IsValid r → Sound r (set_term term r).0
set_term-Sound term r v = record {
  valid = set_term-IsValid term r v;
  grows = set_term-Grows term r;
}

become_follower-Sound : (r : Raft) → IsValid r → Sound r (become_follower r)
become_follower-Sound r v = record {
  valid = become_follower-IsValid r v;
  grows = become_follower-Grows r;
}

become_leader-Sound : (r : Raft) → IsValid r → Sound r (become_leader r)
become_leader-Sound r v = record {
  valid = become_leader_rule IsValid-IsStable r v;
  grows = become_leader_rule (Grows-IsStable r) r (Grows-refl r);
}

pub run_call-Moves : (c : Call) (r : Raft) → goes_on c ≡ true → IsValid r → Moves r (run_call c r)
run_call-Moves c r up v = record {
  valid = run_call-IsValid c r v;
  keeps = run_call-Keeps c r up;
  cluster = run_call-cluster c r;
}

pub vote-Moves :
    (t : RoleType) (request : VoteRequest) (l : Log) (r : Raft)
    → IsValid r
    → Moves r (vote t request l r).0
vote-Moves t request l r v =
    Sound-Moves (record { valid = vote-IsValid request l r t v; grows = vote-Grows request l r t })

begin_election-Sound : (active : Bool) (r : Raft) → IsValid r → Sound r (begin_election active r).0
unfolding begin_election
begin_election-Sound false r v = Sound-refl r v
begin_election-Sound true r v =
    let first = set_term-Sound (add64 r.term 1) r v in
    let r₁ = (set_term (add64 r.term 1) r).0 in
    let second : Sound r₁ (set_last_voted_for r₁.cluster.member r₁).0 = record {
      valid = set_last_voted_for-IsValid r₁.cluster.member r₁ first.valid;
      grows = set_last_voted_for-Grows r₁.cluster.member r₁;
    } in
    let r₂ = (set_last_voted_for r₁.cluster.member r₁).0 in
    elim (Option-cases (set_term (add64 r.term 1) r).1) [
      | inr (e, failed) ↦ rw failed (Sound-trans first (become_follower-Sound r₁ first.valid))
      | inl ok ↦ elim (Option-cases (set_last_voted_for r₁.cluster.member r₁).1) [
        | inr (e, failed) ↦
            rw (ok, failed)
              (Sound-trans first (Sound-trans second (become_follower-Sound r₂ second.valid)))
        | inl voted ↦ rw (ok, voted) (Sound-trans first second)
      ]
    ]

pub begin_election-Moves :
    (active : Bool) (r : Raft) → IsValid r → Moves r (begin_election active r).0
begin_election-Moves active r v = Sound-Moves (begin_election-Sound active r v)

pub answer_vote-Moves :
    (request : VoteRequest) (o : Option VoteResponse) (r : Raft)
    → IsValid r
    → Moves r (answer_vote request o r).0
unfolding answer_vote
answer_vote-Moves request none r v = Sound-Moves (Sound-refl r v)
answer_vote-Moves request (some response) r v = elim (Bool-cases (ltb request.term response.term)) [
  | inl newer ↦
      let first = set_term-Sound response.term r v in
      rw newer (Sound-Moves (Sound-trans first (become_follower-Sound _ first.valid)))
  | inr current ↦ elim (Bool-cases response.voted) [
    | inr no_vote ↦ rw (current, no_vote) (Sound-Moves (Sound-refl r v))
    | inl voted ↦ elim (Bool-cases (response.term == r.term)) [
      | inl same ↦ rw (current, voted, same) (Sound-Moves (Sound-refl r v))
      | inr other ↦ rw (current, voted, other) (Sound-Moves (Sound-refl r v))
    ]
  ]
]

-- A count ends with the state it had, or with a change of role.
if_Sound :
    (b : Bool) (r : Raft) (x y : Round × Raft × Verdict)
    → Sound r x.1
    → Sound r y.1
    → Sound r (if b then x else y).1
if_Sound true r x y hx hy = hx
if_Sound false r x y hx hy = hy

count_one-Sound :
    (quorum : ℕ) (active b : Bool) (round : Round) (r : Raft)
    → IsValid r
    → Sound r (count_one quorum active b round r).1
unfolding count_one count_accept count_reject
count_one-Sound quorum active b round r v =
    let same = Sound-refl r v in
    if_Sound (not active || not (r.term == round.term)) r _ _ same (
      if_Sound b r _ _
        (if_Sound (is_nil r.leader && round.vote_count + 1 == quorum) r _ _
          (become_leader-Sound r v) same)
        (if_Sound (round.reject_count + 1 == quorum) r _ _ (become_follower-Sound r v) same))

from_channel-Sound :
    (quorum : ℕ) (active : Bool) (votes : List Bool) (round : Round) (r : Raft)
    → IsValid r
    → Sound r (count_from_channel quorum active votes round r).1
from_channel-Sound quorum active [] round r v =
    if_Sound round.closed r _ _ (Sound-refl r v) (Sound-refl r v)
from_channel-Sound quorum active (b ∷ votes) round r v =
    count_one-Sound quorum active b (record round { votes = votes }) r v

pub count_vote-Moves :
    (members : ℕ) (active : Bool) (round : Round) (r : Raft)
    → IsValid r
    → Moves r (count_vote members active round r).1
unfolding count_vote
count_vote-Moves members active round r v = Sound-Moves (
    if_Sound round.counting r _ _
      (from_channel-Sound (quorum_of members) active round.votes round r v) (Sound-refl r v))
