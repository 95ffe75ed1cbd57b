-- ===== src/Agreement/Talks.antt =====
-- The members of an election: whose votes the candidate has, and how many are counted or on their way.
use atomix_go_raft.Base.{
  ℕ, suc, ◌+◌, ◌≤◌, ◌≡◌, ◌≢◌, refl, ap, Bool, true, false, not, ◌&&◌, ◌||◌, inl, inr, some, List,
  [], ◌∷◌, ◌++◌, map, arith, length, if◌then◌else◌, ◌==◌, ==_iff, Bool-cases, str_eq, if_cases,
  and-right, IsDistinct, IsWithin,
}
use atomix_go_raft.Protocol.Cluster.{MemberId}
use atomix_go_raft.Protocol.Raft.{Raft}
use atomix_go_raft.Roles.Server.{is_nil}
use atomix_go_raft.Roles.Candidacy.{
  Round, Ballot, casts, closes, cast_ballot, Verdict, open_still, won, lost, quorum_of, own_votes,
  count_accept, count_reject, count_one, count_from_channel, count_vote,
}
use atomix_go_raft.Agreement.{Talk, granted, open_talks}

abbrev pub keys : List (MemberId × Talk) → List MemberId
keys = map λ t. t.0

abbrev pub is_granted : Talk → Bool
is_granted granted = true
is_granted _ = false

-- Whose vote the candidate has.
abbrev pub voters : List (MemberId × Talk) → List MemberId
voters [] = []
voters ((id, t) ∷ ts) = let rest = voters ts in if is_granted t then id ∷ rest else rest

pub voters-IsWithin : (ts : List (MemberId × Talk)) → IsWithin (voters ts) (keys ts)
voters-IsWithin [] id h = h
voters-IsWithin ((m, t) ∷ ts) id h = elim (Bool-cases (is_granted t)) [
  | inl yes' ↦ elim (rw yes' at h) [ inl e ↦ inl e | inr there ↦ inr (voters-IsWithin ts id there) ]
  | inr no' ↦ inr (voters-IsWithin ts id (rw no' at h))
]

pub voters-IsDistinct :
    (ts : List (MemberId × Talk)) → IsDistinct (keys ts) → IsDistinct (voters ts)
voters-IsDistinct [] d = tt
voters-IsDistinct ((m, t) ∷ ts) d = elim (Bool-cases (is_granted t)) [
  | inl yes' ↦ rw yes' ((λ h. d.0 (voters-IsWithin ts m h), voters-IsDistinct ts d.1))
  | inr no' ↦ rw no' (voters-IsDistinct ts d.1)
]

module _ (id : MemberId) (t u : Talk) (ys : List (MemberId × Talk)) where
  pub keys-replace :
      (xs : List (MemberId × Talk)) → keys (xs ++ (id, t) ∷ ys) ≡ keys (xs ++ (id, u) ∷ ys)
  keys-replace [] = refl
  keys-replace (x ∷ xs) = ap (◌∷◌ x.0) (keys-replace xs)

  -- A talk that was no vote becomes one, or does not.
  pub length-voters_more :
      (xs : List (MemberId × Talk))
      → is_granted t ≡ false
      → length (voters (xs ++ (id, u) ∷ ys))
        ≡ length (voters (xs ++ (id, t) ∷ ys)) + (if is_granted u then 1 else 0)
  length-voters_more [] h = ground (arith, h)
  length-voters_more (x ∷ xs) h = elim (Bool-cases (is_granted x.1)) [
    | inl yes' ↦ rw yes' (omega (arith, length-voters_more xs h))
    | inr no' ↦ rw no' (length-voters_more xs h)
  ]

-- How many votes for the candidate are in the channel.
abbrev pub trues : List Bool → ℕ
trues [] = 0
trues (b ∷ bs) = let rest = trues bs in if b then suc rest else rest

trues-append : (b : Bool) (bs : List Bool) → trues (bs ++ b ∷ []) ≡ trues bs + (if b then 1 else 0)
trues-append b [] = ground arith
trues-append b (c ∷ bs) = ground (arith, trues-append b bs)

-- The votes for the candidate that its round has: counted, or in the channel.
abbrev pub gathered : Round → ℕ
gathered round = round.vote_count + trues round.votes

abbrev pub is_vote : Ballot → Bool
is_vote (casts b) = b
is_vote closes = false

pub cast_ballot-gathered :
    (ballot : Ballot) (round : Round) {next : Round}
    → cast_ballot ballot round ≡ some next
    → (gathered next ≡ gathered round + (if is_vote ballot then 1 else 0))
      × (next.term ≡ round.term)
unfolding cast_ballot
cast_ballot-gathered (casts b) round h = ground (arith, trues-append b round.votes)
cast_ballot-gathered closes round h = ground arith

-- A count takes votes from the channel, and the election is won on a quorum of them.
pub record Counts (members : ℕ) (round : Round) (o : Round × Raft × Verdict) : Type 0 where
  pub fewer : gathered o.0 ≤ gathered round
  pub term : o.0.term ≡ round.term
  pub quorum : o.2 ≡ won → quorum_of members ≤ gathered round

still-Counts :
    (members : ℕ) (round next : Round) (r : Raft) (v : Verdict)
    → gathered next ≤ gathered round
    → next.term ≡ round.term
    → v ≢ won
    → Counts members round (next, r, v)
still-Counts members round next r v less same no_win = record {
  fewer = less;
  term = same;
  quorum = λ w. absurd (no_win w);
}

open_still-≢-won : open_still ≢ won
open_still-≢-won h = cc

lost-≢-won : lost ≢ won
lost-≢-won h = cc

count_one-Counts :
    (members : ℕ) (active b : Bool) (bs : List Bool) (round : Round) (r : Raft)
    → round.votes ≡ b ∷ bs
    → Counts members round (count_one (quorum_of members) active b (record round { votes = bs }) r)
unfolding count_one count_accept count_reject
count_one-Counts members active b bs round r h =
    let taken : trues round.votes ≡ trues (b ∷ bs) = ap trues h in
    let P = Counts members round in
    if_cases P (not active || not (r.term == round.term)) _ _
      (λ over.
        still-Counts members round _ r open_still (ground (arith, taken)) refl open_still-≢-won)
      (λ going.
        if_cases P b _ _
          (λ yes'.
            if_cases P (is_nil r.leader && round.vote_count + 1 == quorum_of members) _ _
              (λ wins. record {
                fewer = ground (arith, taken, yes');
                term = refl;
                quorum = λ w.
                    let enough = (==_iff (round.vote_count + 1) (quorum_of members)).0 (
                      and-right (is_nil r.leader) (round.vote_count + 1 == quorum_of members)
                        wins) in
                    ground (arith, taken, yes', enough);
              })
              (λ more.
                still-Counts members round _ r open_still (ground (arith, taken, yes')) refl
                  open_still-≢-won))
          (λ no'.
            if_cases P (round.reject_count + 1 == quorum_of members) _ _
              (λ loses. still-Counts members round _ _ lost (ground (arith, taken)) refl lost-≢-won)
              (λ more.
                still-Counts members round _ r open_still (ground (arith, taken)) refl
                  open_still-≢-won)))

from_channel-Counts :
    (members : ℕ) (active : Bool) (votes : List Bool) (round : Round) (r : Raft)
    → round.votes ≡ votes
    → Counts members round (count_from_channel (quorum_of members) active votes round r)
from_channel-Counts members active [] round r h =
    if_cases (Counts members round) round.closed _ _
      (λ shut. still-Counts members round _ r open_still (omega arith) refl open_still-≢-won)
      (λ usable. still-Counts members round _ r open_still (omega arith) refl open_still-≢-won)
from_channel-Counts members active (b ∷ bs) round r h =
    count_one-Counts members active b bs round r h

pub count_vote-Counts :
    (members : ℕ) (active : Bool) (round : Round) (r : Raft)
    → Counts members round (count_vote members active round r)
unfolding count_vote
count_vote-Counts members active round r =
    if_cases (Counts members round) round.counting _ _
      (λ on. from_channel-Counts members active round.votes round r refl)
      (λ off. still-Counts members round _ r open_still (omega arith) refl open_still-≢-won)

-- The members at the start: the candidate's own vote is in the channel.
pub open_talks-keys : (self : MemberId) (ms : List MemberId) → keys (open_talks self ms) ≡ ms
unfolding open_talks
open_talks-keys self [] = refl
open_talks-keys self (m ∷ ms) = ap (◌∷◌ m) (open_talks-keys self ms)

pub open_talks-gathered :
    (self : MemberId) (ms : List MemberId)
    → trues (own_votes self ms) ≡ length (voters (open_talks self ms))
unfolding open_talks own_votes
open_talks-gathered self [] = refl
open_talks-gathered self (m ∷ ms) = elim (Bool-cases (str_eq m self)) [
  | inl own ↦ rw own (ap suc (open_talks-gathered self ms))
  | inr other ↦ rw other (open_talks-gathered self ms)
]
