-- ===== src/Roles/Election/Record.antt =====
-- The votes of a server over time: a granted vote is on record, and no term has two.
use atomix_go_raft.Base.{
  All, ◌≡◌, ◌≢◌, sym, ap, ◌∙◌, inl, inr, Bool, true, false, none, some, List, arith, eq_iff,
  Bool-cases, if◌then◌else◌,
}
use atomix_go_raft.Store.Log.{Log}
use atomix_go_raft.Protocol.Raft.{
  Raft, RoleType, follower, candidate, leader, reset_heartbeat_timeout,
}
use atomix_go_raft.Protocol.Raft.Invariant.{IsValid, Grows, Grows-trans}
use atomix_go_raft.Protocol.Messages.{VoteRequest, VoteResponse}
use atomix_go_raft.Roles.Transition.Invariant.{
  IsStable, become_follower_rule, IsValid-IsStable, Grows-IsStable, SameVote, SameVote-IsStable,
}
use atomix_go_raft.Roles.Server.{update_term_and_leader}
use atomix_go_raft.Roles.Steps.{Call, goes_on, run_calls, run_calls-Keeps}
use atomix_go_raft.Roles.Election.{
  handle_vote, follower_vote, candidate_vote, leader_vote, vote, step_down_if,
}
use atomix_go_raft.Roles.Election.Votes.{
  handle_vote_granted, handle_vote-Grows, handle_vote-IsValid, update_term_and_leader-Grows,
  update_term_and_leader-IsValid, update_term_and_leader-le,
}

if_rule : (P : Raft → Type 0) (b : Bool) (r s : Raft) → P r → P s → P (if b then r else s)
if_rule P true r s hr hs = hr
if_rule P false r s hr hs = hs

step_down_if_rule :
    {P : Raft → Type 0} → IsStable P → (b : Bool) (r : Raft) → P r → P (step_down_if b r)
step_down_if_rule stable true r h = become_follower_rule stable r h
step_down_if_rule stable false r h = h

-- `Vote` of each role, with the handler shut.
module _ (request : VoteRequest) (l : Log) (r : Raft) where
  abbrev updated : Raft × Bool
  updated = update_term_and_leader request.term none r

  abbrev handled : Raft × VoteResponse
  handled = handle_vote request l updated.0

  follower_vote_rule :
      {P : Raft → Type 0} → IsStable P → P handled.0 → P (follower_vote request l r).0
  unfolding follower_vote
  follower_vote_rule {P} stable h =
      step_down_if_rule stable updated.1 _
        (if_rule P handled.1.voted _ _ (stable.spawns reset_heartbeat_timeout handled.0 h) h)

  candidate_vote_rule :
      {P : Raft → Type 0}
      → IsStable P
      → P updated.0
      → P handled.0
      → P (candidate_vote request l r).0
  unfolding candidate_vote
  candidate_vote_rule stable u h = elim (Bool-cases updated.1) [
    | inl newer ↦ rw newer (become_follower_rule stable _ h)
    | inr current ↦ rw current u
  ]

  leader_vote_rule :
      {P : Raft → Type 0} → IsStable P → P updated.0 → P handled.0 → P (leader_vote request l r).0
  unfolding leader_vote
  leader_vote_rule stable u h = elim (Bool-cases updated.1) [
    | inl newer ↦ rw newer (become_follower_rule stable _ h)
    | inr current ↦ rw current u
  ]

  -- What a `Vote` keeps, if the parts of a change of role and its own two parts keep it.
  vote_rule :
      {P : Raft → Type 0}
      → IsStable P
      → P updated.0
      → P handled.0
      → (t : RoleType) → P (vote t request l r).0
  unfolding vote
  vote_rule stable u h follower = follower_vote_rule stable h
  vote_rule stable u h candidate = candidate_vote_rule stable u h
  vote_rule stable u h leader = leader_vote_rule stable u h

  pub vote-IsValid : (t : RoleType) → IsValid r → IsValid (vote t request l r).0
  vote-IsValid t v =
      let u = update_term_and_leader-IsValid request.term none r v in
      vote_rule IsValid-IsStable u (handle_vote-IsValid request l updated.0 u) t

  pub vote-Grows : (t : RoleType) → Grows r (vote t request l r).0
  vote-Grows t =
      let u = update_term_and_leader-Grows request.term none r in
      vote_rule (Grows-IsStable r) u (Grows-trans u (handle_vote-Grows request l updated.0)) t

  -- A vote on record, in the request's term.
  abbrev Recorded : Raft × VoteResponse → Type 0
  Recorded o = SameVote request.term (some request.candidate) o.0 × (o.1.term ≡ request.term)

  handled-Recorded : handled.1.voted ≡ true → Recorded handled
  handled-Recorded h =
      let g = handle_vote_granted request l updated.0 h in
      let above = update_term_and_leader-le request.term none r in
      (record { same_term = omega (arith, g, above); same_vote = g.0 }, omega (arith, g, above))

  follower_vote-Recorded :
      (follower_vote request l r).1.voted ≡ true → Recorded (follower_vote request l r)
  unfolding follower_vote
  follower_vote-Recorded h =
      let g = handled-Recorded h in
      (
        unfold follower_vote in
            follower_vote_rule (SameVote-IsStable request.term (some request.candidate)) g.0,
        g.1,
      )

  candidate_vote-Recorded :
      request.candidate ≢ r.cluster.member
      → (candidate_vote request l r).1.voted ≡ true
      → Recorded (candidate_vote request l r)
  unfolding candidate_vote
  candidate_vote-Recorded other h = elim (Bool-cases updated.1) [
    | inl newer ↦
        let g = handled-Recorded (rw newer at h) in
        rw newer (
          become_follower_rule (SameVote-IsStable request.term (some request.candidate)) _ g.0,
          g.1,
        )
    | inr current ↦
        let own = (eq_iff request.candidate updated.0.cluster.member).0 (rw current at h) in
        let same = (update_term_and_leader-Grows request.term none r).cluster in
        absurd (other (own ∙ ap (λ c. c.member) same))
  ]

  leader_vote-Recorded :
      (leader_vote request l r).1.voted ≡ true → Recorded (leader_vote request l r)
  unfolding leader_vote
  leader_vote-Recorded h = elim (Bool-cases updated.1) [
    | inl newer ↦
        let g = handled-Recorded (rw newer at h) in
        rw newer (
          become_follower_rule (SameVote-IsStable request.term (some request.candidate)) _ g.0,
          g.1,
        )
    | inr current ↦ let no = (rw current at h) in cc
  ]

-- A vote that any role grants to another member is on record afterwards, in the request's term.
pub vote_recorded :
    (t : RoleType) (request : VoteRequest) (l : Log) (r : Raft)
    → request.candidate ≢ r.cluster.member
    → (vote t request l r).1.voted ≡ true
    → let o = vote t request l r in
      (o.0.last_voted_for ≡ some request.candidate)
      × (o.0.term ≡ request.term)
      × (o.1.term ≡ request.term)
unfolding vote
vote_recorded follower request l r other h =
    let g = follower_vote-Recorded request l r h in (g.0.same_vote, g.0.same_term, g.1)
vote_recorded candidate request l r other h =
    let g = candidate_vote-Recorded request l r other h in (g.0.same_vote, g.0.same_term, g.1)
vote_recorded leader request l r other h =
    let g = leader_vote-Recorded request l r h in (g.0.same_vote, g.0.same_term, g.1)

-- A server grants at most one vote in a term as long as it runs: if a vote request is granted, any calls of
-- the Raft interface but no restart follow, and a vote request is granted again, in whatever roles, then
-- requests of the same term name the same candidate. The candidates are not the server itself.
pub one_vote_in_term :
    (t u : RoleType) (a b : VoteRequest) (l k : Log) (r : Raft) (calls : List Call)
    → let s = run_calls calls (vote t a l r).0 in
      All (λ c. goes_on c ≡ true) calls
      → a.candidate ≢ r.cluster.member
      → b.candidate ≢ s.cluster.member
      → (vote t a l r).1.voted ≡ true
      → (vote u b k s).1.voted ≡ true
      → a.term ≡ b.term
      → a.candidate ≡ b.candidate
one_vote_in_term t u a b l k r calls up other other' granted granted' same =
    let s = run_calls calls (vote t a l r).0 in
    let first = vote_recorded t a l r other granted in
    let second = vote_recorded u b k s other' granted' in
    let between = run_calls-Keeps calls (vote t a l r).0 up in
    let last = vote-Grows b k s u in
    let kept =
      between.vote a.candidate (omega (arith, first, second, same, between.term, last.term))
        first.0 in
    let kept' =
      last.vote a.candidate (omega (arith, first, second, same, between.term, last.term)) kept in
    let same_vote = sym kept' ∙ second.0 in cc
