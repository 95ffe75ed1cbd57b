-- ===== src/Roles/Election/Votes.antt =====
-- When a vote is granted, and that a server grants at most one in a term.
use atomix_go_raft.Base.{
  ℕ, ◌≤◌, ◌<◌, ◌≡◌, ◌↔◌, refl, ap, ◌∙◌, ◌⊎◌, inl, inr, true, Option, none, some, arith, eq_iff,
  Option-cases,
}
use atomix_go_raft.Store.Log.{Log, Entry, last_entry}
use atomix_go_raft.Protocol.Cluster.{MemberId, get_member, is_some}
use atomix_go_raft.Protocol.Raft.{Raft, Pointer, set_term, set_leader, set_last_voted_for}
use atomix_go_raft.Protocol.Raft.Invariant.{
  IsValid, Grows, Grows-trans, Grows-refl, set_term-IsValid, set_term-Grows, set_leader-IsValid,
  set_leader-Grows, set_last_voted_for-IsValid, set_last_voted_for-Grows,
}
use atomix_go_raft.Protocol.Messages.{VoteRequest}
use atomix_go_raft.Roles.Server.{update_term_and_leader}
use atomix_go_raft.Roles.Election.{is_log_up_to_date, handle_vote}

-- The candidate's log is at least as up to date as the local one: its last term is greater, or it is
-- equal and its last index is not less.
abbrev pub IsUpToDate : ℕ → ℕ → Option Entry → Type 0
IsUpToDate last_index last_term none = Unit {0}
IsUpToDate last_index last_term (some e) =
    (e.entry.term < last_term) ⊎ ((e.entry.term ≡ last_term) × (e.index ≤ last_index))

-- The test of a candidate's log accepts exactly if the local log is empty, or the candidate's last term is
-- greater, or the last terms are equal and its last index is not less.
pub is_log_up_to_date_iff :
    (last_index last_term : ℕ) (l : Log)
    → (is_log_up_to_date last_index last_term l ≡ true)
      ↔ IsUpToDate last_index last_term (last_entry l)
unfolding is_log_up_to_date
is_log_up_to_date_iff last_index last_term l = elim (Option-cases (last_entry l)) [
  | inl empty ↦ rw (empty, is_log_up_to_date) (λ _. tt, λ _. refl)
  | inr (e, last) ↦ rw (last, is_log_up_to_date) (ground arith)
]

-- What a server must see to grant a vote.
pub record IsGrantable (request : VoteRequest) (l : Log) (r : Raft) : Type 0 where
  pub current : r.term ≤ request.term
  pub leaderless : r.leader ≡ none
  pub known : is_some (get_member request.candidate r.cluster) ≡ true
  pub free :
      (r.last_voted_for ≡ some request.candidate)
      ⊎ ((r.last_voted_for ≡ none)
          × IsUpToDate request.last_log_index request.last_log_term (last_entry l))

pub handle_vote_free :
    (request : VoteRequest) (l : Log) (r : Raft)
    → r.last_voted_for ≡ none
    → ((handle_vote request l r).1.voted ≡ true) ↔ (
        (r.term ≤ request.term)
        × (r.leader ≡ none)
        × (is_some (get_member request.candidate r.cluster) ≡ true)
        × (is_log_up_to_date request.last_log_index request.last_log_term l ≡ true))
unfolding handle_vote set_last_voted_for
handle_vote_free request l r free = rw (free, handle_vote) (ground arith)

handle_vote_taken :
    (request : VoteRequest) (l : Log) (r : Raft) (id : MemberId)
    → r.last_voted_for ≡ some id
    → ((handle_vote request l r).1.voted ≡ true) ↔ (
        (r.term ≤ request.term)
        × (r.leader ≡ none)
        × (is_some (get_member request.candidate r.cluster) ≡ true)
        × (id ≡ request.candidate))
unfolding handle_vote
handle_vote_taken request l r id taken =
    rw (taken, handle_vote) (ground (arith, eq_iff id request.candidate))

-- A vote is granted exactly when the request's term is not below the current one, no leader is known, the
-- candidate is a member, and the vote was given to it before or is free and its log is up to date.
pub handle_vote_iff :
    (request : VoteRequest) (l : Log) (r : Raft)
    → ((handle_vote request l r).1.voted ≡ true) ↔ IsGrantable request l r
handle_vote_iff request l r = elim (Option-cases r.last_voted_for) [
  | inl free ↦
      let log = is_log_up_to_date_iff request.last_log_index request.last_log_term l in
      let granted = handle_vote_free request l r free in
      (
        λ h.
            let g = granted.0 h in
            record { current = g.0; leaderless = g.1; known = g.2; free = inr (free, log.0 g.3) },
        λ g. granted.1 (
          g.current,
          g.leaderless,
          g.known,
          elim g.free [ inl e ↦ absurd (cc) | inr p ↦ log.1 p.1 ],
        ),
      )
  | inr (id, taken) ↦
      let granted = handle_vote_taken request l r id taken in
      (
        λ h.
            let g = granted.0 h in
            record {
              current = g.0;
              leaderless = g.1;
              known = g.2;
              free = inl (taken ∙ ap some g.3);
            },
        λ g.
            granted.1
              (g.current, g.leaderless, g.known, elim g.free [ inl e ↦ cc | inr p ↦ absurd (cc) ]),
      )
]

-- The handler leaves the term alone, and a vote that it grants is on record.
pub handle_vote_granted :
    (request : VoteRequest) (l : Log) (r : Raft)
    → (handle_vote request l r).1.voted ≡ true
    → let o = handle_vote request l r in
      (o.0.last_voted_for ≡ some request.candidate)
      × (o.0.term ≡ r.term)
      × (o.1.term ≡ r.term)
      × (r.term ≤ request.term)
unfolding handle_vote set_last_voted_for
handle_vote_granted request l r h = elim (Option-cases r.last_voted_for) [
  | inl free ↦ ground (arith, free, h)
  | inr (id, taken) ↦ ground (arith, taken, h, eq_iff id request.candidate)
]

-- The state that the handler leaves: as it was, or after a call of `SetLastVotedFor`.
handle_vote_state :
    (request : VoteRequest) (l : Log) (r : Raft)
    → ((handle_vote request l r).0 ≡ r)
      ⊎ ((handle_vote request l r).0 ≡ (set_last_voted_for request.candidate r).0)
unfolding handle_vote
handle_vote_state request l r = ground arith

pub handle_vote-Grows :
    (request : VoteRequest) (l : Log) (r : Raft) → Grows r (handle_vote request l r).0
handle_vote-Grows request l r = elim (handle_vote_state request l r) [
  | inl same ↦ rw same (Grows-refl r)
  | inr after ↦ rw after (set_last_voted_for-Grows request.candidate r)
]

pub handle_vote-IsValid :
    (request : VoteRequest) (l : Log) (r : Raft) → IsValid r → IsValid (handle_vote request l r).0
handle_vote-IsValid request l r v = elim (handle_vote_state request l r) [
  | inl same ↦ rw same v
  | inr after ↦ rw after (set_last_voted_for-IsValid request.candidate r v)
]

module _ (term : ℕ) (target : Option Pointer) (r : Raft) where
  update_state :
      ((update_term_and_leader term target r).0 ≡ r)
      ⊎ ((update_term_and_leader term target r).0 ≡ (set_leader target (set_term term r).0).0)
  unfolding update_term_and_leader
  update_state = ground arith

  pub update_term_and_leader-Grows : Grows r (update_term_and_leader term target r).0
  update_term_and_leader-Grows = elim update_state [
    | inl same ↦ rw same (Grows-refl r)
    | inr after ↦ rw after (Grows-trans (set_term-Grows term r) (set_leader-Grows target _))
  ]

  pub update_term_and_leader-IsValid : IsValid r → IsValid (update_term_and_leader term target r).0
  update_term_and_leader-IsValid v = elim update_state [
    | inl same ↦ rw same v
    | inr after ↦ rw after (set_leader-IsValid target _ (set_term-IsValid term r v))
  ]

  -- Afterwards the term is not below the message's.
  pub update_term_and_leader-le : term ≤ (update_term_and_leader term target r).0.term
  unfolding update_term_and_leader set_term set_leader
  update_term_and_leader-le = ground arith
