-- ===== src/Agreement/Invariant.antt =====
-- What holds of a cluster's servers, elections and histories in every reachable state.
use mathlib.Core.Option.{some-injective}
use atomix_go_raft.Base.{
  ℕ, ◌≤◌, ◌<◌, ◌≡◌, ◌≢◌, refl, sym, subst, ◌∙◌, true, ◌⊎◌, inl, inr, none, some, List, [], ◌∷◌,
  ◌++◌, arith, length, if_cases, str_eq, eq_iff, All, Elem, Elem-append_right, IsDistinct, IsWithin,
}
use atomix_go_raft.Protocol.Cluster.{MemberId, new_cluster}
use atomix_go_raft.Protocol.Raft.{Raft}
use atomix_go_raft.Protocol.Raft.Invariant.{IsValid}
use atomix_go_raft.Protocol.Messages.{VoteRequest}
use atomix_go_raft.Roles.Steps.{Keeps}
use atomix_go_raft.Roles.Candidacy.{quorum_of}
use atomix_go_raft.Agreement.{
  Talk, waiting, answered, granted, refused, Election, Grant, System, update, ids,
}
use atomix_go_raft.Agreement.Moves.{Moves}
use atomix_go_raft.Agreement.Talks.{keys, voters, gathered}

abbrev pub vote_of : MemberId → VoteRequest → Grant
vote_of id request = record { voter = id; term = request.term; candidate = request.candidate }

-- A vote that was given is still on record, or its term has passed.
abbrev pub IsHeld : Grant → Raft → Type 0
IsHeld g r = (g.term < r.term) ⊎ ((r.term ≡ g.term) × (r.last_voted_for ≡ some g.candidate))

abbrev pub IsTrue : List Grant → VoteRequest → MemberId × Talk → Type 0
IsTrue grants request (id, waiting) = id ≢ request.candidate
IsTrue grants request (id, answered none) = Unit {0}
IsTrue grants request (id, answered (some response)) =
    response.voted ≡ true → Elem (vote_of id request) grants
IsTrue grants request (id, granted) = Elem (vote_of id request) grants
IsTrue grants request (id, refused) = Unit {0}

-- An election asks each member once, has the votes that it counts, and counts for its own term.
pub record IsFair (members : List MemberId) (grants : List Grant) (e : Election) : Type 0 where
  pub keys : keys e.talks ≡ members
  pub talks : All (IsTrue grants e.request) e.talks
  pub gathered : gathered e.round ≤ length (voters e.talks)
  pub term : e.round.term ≡ e.request.term

-- The votes of a majority.
pub record IsElected (members : List MemberId) (grants : List Grant) (w : ℕ × MemberId)
    : Type 0 where
  pub voters : List MemberId
  pub distinct : IsDistinct voters
  pub within : IsWithin voters members
  pub majority : quorum_of (length members) ≤ length voters
  pub given :
      (v : MemberId)
      → Elem v voters
      → Elem (let g : Grant = record { voter = v; term = w.0; candidate = w.1 } in g) grants

pub record IsSafe (config : List (MemberId × MemberId)) (s : System) : Type 0 where
  pub valid : (id : MemberId) → IsValid (s.servers id)
  pub clusters : (id : MemberId) → (s.servers id).cluster ≡ new_cluster id config
  pub held : (g : Grant) → Elem g s.grants → IsHeld g (s.servers g.voter)
  pub unique :
      (g h : Grant)
      → Elem g s.grants
      → Elem h s.grants
      → g.voter ≡ h.voter
      → g.term ≡ h.term
      → g.candidate ≡ h.candidate
  pub elections : (e : Election) → Elem e s.elections → IsFair (ids config) s.grants e
  pub leaders : (w : ℕ × MemberId) → Elem w s.leaders → IsElected (ids config) s.grants w

-- What holds of every server holds after an update that keeps it.
pub update_rule :
    (P : MemberId → Raft → Type 0) (id : MemberId) (r : Raft) (servers : MemberId → Raft)
    → P id r
    → ((other : MemberId) → P other (servers other))
    → (other : MemberId) → P other (update id r servers other)
unfolding update
update_rule P id r servers h k other =
    if_cases (P other) (str_eq id other) r (servers other)
      (λ same. subst (λ m. P m r) ((eq_iff id other).0 same) h) (λ different. k other)

ℕ-le_cases : (a b : ℕ) → a ≤ b → (a < b) ⊎ (b ≡ a)
ℕ-le_cases a b h = omega arith

pub IsHeld-Keeps : (g : Grant) {r s : Raft} → Keeps r s → IsHeld g r → IsHeld g s
IsHeld-Keeps g k (inl past) = inl (omega (arith, k.term, past))
IsHeld-Keeps g {r} {s} k (inr (same, voted)) = elim (ℕ-le_cases r.term s.term k.term) [
  | inl later ↦ inl (omega (arith, later, same))
  | inr still ↦ inr (still ∙ same, k.vote g.candidate still voted)
]

-- A server moves on, and the histories and elections stay.
module _ (config : List (MemberId × MemberId)) (s : System) (h : IsSafe config s) where
  pub moved-IsValid :
      (id : MemberId) (r : Raft)
      → Moves (s.servers id) r
      → (other : MemberId) → IsValid (update id r s.servers other)
  moved-IsValid id r m = update_rule (λ other t. IsValid t) id r s.servers m.valid h.valid

  pub moved-clusters :
      (id : MemberId) (r : Raft)
      → Moves (s.servers id) r
      → (other : MemberId) → (update id r s.servers other).cluster ≡ new_cluster other config
  moved-clusters id r m =
      update_rule (λ other t. t.cluster ≡ new_cluster other config) id r s.servers
        (m.cluster ∙ h.clusters id) h.clusters

  pub moved-IsHeld :
      (id : MemberId) (r : Raft)
      → Moves (s.servers id) r
      → (g : Grant) → Elem g s.grants
      → IsHeld g (update id r s.servers g.voter)
  moved-IsHeld id r m g given =
      update_rule (λ other t. other ≡ g.voter → IsHeld g t) id r s.servers
        (λ same.
          IsHeld-Keeps g m.keeps (subst (λ v. IsHeld g (s.servers v)) (sym same) (h.held g given)))
        (λ other same. subst (λ v. IsHeld g (s.servers v)) (sym same) (h.held g given)) g.voter refl

  pub moved-IsSafe :
      (id : MemberId) (r : Raft)
      → Moves (s.servers id) r
      → IsSafe config (record s { servers = update id r s.servers })
  moved-IsSafe id r m = record {
    valid = moved-IsValid id r m;
    clusters = moved-clusters id r m;
    held = moved-IsHeld id r m;
    unique = h.unique;
    elections = h.elections;
    leaders = h.leaders;
  }

-- More votes given leave elections and leaders as they are.
pub IsTrue-more :
    (gs grants : List Grant) (request : VoteRequest) (t : MemberId × Talk)
    → IsTrue grants request t
    → IsTrue (gs ++ grants) request t
IsTrue-more gs grants request (id, waiting) h = h
IsTrue-more gs grants request (id, answered none) h = h
IsTrue-more gs grants request (id, answered (some response)) h =
    λ voted. Elem-append_right _ gs grants (h voted)
IsTrue-more gs grants request (id, granted) h = Elem-append_right _ gs grants h
IsTrue-more gs grants request (id, refused) h = h

pub All-IsTrue_more :
    (gs grants : List Grant) (request : VoteRequest) (ts : List (MemberId × Talk))
    → All (IsTrue grants request) ts
    → All (IsTrue (gs ++ grants) request) ts
All-IsTrue_more gs grants request [] h = tt
All-IsTrue_more gs grants request (t ∷ ts) h =
    (IsTrue-more gs grants request t h.0, All-IsTrue_more gs grants request ts h.1)

pub IsFair-more :
    (members : List MemberId) (gs grants : List Grant) (e : Election)
    → IsFair members grants e
    → IsFair members (gs ++ grants) e
IsFair-more members gs grants e f = record {
  keys = f.keys;
  talks = All-IsTrue_more gs grants e.request e.talks f.talks;
  gathered = f.gathered;
  term = f.term;
}

pub IsElected-more :
    (members : List MemberId) (gs grants : List Grant) (w : ℕ × MemberId)
    → IsElected members grants w
    → IsElected members (gs ++ grants) w
IsElected-more members gs grants w e = record {
  voters = e.voters;
  distinct = e.distinct;
  within = e.within;
  majority = e.majority;
  given = λ v there. Elem-append_right _ gs grants (e.given v there);
}

-- A vote that is on record does not contradict those given before.
pub unique-more :
    (g : Grant) (grants : List Grant) (servers : MemberId → Raft)
    → ((x : Grant) → Elem x grants → IsHeld x (servers x.voter))
    → (servers g.voter).term ≡ g.term
    → (servers g.voter).last_voted_for ≡ some g.candidate
    → (x : Grant) → Elem x grants
    → x.voter ≡ g.voter
    → x.term ≡ g.term
    → x.candidate ≡ g.candidate
unique-more g grants servers held term voted x given voter same =
    elim (subst (λ v. IsHeld x (servers v)) voter (held x given)) [
      | inl past ↦ absurd (omega (arith, past, term, same))
      | inr (now, other) ↦ some-injective _ _ (sym other ∙ voted)
    ]
