-- ===== src/Agreement/Leaders.antt =====
-- Election safety: the leaders of a cluster, through all its elections.
use atomix_go_raft.Base.{
  str_decide, ℕ, ◌+◌, ◌≤◌, ◌<◌, ◌≡◌, refl, subst, List, arith, length, Elem, IsDistinct, overlap,
}
use atomix_go_raft.Protocol.Cluster.{MemberId}
use atomix_go_raft.Roles.Candidacy.{quorum_of}
use atomix_go_raft.Agreement.{System, ids, IsFresh, Reach, start, next}
use atomix_go_raft.Agreement.Invariant.{IsSafe}
use atomix_go_raft.Agreement.Steps.{Step-IsSafe}

module _ (config : List (MemberId × MemberId)) where
  IsFresh-IsSafe : (s : System) → IsFresh config s → IsSafe config s
  IsFresh-IsSafe s f = record {
    valid = f.valid;
    clusters = f.clusters;
    held = λ g there. absurd (subst (Elem g) f.grants there);
    unique = λ g h there. absurd (subst (Elem g) f.grants there);
    elections = λ e there. absurd (subst (Elem e) f.elections there);
    leaders = λ w there. absurd (subst (Elem w) f.leaders there);
  }

  pub Reach-IsSafe : {s : System} → IsDistinct (ids config) → Reach config s → IsSafe config s
  Reach-IsSafe {s} distinct (start f) = IsFresh-IsSafe s f
  Reach-IsSafe distinct (next reached step) =
      Step-IsSafe config distinct (Reach-IsSafe distinct reached) step

-- Two majorities have a member in common.
quorum_overlaps : (n a b : ℕ) → quorum_of n ≤ a → quorum_of n ≤ b → n < a + b
unfolding quorum_of
quorum_overlaps n a b h k = omega (arith, h, k)

-- Election safety: in a configuration without repeated members, in every state that a cluster reaches from
-- its first start through any steps of its servers, elections and messages, lost messages included and
-- restarts of servers excluded, two leaders elected in one term are the same member.
pub one_leader_in_term :
    (config : List (MemberId × MemberId)) {s : System} (term : ℕ) (first second : MemberId)
    → IsDistinct (ids config)
    → Reach config s
    → Elem (term, first) s.leaders
    → Elem (term, second) s.leaders
    → first ≡ second
one_leader_in_term config term first second distinct reached one other =
    let safe = Reach-IsSafe config distinct reached in
    let a = safe.leaders (term, first) one in
    let b = safe.leaders (term, second) other in
    let (v, ina, inb) =
      overlap str_decide a.voters b.voters (ids config) a.distinct b.distinct a.within b.within
        (quorum_overlaps (length (ids config)) _ _ a.majority b.majority) in
    safe.unique _ _ (a.given v ina) (b.given v inb) refl refl
