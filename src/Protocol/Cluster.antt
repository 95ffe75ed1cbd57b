-- ===== src/Protocol/Cluster.antt =====
-- pkg/atomix/raft/protocol/cluster.go: the members of a cluster. The configuration's map is the list
-- of its entries in the order in which the constructor's loop meets them.
use atomix_go_raft.Base.{
  ◌≡◌, refl, Bool, true, false, Option, none, some, List, [], ◌∷◌, map, String, arith, str_eq,
  if◌then◌else◌,
}

abbrev pub MemberId : Type 0
MemberId = String

-- Of a Member only its id is read.
pub record Member : Type 0 where
  pub member_id : MemberId

pub record Cluster : Type 0 where
  pub member : MemberId
  pub members : List (MemberId × Member)
  pub member_ids : List MemberId

unfoldable pub contains : MemberId → List MemberId → Bool
contains id [] = false
contains id (m ∷ ms) = let rest = contains id ms in if str_eq m id then true else rest

unfoldable pub lookup_member : MemberId → List (MemberId × Member) → Option Member
lookup_member id [] = none
lookup_member id ((key, m) ∷ ms) =
    let rest = lookup_member id ms in if str_eq key id then some m else rest

-- The configuration: the local id, and for each key of the map the id that its value carries.
unfoldable pub new_cluster : MemberId → List (MemberId × MemberId) → Cluster
new_cluster member config = record {
  member = member;
  members = map (λ c. (c.0, record { member_id = c.1 })) config;
  member_ids = map (λ c. c.0) config;
}

unfoldable pub get_member : MemberId → Cluster → Option Member
get_member id c = lookup_member id c.members

abbrev pub is_some {ℓ} : {A : Type ℓ} → Option A → Bool
is_some none = false
is_some (some a) = true

lookup_member-contains :
    (id : MemberId) (config : List (MemberId × MemberId))
    → is_some (lookup_member id (map (λ c. (c.0, record { member_id = c.1 })) config))
      ≡ contains id (map (λ c. c.0) config)
unfolding lookup_member contains
lookup_member-contains id [] = refl
lookup_member-contains id ((key, value) ∷ config) = ground (arith, lookup_member-contains id config)

-- A cluster that was made from a configuration has a member under an id exactly when it lists the id.
pub get_member-contains :
    (member id : MemberId) (config : List (MemberId × MemberId))
    → is_some (get_member id (new_cluster member config))
      ≡ contains id (new_cluster member config).member_ids
unfolding get_member new_cluster
get_member-contains member id config = lookup_member-contains id config
