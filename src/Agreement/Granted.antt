-- ===== src/Agreement/Granted.antt =====
-- The invariant of a cluster, when a vote is given and when an election changes.
use atomix_go_raft.Base.{
  ℕ, ◌≡◌, refl, sym, ap, subst, ◌∙◌, inl, inr, some, List, [], ◌∷◌, if_cases, str_eq, eq_iff, Elem,
}
use atomix_go_raft.Protocol.Cluster.{MemberId, new_cluster}
use atomix_go_raft.Protocol.Raft.{Raft}
use atomix_go_raft.Agreement.{Election, Grant, System, update, ids}
use atomix_go_raft.Agreement.Moves.{Moves}
use atomix_go_raft.Agreement.Invariant.{
  IsHeld, IsFair, IsSafe, moved-IsValid, moved-clusters, moved-IsHeld, IsFair-more, IsElected-more,
  unique-more,
}

update_self : (id : MemberId) (r : Raft) (servers : MemberId → Raft) → update id r servers id ≡ r
unfolding update
update_self id r servers =
    if_cases (λ x. x ≡ r) (str_eq id id) r (servers id) (λ same. refl)
      (λ different. let yes' = (eq_iff id id).1 refl in cc)

Elem_rule :
    (g : Grant) (gs : List Grant) (P : Grant → Type 0)
    → P g
    → ((x : Grant) → Elem x gs → P x)
    → (x : Grant) → Elem x (g ∷ gs)
    → P x
Elem_rule g gs P here there x (inl e) = subst P (sym e) here
Elem_rule g gs P here there x (inr rest) = there x rest

module _ (config : List (MemberId × MemberId)) (s : System) (h : IsSafe config s) where
  pub own_id : (id : MemberId) → (s.servers id).cluster.member ≡ id
  unfolding new_cluster
  own_id id = ap (λ c. c.member) (h.clusters id)

  -- A server moves on to a state that has its new vote on record.
  pub granted-IsSafe :
      (id : MemberId) (r : Raft) (term : ℕ) (other : MemberId)
      → Moves (s.servers id) r
      → r.term ≡ term
      → r.last_voted_for ≡ some other
      → IsSafe config (record s {
        servers = update id r s.servers;
        grants = record { voter = id; term = term; candidate = other } ∷ s.grants;
      })
  granted-IsSafe id r term other m now voted =
      let g : Grant = record { voter = id; term = term; candidate = other } in
      let self = update_self id r s.servers in
      let term' : (update id r s.servers id).term ≡ term = ap (λ x. x.term) self ∙ now in
      let vote' : (update id r s.servers id).last_voted_for ≡ some other =
        ap (λ x. x.last_voted_for) self ∙ voted in
      let old =
        unique-more g s.grants (update id r s.servers) (moved-IsHeld config s h id r m) term'
          vote' in
      record {
        valid = moved-IsValid config s h id r m;
        clusters = moved-clusters config s h id r m;
        held = λ x.
            Elem_rule g s.grants (λ y. IsHeld y (update id r s.servers y.voter))
              (inr (term', vote')) (moved-IsHeld config s h id r m) x;
        unique = λ x y inx iny. elim inx [
          | inl ex ↦ elim iny [
            | inl ey ↦ λ v t. ap (λ z. z.candidate) (ex ∙ sym ey)
            | inr iny' ↦ λ v t.
                ap (λ z. z.candidate) ex
                ∙ sym (old y iny' (sym v ∙ ap (λ z. z.voter) ex) (sym t ∙ ap (λ z. z.term) ex))
          ]
          | inr inx' ↦ elim iny [
            | inl ey ↦ λ v t.
                old x inx' (v ∙ ap (λ z. z.voter) ey) (t ∙ ap (λ z. z.term) ey)
                ∙ ap (λ z. z.candidate) (sym ey)
            | inr iny' ↦ h.unique x y inx' iny'
          ]
        ];
        elections = λ e there. IsFair-more (ids config) (g ∷ []) s.grants e (h.elections e there);
        leaders = λ w there. IsElected-more (ids config) (g ∷ []) s.grants w (h.leaders w there);
      }

  -- Other elections, which are fair as well.
  pub held-IsSafe :
      (elections : List Election)
      → ((e : Election) → Elem e elections → IsFair (ids config) s.grants e)
      → IsSafe config (record s { elections = elections })
  held-IsSafe elections fair = record {
    valid = h.valid;
    clusters = h.clusters;
    held = h.held;
    unique = h.unique;
    elections = fair;
    leaders = h.leaders;
  }
