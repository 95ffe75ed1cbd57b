-- ===== src/Roles/Polling/Quorum.antt =====
-- When a follower's polls make it a candidate.
use atomix_go_raft.Base.{
  ℕ, suc, ◌+◌, ◌*◌, ◌≤◌, ◌<◌, ◌≡◌, refl, ap, ◌∙◌, ◌⊎◌, inl, inr, true, false, not, ◌&&◌, List, [],
  ◌∷◌, ◌++◌, map, arith, ◌==◌, ==_iff, if◌then◌else◌, if_cases, and-left, and-right,
}
use atomix_go_raft.Protocol.Raft.{Raft, spawn, reset_heartbeat_timeout}
use atomix_go_raft.Roles.Server.{is_nil}
use atomix_go_raft.Roles.Transition.{become_candidate}
use atomix_go_raft.Roles.Candidacy.{quorum_of}
use atomix_go_raft.Roles.Polling.{
  Turn, Count, new_count, count_poll_accept, count_poll_reject, count_poll, count_polls,
}

-- The votes for and against.
abbrev pub accepts_in : List Turn → ℕ
accepts_in [] = 0
accepts_in (t ∷ turns) = let rest = accepts_in turns in if t.vote then suc rest else rest

abbrev pub rejects_in : List Turn → ℕ
rejects_in [] = 0
rejects_in (t ∷ turns) = let rest = rejects_in turns in if t.vote then rest else suc rest

abbrev pub states : List Turn → List Raft
states = map λ t. t.raft

-- The turns around the one that changes the state.
pub record Split (turns : List Turn) (left : List Raft) (changed : Raft → Raft) : Type 0 where
  pub before : List Turn
  pub turn : Turn
  pub after : List Turn
  pub all : turns ≡ before ++ turn ∷ after
  pub leaves : left ≡ states before ++ changed turn.raft ∷ states after
  pub going : turn.active ≡ true

-- What the votes leave behind, if the first are counted from given counts: every state as it was, or every
-- state but one.
data Outcome (quorum : ℕ) (c : Count) (turns : List Turn) (left : List Raft) : Type 0 where
  unmoved : left ≡ states turns → Outcome quorum c turns left
  promoted :
      (s : Split turns left become_candidate)
      → is_nil s.turn.raft.leader ≡ true
      → quorum ≤ c.accepts + accepts_in (s.before ++ s.turn ∷ [])
      → Outcome quorum c turns left
  waits_again :
      (s : Split turns left (spawn reset_heartbeat_timeout))
      → quorum ≤ c.rejects + rejects_in (s.before ++ s.turn ∷ [])
      → Outcome quorum c turns left

count_polls_stopped :
    (quorum : ℕ) (turns : List Turn) (c : Count)
    → c.counting ≡ false
    → count_polls quorum turns c ≡ states turns
unfolding count_polls count_poll
count_polls_stopped quorum [] c h = refl
count_polls_stopped quorum (t ∷ turns) c h =
    let stays : count_poll quorum t.active t.vote (c, t.raft) ≡ (c, t.raft) =
      if_cases (λ o. o ≡ (c, t.raft)) (not c.counting) _ _ (λ over. refl)
        (λ on. absurd (ground (arith, h, on))) in
    ap (λ o. o.1 ∷ count_polls quorum turns o.0) stays
    ∙ ap (◌∷◌ t.raft) (count_polls_stopped quorum turns c h)

abbrev shift_split :
    (t : Turn) (turns : List Turn) (left : List Raft) (changed : Raft → Raft)
    → Split turns left changed
    → Split (t ∷ turns) (t.raft ∷ left) changed
shift_split t turns left changed s = record {
  before = t ∷ s.before;
  turn = s.turn;
  after = s.after;
  all = ap (◌∷◌ t) s.all;
  leaves = ap (◌∷◌ t.raft) s.leaves;
  going = s.going;
}

Outcome-more :
    (quorum : ℕ) (t : Turn) (turns : List Turn) (left : List Raft) (c c' : Count)
    → ((xs : List Turn) → c'.accepts + accepts_in xs ≤ c.accepts + accepts_in (t ∷ xs))
    → ((xs : List Turn) → c'.rejects + rejects_in xs ≤ c.rejects + rejects_in (t ∷ xs))
    → Outcome quorum c' turns left
    → Outcome quorum c (t ∷ turns) (t.raft ∷ left)
Outcome-more quorum t turns left c c' ha hj (unmoved same) = unmoved (ap (◌∷◌ t.raft) same)
Outcome-more quorum t turns left c c' ha hj (promoted s free enough) =
    let more = ha (s.before ++ s.turn ∷ []) in
    promoted (shift_split t turns left become_candidate s) free (omega (arith, more, enough))
Outcome-more quorum t turns left c c' ha hj (waits_again s enough) =
    let more = hj (s.before ++ s.turn ∷ []) in
    waits_again (shift_split t turns left (spawn reset_heartbeat_timeout) s)
      (omega (arith, more, enough))

count_polls-Outcome :
    (quorum : ℕ) (turns : List Turn) (c : Count)
    → Outcome quorum c turns (count_polls quorum turns c)
unfolding count_polls count_poll count_poll_accept count_poll_reject
count_polls-Outcome quorum [] c = unmoved refl
count_polls-Outcome quorum (t ∷ turns) c =
    let P : Count × Raft → Type 0 =
      λ o. Outcome quorum c (t ∷ turns) (o.1 ∷ count_polls quorum turns o.0) in
    let stopped : (c' : Count) (r' : Raft)
        → c'.counting ≡ false
        → count_polls quorum turns c' ≡ states turns =
      λ c' r' h. count_polls_stopped quorum turns c' h in
    if_cases P (not c.counting) _ _
      (λ h. unmoved (ap (◌∷◌ t.raft) (stopped c t.raft (ground (arith, h)))))
      (λ counting.
        if_cases P (not t.active) _ _
          (λ inactive. unmoved (ap (◌∷◌ t.raft) (stopped _ t.raft refl)))
          (λ active.
            let going : t.active ≡ true = ground (arith, active) in
            if_cases P t.vote _ _
              (λ yes'.
                if_cases P (is_nil t.raft.leader && c.accepts + 1 == quorum) _ _
                  (λ wins.
                    let enough =
                      (==_iff (c.accepts + 1) quorum).0 (and-right (is_nil t.raft.leader) _ wins) in
                    promoted
                      (record {
                        before = [];
                        turn = t;
                        after = turns;
                        all = refl;
                        leaves = ap (◌∷◌ (become_candidate t.raft)) (stopped _ t.raft refl);
                        going = going;
                      })
                      (and-left _ (c.accepts + 1 == quorum) wins) (ground (arith, enough, yes')))
                  (λ more.
                    Outcome-more quorum t turns _ c _ (λ xs. ground (arith, yes'))
                      (λ xs. ground (arith, yes')) (count_polls-Outcome quorum turns _)))
              (λ no'.
                if_cases P (c.rejects + 1 == quorum) _ _
                  (λ loses.
                    let enough = (==_iff (c.rejects + 1) quorum).0 loses in
                    waits_again
                      (record {
                        before = [];
                        turn = t;
                        after = turns;
                        all = refl;
                        leaves =
                            ap (◌∷◌ (spawn reset_heartbeat_timeout t.raft)) (stopped _ t.raft refl);
                        going = going;
                      })
                      (ground (arith, enough, no')))
                  (λ more.
                    Outcome-more quorum t turns _ c _ (λ xs. ground (arith, no'))
                      (λ xs. ground (arith, no')) (count_polls-Outcome quorum turns _)))))

-- The count of a follower's polls, whatever becomes of the state between the votes, leaves every state as
-- it was, or all but one, where it makes an active follower a candidate or has it wait for the heartbeat
-- timeout again. It makes it a candidate only if it then knows no leader and, with that vote, a majority of
-- the members is for it, and has it wait only if, with that vote, a majority is against it.
pub count_polls_majority :
    (members : ℕ) (turns : List Turn)
    → let left = count_polls (quorum_of members) turns new_count in
      (left ≡ states turns)
      ⊎ ((s : Split turns left become_candidate) × (is_nil s.turn.raft.leader ≡ true)
          × (members < 2 * accepts_in (s.before ++ s.turn ∷ [])))
      ⊎ ((s : Split turns left (spawn reset_heartbeat_timeout)) × (members
            < 2 * rejects_in (s.before ++ s.turn ∷ [])))
unfolding new_count quorum_of
count_polls_majority members turns =
    elim (count_polls-Outcome (quorum_of members) turns new_count) [
      | unmoved same ↦ inl same
      | promoted s free enough ↦ inr (inl (s, free, omega (arith, enough)))
      | waits_again s enough ↦ inr (inr (s, omega (arith, enough)))
    ]
