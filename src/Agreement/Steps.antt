-- ===== src/Agreement/Steps.antt =====
-- Every step of the cluster keeps its invariant.
use atomix_go_raft.Base.{
  ℕ, ◌≤◌, ◌≡◌, ◌≢◌, refl, sym, ap, subst, ◌∙◌, Bool, true, false, inl, inr, Option, none, some,
  List, [], ◌∷◌, ◌++◌, arith, length, if◌then◌else◌, All, Elem, Elem-append_right, IsDistinct,
  IsWithin, Bool-cases,
}
use atomix_go_raft.Store.Log.{Log}
use atomix_go_raft.Protocol.Cluster.{MemberId}
use atomix_go_raft.Protocol.Raft.{RoleType}
use atomix_go_raft.Protocol.Messages.{VoteResponse}
use atomix_go_raft.Roles.Election.{vote}
use atomix_go_raft.Roles.Election.Record.{vote_recorded}
use atomix_go_raft.Roles.Candidacy.{
  Round, Ballot, casts, closes, begin_election, new_round, vote_request, answer_vote, cast_ballot,
  Verdict, won, lost, open_still, quorum_of,
}
use atomix_go_raft.Agreement.{
  Talk, waiting, answered, granted, refused, Election, Grant, System, update, ids, open_talks,
  grant_of, talk_after, win_of, is_pending, counted, Step, acts, campaigns, fails, votes, loses,
  hears, counts,
}
use atomix_go_raft.Agreement.Moves.{
  run_call-Moves, vote-Moves, begin_election-Moves, answer_vote-Moves, count_vote-Moves,
}
use atomix_go_raft.Agreement.Elections.{
  begin_election-voted, vote_request_lem, replaced-IsFair, All-at, talked-IsFair, open_talks-IsTrue,
  answer_vote-IsTrue, voters-given,
}
use atomix_go_raft.Agreement.Granted.{own_id, granted-IsSafe, held-IsSafe}
use atomix_go_raft.Agreement.Talks.{
  voters, gathered, is_granted, is_vote, cast_ballot-gathered, count_vote-Counts, open_talks-keys,
  open_talks-gathered, voters-IsDistinct, voters-IsWithin,
}
use atomix_go_raft.Agreement.Invariant.{vote_of, IsTrue, IsFair, IsElected, IsSafe, moved-IsSafe}

pending_lem : (t : Talk) → is_pending t ≡ true → is_granted t ≡ false
pending_lem waiting h = refl
pending_lem (answered o) h = refl
pending_lem granted h = cc
pending_lem refused h = refl

is_vote_granted : (b : Ballot) → is_vote b ≡ is_granted (talk_after b)
is_vote_granted (casts true) = refl
is_vote_granted (casts false) = refl
is_vote_granted closes = refl

win_rule :
    (P : ℕ × MemberId → Type 0) (v : Verdict) (w : ℕ × MemberId) (ws : List (ℕ × MemberId))
    → (v ≡ won → P w)
    → ((x : ℕ × MemberId) → Elem x ws → P x)
    → (x : ℕ × MemberId) → Elem x (win_of v w.0 w.1 ++ ws)
    → P x
win_rule P won w ws new old x (inl e) = subst P (sym e) (new refl)
win_rule P won w ws new old x (inr there) = old x there
win_rule P lost w ws new old x there = old x there
win_rule P open_still w ws new old x there = old x there

-- The steps, one by one.
module _ (config : List (MemberId × MemberId)) (s : System) (h : IsSafe config s) where
  campaigns-IsSafe :
      (id : MemberId) (active : Bool) (l : Log) (term : ℕ)
      → (begin_election active (s.servers id)).1 ≡ some term
      → IsSafe config (record s {
        servers = update id (begin_election active (s.servers id)).0 s.servers;
        elections =
            record {
              request = vote_request term l (s.servers id);
              round = new_round term id (ids config);
              talks = open_talks id (ids config);
            }
            ∷ s.elections;
        grants = record { voter = id; term = term; candidate = id } ∷ s.grants;
      })
  unfolding new_round
  campaigns-IsSafe id active l term begun =
      let r = s.servers id in
      let g : Grant = record { voter = id; term = term; candidate = id } in
      let voted = begin_election-voted active r begun in
      let request = vote_request term l r in
      let same = vote_request_lem term l r in
      let own : request.candidate ≡ id = same.1 ∙ own_id config s h id in
      let moved =
        granted-IsSafe config s h id _ term id (begin_election-Moves active r (h.valid id)) voted.0
          (voted.1 ∙ ap some (own_id config s h id)) in
      let given : Elem (vote_of id request) (g ∷ s.grants) = inl (rw (same.0, own) refl) in
      held-IsSafe config _ moved _ λ e there. elim there [
        | inl new ↦ subst (IsFair (ids config) (g ∷ s.grants)) (sym new) (record {
          keys = open_talks-keys id (ids config);
          talks = open_talks-IsTrue (g ∷ s.grants) request id own given (ids config);
          gathered = omega (arith, open_talks-gathered id (ids config));
          term = sym same.0;
        })
        | inr old ↦ moved.elections e old
      ]

  module _ (front back : List Election) (e : Election) (xs ys : List (MemberId × Talk))
      (id : MemberId) (at : s.elections ≡ front ++ e ∷ back) where
    -- The election that a step is about.
    its-IsFair : IsFair (ids config) s.grants e
    its-IsFair =
        h.elections e (subst (Elem e) (sym at) (Elem-append_right e front (e ∷ back) (inl refl)))

    its_talk : (t : Talk) → e.talks ≡ xs ++ (id, t) ∷ ys → IsTrue s.grants e.request (id, t)
    its_talk t talk =
        All-at (IsTrue s.grants e.request) xs ys (id, t)
          (subst (All (IsTrue s.grants e.request)) talk its-IsFair.talks)

    votes-IsSafe :
        (t : RoleType) (l : Log)
        → e.talks ≡ xs ++ (id, waiting) ∷ ys
        → IsSafe config (record s {
          servers = update id (vote t e.request l (s.servers id)).0 s.servers;
          elections =
              front
              ++ record e {
                talks = xs ++ (id, answered (some (vote t e.request l (s.servers id)).1)) ∷ ys;
              }
                ∷ back;
          grants = grant_of id e.request (vote t e.request l (s.servers id)).1 ++ s.grants;
        })
    votes-IsSafe t l talk =
        let r = s.servers id in
        let o = vote t e.request l r in
        let m = vote-Moves t e.request l r (h.valid id) in
        elim (Bool-cases o.1.voted) [
          | inl yes' ↦
              let other : e.request.candidate ≢ r.cluster.member =
                λ own. its_talk waiting talk (sym (own ∙ own_id config s h id)) in
              let recorded = vote_recorded t e.request l r other yes' in
              let moved =
                granted-IsSafe config s h id o.0 e.request.term e.request.candidate m recorded.1
                  recorded.0 in
              rw yes' (
                held-IsSafe config _ moved _ (
                  replaced-IsFair (ids config) _ front back s.elections e _ at moved.elections (
                    talked-IsFair (ids config) _ e e.round xs ys id waiting (answered (some o.1))
                      talk refl (λ w v. inl refl) refl (omega arith))))
          | inr no' ↦
              let moved = moved-IsSafe config s h id o.0 m in
              rw no' (
                held-IsSafe config _ moved _ (
                  replaced-IsFair (ids config) _ front back s.elections e _ at moved.elections (
                    talked-IsFair (ids config) _ e e.round xs ys id waiting (answered (some o.1))
                      talk refl (λ w v. let no = sym no' ∙ v in cc) refl (omega arith))))
        ]

    loses-IsSafe :
        (t : Talk)
        → e.talks ≡ xs ++ (id, t) ∷ ys
        → is_pending t ≡ true
        → IsSafe config (record s {
          elections = front ++ record e { talks = xs ++ (id, answered none) ∷ ys } ∷ back;
        })
    loses-IsSafe t talk pending = held-IsSafe config s h _ (
        replaced-IsFair (ids config) _ front back s.elections e _ at h.elections (
          talked-IsFair (ids config) _ e e.round xs ys id t (answered none) talk
            (pending_lem t pending) (λ w. tt) refl (omega arith)))

    hears-IsSafe :
        (response : Option VoteResponse) (round : Round)
        → e.talks ≡ xs ++ (id, answered response) ∷ ys
        → cast_ballot (answer_vote e.request response (s.servers e.request.candidate)).1 e.round
          ≡ some round
        → IsSafe config (record s {
          servers =
              update e.request.candidate
                (answer_vote e.request response (s.servers e.request.candidate)).0
                s.servers;
          elections =
              front
              ++ record e {
                round = round;
                talks =
                    xs
                    ++ (
                      id,
                      talk_after (answer_vote e.request response (s.servers e.request.candidate)).1,
                    )
                      ∷ ys;
              }
                ∷ back;
        })
    hears-IsSafe response round talk cast =
        let r = s.servers e.request.candidate in
        let o = answer_vote e.request response r in
        let moved =
          moved-IsSafe config s h e.request.candidate o.0
            (answer_vote-Moves e.request response r (h.valid e.request.candidate)) in
        let more = cast_ballot-gathered o.1 e.round cast in
        held-IsSafe config _ moved _ (
          replaced-IsFair (ids config) _ front back s.elections e _ at moved.elections (
            talked-IsFair (ids config) _ e round xs ys id (answered response) (talk_after o.1) talk
              refl (answer_vote-IsTrue s.grants e.request id response r) more.1
              (omega (arith, more.0, ap {B = ℕ} (λ b. if b then 1 else 0) (is_vote_granted o.1)))))

    -- A candidate that gathers a quorum has the votes of a majority.
    elected :
        IsDistinct (ids config)
        → quorum_of (length (ids config)) ≤ gathered e.round
        → IsElected (ids config) s.grants (e.round.term, e.request.candidate)
    elected distinct enough =
        let f = its-IsFair in
        record {
          voters = voters e.talks;
          distinct = voters-IsDistinct e.talks (subst IsDistinct (sym f.keys) distinct);
          within = subst (IsWithin (voters e.talks)) f.keys (voters-IsWithin e.talks);
          majority = omega (arith, enough, f.gathered);
          given = λ v there.
              subst
                (λ t.
                  Elem
                    (let g : Grant = record {
                      voter = v;
                      term = t;
                      candidate = e.request.candidate;
                    } in
                      g)
                    s.grants)
                (sym f.term) (voters-given s.grants e.request v e.talks f.talks there);
        }

    counts-IsSafe :
        IsDistinct (ids config)
        → (active : Bool)
        → IsSafe config (record s {
          servers = update e.request.candidate (counted config s active e).1 s.servers;
          elections = front ++ record e { round = (counted config s active e).0 } ∷ back;
          leaders =
              win_of (counted config s active e).2 e.round.term e.request.candidate ++ s.leaders;
        })
    counts-IsSafe distinct active =
        let r = s.servers e.request.candidate in
        let o = counted config s active e in
        let c = count_vote-Counts (length (ids config)) active e.round r in
        let moved =
          moved-IsSafe config s h e.request.candidate o.1 (
            count_vote-Moves (length (ids config)) active e.round r
              (h.valid e.request.candidate)) in
        let fair = held-IsSafe config _ moved _ (
          replaced-IsFair (ids config) _ front back s.elections e (record e { round = o.0 }) at
            moved.elections
            (λ f. record {
              keys = f.keys;
              talks = f.talks;
              gathered = omega (arith, f.gathered, c.fewer);
              term = c.term ∙ f.term;
            })) in
        record {
          valid = fair.valid;
          clusters = fair.clusters;
          held = fair.held;
          unique = fair.unique;
          elections = fair.elections;
          leaders =
              win_rule (IsElected (ids config) s.grants) o.2 (e.round.term, e.request.candidate)
                s.leaders (λ w. elected distinct (c.quorum w)) h.leaders;
        }

-- A step keeps the invariant, in a configuration without repeated members.
pub Step-IsSafe :
    (config : List (MemberId × MemberId)) {s t : System}
    → IsDistinct (ids config)
    → IsSafe config s
    → Step config s t
    → IsSafe config t
Step-IsSafe config {s} distinct h (acts id c up) =
    moved-IsSafe config s h id _ (run_call-Moves c (s.servers id) up (h.valid id))
Step-IsSafe config {s} distinct h (campaigns id active l term begun) =
    campaigns-IsSafe config s h id active l term begun
Step-IsSafe config {s} distinct h (fails id active) =
    moved-IsSafe config s h id _ (begin_election-Moves active (s.servers id) (h.valid id))
Step-IsSafe config {s} distinct h (votes front back e xs ys id t l at talk role) =
    votes-IsSafe config s h front back e xs ys id at t l talk
Step-IsSafe config {s} distinct h (loses front back e xs ys id t at talk pending) =
    loses-IsSafe config s h front back e xs ys id at t talk pending
Step-IsSafe config {s} distinct h (hears front back e xs ys id response round at talk cast) =
    hears-IsSafe config s h front back e xs ys id at response round talk cast
Step-IsSafe config {s} distinct h (counts front back e active at) =
    counts-IsSafe config s h front back e [] [] "" at distinct active
