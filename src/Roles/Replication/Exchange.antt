-- ===== src/Roles/Replication/Exchange.antt =====
-- One exchange of an append request between a leader and a follower.
use atomix_go_raft.Base.{
  suc, ◌+◌, ◌≤◌, ◌<◌, ◌≡◌, refl, sym, ap, ◌∙◌, true, false, ◌⊎◌, inl, inr, some, arith, ltb, ltb→lt,
  ge→ltb, ◌==◌, ==_iff, Bool-cases, length, get_elem?-some, add64, sub64, u64_mod,
}
use atomix_go_raft.Store.Log.{Log, Time}
use atomix_go_raft.Protocol.Raft.{Raft}
use atomix_go_raft.Protocol.Messages.{AppendRequest, AppendResponse}
use atomix_go_raft.Roles.Server.{Server}
use atomix_go_raft.Roles.Append.{response, handle_append}
use atomix_go_raft.Roles.Append.Replies.{IsServing, Fits}
use atomix_go_raft.Roles.Append.Handled.{handle_append-Handled}
use atomix_go_raft.Roles.Replication.{
  MemberAppender, matched, tell_commit, succeed, requeue, advance, back_off, handle_append_response,
}

-- Where an exchange leaves the leader's view of the follower.
abbrev pub Moved : AppendRequest → MemberAppender → AppendResponse → MemberAppender → Type 0
Moved request a x b =
    ((x.succeeded ≡ true)
      × (b.match_index ≡ request.prev_log_index + length request.entries)
      × (b.next_index ≡ suc (request.prev_log_index + length request.entries)))
    ⊎ ((x.succeeded ≡ false) × (b.next_index < a.next_index) × (b.match_index ≤ a.match_index))

back_off-next :
    (x : AppendResponse) (a : MemberAppender) (l : Log)
    → suc x.last_log_index < u64_mod
    → ((requeue l (back_off x (succeed a))).next_index ≡ suc x.last_log_index)
      × ((requeue l (back_off x (succeed a))).match_index ≤ a.match_index)
unfolding back_off requeue succeed
back_off-next x a l range =
    let next : add64 x.last_log_index 1 ≡ suc x.last_log_index = omega (arith, range) in
    elim (Bool-cases (ltb x.last_log_index a.match_index)) [
      | inl lower ↦ elim (Bool-cases (add64 x.last_log_index 1 == a.next_index)) [
        | inl same ↦
            rw (lower, same)
              (sym ((==_iff _ a.next_index).0 same) ∙ next, omega (arith, ltb→lt _ _ lower))
        | inr other ↦ rw (lower, other) (next, omega (arith, ltb→lt _ _ lower))
      ]
      | inr higher ↦ elim (Bool-cases (add64 x.last_log_index 1 == a.next_index)) [
        | inl same ↦ rw (higher, same) (sym ((==_iff _ a.next_index).0 same) ∙ next, omega arith)
        | inr other ↦ rw (higher, other) (next, omega arith)
      ]
    ]

advance-Moved :
    (request : AppendRequest) (x : AppendResponse) (time : Time) (a : MemberAppender)
    → x.last_log_index ≡ request.prev_log_index + length request.entries
    → suc x.last_log_index < u64_mod
    → (b : MemberAppender) × (advance request x time (succeed a) ≡ some b)
      × (b.match_index ≡ x.last_log_index)
      × (b.next_index ≡ suc x.last_log_index)
unfolding advance succeed
advance-Moved request x time a last range = elim (Bool-cases (length request.entries == 0)) [
  | inl empty ↦
      (tell_commit time (matched x (succeed a)), rw empty refl, refl, omega (arith, range))
  | inr filled ↦
      let some_entries : 1 ≤ length request.entries = ground (arith, filled) in
      let (e, at) =
        get_elem?-some request.entries (sub64 (sub64 x.last_log_index request.prev_log_index) 1)
          (omega (arith, last, range, some_entries)) in
      (
        tell_commit time (record (matched x (succeed a)) { prev_term = e.term }),
        rw (filled, at) refl,
        refl,
        omega (arith, range),
      )
]

requeue-match : (l : Log) (a : MemberAppender) → (requeue l a).match_index ≡ a.match_index
unfolding requeue
requeue-match l a = refl

requeue-next : (l : Log) (a : MemberAppender) → (requeue l a).next_index ≡ a.next_index
unfolding requeue
requeue-next l a = refl

success_lem :
    (request : AppendRequest) (x : AppendResponse) (time : Time) (l : Log) (a : MemberAppender)
    (r : Raft) {b : MemberAppender}
    → x.succeeded ≡ true
    → advance request x time (succeed a) ≡ some b
    → handle_append_response request x time l (a, r) ≡ some (requeue l b, r)
unfolding handle_append_response
success_lem request x time l a r good moved = rw (handle_append_response, good, moved) refl

failure_lem :
    (request : AppendRequest) (x : AppendResponse) (time : Time) (l : Log) (a : MemberAppender)
    (r : Raft)
    → x.succeeded ≡ false
    → x.term ≤ r.term
    → handle_append_response request x time l (a, r) ≡ some (requeue l (back_off x (succeed a)), r)
unfolding handle_append_response
failure_lem request x time l a r bad older =
    rw (handle_append_response, bad, ge→ltb r.term x.term older) refl

-- A leader sends a follower a request that names the entry before the member's next index. The follower's
-- store is valid, its log does not begin above that entry, its term is not above the request's nor that
-- one above the leader's, and indexes stay within uint64. Then the request is answered and the answer
-- handled without a panic or an error, and the leader's protocol state stays. If the answer is a
-- success, the match index is the request's last index and the next index the one after it. Otherwise
-- the next index goes down and the match index does not go up.
pub exchange-Moved :
    (request : AppendRequest) (s : Server) (a : MemberAppender) (r : Raft) (l : Log) (time : Time)
    → IsServing s
    → Fits request s
    → s.raft.term ≤ request.term
    → request.term ≤ r.term
    → a.next_index ≡ suc request.prev_log_index
    → (t : Server) × (x : AppendResponse) × (b : MemberAppender) × (handle_append request s
        ≡ some (t, response x))
      × (handle_append_response request x time l (a, r) ≡ some (b, r))
      × Moved request a x b
exchange-Moved request s a r l time h fits current leads next =
    let (t, x, ran, handled) = handle_append-Handled request s h fits in
    elim handled.result [
      | inl accepted ↦
          let range : suc x.last_log_index < u64_mod =
            omega (arith, accepted.last_log_index, fits.range) in
          let (b, moved, match_index, next_index) =
            advance-Moved request x time a accepted.last_log_index range in
          (
            t,
            x,
            requeue l b,
            ran,
            success_lem request x time l a r accepted.succeeded moved,
            inl (
              accepted.succeeded,
              requeue-match l b ∙ match_index ∙ accepted.last_log_index,
              requeue-next l b ∙ next_index ∙ ap suc accepted.last_log_index,
            ),
          )
      | inr refused ↦
          let below = refused.last_log_index current in
          let (next_index, match_index) = back_off-next x a l (omega (arith, below, fits.range)) in
          (
            t,
            x,
            requeue l (back_off x (succeed a)),
            ran,
            failure_lem request x time l a r refused.succeeded
                (omega (arith, refused.answer_term, current, leads)),
            inr (refused.succeeded, omega (arith, next_index, below, next), match_index),
          )
    ]
