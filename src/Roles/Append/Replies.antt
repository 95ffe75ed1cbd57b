-- ===== src/Roles/Append/Replies.antt =====
-- The handling of an append request as a whole: what is answered, and what becomes of the log and of the
-- commit index.
use atomix_go_raft.Base.{
  ℕ, suc, ◌+◌, ◌-◌, ◌≤◌, ◌<◌, ◌≡◌, ◌≢◌, sym, ap, ◌∙◌, true, false, ◌&&◌, ◌⊎◌, inl, inr, List, ◌++◌,
  arith, leb, length, take, drop, u64_mod, max, length-append, length-take, take-append-drop,
}
use atomix_go_raft.Store.Log.{Log, LogEntry}
use atomix_go_raft.Store.Log.Invariant.{IsValid}
use atomix_go_raft.Store.Log.View.{view, contents, length-contents}
use atomix_go_raft.Protocol.Raft.{Raft, commit, set_commit_index, set_status}
use atomix_go_raft.Protocol.Messages.{AppendRequest, AppendResponse}
use atomix_go_raft.Roles.Server.{Server}
use atomix_go_raft.Roles.Append.{new_commit_index}
use atomix_go_raft.Roles.Append.Merge.{merge, length-merge_most}
use atomix_go_raft.Roles.Append.Loop.{Merged}
use atomix_go_raft.Roles.Append.Previous.{agrees, agrees-past}

-- A server whose store can take requests.
pub record IsServing (s : Server) : Type 0 where
  pub valid : IsValid s.log
  pub known : s.reader < length s.log.readers
  pub room : s.log.first_index + length s.log.entries < u64_mod

-- A request that names a previous entry, no lower than where the log begins, with indexes in range.
pub record Fits (request : AppendRequest) (s : Server) : Type 0 where
  pub named : 1 ≤ request.prev_log_term
  pub low : s.log.first_index ≤ request.prev_log_index
  pub range : suc request.prev_log_index + length request.entries < u64_mod

-- The end of the handling: the entries are committed up to the larger index.
commit-index : (index : ℕ) (r : Raft) → (commit index r).0.commit_index ≡ max r.commit_index index
unfolding commit set_status
commit-index index r = ground arith

commit-term : (index : ℕ) (r : Raft) → (commit index r).0.term ≡ r.term
unfolding commit set_status
commit-term index r = ground arith

set_commit_index-same :
    (index : ℕ) (r : Raft)
    → ((set_commit_index index r).commit_index ≡ r.commit_index)
      × ((set_commit_index index r).term ≡ r.term)
unfolding set_commit_index
set_commit_index-same index r = ground arith

abbrev pub committed : AppendRequest → ℕ → Raft → Raft
committed request index r = (commit index (set_commit_index request.commit_index r)).0

pub committed-index :
    (request : AppendRequest) (index : ℕ) (r : Raft)
    → (committed request index r).commit_index ≡ max r.commit_index index
committed-index request index r =
    commit-index index (set_commit_index request.commit_index r)
    ∙ ap (λ n. max n index) (set_commit_index-same request.commit_index r).0

pub committed-term :
    (request : AppendRequest) (index : ℕ) (r : Raft) → (committed request index r).term ≡ r.term
committed-term request index r =
    commit-term index (set_commit_index request.commit_index r)
    ∙ (set_commit_index-same request.commit_index r).1

-- What handling a request makes of a server, with the answer.
pub record Accepted (request : AppendRequest) (s t : Server) (a : AppendResponse) : Type 0 where
  pub agreed : (leb s.raft.term request.term && agrees request (view s.log)) ≡ true
  pub succeeded : a.succeeded ≡ true
  pub last_log_index : a.last_log_index ≡ request.prev_log_index + length request.entries
  pub items :
      contents t.log.entries
      ≡ take (suc request.prev_log_index - s.log.first_index) (contents s.log.entries)
        ++ merge
            (drop (suc request.prev_log_index - s.log.first_index) (contents s.log.entries))
            request.entries
  pub commit_index :
      t.raft.commit_index
      ≡ max s.raft.commit_index (
          new_commit_index request s.overflow s.raft
            (request.prev_log_index + length request.entries))

pub record Refused (request : AppendRequest) (s t : Server) (a : AppendResponse) : Type 0 where
  pub agreed : (leb s.raft.term request.term && agrees request (view s.log)) ≡ false
  pub succeeded : a.succeeded ≡ false
  pub answer_term : a.term ≡ s.raft.term
  pub last_log_index : s.raft.term ≤ request.term → a.last_log_index < request.prev_log_index
  pub entries : t.log.entries ≡ s.log.entries
  pub raft : t.raft ≡ s.raft
  pub changes : t.changes ≡ s.changes

pub record Handled (request : AppendRequest) (s t : Server) (a : AppendResponse) : Type 0 where
  pub serving : IsServing t
  pub first_index : t.log.first_index ≡ s.log.first_index
  pub term : t.raft.term ≡ s.raft.term
  pub result : Accepted request s t a ⊎ Refused request s t a

pub length-Merged :
    {index : ℕ} {es : List LogEntry} {l m : Log}
    → l.first_index ≤ index
    → index ≤ l.first_index + length l.entries
    → Merged index es l m
    → (length m.entries ≤ length l.entries) ⊎ (l.first_index + length m.entries ≤ index + length es)
length-Merged {index} {es} {l} {m} low high w =
    let p = index - l.first_index in
    let c = contents l.entries in
    let total : length m.entries ≡ length (take p c) + length (merge (drop p c) es) =
      sym (length-contents m.entries)
      ∙ ap (λ (xs : List LogEntry). length xs) w.items
      ∙ length-append (take p c) (merge (drop p c) es) in
    let all : length c ≡ length (take p c) + length (drop p c) =
      ap (λ (xs : List LogEntry). length xs) (sym (take-append-drop p c))
      ∙ length-append (take p c) (drop p c) in
    elim (length-merge_most (drop p c) es) [
      | inl most ↦ inl (omega (arith, total, all, most, length-contents l.entries))
      | inr new ↦ inr (omega (arith, total, new, length-take p c))
    ]

pub true-≢-false : true ≢ false
true-≢-false h = ground arith

ℕ-split : (a b : ℕ) → (a < b) ⊎ (b ≤ a)
ℕ-split a b = omega arith

pub agrees-inside :
    (request : AppendRequest) (l : Log)
    → l.first_index ≤ request.prev_log_index
    → agrees request (view l) ≡ true
    → request.prev_log_index < l.first_index + length l.entries
agrees-inside request l low agreed =
    elim (ℕ-split request.prev_log_index (l.first_index + length l.entries)) [
      | inl inside ↦ inside
      | inr past ↦ absurd (true-≢-false (sym agreed ∙ agrees-past request l low past))
    ]
