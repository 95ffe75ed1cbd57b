-- ===== src/Roles/Install/Chunks.antt =====
-- The messages of an installation, one after another.
use mathlib.Core.List.{append_assoc, append-nil}
use atomix_go_raft.Base.{
  ℕ, zero, suc, ◌≤◌, ◌<◌, ◌≡◌, refl, sym, ap, ◌∙◌, ◌⊎◌, inl, inr, false, none, some, List, [], ◌∷◌,
  ◌++◌, map, arith, ge→ltb, length, take, drop, All,
}
use atomix_go_raft.Store.Snapshot.{
  Snapshot, SnapshotStore, new_snapshot, read_bytes, open_writer, write_bytes, open_writer_new,
}
use atomix_go_raft.Protocol.Raft.{Raft, new_pointer, set_term, set_leader}
use atomix_go_raft.Protocol.Streams.{Streamed, responded}
use atomix_go_raft.Roles.Server.{update_term_and_leader}
use atomix_go_raft.Roles.Install.{
  InstallRequest, new_install_request, install_rounds, Installing, with_writer, update_by,
  write_message, install,
}

-- The bytes that requests carry.
abbrev pub chunks : List InstallRequest → List ℕ
chunks [] = []
chunks (q ∷ qs) = q.chunk ++ chunks qs

abbrev pub IsOfTerm : ℕ → InstallRequest → Type 0
IsOfTerm term q = q.term ≡ term

take-drop : {A : Type 0} (n : ℕ) (xs : List A) → take n xs ++ drop n xs ≡ xs
take-drop zero xs = refl
take-drop (suc n) [] = refl
take-drop (suc n) (x ∷ xs) = ap (◌∷◌ x) (take-drop n xs)

length-drop_le : {A : Type 0} (n : ℕ) (xs : List A) → length (drop n xs) ≤ length xs
length-drop_le zero xs = omega arith
length-drop_le (suc n) [] = omega arith
length-drop_le (suc n) (x ∷ xs) = omega (arith, length-drop_le n xs)

drop-all : {A : Type 0} (n : ℕ) (xs : List A) → length xs ≤ n → drop n xs ≡ []
drop-all zero [] h = refl
drop-all zero (x ∷ xs) h = absurd (omega (arith, h))
drop-all (suc n) [] h = refl
drop-all (suc n) (x ∷ xs) h = drop-all n xs (omega (arith, h))

-- A request is marshalled as it is, if nothing is read after it.
abbrev pub IsUntouched : (ℕ → List ℕ → List ℕ → List ℕ) → Type 0
IsUntouched marshalled = (k : ℕ) (chunk : List ℕ) → marshalled k chunk [] ≡ chunk

-- Every request is marshalled before the next read changes the buffer.
abbrev pub IsInTime : (ℕ → List ℕ → List ℕ → List ℕ) → Type 0
IsInTime marshalled = (k : ℕ) (chunk refill : List ℕ) → marshalled k chunk refill ≡ chunk

first_chunk :
    (marshalled : ℕ → List ℕ → List ℕ → List ℕ) (size : ℕ) (chunk xs : List ℕ)
    → IsUntouched marshalled
    → (suc (length xs) ≤ suc size) ⊎ IsInTime marshalled
    → marshalled 0 chunk (take (suc size) (drop size xs)) ≡ chunk
first_chunk marshalled size chunk xs untouched (inl small) =
    ap (λ ys. marshalled 0 chunk (take (suc size) ys)) (drop-all size xs (omega (arith, small)))
    ∙ untouched 0 chunk
first_chunk marshalled size chunk xs untouched (inr in_time) = in_time 0 chunk _

-- With rounds enough, the requests carry all that is left of the snapshot, if it is one chunk or every
-- request is marshalled in time.
pub chunks-install_rounds :
    (marshalled : ℕ → List ℕ → List ℕ → List ℕ) (n size : ℕ) (r : Raft) (s : Snapshot)
    (left : List ℕ)
    → length left < n
    → IsUntouched marshalled
    → (length left ≤ suc size) ⊎ IsInTime marshalled
    → chunks (install_rounds marshalled n (suc size) r s left) ≡ left
unfolding install_rounds read_bytes new_install_request
chunks-install_rounds marshalled zero size r s left enough untouched safe =
    absurd (omega (arith, enough))
chunks-install_rounds marshalled (suc n) size r s [] enough untouched safe = refl
chunks-install_rounds marshalled (suc n) size r s (x ∷ xs) enough untouched safe =
    let rest = install_rounds (λ k. marshalled (suc k)) n (suc size) r s (drop size xs) in
    let safe' : (length (drop size xs) ≤ suc size) ⊎ IsInTime (λ k. marshalled (suc k)) =
      elim safe [
        | inl small ↦ inl (omega (arith, small, length-drop_le size xs))
        | inr in_time ↦ inr (λ k. in_time (suc k))
      ] in
    ap (λ ys. ys ++ chunks rest) (first_chunk marshalled size (x ∷ take size xs) xs untouched safe)
    ∙ ap (λ ys. x ∷ (take size xs ++ ys))
        (chunks-install_rounds (λ k. marshalled (suc k)) n size r s (drop size xs)
          (omega (arith, enough, length-drop_le size xs)) (λ k. untouched (suc k)) safe')
    ∙ ap (◌∷◌ x) (take-drop size xs)

pub install_rounds-IsOfTerm :
    (marshalled : ℕ → List ℕ → List ℕ → List ℕ) (n size : ℕ) (r : Raft) (s : Snapshot)
    (left : List ℕ)
    → All (IsOfTerm r.term) (install_rounds marshalled n (suc size) r s left)
unfolding install_rounds read_bytes new_install_request
install_rounds-IsOfTerm marshalled zero size r s left = tt
install_rounds-IsOfTerm marshalled (suc n) size r s [] = tt
install_rounds-IsOfTerm marshalled (suc n) size r s (x ∷ xs) =
    (refl, install_rounds-IsOfTerm (λ k. marshalled (suc k)) n size r s (drop size xs))

update_by_term : (q : InstallRequest) (r : Raft) → r.term ≤ q.term → (update_by q r).term ≡ q.term
unfolding update_by update_term_and_leader set_term set_leader new_pointer
update_by_term q r h = ground (arith, h)

-- A member that writes to a new snapshot.
abbrev pub writing : Raft → SnapshotStore → ℕ → List ℕ → Installing
writing r store a buf = record {
  raft = r;
  store = store;
  writer = some (record { snapshot = a; buf = buf });
  locked = false;
}

install_written :
    (q : InstallRequest) (ms : List (Streamed InstallRequest)) (i : Installing)
    → i.raft.term ≤ q.term
    → install (responded q ∷ ms) i ≡ install ms (write_message q i)
unfolding install
install_written q ms i h =
    let now = update_by_term q i.raft h in
    let current = ge→ltb q.term (update_by q i.raft).term (omega (arith, now)) in rw current refl

-- The first message makes the snapshot.
write_message_first :
    (q : InstallRequest) (r : Raft) (store : SnapshotStore)
    → let o = new_snapshot q.index q.timestamp store in
      write_message q (record { raft = r; store = store; writer = none; locked = false })
      ≡ writing (update_by q r) o.1 o.0 q.chunk
unfolding write_message with_writer write_bytes new_snapshot open_writer
write_message_first q r store =
    let o = new_snapshot q.index q.timestamp store in
    ap (λ w. writing (update_by q r) o.1 o.0 (w.buf ++ q.chunk))
      (open_writer_new q.index q.timestamp store)

write_message_next :
    (q : InstallRequest) (r : Raft) (store : SnapshotStore) (a : ℕ) (buf : List ℕ)
    → write_message q (writing r store a buf) ≡ writing (update_by q r) store a (buf ++ q.chunk)
unfolding write_message with_writer write_bytes
write_message_next q r store a buf = refl

-- The messages after it add their bytes, whatever follows them.
install-chunks :
    (qs : List InstallRequest) (ms : List (Streamed InstallRequest)) (term : ℕ) (r : Raft)
    (store : SnapshotStore) (a : ℕ) (buf : List ℕ)
    → All (IsOfTerm term) qs
    → r.term ≤ term
    → (r' : Raft) × (install (map responded qs ++ ms) (writing r store a buf)
        ≡ install ms (writing r' store a (buf ++ chunks qs)))
install-chunks [] ms term r store a buf same h =
    (r, ap (λ xs. install ms (writing r store a xs)) (sym (append-nil buf)))
install-chunks (q ∷ qs) ms term r store a buf same h =
    let below : r.term ≤ q.term = omega (arith, h, same.0) in
    let now = update_by_term q r below in
    let (r', rest) =
      install-chunks qs ms term (update_by q r) store a (buf ++ q.chunk) same.1
        (omega (arith, now, same.0)) in
    (
      r',
      install_written q (map responded qs ++ ms) (writing r store a buf) below
          ∙ ap (install (map responded qs ++ ms)) (write_message_next q r store a buf)
          ∙ rest
          ∙ ap (λ xs. install ms (writing r' store a xs)) (append_assoc buf q.chunk (chunks qs)),
    )

-- All messages of an installation, from a member without a writer.
pub install-whole :
    (q : InstallRequest) (qs : List InstallRequest) (ms : List (Streamed InstallRequest)) (r : Raft)
    (store : SnapshotStore)
    → All (IsOfTerm q.term) qs
    → r.term ≤ q.term
    → let o = new_snapshot q.index q.timestamp store in
      (r' : Raft) × (install
          (map responded (q ∷ qs) ++ ms)
          (record { raft = r; store = store; writer = none; locked = false })
        ≡ install ms (writing r' o.1 o.0 (chunks (q ∷ qs))))
install-whole q qs ms r store same h =
    let o = new_snapshot q.index q.timestamp store in
    let i : Installing = record { raft = r; store = store; writer = none; locked = false } in
    let now = update_by_term q r h in
    let (r', rest) =
      install-chunks qs ms q.term (update_by q r) o.1 o.0 q.chunk same (omega (arith, now)) in
    (
      r',
      install_written q (map responded qs ++ ms) i h
          ∙ ap (install (map responded qs ++ ms)) (write_message_first q r store)
          ∙ rest,
    )
