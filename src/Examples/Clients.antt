-- ===== src/Examples/Clients.antt =====
-- A client of three members: one is not there, one refuses, and one serves.
use atomix_go_raft.Base.{
  ℕ, ◌≢◌, refl, ◌⊎◌, inl, inr, true, List, [], ◌∷◌, arith, if◌then◌else◌, if_cases, str_eq, eq_iff,
}
use atomix_go_raft.Protocol.Cluster.{MemberId, new_cluster}
use atomix_go_raft.Protocol.Messages.{ok_status, error_status, no_leader, illegal_member_state}
use atomix_go_raft.Protocol.Streams.{
  Answer, call_fails, streams, sequential, CommandResponse, QueryResponse, responded,
}
use atomix_go_raft.Client.{Client, new_client, next_node}
use atomix_go_raft.Client.Attempts.{IsEnded, outputs-IsEnded}
use atomix_go_raft.Client.Places.{IsAt}
use atomix_go_raft.Client.Reads.{IsServed, IsRefused, Reads, read_finishes}
use atomix_go_raft.Client.Writes.{IsReferred}
use atomix_go_raft.Client.Leader.{Writes, write_finishes}
use atomix_go_raft.Examples.Data.{a, b, c, config}

abbrev client : Client
client = new_client (new_cluster a config) sequential

client-IsAt : IsAt 0 client
unfolding new_client new_cluster next_node
client-IsAt = record { inside = omega arith; place = inr (refl, refl) }

-- b knows that c leads, a is not there, and c serves.
abbrev written : CommandResponse
written = record {
  status = ok_status;
  error = no_leader;
  message = "";
  leader = c;
  term = 1;
  members = a ∷ b ∷ c ∷ [];
  output = 7 ∷ [];
}

abbrev refused_write : CommandResponse
refused_write = record {
  status = error_status;
  error = illegal_member_state;
  message = "";
  leader = c;
  term = 1;
  members = [];
  output = [];
}

abbrev found : QueryResponse
found = record { status = ok_status; error = no_leader; message = ""; output = 7 ∷ [] }

abbrev refused_read : QueryResponse
refused_read = record {
  status = error_status;
  error = illegal_member_state;
  message = "";
  output = [];
}

abbrev three_answers : {A : Type 0} → A → A → MemberId → Answer A
three_answers served refused m =
    if str_eq m c
    then streams (responded served ∷ [])
    else if str_eq m b
    then streams (responded refused ∷ [])
    else call_fails (record { unavailable = true; text = "" })

abbrev writes : ℕ → MemberId → Answer CommandResponse
writes k = three_answers written refused_write

abbrev reads : ℕ → MemberId → Answer QueryResponse
reads k = three_answers found refused_read

writes-IsReferred : (k : ℕ) (m : MemberId) → m ≢ c → IsReferred c (writes k m)
writes-IsReferred k m other =
    if_cases (IsReferred c) (str_eq m c) _ _ (λ same. absurd (other ((eq_iff m c).0 same)))
      (λ different.
        if_cases (IsReferred c) (str_eq m b) _ _ (λ b'. (refl, refl, inr refl)) (λ a'. refl))

reads-IsServed :
    (k : ℕ) (m : MemberId)
    → ((rs : List QueryResponse) × IsServed rs (reads k m)) ⊎ IsRefused (reads k m)
reads-IsServed k m =
    let P : Answer QueryResponse → Type 0 =
      λ x. ((rs : List QueryResponse) × IsServed rs x) ⊎ IsRefused x in
    if_cases P (str_eq m c) _ _ (λ c'. inl (found ∷ [], (refl, (inl refl, tt))))
      (λ different. if_cases P (str_eq m b) _ _ (λ b'. inr (refl, refl)) (λ a'. inr refl))

read_finishes_example : Reads 3 reads client
unfolding new_client new_cluster
read_finishes_example =
    read_finishes c 2 3 reads client 0 (omega arith) refl
      (λ k. (found ∷ [], (refl, (inl refl, tt)))) reads-IsServed client-IsAt (omega arith)

write_finishes_example : Writes 4 writes client c
unfolding new_client new_cluster
write_finishes_example =
    write_finishes c 2 4 writes client 0 (omega arith) refl
      (λ k. (written ∷ [], (refl, (inl refl, tt)))) writes-IsReferred client-IsAt (omega arith)

a_write : Writes 4 writes client c
unfolding new_client new_cluster
a_write =
    write_finishes c 2 4 writes client 0 (omega arith) refl
      (λ k. (written ∷ [], (refl, (inl refl, tt)))) writes-IsReferred client-IsAt (omega arith)

a_read : Reads 4 reads client
unfolding new_client new_cluster
a_read =
    read_finishes c 2 4 reads client 0 (omega arith) refl
      (λ k. (found ∷ [], (refl, (inl refl, tt)))) reads-IsServed client-IsAt (omega arith)

outputs-IsEnded_example :
    IsEnded a_write.attempt.again a_write.attempt.outputs
    × IsEnded a_read.attempt.again a_read.attempt.outputs
outputs-IsEnded_example =
    outputs-IsEnded 4 writes reads client a_write.attempt a_read.attempt a_write.ran a_read.ran
