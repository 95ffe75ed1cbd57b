-- ===== src/Roles/Driver/Stall.antt =====
-- One append at a time, and none after a refused installation.
use mathlib.Core.Option.{some-injective}
use atomix_go_raft.Base.{
  ℕ, ◌+◌, ◌≤◌, ◌≡◌, refl, sym, ap, subst, ◌∙◌, inl, inr, Bool, true, false, not, Option, none, some,
  List, [], ◌∷◌, arith, if_cases, Option-cases, length, drop,
}
use atomix_go_raft.Store.Log.{Log, Time}
use atomix_go_raft.Store.Snapshot.{Snapshot}
use atomix_go_raft.Roles.Replication.{MemberAppender, enqueue}
use atomix_go_raft.Roles.Driver.{
  Driver, Event, entry_arrives, append_ends, heartbeat_asked, ticked, start_append, start_if_idle,
  process_event, refused, handle_install, signal_of, end_append, is_external, Step, receives, ends,
  hears, Steps, stays, then_steps,
}

-- An append runs, or its end is waiting to be heard, or the flag is down; never two of them.
abbrev pub waits : Option Bool → ℕ
waits none = 0
waits (some b) = 1

pub record IsSingle (d : Driver) : Type 0 where
  pub one : d.running + waits d.signal ≤ 1
  pub idle : d.appending ≡ false → d.running + waits d.signal ≡ 0

-- The flag is up although no append runs or is about to be heard of.
pub record IsStalled (d : Driver) : Type 0 where
  pub appending : d.appending ≡ true
  pub running : d.running ≡ 0
  pub signal : d.signal ≡ none

-- An entry, a heartbeat or a tick starts an append or changes the queue only.
process_event_rule :
    (P : Driver → Type 0) (e : Event) (d d' : Driver)
    → is_external e ≡ true
    → process_event e d ≡ some d'
    → ((a : MemberAppender) → P (start_if_idle (record d { appender = a })))
    → P d'
unfolding process_event
process_event_rule P (entry_arrives e) d d' h k p = elim (Option-cases (enqueue e d.appender)) [
  | inl stuck ↦ absurd (let no' = (rw stuck at k) in cc)
  | inr (a, there) ↦ subst P (some-injective _ _ (rw there at k)) (p a)
]
process_event_rule P (append_ends b) d d' h k p = absurd (let no' = h in cc)
process_event_rule P heartbeat_asked d d' h k p = subst P (some-injective _ _ k) (p d.appender)
process_event_rule P ticked d d' h k p = subst P (some-injective _ _ k) (p d.appender)

waits_le : (o : Option Bool) → waits o ≤ 1
waits_le none = omega arith
waits_le (some b) = omega arith

start_if_idle-IsSingle : (d : Driver) → IsSingle d → IsSingle (start_if_idle d)
unfolding start_if_idle
start_if_idle-IsSingle d s =
    if_cases IsSingle (not d.appending) (start_append d) d
      (λ free.
        let free' = s.idle (ground (arith, free)) in
        record { one = omega (arith, free'); idle = λ h. absurd (let no' = h in cc) })
      (λ busy. s)

hears-IsSingle :
    (b : Bool) (d d' : Driver)
    → d.signal ≡ some b
    → process_event (append_ends b) d ≡ some d'
    → IsSingle d
    → IsSingle (record d' { signal = none })
unfolding process_event
hears-IsSingle true d d' told k s =
    let waiting' = ap waits told in
    subst (λ x. IsSingle (record x { signal = none })) (some-injective _ _ k)
      (record { one = omega (arith, waiting', s.one); idle = λ h. absurd (let no' = h in cc) })
hears-IsSingle false d d' told k s =
    let waiting' = ap waits told in
    subst (λ x. IsSingle (record x { signal = none })) (some-injective _ _ k)
      (record { one = omega (arith, waiting', s.one); idle = λ h. omega (arith, waiting', s.one) })

Step-IsSingle : {d e : Driver} → Step d e → IsSingle d → IsSingle e
unfolding end_append
Step-IsSingle {d} (receives e d' h k) s = process_event_rule IsSingle e d d' h k (λ a.
    start_if_idle-IsSingle (record d { appender = a }) (record { one = s.one; idle = s.idle }))
Step-IsSingle {d} (ends n a i runs) s = record {
  one =
      omega (arith, runs, s.one, waits_le (signal_of (drop (length d.appender.notices) a.notices)));
  idle = λ h. absurd (let none' = s.idle h in omega (arith, none', runs));
}
Step-IsSingle {d} (hears b d' told k) s = hears-IsSingle b d d' told k s

-- At most one append of a follower's appender runs at a time: in every state that an appender reaches from
-- one in which no append has started, through any entries, heartbeats, ticks and ends of appends.
pub one_append : (d e : Driver) → d.running ≡ 0 → d.signal ≡ none → Steps d e → e.running ≤ 1
one_append d e idle silent steps = let s = reached steps in omega (arith, s.one)
  where
    reached : {x : Driver} → Steps d x → IsSingle x
    reached stays =
        let silent' = ap waits silent in
        record { one = omega (arith, idle, silent'); idle = λ h. omega (arith, idle, silent') }
    reached (then_steps before step) = Step-IsSingle step (reached before)

Step-IsStalled : {d e : Driver} → Step d e → IsStalled d → IsStalled e
unfolding start_if_idle
Step-IsStalled {d} (receives e d' h k) s = process_event_rule IsStalled e d d' h k (λ a.
    if_cases IsStalled (not d.appending) (start_append (record d { appender = a }))
      (record d { appender = a })
      (λ free. absurd (let no' = s.appending in ground (arith, free, no')))
      (λ busy. record { appending = s.appending; running = s.running; signal = s.signal }))
Step-IsStalled {d} (ends n a i runs) s =
    absurd (let no' = sym runs ∙ s.running in omega (arith, no'))
Step-IsStalled {d} (hears b d' told k) s = absurd (let no' = sym told ∙ s.signal in cc)

Steps-IsStalled : {d e : Driver} → Steps d e → IsStalled d → IsStalled e
Steps-IsStalled stays s = s
Steps-IsStalled (then_steps before step) s = Step-IsStalled step (Steps-IsStalled before s)

drop_all : {A : Type 0} (xs : List A) → drop (length xs) xs ≡ []
drop_all [] = refl
drop_all (x ∷ xs) = drop_all xs

-- After a refused installation, replication to the member stops: if the only append ends with a refusal of
-- the snapshot that it sent, then whatever entries, heartbeats and ticks follow, no append runs again.
pub refused_stalls :
    (s : Snapshot) (start : Time) (l : Log) (d e : Driver)
    → d.appending ≡ true
    → d.running ≡ 1
    → Steps (end_append d (handle_install refused s start l d)) e
    → (e.running ≡ 0) × (e.appending ≡ true) × (e.signal ≡ none)
unfolding end_append handle_install signal_of
refused_stalls s start l d e busy one steps =
    let stalled : IsStalled (end_append d (handle_install refused s start l d)) = record {
      appending = busy;
      running = omega (arith, one);
      signal = ap signal_of (drop_all d.appender.notices);
    } in
    let after = Steps-IsStalled steps stalled in (after.running, after.appending, after.signal)
