-- ===== src/Recovery/Timing.antt =====
-- connection/network_recovery_handler.rs: when a delayed network change is sent, as against how long
-- the connection loop may sleep.
use protun.Base.{
  ℕ, ◌+◌, ◌≤◌, ◌<◌, ◌≡◌, refl, Bool, true, false, none, some, List, [], ◌∷◌, arith, if◌then◌else◌,
  Bool-cases, Option-cases, inl, inr, ◌∙◌,
}
use protun.Recovery.{
  NetworkRecoveryHandler, Call, resumed, stream_failed, new, on_resumed, wakeup_delay, step,
  initial_delayed_network_change_duration,
}
use protun.Recovery.Backoff.{Inv, new-Inv, step-Inv, step-initial}

-- The delay is exact: a network change is sent when it is over, and not before.
pub wakeup_delay-on_resumed :
    (h : NetworkRecoveryHandler) (now d : ℕ)
    → wakeup_delay h now ≡ some d
    → ((on_resumed h (now + d)).1 ≡ true)
      × ((t : ℕ) → now ≤ t → t < now + d → on_resumed h t ≡ (h, false))
unfolding wakeup_delay on_resumed
wakeup_delay-on_resumed h now d e = (ground arith, λ t from before. ground arith)

-- The times at which network changes are sent.
abbrev pub times_after : NetworkRecoveryHandler → Call → List ℕ → List ℕ
times_after h (resumed now) ts = if (on_resumed h now).1 then now ∷ ts else ts
times_after h _ ts = ts

pub change_times : NetworkRecoveryHandler → List Call → List ℕ
change_times h [] = []
change_times h (c ∷ cs) = times_after h c (change_times (step h c) cs)

-- The clock after a call, which carries a time if the code reads the clock for it.
abbrev pub clock_after : ℕ → Call → ℕ
clock_after t (resumed now) = now
clock_after t (stream_failed e now) = now
clock_after t _ = t

-- The clock never goes back.
abbrev pub IsMonotone : ℕ → List Call → Type 0
IsMonotone t [] = Unit
IsMonotone t (c ∷ cs) = (t ≤ clock_after t c) × IsMonotone (clock_after t c) cs

-- The first time is not before `earliest`, and each other is at least `gap` after the one before.
abbrev pub IsSpaced : ℕ → ℕ → List ℕ → Type 0
IsSpaced gap earliest [] = Unit
IsSpaced gap earliest (t ∷ ts) = (earliest ≤ t) × IsSpaced gap (t + gap) ts

-- What is scheduled does not come before `earliest`, nor does what will be scheduled.
abbrev Waits : NetworkRecoveryHandler → ℕ → ℕ → Type 0
Waits h t earliest =
    ((a : ℕ) → h.send_delayed_network_change_at ≡ some a → earliest ≤ a)
    × (earliest ≤ t + h.initial_duration)

quiet-Waits :
    (h : NetworkRecoveryHandler) (c : Call) (t earliest : ℕ)
    → Inv h
    → t ≤ clock_after t c
    → Waits h t earliest
    → Waits (step h c) (clock_after t c) earliest
unfolding step on_resumed
quiet-Waits h (resumed now) t earliest v m w = (λ a e. ground (arith, w.0 a), ground arith)
quiet-Waits h (stream_failed e now) t earliest v m w = (λ a p. ground (arith, w.0 a), ground arith)
quiet-Waits h _ t earliest v m w = (λ a p. ground (arith, w.0 a), ground arith)

-- A network change is sent at a time that is not before `earliest`.
fired_late :
    (h : NetworkRecoveryHandler) (now t earliest : ℕ)
    → Waits h t earliest
    → (on_resumed h now).1 ≡ true
    → (earliest ≤ now) × ((step h (resumed now)).send_delayed_network_change_at ≡ none)
unfolding step on_resumed
fired_late h now t earliest w e = elim (Option-cases h.send_delayed_network_change_at) [
  | inl none_set ↦ ground arith
  | inr (a, set) ↦ ground (arith, w.0 a set)
]

change_times-IsSpaced :
    (gap : ℕ) (h : NetworkRecoveryHandler) (cs : List Call) (t earliest : ℕ)
    → h.initial_duration ≡ gap
    → Inv h
    → IsMonotone t cs
    → Waits h t earliest
    → IsSpaced gap earliest (change_times h cs)
unfolding change_times
change_times-IsSpaced gap h [] t earliest e v m w = tt
change_times-IsSpaced gap h (resumed now ∷ cs) t earliest e v m w =
    let rest = λ (from : ℕ) (w' : Waits (step h (resumed now)) now from).
      change_times-IsSpaced gap (step h (resumed now)) cs now from
        (step-initial h (resumed now) ∙ e) (step-Inv h (resumed now) v) m.1 w' in
    elim (Bool-cases (on_resumed h now).1) [
      | inl sent ↦
          let (late, cleared) = fired_late h now t earliest w sent in
          rw sent (
            late,
            rest (now + gap) ((λ a p. cc cleared), omega (arith, step-initial h (resumed now))),
          )
      | inr quiet ↦ rw quiet (rest earliest (quiet-Waits h (resumed now) t earliest v m.0 w))
    ]
change_times-IsSpaced gap h (c ∷ cs) t earliest e v m w =
    change_times-IsSpaced gap (step h c) cs (clock_after t c) earliest (step-initial h c ∙ e)
      (step-Inv h c v) m.1 (quiet-Waits h c t earliest v m.0 w)

-- With a clock that never goes back, and whatever the calls on a new handler, two network changes
-- that it sends are at least a second apart.
pub changes_one_second_apart :
    (android network_available : Bool) (cs : List Call)
    → IsMonotone 0 cs
    → IsSpaced initial_delayed_network_change_duration 0
        (change_times (new android network_available) cs)
unfolding new
changes_one_second_apart android network_available cs m =
    change_times-IsSpaced _ (new android network_available) cs 0 0 refl
      (new-Inv android network_available) m ((λ a p. ground arith), omega arith)
