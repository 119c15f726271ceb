-- ===== src/Recovery/Backoff.antt =====
-- connection/network_recovery_handler.rs: the bounds of the backoff and its exponential law.
use native.Mathlib.Nat.{pow-suc, pow-zero}
use protun.Base.{
  ℕ, suc, ◌*◌, ◌^◌, ◌≤◌, ◌≡◌, refl, ◌∙◌, ◌≢◌, Bool, true, none, List, [], ◌∷◌, min, arith,
  if◌then◌else◌,
}
use protun.Io.{IoError}
use protun.Recovery.{
  NetworkRecoveryHandler, Call, resumed, connected, connectivity_changed, new, on_resumed, step,
  run, on_stream_error, on_successful_socket_open, on_connected, on_resumed,
}

-- Between two calls: the delay is within its bounds, and nothing is scheduled without a network.
pub record Inv (h : NetworkRecoveryHandler) : Type 0 where
  pub at_least_initial : h.initial_duration ≤ h.delayed_network_change_duration
  pub at_most_max : h.delayed_network_change_duration ≤ h.max_duration
  pub scheduled_with_network : h.send_delayed_network_change_at ≢ none → h.network_available ≡ true

pub new-Inv : (android network_available : Bool) → Inv (new android network_available)
unfolding new
new-Inv android network_available = ground arith

pub step-Inv : (h : NetworkRecoveryHandler) (c : Call) → Inv h → Inv (step h c)
unfolding step
step-Inv h (resumed now) v = ground arith
step-Inv h _ v = ground arith

pub run-Inv : (h : NetworkRecoveryHandler) (cs : List Call) → Inv h → Inv (run h cs)
unfolding run
run-Inv h [] v = v
run-Inv h (c ∷ cs) v = run-Inv (step h c) cs (step-Inv h c v)

-- Whatever the calls on a new handler: its delay is between the initial and the maximal one, and no
-- network change is scheduled while there is no network.
pub run-new-Inv :
    (android network_available : Bool) (cs : List Call)
    → Inv (run (new android network_available) cs)
run-new-Inv android network_available cs = run-Inv _ cs (new-Inv android network_available)

-- The number of delayed network changes sent since the last reset of the backoff.
abbrev pub retries_after : NetworkRecoveryHandler → Call → ℕ → ℕ
retries_after h (resumed now) n = if (on_resumed h now).1 then suc n else n
retries_after h connected n = 0
retries_after h (connectivity_changed event) n = 0
retries_after h _ n = n

pub retries : NetworkRecoveryHandler → List Call → ℕ → ℕ
retries h [] n = n
retries h (c ∷ cs) n = retries (step h c) cs (retries_after h c n)

backoff-suc : (i m n : ℕ) → min (min (i * 2 ^ n) m * 2) m ≡ min (i * 2 ^ suc n) m
backoff-suc i m n = rw pow-suc (omega arith)

step-backoff :
    (h : NetworkRecoveryHandler) (c : Call) (n i m : ℕ)
    → h.initial_duration ≡ i
    → h.max_duration ≡ m
    → i ≤ m
    → h.delayed_network_change_duration ≡ min (i * 2 ^ n) m
    → (step h c).delayed_network_change_duration ≡ min (i * 2 ^ retries_after h c n) m
unfolding step on_resumed
step-backoff h (resumed now) n i m hi hm le e = ground (arith, backoff-suc i m n)
step-backoff h connected n i m hi hm le e = ground (arith, pow-zero 2)
step-backoff h (connectivity_changed event) n i m hi hm le e = ground (arith, pow-zero 2)
step-backoff h _ n i m hi hm le e = ground arith

pub step-initial :
    (h : NetworkRecoveryHandler) (c : Call) → (step h c).initial_duration ≡ h.initial_duration
unfolding step
step-initial h (resumed now) = ground arith
step-initial h _ = ground arith

step-max : (h : NetworkRecoveryHandler) (c : Call) → (step h c).max_duration ≡ h.max_duration
unfolding step
step-max h (resumed now) = ground arith
step-max h _ = ground arith

run-backoff_from :
    (i m : ℕ) (h : NetworkRecoveryHandler) (cs : List Call) (n : ℕ)
    → h.initial_duration ≡ i
    → h.max_duration ≡ m
    → i ≤ m
    → h.delayed_network_change_duration ≡ min (i * 2 ^ n) m
    → (run h cs).delayed_network_change_duration ≡ min (i * 2 ^ retries h cs n) m
unfolding run retries
run-backoff_from i m h [] n hi hm le e = e
run-backoff_from i m h (c ∷ cs) n hi hm le e =
    run-backoff_from i m (step h c) cs (retries_after h c n) (step-initial h c ∙ hi)
      (step-max h c ∙ hm) le (step-backoff h c n i m hi hm le e)

-- After any calls on a new handler the delay is one second, doubled for each network change sent
-- since the backoff was last reset by a connection or a connectivity event, and cut at the maximum.
pub run-backoff :
    (android network_available : Bool) (cs : List Call)
    → let h = new android network_available in
      (run h cs).delayed_network_change_duration
      ≡ min (h.initial_duration * 2 ^ retries h cs 0) h.max_duration
unfolding new
run-backoff android network_available cs =
    run-backoff_from _ _ (new android network_available) cs 0 refl refl (ground arith)
      (ground (arith, pow-zero 2))

pub on_stream_error-network :
    (h : NetworkRecoveryHandler) (e : IoError) (now : ℕ)
    → (on_stream_error h e now).network_available ≡ h.network_available
unfolding on_stream_error
on_stream_error-network h e now = ground arith

pub socket_open-network :
    (h : NetworkRecoveryHandler)
    → (on_successful_socket_open h).network_available ≡ h.network_available
unfolding on_successful_socket_open
socket_open-network h = refl

pub on_connected-network :
    (h : NetworkRecoveryHandler) → (on_connected h).network_available ≡ h.network_available
unfolding on_connected
on_connected-network h = refl

pub on_resumed-network :
    (h : NetworkRecoveryHandler) (now : ℕ)
    → (on_resumed h now).0.network_available ≡ h.network_available
unfolding on_resumed
on_resumed-network h now = ground arith
