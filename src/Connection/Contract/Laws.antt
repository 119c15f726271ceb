-- ===== src/Connection/Contract/Laws.antt =====
-- What follows from the contract of the connection loop, whatever the order of its steps.
use protun.Base.{
  ◌≡◌, ◌≢◌, refl, Bool, true, false, Option, none, some, List, [], ◌∷◌, sym, ap, ◌∙◌, subst, ◌⊎◌,
  inl, inr,
}
use protun.Peers.Unique.{IsUnique}
use protun.Api.Config.{PcapFileInfo}
use protun.Api.State.{fits_mode, ConnectionState, DisconnectReason, disconnected}
use protun.Api.Events.{is_capture, Event, packet_capture_started, packet_capture_stopped}
use protun.Connection.State.{Output, state_changed, event, cache_put}
use protun.Connection.Contract.{View, Step, Steps, start, ◌▸◌, is_waiting, IsReasonFor, fresh}

-- The state that was reported last, and the one that the loop starts in if there is none.
abbrev pub last_state : List Output → ConnectionState
last_state [] = disconnected none
last_state (state_changed s ∷ os) = s.connection_state
last_state (event e ∷ os) = last_state os
last_state (cache_put k bytes ∷ os) = last_state os

-- The state that was reported last, if any was.
abbrev pub reported_state : List Output → Option ConnectionState
reported_state [] = none
reported_state (state_changed s ∷ os) = some s.connection_state
reported_state (event e ∷ os) = reported_state os
reported_state (cache_put k bytes ∷ os) = reported_state os

-- No state was reported, or the one that was reported last is a disconnected one.
abbrev pub NoneLeftOpen : List Output → Type 0
NoneLeftOpen os =
    (reported_state os ≡ none)
    ⊎ ((reason : Option DisconnectReason) × (reported_state os ≡ some (disconnected reason)))

pub ended-NoneLeftOpen :
    (reason : Option DisconnectReason) (os : List Output)
    → last_state os ≡ disconnected reason
    → NoneLeftOpen os
ended-NoneLeftOpen reason [] e = inl refl
ended-NoneLeftOpen reason (state_changed s ∷ os) e = inr (reason, ap some e)
ended-NoneLeftOpen reason (event x ∷ os) e = ended-NoneLeftOpen reason os e
ended-NoneLeftOpen reason (cache_put k bytes ∷ os) e = ended-NoneLeftOpen reason os e

-- Every state that is reported differs from the one reported before it.
abbrev pub IsNews : List Output → Type 0
IsNews [] = Unit
IsNews (state_changed s ∷ os) = (s.connection_state ≢ last_state os) × IsNews os
IsNews (event e ∷ os) = IsNews os
IsNews (cache_put k bytes ∷ os) = IsNews os

-- The file of the capture that the last event about captures says is running.
abbrev pub last_capture : List Output → Option PcapFileInfo
last_capture [] = none
last_capture (event (packet_capture_started info) ∷ os) = some info
last_capture (event (packet_capture_stopped r) ∷ os) = none
last_capture (_ ∷ os) = last_capture os

-- Every report that a capture stopped names the file of the capture that was running.
abbrev pub AreStopsRight : List Output → Type 0
AreStopsRight [] = Unit
AreStopsRight (event (packet_capture_stopped r) ∷ os) =
    IsReasonFor (last_capture os) r × AreStopsRight os
AreStopsRight (_ ∷ os) = AreStopsRight os

abbrev pub FitMode : Bool → List Output → Type 0
FitMode agent [] = Unit
FitMode agent (state_changed s ∷ os) =
    (fits_mode agent s.connection_state ≡ true) × FitMode agent os
FitMode agent (event e ∷ os) = FitMode agent os
FitMode agent (cache_put k bytes ∷ os) = FitMode agent os

-- What the connection loop keeps, seen through its outputs.
abbrev pub Inv : View → Type 0
Inv v =
    ((v.state ≡ last_state v.outputs) × IsNews v.outputs)
    × ((v.capture ≡ last_capture v.outputs) × AreStopsRight v.outputs)
    × (FitMode v.agent v.outputs × (v.agent ≡ v.settings))
    × IsUnique v.peers
    × (v.network ≡ false → v.stopping ≡ false → is_waiting v.state ≡ true)

told-Inv :
    (v : View) (e : Event)
    → is_capture e ≡ false
    → Inv v
    → Inv (record v { outputs = event e ∷ v.outputs })
told-Inv v (Event.connection_stats s) n h = h
told-Inv v (Event.local_agent_stats s) n h = h
told-Inv v (Event.error e) n h = h
told-Inv v (packet_capture_started info) n h = cc
told-Inv v (packet_capture_stopped r) n h = cc

step-Inv : {v w : View} → Step v w → Inv v → Inv w
step-Inv (Step.reported i new fits waits) ((state, news), capture, (modes, settings), unique, old) =
    ((refl, ((λ e. new (e ∙ sym state)), news)), capture, ((fits, modes), settings), unique, waits)
step-Inv Step.network_up (states, capture, modes, unique, waits) =
    (states, capture, modes, unique, λ e. cc)
step-Inv (Step.network_down is_waiting) (states, capture, modes, unique, waits) =
    (states, capture, modes, unique, λ e r. is_waiting)
step-Inv (Step.capture_started info) (states, (capture, stops), modes, unique, waits) =
    (states, (refl, stops), modes, unique, waits)
step-Inv (Step.capture_stopped {r = reason} fits) (states, (capture, stops), modes, unique, waits) =
    (states, (refl, (subst (λ c. IsReasonFor c reason) capture fits, stops)), modes, unique, waits)
step-Inv (Step.told {e} no_capture) h = told-Inv _ e no_capture h
step-Inv (Step.cached k bytes) h = h
step-Inv (Step.peers_updated ps u) (states, capture, modes, unique, waits) =
    (states, capture, modes, u, waits)
step-Inv Step.stop_asked (states, capture, modes, unique, waits) =
    (states, capture, modes, unique, λ e r. cc)

pub Steps-Inv : {v w : View} → Steps v w → Inv v → Inv w
Steps-Inv start h = h
Steps-Inv (before ▸ last) h = step-Inv last (Steps-Inv before h)

pub fresh-Inv : (agent : Bool) → Inv (fresh agent)
fresh-Inv agent = ((refl, tt), (refl, tt), (tt, refl), tt, λ e. cc)

step-agent : {v w : View} → Step v w → w.agent ≡ v.agent
step-agent (Step.reported i new fits waits) = refl
step-agent Step.network_up = refl
step-agent (Step.network_down w) = refl
step-agent (Step.capture_started info) = refl
step-agent (Step.capture_stopped fits) = refl
step-agent (Step.told no_capture) = refl
step-agent (Step.cached k bytes) = refl
step-agent (Step.peers_updated ps u) = refl
step-agent Step.stop_asked = refl

pub Steps-agent : {v w : View} → Steps v w → w.agent ≡ v.agent
Steps-agent start = refl
Steps-agent (before ▸ last) = step-agent last ∙ Steps-agent before
