-- ===== src/Agent/Reports.antt =====
-- connection/local_agent_handler.rs: what the reported information can hold, and what is reported as
-- an event.
use protun.Base.{◌≡◌, ◌≢◌, ◌↔◌, refl, false, none, some, List, [], ◌∷◌, arith}
use protun.Api.LocalAgent.{AgentConnectionInfo}
use protun.Api.Events.{is_capture, error, api_session_expired}
use protun.Client.Agent.{LocalAgentMessage, LocalAgentValue, LocalAgentError}
use protun.Base.Loop.{OnSome}
use protun.Agent.{
  LocalAgentHandler, Call, peer_connected, message, new, handle_value, handle_error, handle_message,
  step, run,
}

-- The fields of the information that no message fills.
pub record IsUnfilled (i : AgentConnectionInfo) : Type 0 where
  pub no_restrictions : i.restrictions ≡ []
  pub no_isp_name : i.user_isp_name ≡ none
  pub no_isp_coordinates : i.user_isp_coordinates ≡ none

handle_value-IsUnfilled :
    (h : LocalAgentHandler) (v : LocalAgentValue)
    → IsUnfilled h.agent_info
    → IsUnfilled (handle_value h v).0.agent_info
unfolding handle_value
handle_value-IsUnfilled h (LocalAgentValue.info_established ts) u = ground arith
handle_value-IsUnfilled h _ u = ground arith

step-IsUnfilled :
    (h : LocalAgentHandler) (c : Call) → IsUnfilled h.agent_info → IsUnfilled (step h c).agent_info
unfolding step
step-IsUnfilled h (peer_connected peer) u = ground arith
step-IsUnfilled h (message (LocalAgentMessage.value v)) u = handle_value-IsUnfilled h v u
step-IsUnfilled h (message (LocalAgentMessage.error e)) u = u
step-IsUnfilled h (message LocalAgentMessage.muon_fork_selector_needed) u = u
step-IsUnfilled h (message LocalAgentMessage.local_agent_connected) u = u

run-IsUnfilled :
    (h : LocalAgentHandler) (cs : List Call)
    → IsUnfilled h.agent_info
    → IsUnfilled (run h cs).agent_info
unfolding run
run-IsUnfilled h [] u = u
run-IsUnfilled h (c ∷ cs) u = run-IsUnfilled (step h c) cs (step-IsUnfilled h c u)

-- Whatever peers and messages a handler has seen, the information that it reports names no
-- restriction, no provider and no coordinates: restrictions go to a field that is never read.
pub reported_info-IsUnfilled : (cs : List Call) → IsUnfilled (run new cs).agent_info
unfolding new
reported_info-IsUnfilled cs =
    run-IsUnfilled new cs
      (record { no_restrictions = refl; no_isp_name = refl; no_isp_coordinates = refl })

-- The agent asks for a new fork of the session, or refuses the one it has.
abbrev pub IsRejected : LocalAgentMessage → Type 0
IsRejected LocalAgentMessage.muon_fork_selector_needed = Unit
IsRejected (LocalAgentMessage.error (LocalAgentError.muon_auth e)) = Unit
IsRejected _ = ⊥

value_reports_no_error :
    (h : LocalAgentHandler) (v : LocalAgentValue)
    → (handle_value h v).1 ≢ some (error api_session_expired)
unfolding handle_value
value_reports_no_error h (LocalAgentValue.info_established ts) = ground arith
value_reports_no_error h _ = ground arith

-- The client is told that its session has expired exactly on a message that wants a fork selector or
-- says that the authentication failed, and such a message leaves the handler as it was.
pub session_expired_iff :
    (h : LocalAgentHandler) (m : LocalAgentMessage)
    → (((handle_message h m).1 ≡ some (error api_session_expired)) ↔ IsRejected m)
      × (IsRejected m → (handle_message h m).0 ≡ h)
unfolding handle_message
session_expired_iff h (LocalAgentMessage.value v) =
    (((λ e. value_reports_no_error h v e), λ r. absurd r), λ r. absurd r)
session_expired_iff h (LocalAgentMessage.error (LocalAgentError.muon_auth e)) =
    (((λ e. tt), λ r. refl), λ r. refl)
session_expired_iff h (LocalAgentMessage.error (LocalAgentError.muon_error_on_cert_refresh e)) =
    (((λ e. cc), λ r. absurd r), λ r. absurd r)
session_expired_iff h (LocalAgentMessage.error LocalAgentError.too_many_tries_on_cert_refresh) =
    (((λ e. cc), λ r. absurd r), λ r. absurd r)
session_expired_iff h (LocalAgentMessage.error (LocalAgentError.server_error e)) =
    (((λ e'. ground arith), λ r. absurd r), λ r. absurd r)
session_expired_iff h LocalAgentMessage.muon_fork_selector_needed =
    (((λ e. tt), λ r. refl), λ r. refl)
session_expired_iff h LocalAgentMessage.local_agent_connected =
    (((λ e. cc), λ r. absurd r), λ r. absurd r)

handle_error-no_capture :
    (e : LocalAgentError) → OnSome (λ e. is_capture e ≡ false) (handle_error e)
unfolding handle_error
handle_error-no_capture e = ground arith

handle_value-no_capture :
    (h : LocalAgentHandler) (v : LocalAgentValue)
    → OnSome (λ e. is_capture e ≡ false) (handle_value h v).1
unfolding handle_value
handle_value-no_capture h v = ground arith

-- No message of the local agent gives an event about packet captures.
pub handle_message-no_capture :
    (h : LocalAgentHandler) (m : LocalAgentMessage)
    → OnSome (λ e. is_capture e ≡ false) (handle_message h m).1
unfolding handle_message
handle_message-no_capture h (LocalAgentMessage.value v) = handle_value-no_capture h v
handle_message-no_capture h (LocalAgentMessage.error e) = handle_error-no_capture e
handle_message-no_capture h LocalAgentMessage.muon_fork_selector_needed = refl
handle_message-no_capture h LocalAgentMessage.local_agent_connected = tt
