-- ===== src/Connection/Guarantees.antt =====
-- What the loop of connection/pvpn_connection.rs guarantees to the application, in every state that it
-- reaches.
use protun.Base.{is_some, ℕ, ◌≡◌, sym, ◌∙◌, ap, true, false, Option, none, some, List, subst}
use protun.Base.Loop.{OnSome-some}
use protun.Api.LocalAgent.{LocalAgentSettings}
use protun.Peers.Unique.{IsUnique}
use protun.Connection.State.{Deps, PvpnConnection}
use protun.Connection.Messages.{PvpnMessage}
use protun.Connection.Run.{run}
use protun.Connection.Contract.{is_waiting}
use protun.Connection.Contract.Laws.{
  Inv, Steps-Inv, fresh-Inv, last_state, last_capture, IsNews, AreStopsRight, FitMode, Steps-agent,
  NoneLeftOpen, ended-NoneLeftOpen,
}
use protun.Connection.Refines.{view, file_of}
use protun.Connection.Reached.{Reached, reached_refines, run-Reached}
use protun.Connection.Ending.{IsEnded, run-IsEnded}
use mathlib.Core.Option

module _ (deps : Deps) (settings : Option LocalAgentSettings) where
  abbrev Conn : Type 0
  Conn = PvpnConnection deps

  abbrev Reach : Conn → Type 0
  Reach = Reached deps settings

  reached-Inv : (c : Conn) → Reach c → Inv (view deps c)
  reached-Inv c r = Steps-Inv (reached_refines deps settings c r) (fresh-Inv (is_some settings))

  -- The connection is in the state that it reported last (disconnected, if it reported none), and
  -- every state that it reports differs from the one it reported before.
  pub reports-IsNews :
      (c : Conn)
      → Reached deps settings c
      → (c.connection_state ≡ last_state c.outputs) × IsNews c.outputs
  reports-IsNews c r = (reached-Inv c r).0

  -- A packet capture runs exactly if the last event about captures says so, into the file that it
  -- says; and every event that a capture stopped names the file of the capture that was running, or
  -- says that it had already stopped if there was none.
  pub captures_reported :
      (c : Conn)
      → Reached deps settings c
      → (Option.map (file_of deps) c.pcap_stream ≡ last_capture c.outputs) × AreStopsRight c.outputs
  captures_reported c r = (reached-Inv c r).1

  -- As long as there is no network and the loop has not been told to stop, the connection is in the
  -- state of connecting that waits for the network.
  pub waits_without_network :
      (c : Conn)
      → Reached deps settings c
      → c.network_recovery_handler.network_available ≡ false
      → c.should_stop ≡ false
      → is_waiting c.connection_state ≡ true
  waits_without_network c r = (reached-Inv c r).4

  -- A connection has a handler for the local agent, and settings for it, exactly if it was started
  -- with settings. With them every connected state that it reports has the agent's information;
  -- without them none has, and it never waits for the agent.
  pub mode_kept :
      (c : Conn)
      → Reached deps settings c
      → (is_some c.local_agent_handler ≡ is_some settings)
        × (is_some c.local_agent_settings ≡ is_some settings)
        × FitMode (is_some settings) c.outputs
  mode_kept c r =
      let (modes, settings_with_agent) = (reached-Inv c r).2 in
      let same = Steps-agent (reached_refines deps settings c r) in
      (same, sym settings_with_agent ∙ same, subst (λ b. FitMode b c.outputs) same modes)

  -- No two peers of the connection have one address.
  pub peers-IsUnique : (c : Conn) → Reached deps settings c → IsUnique c.peers
  peers-IsUnique c r = (reached-Inv c r).3

  -- A run that returns leaves the connection disconnected, with no packet capture. The state that was
  -- reported last, if any was reported, is the disconnected one; and if it was reported that a capture
  -- started, it was reported after that that it stopped.
  pub run_disconnects :
      (fuel : ℕ) (rounds : List (List PvpnMessage)) (c d : Conn)
      → Reached deps settings c
      → run deps fuel c rounds ≡ some d
      → IsEnded deps d × NoneLeftOpen d.outputs × (last_capture d.outputs ≡ none)
  run_disconnects fuel rounds c d r e =
      let h = reached-Inv d (run-Reached deps settings fuel rounds c d r e) in
      let ended =
        OnSome-some (IsEnded deps) (run deps fuel c rounds) e (run-IsEnded deps fuel rounds c) in
      (
        ended,
        ended-NoneLeftOpen ended.0.0 d.outputs (sym h.0.0 ∙ ended.0.1),
        sym h.1.0 ∙ ap (Option.map (file_of deps)) ended.1,
      )
