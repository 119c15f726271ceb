-- ===== src/Connection/Ending.antt =====
-- connection/pvpn_connection.rs: how `run` ends.
use protun.Base.{
  subst, ap, ◌∙◌, ◌+◌, ℕ, ◌≡◌, refl, sym, true, false, Option, none, some, List, [], ◌∷◌, ◌++◌,
  if_elim, ite_elim,
}
use protun.Base.Loop.{◌>>=◌, OnSome, bind_known}
use protun.Api.Config.{PcapFileInfo}
use protun.Api.State.{ConnectionState, ConnectionState-discrete, DisconnectReason}
use protun.Api.Events
use protun.Pcap.{PcapStream}
use protun.Connection.State.{
  Deps, PvpnConnection, set_state, emit_event, stop_packet_capture, stopped,
}
use protun.Connection.Messages.{PvpnMessage, disconnect, handle_messages, handle_message}
use protun.Base.Fuel.{Ends}
use protun.Connection.Fuel.{run_round-Extends, run-Extends}
use native.Mathlib.Nat.{add_comm}
use protun.Connection.Run.{run, run_round, on_connection_loop_end, capture_ended, state_ended}

module _ (deps : Deps) where
  abbrev Conn : Type 0
  Conn = PvpnConnection deps

  abbrev pub IsEnded : Conn → Type 0
  IsEnded c =
      ((reason : Option DisconnectReason) × (c.connection_state
          ≡ ConnectionState.disconnected reason))
      × (c.pcap_stream ≡ none)

  stopped-pcap_stream :
      (c : Conn) (reason : PcapFileInfo → Events.CaptureStopReason)
      (o : Option (PcapStream deps.files))
      → c.pcap_stream ≡ o
      → (stopped deps c reason o).pcap_stream ≡ none
  unfolding stopped emit_event
  stopped-pcap_stream c reason none e = e
  stopped-pcap_stream c reason (some s) e = refl

  capture_ended-pcap_stream :
      (c : Conn) (o : Option (PcapStream deps.files))
      → c.pcap_stream ≡ o
      → (capture_ended deps c o).pcap_stream ≡ none
  unfolding capture_ended stop_packet_capture
  capture_ended-pcap_stream c none e = e
  capture_ended-pcap_stream c (some s) e =
      stopped-pcap_stream
        (record c { client = deps.client.set_packet_capture_enabled c.client false })
        Events.disconnected c.pcap_stream refl

  set_state-IsEnded :
      (c : Conn)
      → c.pcap_stream ≡ none
      → IsEnded (set_state deps c (ConnectionState.disconnected none))
  unfolding set_state
  set_state-IsEnded c e =
      ite_elim IsEnded
        (ConnectionState-discrete (ConnectionState.disconnected none) c.connection_state)
        (λ same. ((none, sym same), e)) (λ new. ((none, refl), e))

  state_ended-IsEnded :
      (c : Conn) (s : ConnectionState)
      → c.connection_state ≡ s
      → c.pcap_stream ≡ none
      → IsEnded (state_ended deps c s)
  unfolding state_ended
  state_ended-IsEnded c (ConnectionState.disconnected reason) same e = ((reason, same), e)
  state_ended-IsEnded c (ConnectionState.connecting peers reasons) same e = set_state-IsEnded c e
  state_ended-IsEnded c (ConnectionState.connecting_to_local_agent peer reason) same e =
      set_state-IsEnded c e
  state_ended-IsEnded c (ConnectionState.connected peer info) same e = set_state-IsEnded c e

  on_connection_loop_end-IsEnded : (c : Conn) → IsEnded (on_connection_loop_end deps c)
  unfolding on_connection_loop_end
  on_connection_loop_end-IsEnded c =
      let c' = capture_ended deps c c.pcap_stream in
      state_ended-IsEnded c' c'.connection_state refl
        (capture_ended-pcap_stream c c.pcap_stream refl)

  pub run-IsEnded :
      (fuel : ℕ) (rounds : List (List PvpnMessage)) (c : Conn)
      → OnSome IsEnded (run deps fuel c rounds)
  unfolding run
  run-IsEnded fuel [] c = tt
  run-IsEnded fuel (ms ∷ rounds) c =
      let c' = handle_messages deps c ms in
      if_elim (OnSome IsEnded) c'.should_stop (λ stopping. on_connection_loop_end-IsEnded c')
        (λ running.
          bind_known IsEnded (run_round deps fuel c') (λ d. run deps fuel d rounds)
            (λ d e. run-IsEnded fuel rounds d))

  -- What comes after a disconnect among the messages is not read.
  pub disconnect_stops :
      (before after : List PvpnMessage) (c : Conn)
      → (handle_messages deps c (before ++ disconnect ∷ after)
          ≡ handle_messages deps c (before ++ disconnect ∷ []))
        × ((handle_messages deps c (before ++ disconnect ∷ after)).should_stop ≡ true)
  unfolding handle_messages handle_message
  disconnect_stops [] after c = (refl, refl)
  disconnect_stops (disconnect ∷ before) after c = (refl, refl)
  disconnect_stops (m ∷ before) after c = disconnect_stops before after (handle_message deps c m)

  -- If the inner loops of every round end on some fuel, then on some fuel the run ends, at the round in
  -- which a disconnect is among the messages at the latest.
  pub run-Ends :
      ((c : Conn) → (fuel : ℕ) × Ends (run_round deps fuel c))
      → (earlier : List (List PvpnMessage)) (before after : List PvpnMessage)
      → (later : List (List PvpnMessage)) (c : Conn)
      → (fuel : ℕ) × Ends (run deps fuel c (earlier ++ (before ++ disconnect ∷ after) ∷ later))
  unfolding run
  run-Ends rounds_end [] before after later c =
      (0, rw (disconnect_stops before after c).1 (_, refl))
  run-Ends rounds_end (ms ∷ earlier) before after later c =
      let c' = handle_messages deps c ms in
      let (f, (d, e)) = rounds_end c' in
      let (g, (r, p)) = run-Ends rounds_end earlier before after later d in
      let rounds = earlier ++ (before ++ disconnect ∷ after) ∷ later in
      (
        f + g,
        if_elim Ends c'.should_stop (λ stopping. (_, refl))
            (λ running. (
              r,
              ap (λ o. o >>= λ c''. run deps (f + g) c'' rounds) (run_round-Extends deps g f c' d e)
                  ∙ subst (λ n. run deps n d rounds ≡ some r) (add_comm g f)
                      (run-Extends deps f g rounds d r p),
            )),
      )
