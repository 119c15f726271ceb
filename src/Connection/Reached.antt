-- ===== src/Connection/Reached.antt =====
-- The states that the loop of connection/pvpn_connection.rs reaches, from its start to its end.
use protun.Base.{is_some, ℕ, ◌≡◌, Bool, true, Option, some, List, [], ◌∷◌, if_elim}
use protun.Base.Loop.{OnSome, OnSome-some, bind_known}
use protun.Api.Config.{PeerInfo, PcapFileInfo}
use protun.Api.LocalAgent.{LocalAgentSettings}
use protun.Connection.State.{Deps, PvpnConnection}
use protun.Connection.Messages.{PvpnMessage, handle_messages}
use protun.Connection.Run.{new, run, run_round, on_connection_loop_end}
use protun.Connection.Contract.{Steps, fresh}
use protun.Connection.Refines.{view}
use protun.Connection.Refines.Messages.{handle_messages-Allowed}
use protun.Connection.Refines.Whole.{new-Allowed, run_round-Allowed, on_connection_loop_end-Allowed}

-- The states between two parts of the loop's body, after the start with `settings`.
pub data Reached (deps : Deps) (settings : Option LocalAgentSettings)
    : PvpnConnection deps → Type 0 where
  begun :
      (client : deps.client.Client) (streams : deps.streams.Table) (disk : deps.files.Disk)
      (clock : deps.Clock) (network_available : Bool) (peers : List PeerInfo)
      (pcap_file : Option PcapFileInfo)
      → Reached deps settings
          (new deps client streams disk clock network_available peers pcap_file settings)
  messages_handled :
      {c : PvpnConnection deps} (ms : List PvpnMessage)
      → Reached deps settings c
      → Reached deps settings (handle_messages deps c ms)
  round_done :
      {c d : PvpnConnection deps} (fuel : ℕ)
      → Reached deps settings c
      → run_round deps fuel c ≡ some d
      → Reached deps settings d
  loop_ended :
      {c : PvpnConnection deps}
      → Reached deps settings c
      → c.should_stop ≡ true
      → Reached deps settings (on_connection_loop_end deps c)

module _ (deps : Deps) (settings : Option LocalAgentSettings) where
  abbrev Conn : Type 0
  Conn = PvpnConnection deps

  -- In whatever order messages come and the client, the streams and the files answer: all that the
  -- connection has reported, and the state that it is in, is a sequence of steps of the contract.
  pub reached_refines :
      (c : Conn) → Reached deps settings c → Steps (fresh (is_some settings)) (view deps c)
  reached_refines _ (Reached.begun client streams disk clock network_available peers pcap_file) =
      new-Allowed deps client streams disk clock network_available peers pcap_file settings
  reached_refines _ (Reached.messages_handled ms r) =
      handle_messages-Allowed deps _ ms _ (reached_refines _ r)
  reached_refines _ (Reached.round_done {c} {d} fuel r e) =
      OnSome-some (λ d. Steps (fresh (is_some settings)) (view deps d)) (run_round deps fuel c) e
        (run_round-Allowed deps _ fuel c (reached_refines c r))
  reached_refines _ (Reached.loop_ended r stopping) =
      on_connection_loop_end-Allowed deps _ _ stopping (reached_refines _ r)

  run-OnReached :
      (fuel : ℕ) (rounds : List (List PvpnMessage)) (c : Conn)
      → Reached deps settings c
      → OnSome (Reached deps settings) (run deps fuel c rounds)
  unfolding run
  run-OnReached fuel [] c r = tt
  run-OnReached fuel (ms ∷ rounds) c r =
      let c' = handle_messages deps c ms in
      if_elim (OnSome (Reached deps settings)) c'.should_stop
        (λ stopping. Reached.loop_ended (Reached.messages_handled ms r) stopping)
        (λ running.
          bind_known (Reached deps settings) (run_round deps fuel c') (λ d. run deps fuel d rounds)
            (λ d e.
              run-OnReached fuel rounds d
                (Reached.round_done fuel (Reached.messages_handled ms r) e)))

  -- The state that `run` ends in is one of them.
  pub run-Reached :
      (fuel : ℕ) (rounds : List (List PvpnMessage)) (c d : Conn)
      → Reached deps settings c
      → run deps fuel c rounds ≡ some d
      → Reached deps settings d
  run-Reached fuel rounds c d r e =
      OnSome-some (Reached deps settings) (run deps fuel c rounds) e (run-OnReached fuel rounds c r)
