-- ===== src/Tests/Connections.antt =====
-- The theorems about the connection loop, tried on a small client.
use protun.Base.{
  is_some, ℕ, ℕ_discrete, suc, ◌≡◌, refl, true, false, Option, none, some, List, [], ◌∷◌, arith,
  ite_elim, length, ◌++◌,
}
use protun.Base.Fuel.{Ends}
use protun.Base.Loop.{loop, proceed, loop_ends, OnRoundOf}
use protun.Base.Int.{pos}
use protun.Io.{v4}
use protun.Api.Config.{PeerInfo, PcapFileInfo, PcapFile, overwrite, down}
use protun.Api.LocalAgent.{LocalAgentSettings, default_settings}
use protun.Connection.State.{
  PvpnConnection, set_state, network_unavailable_state, start_packet_capture,
}
use protun.Agent.{LocalAgentHandler}
use protun.Connection.Pull.{
  agent_round_for, agent_pulled, pulled, pull_round, agent_round, handle_action, pull_from_client,
}
use protun.Connection.Write.{handle_write}
use protun.Connection.Messages.{
  PvpnMessage, disconnect, connectivity_change, start_capture, handle_messages, handle_message,
  changed_network, on_connectivity_change, update_peers, add_new,
}
use protun.Connection.Read.{handle_poll_results, read_from_streams, read_round, poll_writes}
use protun.Connection.Run.{
  polled, initial, network_checked, new, run, run_round, update_state, poll_from_streams,
  on_connection_loop_end,
}
use protun.Connection.Reached.{Reached, reached_refines}
use protun.Recovery
use protun.Pcap
use protun.Api.State.{ConnectionState, ConnectionState-discrete}
use protun.Peers.Unique.{IsUnique}
use protun.Connection.Contract.{Steps, fresh, is_waiting}
use protun.Connection.Contract.Laws.{
  NoneLeftOpen, last_state, last_capture, IsNews, AreStopsRight, FitMode,
}
use protun.Connection.Refines.{view, file_of}
use protun.Connection.Guarantees.{
  reports-IsNews, captures_reported, waits_without_network, mode_kept, peers-IsUnique,
  run_disconnects,
}
use protun.Connection.Ending.{IsEnded, disconnect_stops}
use protun.Connection.PeerSync.{InSync, update_peers-InSync}
use mathlib.Core.Option
use protun.Tests.{Client, pop, deps, table}

abbrev pub phone : LocalAgentSettings
phone = default_settings

abbrev pub first_peer : PeerInfo
first_peer = record {
  peer_id = "a";
  server_ip = v4 1;
  server_public_key = 7 ∷ [];
  udp_ports = 51820 ∷ 0 ∷ [];
  tcp_ports = 443 ∷ [];
  tls_ports = [];
  priority = pos 1;
  exit_label = none;
}

abbrev pub capture_file : PcapFileInfo
capture_file = record { file = PcapFile.path "a.pcap" overwrite; max_bytes = some 3 }

abbrev pub idle : Client
idle = record { queue = 4 ∷ []; peers = []; info = none }

abbrev begun : PvpnConnection deps
begun = new deps idle tt tt tt true (first_peer ∷ first_peer ∷ []) none (some phone)

begun-Reached : Reached deps (some phone) begun
begun-Reached = Reached.begun idle tt tt tt true (first_peer ∷ first_peer ∷ []) none

abbrev first_messages : List PvpnMessage
first_messages = start_capture capture_file ∷ connectivity_change down ∷ []

abbrev offline : PvpnConnection deps
offline = handle_messages deps begun first_messages

offline-Reached : Reached deps (some phone) offline
offline-Reached = Reached.messages_handled first_messages begun-Reached

abbrev queue_length : PvpnConnection deps → ℕ
queue_length c = length c.client.queue

pulled-length :
    (c : PvpnConnection deps) (x : ℕ) (xs : List ℕ)
    → queue_length (pulled deps c (pop (record c.client { queue = x ∷ xs }) (x ∷ xs))) ≡ length xs
unfolding pulled handle_action handle_write ℕ_discrete
pulled-length c x xs = refl

queue_falls_from :
    (c : PvpnConnection deps) (queue : List ℕ)
    → OnRoundOf queue_length
        (length queue)
        (pull_round deps (record c { client = record c.client { queue = queue } }))
unfolding pull_round
queue_falls_from c [] = tt
queue_falls_from c (x ∷ xs) =
    omega (arith, pulled-length (record c { client = record c.client { queue = x ∷ xs } }) x xs)

agent-Ends_from :
    (n : ℕ) (c : PvpnConnection deps) (o : Option LocalAgentHandler)
    → Ends (proceed (loop (agent_round deps) n) (some (agent_round_for deps c o)))
unfolding agent_round_for agent_pulled
agent-Ends_from n c none = (c, refl)
agent-Ends_from n c (some h) = (c, refl)

agent-Ends : (n : ℕ) (c : PvpnConnection deps) → Ends (loop (agent_round deps) (suc n) c)
unfolding loop agent_round
agent-Ends n c = agent-Ends_from n c c.local_agent_handler

poll-Ends : (n : ℕ) (c : PvpnConnection deps) → Ends (poll_from_streams deps (suc n) c)
unfolding poll_from_streams polled handle_poll_results read_from_streams read_round loop poll_writes
poll-Ends n c = (_, refl)

pub round-Ends : (c : PvpnConnection deps) → (fuel : ℕ) × Ends (run_round deps fuel c)
unfolding run_round pull_from_client
round-Ends c =
    let n = length c.client.queue in
    let (d, e) =
      loop_ends (pull_round deps) queue_length (λ c. queue_falls_from c c.client.queue) (suc n) c
        (omega arith) in
    let (a, f) = agent-Ends n d in (suc n, rw (e, f) (poll-Ends n (update_state deps a)))

reached_refines_example : Steps (fresh true) (view deps offline)
reached_refines_example = reached_refines deps (some phone) offline offline-Reached

reports-IsNews_example :
    (offline.connection_state ≡ last_state offline.outputs) × IsNews offline.outputs
reports-IsNews_example = reports-IsNews deps (some phone) offline offline-Reached

captures_reported_example :
    (Option.map (file_of deps) offline.pcap_stream ≡ last_capture offline.outputs)
    × AreStopsRight offline.outputs
captures_reported_example = captures_reported deps (some phone) offline offline-Reached

abbrev waiting_now : ConnectionState
waiting_now = network_unavailable_state deps none

down_network :
    (c : PvpnConnection deps)
    → ((set_state deps c waiting_now).network_recovery_handler.network_available
        ≡ c.network_recovery_handler.network_available)
      × ((set_state deps c waiting_now).should_stop ≡ c.should_stop)
unfolding set_state
down_network c =
    ite_elim
      (λ (d : PvpnConnection deps).
        (d.network_recovery_handler.network_available
          ≡ c.network_recovery_handler.network_available)
        × (d.should_stop ≡ c.should_stop))
      (ConnectionState-discrete waiting_now c.connection_state) (λ e. (refl, refl))
      (λ n. (refl, refl))

abbrev capturing : PvpnConnection deps
capturing = handle_message deps begun (start_capture capture_file)

abbrev told : PvpnConnection deps
told = record capturing {
  network_recovery_handler =
      Recovery.on_connectivity_change capturing.network_recovery_handler down;
}

offline_network : offline.network_recovery_handler.network_available ≡ false
unfolding handle_messages handle_message changed_network on_connectivity_change
    Recovery.on_connectivity_change Pcap.new new
offline_network = (down_network told).0

offline_running : offline.should_stop ≡ false
unfolding handle_messages handle_message changed_network on_connectivity_change
    Recovery.on_connectivity_change start_packet_capture new initial network_checked Recovery.new
    Pcap.new
offline_running = (down_network told).1

waits_without_network_example : is_waiting offline.connection_state ≡ true
waits_without_network_example =
    waits_without_network deps (some phone) offline offline-Reached offline_network offline_running

mode_kept_example :
    (is_some offline.local_agent_handler ≡ true)
    × (is_some offline.local_agent_settings ≡ true)
    × FitMode true offline.outputs
mode_kept_example = mode_kept deps (some phone) offline offline-Reached

peers-IsUnique_example : IsUnique offline.peers
peers-IsUnique_example = peers-IsUnique deps (some phone) offline offline-Reached

abbrev ended : PvpnConnection deps
ended = on_connection_loop_end deps (handle_messages deps begun (first_messages ++ disconnect ∷ []))

ended-run : run deps 1 begun ((first_messages ++ disconnect ∷ []) ∷ []) ≡ some ended
unfolding run
ended-run = rw (disconnect_stops deps first_messages [] begun).1 refl

run_disconnects_example :
    IsEnded deps ended × NoneLeftOpen ended.outputs × (last_capture ended.outputs ≡ none)
run_disconnects_example =
    run_disconnects deps (some phone) 1 ((first_messages ++ disconnect ∷ []) ∷ []) begun ended
      begun-Reached ended-run

abbrev second_peer : PeerInfo
second_peer = record first_peer { server_ip = v4 2; peer_id = "b" }

abbrev synced : PvpnConnection deps
synced = record begun { client = add_new deps [] (first_peer ∷ []) idle; peers = first_peer ∷ [] }

synced-InSync : InSync deps table synced.peers synced.client
unfolding add_new
synced-InSync a = ground arith

update_peers-InSync_example :
    InSync deps table (second_peer ∷ []) (update_peers deps synced (second_peer ∷ [])).client
    × ((update_peers deps synced (second_peer ∷ [])).peers ≡ second_peer ∷ [])
update_peers-InSync_example =
    update_peers-InSync deps table synced (second_peer ∷ []) (refl, tt) (refl, tt) synced-InSync
