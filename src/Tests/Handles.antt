-- ===== src/Tests/Handles.antt =====
-- The theorem about the handle of a connection, tried on the small client.
use protun.Base.{ℕ, ◌≡◌, refl, true, none, some, List, [], ◌∷◌, ◌++◌}
use protun.Io.{ok}
use protun.Api.Config.{local_agent, down}
use protun.Connection.Ending.{IsEnded}
use mathlib.Core.List
use protun.Connection.State.{PvpnConnection}
use protun.Connection.Messages.{
  PvpnMessage, disconnect, connectivity_change, start_capture, request_stats,
}
use protun.Connection.Contract.Laws.{NoneLeftOpen, last_capture}
use protun.Connection.Handle.{
  Call, to_start_packet_capture, to_change_connectivity, to_request_stats, to_disconnect,
  all_called, called, Channel, channel_after, empty, PvpnDependencies, connection_thread, returned,
}
use protun.Connection.Handle.Joined.{IsDivided, message_of, disconnect_stops_thread}
use protun.Tests.{deps}
use protun.Tests.Connections.{phone, first_peer, capture_file, idle, round-Ends}

abbrev dependencies : PvpnDependencies deps
dependencies = record {
  config = record {
    peers = first_peer ∷ [];
    network_available = true;
    pcap_file = none;
    connection_mode = local_agent "app" "1.0" phone;
  };
  streams = tt;
  client = idle;
  disk = tt;
  realtime_clock = tt;
}

abbrev before : List Call
before = to_start_packet_capture capture_file ∷ to_change_connectivity down ∷ []

abbrev after : List Call
after = to_request_stats ∷ []

abbrev last_portion : List PvpnMessage
last_portion = connectivity_change down ∷ disconnect ∷ request_stats ∷ []

-- The first round reads one message, the second none, the third the rest.
abbrev portions : List (List PvpnMessage)
portions = (start_capture capture_file ∷ []) ∷ [] ∷ last_portion ∷ []

portions-IsDivided : IsDivided portions (List.map message_of (before ++ to_disconnect ∷ after))
portions-IsDivided = (last_portion, refl, (last_portion, refl, ([], refl, refl)))

disconnect_stops_thread_example :
    (ch : Channel) × (all_called (before ++ to_disconnect ∷ after) empty ≡ some ch)
    × IsDivided portions ch.messages
    × ((fuel : ℕ) × (c : PvpnConnection deps) × (connection_thread deps fuel
            (ok dependencies)
            portions
          ≡ some (returned c))
        × IsEnded deps c
        × NoneLeftOpen c.outputs
        × (last_capture c.outputs ≡ none)
        × (called to_disconnect
              (channel_after deps (connection_thread deps fuel (ok dependencies) portions) ch)
            ≡ none))
disconnect_stops_thread_example =
    disconnect_stops_thread deps round-Ends dependencies before after to_disconnect portions
      portions-IsDivided
