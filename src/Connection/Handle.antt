-- ===== src/Connection/Handle.antt =====
-- api/connection.rs and pvpn_connection.rs: the handle that the application holds, the channel from it to
-- the loop, and the thread of the loop.
pub mod Joined
use protun.Base.Loop.{◌>>=◌}
use protun.Base.{if◌then◌else◌, true, false, ℕ, suc, Bool, Option, none, some, List, [], ◌∷◌, ◌++◌}
use protun.Io.{IoError, IoResult, ok, err}
use protun.Api.Config.{
  PeerInfo, ConfigUpdate, ConnectivityEvent, PcapFileInfo, ForkSelectorInfo, ConnectionMode,
  no_local_agent, local_agent, InitialConnectionConfig,
}
use protun.Api.LocalAgent.{LocalAgentSettings}
use protun.Connection.State.{Deps, PvpnConnection}
use protun.Connection.Messages
use protun.Connection.Messages.{PvpnMessage}
use protun.Connection.Run.{new, run}

-- The messages that were sent, in order, how often the poll was woken, and whether the loop still has the
-- receiver.
pub record Channel : Type 0 where
  pub messages : List PvpnMessage
  pub wakes : ℕ
  pub has_receiver : Bool

abbrev pub empty : Channel
empty = record { messages = []; wakes = 0; has_receiver = true }

-- The receiver is dropped.
abbrev pub receiver_dropped : Channel → Channel
receiver_dropped ch = record ch { has_receiver = false }

-- It is `none` where the `unwrap` panics, which ends the program: the receiver is gone.
unfoldable pub send_msg : PvpnMessage → Channel → Option Channel
send_msg m ch =
    if ch.has_receiver
    then some (record ch { messages = ch.messages ++ m ∷ []; wakes = suc ch.wakes })
    else none

-- The methods of `Connection`, named as there.
unfoldable pub update : ConfigUpdate → Channel → Option Channel
unfolding send_msg
update u = send_msg (PvpnMessage.update u)

unfoldable pub update_peers : List PeerInfo → Channel → Option Channel
unfolding update
update_peers peers = update (record { peers = some peers; settings = none; tun = none })

unfoldable pub on_connectivity_change : ConnectivityEvent → Channel → Option Channel
unfolding send_msg
on_connectivity_change event = send_msg (PvpnMessage.connectivity_change event)

unfoldable pub disconnect : Channel → Option Channel
unfolding send_msg
disconnect = send_msg PvpnMessage.disconnect

unfoldable pub start_packet_capture : PcapFileInfo → Channel → Option Channel
unfolding send_msg
start_packet_capture file = send_msg (PvpnMessage.start_capture file)

unfoldable pub stop_packet_capture : Channel → Option Channel
unfolding send_msg
stop_packet_capture = send_msg PvpnMessage.stop_capture

unfoldable pub request_stats : Channel → Option Channel
unfolding send_msg
request_stats = send_msg PvpnMessage.request_stats

unfoldable pub update_local_agent_settings : LocalAgentSettings → Channel → Option Channel
unfolding update
update_local_agent_settings settings =
    update (record { peers = none; settings = some settings; tun = none })

unfoldable pub request_local_agent_stats : Channel → Option Channel
unfolding send_msg
request_local_agent_stats = send_msg PvpnMessage.request_local_agent_stats

unfoldable pub provide_api_fork_selector : ForkSelectorInfo → Channel → Option Channel
unfolding send_msg
provide_api_fork_selector info = send_msg (PvpnMessage.provide_api_fork_selector info)

-- A call of a method.
pub data Call : Type 0 where
  to_update : ConfigUpdate → Call
  to_update_peers : List PeerInfo → Call
  to_change_connectivity : ConnectivityEvent → Call
  to_disconnect : Call
  to_start_packet_capture : PcapFileInfo → Call
  to_stop_packet_capture : Call
  to_request_stats : Call
  to_update_local_agent_settings : LocalAgentSettings → Call
  to_request_local_agent_stats : Call
  to_provide_api_fork_selector : ForkSelectorInfo → Call

unfoldable pub called : Call → Channel → Option Channel
unfolding update update_peers on_connectivity_change disconnect start_packet_capture
    stop_packet_capture request_stats update_local_agent_settings request_local_agent_stats
    provide_api_fork_selector
called (to_update u) = update u
called (to_update_peers peers) = update_peers peers
called (to_change_connectivity event) = on_connectivity_change event
called to_disconnect = disconnect
called (to_start_packet_capture file) = start_packet_capture file
called to_stop_packet_capture = stop_packet_capture
called to_request_stats = request_stats
called (to_update_local_agent_settings settings) = update_local_agent_settings settings
called to_request_local_agent_stats = request_local_agent_stats
called (to_provide_api_fork_selector info) = provide_api_fork_selector info

unfoldable pub all_called : List Call → Channel → Option Channel
unfolding called
all_called [] ch = some ch
all_called (x ∷ xs) ch = called x ch >>= all_called xs

module _ (deps : Deps) where
  -- `PvpnDependencies`, less what is in `Deps`.
  pub record PvpnDependencies : Type 0 where
    pub config : InitialConnectionConfig
    pub streams : deps.streams.Table
    pub client : deps.client.Client
    pub disk : deps.files.Disk
    pub realtime_clock : deps.Clock

  unfoldable pub agent_settings : ConnectionMode → Option LocalAgentSettings
  agent_settings (no_local_agent key) = none
  agent_settings (local_agent user_agent app_version settings) = some settings

  unfoldable pub begun : PvpnDependencies → PvpnConnection deps
  unfolding agent_settings new
  begun d =
      new deps d.client d.streams d.disk d.realtime_clock d.config.network_available d.config.peers
        d.config.pcap_file (agent_settings d.config.connection_mode)

  -- How the thread ends: it made no connection, or the loop has returned. It is `none` on too little fuel,
  -- or while no disconnect has come.
  pub data ThreadEnd : Type 0 where
    not_created : IoError → ThreadEnd
    returned : PvpnConnection deps → ThreadEnd

  -- The channel after the thread: its end drops the connection, with the receiver.
  abbrev pub channel_after : Option ThreadEnd → Channel → Channel
  channel_after none ch = ch
  channel_after (some thread_end) ch = receiver_dropped ch

  abbrev pub as_end : Option (PvpnConnection deps) → Option ThreadEnd
  as_end none = none
  as_end (some c) = some (returned c)

  -- The thread of `start_pvpn_connection`, with the messages that wait at each round of the loop.
  unfoldable pub connection_thread :
      ℕ → IoResult PvpnDependencies → List (List PvpnMessage) → Option ThreadEnd
  unfolding begun run
  connection_thread fuel (err e) rounds = some (not_created e)
  connection_thread fuel (ok d) rounds = as_end (run deps fuel (begun d) rounds)
