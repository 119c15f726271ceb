-- ===== src/Adapter.antt =====
-- connection/pvpn_client.rs: PvpnClientImpl, the client of the connection loop on top of the client of
-- the crate `pvpnclient`, which is a parameter. The client is built by the crate too; the error of a
-- push, which is only logged, and the identifier of a capture, which no caller uses, are left out.
pub mod Pending
use protun.Base.{ℕ, Bool, true, false, Option, none}
use protun.Io.{ErrorKind}
use protun.Client.Tunnel.{PeerAddr, Peer, TunnelInfo, TunnelStats, ActionKind}
use protun.Client.Agent.{LocalAgentMessage, LocalAgentAction, Settings}
use protun.Client.Interface.{StreamIds, PvpnClient, Action}
use protun.Convert.{error_kind_to_socket_err}

pub data Task : Type 0 where
  need_pull no_task : Task

abbrev pub is_need_pull : Task → Bool
is_need_pull Task.need_pull = true
is_need_pull Task.no_task = false

pub record PvpnReturn (A : Type 0) : Type 0 where
  pub value : A
  pub task : Task
  pub wakeup_deadline : Option ℕ

-- The client of the crate `pvpnclient`, and the factories of the two clocks.
pub record RawClient (ids : StreamIds) : Type 1 where
  pub Raw : Type 0
  pub Monotonic : Type 0
  pub Realtime : Type 0
  pub monotonic_now : Monotonic → Monotonic × ℕ
  pub realtime_now : Realtime → Realtime × ℕ
  pub set_time : Raw → ℕ → ℕ → Raw × PvpnReturn (Unit {0})
  pub add_peer : Raw → Peer → Raw × PvpnReturn (Unit {0})
  pub remove_peer : Raw → PeerAddr → Raw × PvpnReturn (Unit {0})
  pub pull : Raw → Raw × PvpnReturn (Option (Action ids))
  pub pull_local_agent : Raw → Raw × Option LocalAgentMessage
  pub push_local_agent : Raw → LocalAgentAction → Raw × PvpnReturn (Unit {0})
  pub push : Raw → Action ids → Raw × PvpnReturn (Unit {0})
  pub notify_network_change : Raw → Raw × PvpnReturn (Unit {0})
  pub tunnel_info : Raw → Raw × PvpnReturn (Option TunnelInfo)
  pub tunnel_stats : Raw → Raw × PvpnReturn (Option TunnelStats)
  pub set_settings : Raw → Settings → Raw × PvpnReturn (Unit {0})
  pub capture_packet : Raw → Raw × PvpnReturn (Unit {0})
  pub stop_capture_packet : Raw → Raw × PvpnReturn (Unit {0})

module _ (ids : StreamIds) (raw : RawClient ids) where
  pub record PvpnClientImpl : Type 0 where
    pub c : raw.Raw
    pub need_pull : Bool
    pub wakeup_deadline : Option ℕ
    pub monotonic_factory : raw.Monotonic
    pub realtime_factory : raw.Realtime

  unfoldable pub new : raw.Raw → raw.Monotonic → raw.Realtime → PvpnClientImpl
  new client monotonic realtime = record {
    c = client;
    need_pull = true;
    wakeup_deadline = none;
    monotonic_factory = monotonic;
    realtime_factory = realtime;
  }

  -- `handle_result`, with the client that the call left.
  unfoldable pub handle_result :
      {A : Type 0} → PvpnClientImpl → raw.Raw × PvpnReturn A → PvpnClientImpl
  handle_result p (client, result) = record p {
    c = client;
    need_pull = is_need_pull result.task;
    wakeup_deadline = result.wakeup_deadline;
  }

  unfoldable pub set_current_time : PvpnClientImpl → PvpnClientImpl × (ℕ × ℕ)
  unfolding handle_result
  set_current_time p =
      let (monotonic, monotonic_now) = raw.monotonic_now p.monotonic_factory in
      let (realtime, realtime_now) = raw.realtime_now p.realtime_factory in
      (
        handle_result (record p { monotonic_factory = monotonic; realtime_factory = realtime })
            (raw.set_time p.c monotonic_now realtime_now),
        (monotonic_now, realtime_now),
      )

  unfoldable pub peer_add : PvpnClientImpl → Peer → PvpnClientImpl
  unfolding handle_result
  peer_add p peer = handle_result p (raw.add_peer p.c peer)

  unfoldable pub peer_remove : PvpnClientImpl → PeerAddr → PvpnClientImpl
  unfolding handle_result
  peer_remove p addr = handle_result p (raw.remove_peer p.c addr)

  unfoldable pub pull : PvpnClientImpl → PvpnClientImpl × Option (Action ids)
  unfolding handle_result
  pull p = let r = raw.pull p.c in (handle_result p r, r.1.value)

  unfoldable pub pull_local_agent : PvpnClientImpl → PvpnClientImpl × Option LocalAgentMessage
  pull_local_agent p =
      let (client, message) = raw.pull_local_agent p.c in (record p { c = client }, message)

  unfoldable pub push_local_agent : PvpnClientImpl → LocalAgentAction → PvpnClientImpl
  unfolding handle_result
  push_local_agent p action = handle_result p (raw.push_local_agent p.c action)

  unfoldable pub push : PvpnClientImpl → Action ids → PvpnClientImpl
  unfolding handle_result
  push p action = handle_result p (raw.push p.c action)

  unfoldable pub push_error : PvpnClientImpl → ids.StreamId → ErrorKind → PvpnClientImpl
  unfolding push error_kind_to_socket_err
  push_error p id kind = push p (id, ActionKind.error (error_kind_to_socket_err kind))

  unfoldable pub notify_network_change : PvpnClientImpl → PvpnClientImpl
  unfolding handle_result
  notify_network_change p = handle_result p (raw.notify_network_change p.c)

  -- The library finds out from the errors of sockets.
  abbrev pub notify_network_down : PvpnClientImpl → PvpnClientImpl
  notify_network_down p = p

  unfoldable pub get_tunnel_info : PvpnClientImpl → PvpnClientImpl × Option TunnelInfo
  unfolding handle_result
  get_tunnel_info p = let r = raw.tunnel_info p.c in (handle_result p r, r.1.value)

  unfoldable pub get_stats : PvpnClientImpl → PvpnClientImpl × Option TunnelStats
  unfolding handle_result
  get_stats p = let r = raw.tunnel_stats p.c in (handle_result p r, r.1.value)

  unfoldable pub monotonic_now : PvpnClientImpl → PvpnClientImpl × ℕ
  monotonic_now p =
      let (monotonic, now) = raw.monotonic_now p.monotonic_factory in
      (record p { monotonic_factory = monotonic }, now)

  unfoldable pub set_settings : PvpnClientImpl → Settings → PvpnClientImpl
  unfolding handle_result
  set_settings p settings = handle_result p (raw.set_settings p.c settings)

  unfoldable pub set_packet_capture_enabled : PvpnClientImpl → Bool → PvpnClientImpl
  unfolding handle_result
  set_packet_capture_enabled p true = handle_result p (raw.capture_packet p.c)
  set_packet_capture_enabled p false = handle_result p (raw.stop_capture_packet p.c)

  -- The implementation of the trait.
  unfoldable pub implementation : PvpnClient ids
  unfolding set_current_time peer_add peer_remove pull push push_error get_tunnel_info
      notify_network_change get_stats monotonic_now set_packet_capture_enabled set_settings
      pull_local_agent push_local_agent
  implementation = record {
    Client = PvpnClientImpl;
    set_current_time = set_current_time;
    need_pull = λ p. p.need_pull;
    peer_add = peer_add;
    peer_remove = peer_remove;
    pull = pull;
    push = push;
    push_error = push_error;
    get_tunnel_info = get_tunnel_info;
    wakeup_deadline = λ p. p.wakeup_deadline;
    notify_network_change = notify_network_change;
    notify_network_down = notify_network_down;
    get_stats = get_stats;
    monotonic_now = monotonic_now;
    set_packet_capture_enabled = set_packet_capture_enabled;
    set_settings = set_settings;
    pull_local_agent = pull_local_agent;
    push_local_agent = push_local_agent;
  }
