-- ===== src/Adapter/Pending.antt =====
-- connection/pvpn_client.rs: no action of the library is left behind.
use protun.Base.{ℕ, Bool, true, false, ◌≡◌, refl, sym, ◌∙◌}
use protun.Io.{ErrorKind}
use protun.Client.Tunnel.{PeerAddr, Peer}
use protun.Client.Agent.{LocalAgentAction, Settings}
use protun.Client.Interface.{StreamIds, Action}
use protun.Adapter.{
  RawClient, PvpnReturn, PvpnClientImpl, is_need_pull, new, handle_result, set_current_time,
  peer_add, peer_remove, pull, pull_local_agent, push_local_agent, push, push_error,
  notify_network_change, get_tunnel_info, get_stats, monotonic_now, set_settings,
  set_packet_capture_enabled,
}

module _ (ids : StreamIds) (raw : RawClient ids) where
  -- The call tells by its task whether the client it leaves has an action to be pulled.
  abbrev pub Tells : (raw.Raw → Bool) → {A : Type 0} → raw.Raw × PvpnReturn A → Type 0
  Tells has_action (client, result) = is_need_pull result.task ≡ has_action client

  -- A library that tells so with each result, and for which to pull a message of the local agent changes
  -- no action.
  pub record TellsPending : Type 0 where
    pub has_action : raw.Raw → Bool
    pub set_time_lem : (c : raw.Raw) (m r : ℕ) → Tells has_action (raw.set_time c m r)
    pub add_peer_lem : (c : raw.Raw) (peer : Peer) → Tells has_action (raw.add_peer c peer)
    pub remove_peer_lem :
        (c : raw.Raw) (addr : PeerAddr) → Tells has_action (raw.remove_peer c addr)
    pub pull_lem : (c : raw.Raw) → Tells has_action (raw.pull c)
    pub pull_local_agent_lem : (c : raw.Raw) → has_action (raw.pull_local_agent c).0 ≡ has_action c
    pub push_local_agent_lem :
        (c : raw.Raw) (action : LocalAgentAction) → Tells has_action (raw.push_local_agent c action)
    pub push_lem : (c : raw.Raw) (action : Action ids) → Tells has_action (raw.push c action)
    pub notify_network_change_lem : (c : raw.Raw) → Tells has_action (raw.notify_network_change c)
    pub tunnel_info_lem : (c : raw.Raw) → Tells has_action (raw.tunnel_info c)
    pub tunnel_stats_lem : (c : raw.Raw) → Tells has_action (raw.tunnel_stats c)
    pub set_settings_lem :
        (c : raw.Raw) (settings : Settings) → Tells has_action (raw.set_settings c settings)
    pub capture_packet_lem : (c : raw.Raw) → Tells has_action (raw.capture_packet c)
    pub stop_capture_packet_lem : (c : raw.Raw) → Tells has_action (raw.stop_capture_packet c)

  abbrev Impl : Type 0
  Impl = PvpnClientImpl ids raw

  -- The clients that calls of the trait's methods reach.
  pub data Reached : Impl → Type 0 where
    created : (c : raw.Raw) (m : raw.Monotonic) (r : raw.Realtime) → Reached (new ids raw c m r)
    set_current_time_step : (p : Impl) → Reached p → Reached (set_current_time ids raw p).0
    peer_add_step : (p : Impl) (peer : Peer) → Reached p → Reached (peer_add ids raw p peer)
    peer_remove_step :
        (p : Impl) (addr : PeerAddr) → Reached p → Reached (peer_remove ids raw p addr)
    pull_step : (p : Impl) → Reached p → Reached (pull ids raw p).0
    pull_local_agent_step : (p : Impl) → Reached p → Reached (pull_local_agent ids raw p).0
    push_local_agent_step :
        (p : Impl) (action : LocalAgentAction)
        → Reached p
        → Reached (push_local_agent ids raw p action)
    push_step : (p : Impl) (action : Action ids) → Reached p → Reached (push ids raw p action)
    push_error_step :
        (p : Impl) (id : ids.StreamId) (kind : ErrorKind)
        → Reached p
        → Reached (push_error ids raw p id kind)
    notify_network_change_step : (p : Impl) → Reached p → Reached (notify_network_change ids raw p)
    get_tunnel_info_step : (p : Impl) → Reached p → Reached (get_tunnel_info ids raw p).0
    get_stats_step : (p : Impl) → Reached p → Reached (get_stats ids raw p).0
    monotonic_now_step : (p : Impl) → Reached p → Reached (monotonic_now ids raw p).0
    set_settings_step :
        (p : Impl) (settings : Settings) → Reached p → Reached (set_settings ids raw p settings)
    set_packet_capture_enabled_step :
        (p : Impl) (enabled : Bool)
        → Reached p
        → Reached (set_packet_capture_enabled ids raw p enabled)

  module _ (law : TellsPending) where
    -- If the library has an action to be pulled, the flag says so.
    abbrev IsTold : Impl → Type 0
    IsTold p = law.has_action p.c ≡ true → p.need_pull ≡ true

    set_packet_capture_enabled-IsTold :
        (p : Impl) (enabled : Bool) → IsTold (set_packet_capture_enabled ids raw p enabled)
    unfolding set_packet_capture_enabled handle_result
    set_packet_capture_enabled-IsTold p true has = law.capture_packet_lem p.c ∙ has
    set_packet_capture_enabled-IsTold p false has = law.stop_capture_packet_lem p.c ∙ has

    -- Let the library tell with the task of each result whether it has an action to be pulled, and
    -- let its `pull_local_agent` change no action. Then in every state of the client that calls of the
    -- trait's methods reach from `new`, if the library has an action to be pulled, `need_pull` is true.
    pub reached_need_pull : (p : Impl) → Reached p → law.has_action p.c ≡ true → p.need_pull ≡ true
    unfolding new handle_result set_current_time peer_add peer_remove pull pull_local_agent
        push_local_agent push push_error notify_network_change get_tunnel_info get_stats
        monotonic_now set_settings
    reached_need_pull _ (created c m r) _ = refl
    reached_need_pull _ (set_current_time_step p _) has =
        law.set_time_lem p.c (raw.monotonic_now p.monotonic_factory).1
          (raw.realtime_now p.realtime_factory).1
        ∙ has
    reached_need_pull _ (peer_add_step p peer _) has = law.add_peer_lem p.c peer ∙ has
    reached_need_pull _ (peer_remove_step p addr _) has = law.remove_peer_lem p.c addr ∙ has
    reached_need_pull _ (pull_step p _) has = law.pull_lem p.c ∙ has
    reached_need_pull _ (pull_local_agent_step p before) has =
        reached_need_pull p before (sym (law.pull_local_agent_lem p.c) ∙ has)
    reached_need_pull _ (push_local_agent_step p action _) has =
        law.push_local_agent_lem p.c action ∙ has
    reached_need_pull _ (push_step p action _) has = law.push_lem p.c action ∙ has
    reached_need_pull _ (push_error_step p id kind _) has = law.push_lem p.c _ ∙ has
    reached_need_pull _ (notify_network_change_step p _) has =
        law.notify_network_change_lem p.c ∙ has
    reached_need_pull _ (get_tunnel_info_step p _) has = law.tunnel_info_lem p.c ∙ has
    reached_need_pull _ (get_stats_step p _) has = law.tunnel_stats_lem p.c ∙ has
    reached_need_pull _ (monotonic_now_step p before) has = reached_need_pull p before has
    reached_need_pull _ (set_settings_step p settings _) has =
        law.set_settings_lem p.c settings ∙ has
    reached_need_pull _ (set_packet_capture_enabled_step p enabled _) has =
        set_packet_capture_enabled-IsTold p enabled has
