-- ===== src/Agent/Waiting.antt =====
-- connection/local_agent_handler.rs: when the local agent counts as connected.
use protun.Base.{◌≡◌, ◌≢◌, ◌↔◌, refl, true, none, some, List, [], ◌∷◌, arith, ◌⊎◌}
use protun.Api.State.{
  fits_mode, PeerConnectionInfo, connected, connecting_to_local_agent, hard_jailed,
}
use protun.Client.Agent.{LocalAgentMessage, LocalAgentValue, Jail}
use protun.Agent.Jails.{wait_jail_reasons}
use protun.Agent.{
  LocalAgentHandler, get_state, get_wait_reason, on_connected_to_peer, handle_message,
}

-- The state is connected, with the information of the agent, exactly if the agent has connected and
-- neither a soft jail nor a hard one holds; in no other case is it connected at all.
pub get_state_connected_iff :
    (h : LocalAgentHandler) (peer : PeerConnectionInfo)
    → ((get_state h peer ≡ connected peer (some h.agent_info)) ↔ (
        (h.is_connected ≡ true) × (h.jails ≡ []) × (h.agent_info.settings.soft_jail ≢ some true)))
      × ((get_state h peer ≡ connected peer (some h.agent_info))
          ⊎ ((get_state h peer ≡ connecting_to_local_agent peer (get_wait_reason h))))
unfolding get_state
get_state_connected_iff h peer = (
  (λ e. (ground arith, ground arith, λ soft. ground arith), λ (on, free, soft). ground arith),
  ground arith,
)

-- A connection to another peer than before starts afresh: the agent is not connected to it and holds
-- no jail of the old one. A connection to the same peer changes no state that is reported.
pub on_connected_to_peer_state :
    (h : LocalAgentHandler) (last peer : PeerConnectionInfo)
    → h.last_peer ≡ some last
    → (peer ≢ last
        → get_state (on_connected_to_peer h peer) peer ≡ connecting_to_local_agent peer none)
      × (peer ≡ last
          → (p : PeerConnectionInfo) → get_state (on_connected_to_peer h peer) p ≡ get_state h p)
unfolding get_state on_connected_to_peer
on_connected_to_peer_state h last peer e = (
  (λ other. rw (e, on_connected_to_peer) (ground arith)),
  λ same p. rw (e, on_connected_to_peer) (ground arith),
)

-- After a report of jails the reasons are those of the jails, one for each in their order, unless a
-- soft jail hides them; after a report of none nothing holds the connection up.
pub jails_reported :
    (h : LocalAgentHandler) (js : List Jail)
    → h.agent_info.settings.soft_jail ≢ some true
    → let h' = (handle_message h (LocalAgentMessage.value (LocalAgentValue.jails (some js)))).0 in
      (js ≡ [] → get_wait_reason h' ≡ none)
      × (js ≢ [] → get_wait_reason h' ≡ some (hard_jailed (wait_jail_reasons js)))
unfolding handle_message get_wait_reason wait_jail_reasons
jails_reported h [] soft = (ground arith, λ ne. absurd (ne refl))
jails_reported h (j ∷ js) soft = (ground arith, ground arith)

-- What the handler reports is of the mode with a local agent.
pub get_state-fits :
    (h : LocalAgentHandler) (peer : PeerConnectionInfo) → fits_mode true (get_state h peer) ≡ true
unfolding get_state
get_state-fits h peer = ground arith
