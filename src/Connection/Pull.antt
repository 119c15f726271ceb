-- ===== src/Connection/Pull.antt =====
-- connection/pvpn_connection.rs: `pull_from_client`, the actions and the messages that the client has
-- for the loop. Each of its two loops takes fuel.
use protun.Base.{ℕ, Option, none, some, List, if◌then◌else◌}
use protun.Base.Loop.{Round, stop, next, loop, ◌>>=◌}
use protun.Api.Events.{Event}
use protun.Client.Tunnel.{ActionKind}
use protun.Client.Agent.{LocalAgentMessage}
use protun.Client.Interface.{Action}
use protun.Agent
use protun.Agent.{LocalAgentHandler}
use protun.Connection.State.{Deps, PvpnConnection, emit_event}
use protun.Connection.Write.{handle_open, handle_write}

module _ (deps : Deps) where
  abbrev Conn : Type 0
  Conn = PvpnConnection deps

  abbrev StreamKey : Type 0
  StreamKey = deps.ids.StreamId

  abbrev pub with_streams : Conn → Option deps.streams.Table → Conn
  with_streams c none = c
  with_streams c (some streams) = record c { streams = streams }

  -- The payload that may come with an open request is written after it.
  unfoldable pub first_write : Conn → StreamKey → Option (List ℕ) → Conn
  first_write c id none = c
  first_write c id (some bytes) = handle_write deps c id bytes

  -- A release build only logs the actions that the client should not hand out.
  unfoldable pub handle_action : Conn → StreamKey → ActionKind deps.ids.SocketOption → Conn
  unfolding first_write
  handle_action c id (ActionKind.open_stream target first) =
      first_write (handle_open deps c id target) id first
  handle_action c id (ActionKind.write bytes) = handle_write deps c id bytes
  handle_action c id (ActionKind.set o) = with_streams c (deps.streams.set_option c.streams id o)
  handle_action c id ActionKind.close = record c {
    streams = deps.streams.close_stream c.streams id;
  }
  handle_action c id ActionKind.shutdown = with_streams c (deps.streams.shutdown_write c.streams id)
  handle_action c id (ActionKind.read bytes) = c
  handle_action c id (ActionKind.error e) = c
  handle_action c id ActionKind.done = c

  unfoldable pub pulled : Conn → deps.client.Client × Option (Action deps.ids) → Conn
  pulled c (client, none) = record c { client = client }
  pulled c (client, some (id, kind)) = handle_action (record c { client = client }) id kind

  unfoldable pub pull_round : Conn → Option (Round Conn)
  unfolding pulled
  pull_round c =
      if deps.client.need_pull c.client
      then some (next (pulled c (deps.client.pull c.client)))
      else some (stop c)

  unfoldable pub emit_any : Conn → Option Event → Conn
  emit_any c none = c
  emit_any c (some e) = emit_event deps c e

  -- A message for the local agent's handler, whose event is passed on.
  unfoldable pub handle_agent_message : Conn → LocalAgentHandler → LocalAgentMessage → Conn
  unfolding emit_any
  handle_agent_message c h m =
      let (h', event) = Agent.handle_message h m in
      emit_any (record c { local_agent_handler = some h' }) event

  unfoldable pub agent_pulled :
      Conn → LocalAgentHandler → deps.client.Client × Option LocalAgentMessage → Round Conn
  agent_pulled c h (client, none) = stop (record c { client = client })
  agent_pulled c h (client, some m) = next (handle_agent_message (record c { client = client }) h m)

  unfoldable pub agent_round_for : Conn → Option LocalAgentHandler → Round Conn
  unfolding agent_pulled
  agent_round_for c none = stop c
  agent_round_for c (some h) = agent_pulled c h (deps.client.pull_local_agent c.client)

  -- Nothing is pulled for the local agent in the other mode.
  unfoldable pub agent_round : Conn → Option (Round Conn)
  unfolding agent_round_for
  agent_round c = some (agent_round_for c c.local_agent_handler)

  unfoldable pub pull_from_client : ℕ → Conn → Option Conn
  pull_from_client fuel c = loop pull_round fuel c >>= loop agent_round fuel
