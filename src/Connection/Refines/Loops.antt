-- ===== src/Connection/Refines/Loops.antt =====
-- The inner loops of connection/pvpn_connection.rs, pulling and reading, seen through the contract.
use protun.Base.{
  is_some, ℕ, ◌≡◌, refl, false, ◌&&◌, Option, none, some, List, [], ◌∷◌, if_elim, ap, subst, ltb,
  if◌then◌else◌,
}
use protun.Base.Loop.{loop, OnSome, OnRound, bind-OnSome, loop-OnSome}
use protun.Io.{IoResult, ok, err}
use protun.Api.Events.{is_capture, Event}
use protun.Client.Tunnel.{ActionKind}
use protun.Client.Agent.{LocalAgentMessage}
use protun.Client.Interface.{Action}
use protun.Streams.{StreamResult, PollResult, Transfer}
use protun.Agent.{LocalAgentHandler}
use protun.Agent.Reports.{handle_message-no_capture}
use protun.Connection.State.{Deps, PvpnConnection}
use protun.Connection.Write.{poll_write}
use protun.Connection.Pull.{
  first_write, handle_action, pulled, pull_round, emit_any, handle_agent_message, agent_pulled,
  agent_round_for, agent_round, pull_from_client, with_streams,
}
use protun.Connection.Read.{
  forward, handle_read, read_result, read_stream, read_each, read_round, read_from_streams,
  poll_writes, handle_poll_results, handle_polled, readable,
}
use protun.Connection.Contract.{View, Steps}
use protun.Connection.Refines.{
  view, Allowed, handle_write-Allowed, handle_open-Allowed, poll_write-Allowed,
  handle_stream_error-Allowed, emit_event-Allowed, note_tun_result-Allowed,
}

module _ (deps : Deps) (v : View) where
  abbrev Conn : Type 0
  Conn = PvpnConnection deps

  abbrev StreamKey : Type 0
  StreamKey = deps.ids.StreamId

  abbrev Ok : Conn → Type 0
  Ok = Allowed deps v

  first_write-Allowed :
      (c : Conn) (id : StreamKey) (o : Option (List ℕ)) → Ok c → Ok (first_write deps c id o)
  unfolding first_write
  first_write-Allowed c id none h = h
  first_write-Allowed c id (some bytes) h = handle_write-Allowed deps v c id bytes h

  with_streams-Allowed :
      (c : Conn) (o : Option deps.streams.Table) → Ok c → Ok (with_streams deps c o)
  with_streams-Allowed c none h = h
  with_streams-Allowed c (some streams) h = h

  handle_action-Allowed :
      (c : Conn) (id : StreamKey) (kind : ActionKind deps.ids.SocketOption)
      → Ok c
      → Ok (handle_action deps c id kind)
  unfolding handle_action
  handle_action-Allowed c id (ActionKind.open_stream target first) h =
      first_write-Allowed _ id first (handle_open-Allowed deps v c id target h)
  handle_action-Allowed c id (ActionKind.write bytes) h = handle_write-Allowed deps v c id bytes h
  handle_action-Allowed c id (ActionKind.set o) h = with_streams-Allowed c _ h
  handle_action-Allowed c id ActionKind.close h = h
  handle_action-Allowed c id ActionKind.shutdown h = with_streams-Allowed c _ h
  handle_action-Allowed c id (ActionKind.read bytes) h = h
  handle_action-Allowed c id (ActionKind.error e) h = h
  handle_action-Allowed c id ActionKind.done h = h

  pulled-Allowed :
      (c : Conn) (r : deps.client.Client × Option (Action deps.ids)) → Ok c → Ok (pulled deps c r)
  unfolding pulled
  pulled-Allowed c (client, none) h = h
  pulled-Allowed c (client, some (id, kind)) h =
      handle_action-Allowed (record c { client = client }) id kind h

  pull_round-Allowed : (c : Conn) → Ok c → OnSome (OnRound Ok) (pull_round deps c)
  unfolding pull_round
  pull_round-Allowed c h =
      if_elim (OnSome (OnRound Ok)) (deps.client.need_pull c.client)
        (λ more. pulled-Allowed c (deps.client.pull c.client) h) (λ all. h)

  emit_any-Allowed :
      (c : Conn) (o : Option Event)
      → OnSome (λ e. is_capture e ≡ false) o
      → Ok c
      → Ok (emit_any deps c o)
  unfolding emit_any
  emit_any-Allowed c none n h = h
  emit_any-Allowed c (some e) n h = emit_event-Allowed deps v c e n h

  agent_pulled-Allowed :
      (c : Conn) (handler : LocalAgentHandler) (r : deps.client.Client × Option LocalAgentMessage)
      → c.local_agent_handler ≡ some handler
      → Ok c
      → OnRound Ok (agent_pulled deps c handler r)
  unfolding agent_pulled handle_agent_message
  agent_pulled-Allowed c handler (client, none) e h = h
  agent_pulled-Allowed c handler (client, some m) e h =
      emit_any-Allowed _ _ (handle_message-no_capture handler m)
        (subst (λ b. Steps v (record (view deps c) { agent = b })) (ap is_some e) h)

  agent_round_for-Allowed :
      (c : Conn) (o : Option LocalAgentHandler)
      → c.local_agent_handler ≡ o
      → Ok c
      → OnRound Ok (agent_round_for deps c o)
  unfolding agent_round_for
  agent_round_for-Allowed c none e h = h
  agent_round_for-Allowed c (some handler) e h = agent_pulled-Allowed c handler _ e h

  pub pull_from_client-Allowed :
      (fuel : ℕ) (c : Conn) → Ok c → OnSome Ok (pull_from_client deps fuel c)
  unfolding pull_from_client agent_round
  pull_from_client-Allowed fuel c h =
      bind-OnSome Ok Ok (loop (pull_round deps) fuel c) (loop (agent_round deps) fuel)
        (loop-OnSome Ok (pull_round deps) pull_round-Allowed fuel c h)
        (loop-OnSome Ok (agent_round deps)
          (λ d. agent_round_for-Allowed d d.local_agent_handler refl) fuel)

  forward-Allowed :
      (fuel : ℕ) (c : Conn) (id : StreamKey) (t : Transfer) (buffer : List ℕ)
      → Ok c
      → OnSome Ok (forward deps fuel c id t buffer)
  unfolding forward
  forward-Allowed fuel c id t buffer h =
      if_elim (OnSome Ok) (ltb 0 t.bytes_count && c.network_recovery_handler.network_available)
        (λ e. pull_from_client-Allowed fuel _ h) (λ e. h)

  abbrev First {ℓ} : {A : Type ℓ} → Conn × A → Type 0
  First r = Ok r.0

  handle_read-Allowed :
      (fuel : ℕ) (c : Conn) (id : StreamKey) (res : StreamResult) (buffer : List ℕ)
      → Ok c
      → OnSome First (handle_read deps fuel c id res buffer)
  unfolding handle_read
  handle_read-Allowed fuel c id (StreamResult.done t) buffer h =
      bind-OnSome Ok First (forward deps fuel c id t buffer) _
        (forward-Allowed fuel c id t buffer h) (λ d q. q)
  handle_read-Allowed fuel c id (StreamResult.failed e) buffer h =
      handle_stream_error-Allowed deps v c id e h
  handle_read-Allowed fuel c id StreamResult.stream_closed buffer h = h

  read_result-Allowed :
      (fuel : ℕ) (c : Conn) (id : StreamKey)
      (r : Option (deps.streams.Table × StreamResult × List ℕ))
      → Ok c
      → OnSome First (read_result deps fuel c id r)
  unfolding read_result
  read_result-Allowed fuel c id none h = h
  read_result-Allowed fuel c id (some (streams, res, buffer)) h =
      handle_read-Allowed fuel _ id res buffer
        (note_tun_result-Allowed deps v (record c { streams = streams }) id res h)

  read_each-Allowed :
      (fuel : ℕ) (ids : List StreamKey) (c : Conn) → Ok c → OnSome First (read_each deps fuel ids c)
  unfolding read_stream
  read_each-Allowed fuel [] c h = h
  read_each-Allowed fuel (id ∷ ids) c h =
      bind-OnSome First First (read_stream deps fuel c id) _
        (read_result-Allowed fuel c id (deps.streams.read c.streams id) h)
        (λ r q.
          bind-OnSome First First (read_each deps fuel ids r.0) _ (read_each-Allowed fuel ids r.0 q)
            (λ s k. k))

  read_round-Allowed :
      (fuel : ℕ) (s : Conn × List StreamKey)
      → First s
      → OnSome (OnRound First) (read_round deps fuel s)
  unfolding read_round
  read_round-Allowed fuel (c, []) h = h
  read_round-Allowed fuel (c, id ∷ ids) h =
      bind-OnSome First (OnRound First) (read_each deps fuel (id ∷ ids) c) _
        (read_each-Allowed fuel (id ∷ ids) c h) (λ r q. q)

  read_from_streams-Allowed :
      (fuel : ℕ) (c : Conn) (ids : List StreamKey)
      → Ok c
      → OnSome Ok (read_from_streams deps fuel c ids)
  unfolding read_from_streams
  read_from_streams-Allowed fuel c ids h =
      bind-OnSome First Ok (loop (read_round deps fuel) fuel (c, ids)) _
        (loop-OnSome First (read_round deps fuel) (read_round-Allowed fuel) fuel (c, ids) h)
        (λ r q. q)

  poll_writes-Allowed :
      (c : Conn) (rs : List (PollResult StreamKey)) → Ok c → Ok (poll_writes deps c rs)
  unfolding poll_writes
  poll_writes-Allowed c [] h = h
  poll_writes-Allowed c (r ∷ rs) h =
      poll_writes-Allowed (if r.is_writable then poll_write deps c r.stream_id else c) rs
        (if_elim Ok r.is_writable (λ e. poll_write-Allowed deps v c r.stream_id h) (λ e. h))

  pub handle_polled-Allowed :
      (fuel : ℕ) (c : Conn) (r : IoResult (List (PollResult StreamKey)))
      → Ok c
      → OnSome Ok (handle_polled deps fuel c r)
  unfolding handle_poll_results
  handle_polled-Allowed fuel c (err e) h = h
  handle_polled-Allowed fuel c (ok results) h =
      read_from_streams-Allowed fuel _ (readable deps results) (poll_writes-Allowed c results h)
