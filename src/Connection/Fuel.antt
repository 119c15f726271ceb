-- ===== src/Connection/Fuel.antt =====
-- The loops of connection/pvpn_connection.rs on more fuel.
use protun.Base.{ℕ, ◌+◌, ◌&&◌, ltb, Option, none, some, List, [], ◌∷◌}
use protun.Base.Loop.{loop}
use protun.Base.Fuel.{Extends, Extends-refl, bind-Extends, if-Extends, loop-Extends}
use protun.Io.{IoResult, ok, err}
use protun.Streams.{StreamResult, PollResult, Transfer}
use protun.Connection.State.{Deps, PvpnConnection}
use protun.Connection.Pull.{pull_round, agent_round, pull_from_client}
use protun.Connection.Read.{
  forward, handle_read, read_result, read_stream, read_each, read_round, read_from_streams,
  poll_writes, handle_poll_results, handle_polled, readable,
}
use protun.Connection.Messages.{PvpnMessage, handle_messages}
use protun.Connection.Run.{
  update_state, poll_deadline, resume, polled, poll_from_streams, run_round, run,
}

module _ (deps : Deps) (more : ℕ) where
  abbrev Conn : Type 0
  Conn = PvpnConnection deps

  abbrev StreamKey : Type 0
  StreamKey = deps.ids.StreamId

  pull_from_client-Extends :
      (fuel : ℕ) (c : Conn)
      → Extends (pull_from_client deps fuel c) (pull_from_client deps (fuel + more) c)
  unfolding pull_from_client
  pull_from_client-Extends fuel c =
      bind-Extends (loop (pull_round deps) fuel c) (loop (pull_round deps) (fuel + more) c)
        (loop (agent_round deps) fuel) (loop (agent_round deps) (fuel + more))
        (loop-Extends (pull_round deps) (pull_round deps) (λ s. Extends-refl _) more fuel c)
        (loop-Extends (agent_round deps) (agent_round deps) (λ s. Extends-refl _) more fuel)

  forward-Extends :
      (fuel : ℕ) (c : Conn) (id : StreamKey) (t : Transfer) (buffer : List ℕ)
      → Extends (forward deps fuel c id t buffer) (forward deps (fuel + more) c id t buffer)
  unfolding forward
  forward-Extends fuel c id t buffer =
      if-Extends (ltb 0 t.bytes_count && c.network_recovery_handler.network_available)
        (pull_from_client-Extends fuel _) (Extends-refl _)

  handle_read-Extends :
      (fuel : ℕ) (c : Conn) (id : StreamKey) (res : StreamResult) (buffer : List ℕ)
      → Extends
          (handle_read deps fuel c id res buffer)
          (handle_read deps (fuel + more) c id res buffer)
  unfolding handle_read
  handle_read-Extends fuel c id (StreamResult.done t) buffer =
      bind-Extends (forward deps fuel c id t buffer) (forward deps (fuel + more) c id t buffer) _ _
        (forward-Extends fuel c id t buffer) (λ d. Extends-refl _)
  handle_read-Extends fuel c id (StreamResult.failed e) buffer = Extends-refl _
  handle_read-Extends fuel c id StreamResult.stream_closed buffer = Extends-refl _

  read_result-Extends :
      (fuel : ℕ) (c : Conn) (id : StreamKey)
      (r : Option (deps.streams.Table × StreamResult × List ℕ))
      → Extends (read_result deps fuel c id r) (read_result deps (fuel + more) c id r)
  unfolding read_result
  read_result-Extends fuel c id none = Extends-refl _
  read_result-Extends fuel c id (some (streams, res, buffer)) =
      handle_read-Extends fuel _ id res buffer

  read_each-Extends :
      (fuel : ℕ) (ids : List StreamKey) (c : Conn)
      → Extends (read_each deps fuel ids c) (read_each deps (fuel + more) ids c)
  unfolding read_stream
  read_each-Extends fuel [] c = Extends-refl _
  read_each-Extends fuel (id ∷ ids) c =
      bind-Extends (read_stream deps fuel c id) (read_stream deps (fuel + more) c id) _ _
        (read_result-Extends fuel c id (deps.streams.read c.streams id))
        (λ r.
          bind-Extends (read_each deps fuel ids r.0) (read_each deps (fuel + more) ids r.0) _ _
            (read_each-Extends fuel ids r.0) (λ q. Extends-refl _))

  read_round-Extends :
      (fuel : ℕ) (s : Conn × List StreamKey)
      → Extends (read_round deps fuel s) (read_round deps (fuel + more) s)
  unfolding read_round
  read_round-Extends fuel (c, []) = Extends-refl _
  read_round-Extends fuel (c, id ∷ ids) =
      bind-Extends (read_each deps fuel (id ∷ ids) c) (read_each deps (fuel + more) (id ∷ ids) c) _
        _ (read_each-Extends fuel (id ∷ ids) c) (λ r. Extends-refl _)

  read_from_streams-Extends :
      (fuel : ℕ) (c : Conn) (ids : List StreamKey)
      → Extends (read_from_streams deps fuel c ids) (read_from_streams deps (fuel + more) c ids)
  unfolding read_from_streams
  read_from_streams-Extends fuel c ids =
      bind-Extends (loop (read_round deps fuel) fuel (c, ids))
        (loop (read_round deps (fuel + more)) (fuel + more) (c, ids)) _ _
        (loop-Extends (read_round deps fuel) (read_round deps (fuel + more))
          (read_round-Extends fuel) more fuel (c, ids))
        (λ r. Extends-refl _)

  handle_polled-Extends :
      (fuel : ℕ) (c : Conn) (r : IoResult (List (PollResult StreamKey)))
      → Extends (handle_polled deps fuel c r) (handle_polled deps (fuel + more) c r)
  unfolding handle_poll_results
  handle_polled-Extends fuel c (err e) = Extends-refl _
  handle_polled-Extends fuel c (ok results) =
      read_from_streams-Extends fuel (poll_writes deps c results) (readable deps results)

  polled-Extends :
      (fuel : ℕ) (c : Conn) (r : deps.streams.Table × IoResult (List (PollResult StreamKey)))
      → Extends (polled deps fuel c r) (polled deps (fuel + more) c r)
  unfolding polled
  polled-Extends fuel c (streams, results) =
      let (client, now) = deps.client.set_current_time c.client in
      handle_polled-Extends fuel
        (resume deps (record c { streams = streams; client = client }) now.0) results

  poll_from_streams-Extends :
      (fuel : ℕ) (c : Conn)
      → Extends (poll_from_streams deps fuel c) (poll_from_streams deps (fuel + more) c)
  unfolding poll_from_streams
  poll_from_streams-Extends fuel c =
      let (c', deadline) = poll_deadline deps c in
      polled-Extends fuel c' (deps.streams.poll c.streams deadline)

  -- A round that ends goes the same way on more fuel.
  pub run_round-Extends :
      (fuel : ℕ) (c : Conn) → Extends (run_round deps fuel c) (run_round deps (fuel + more) c)
  unfolding run_round
  run_round-Extends fuel c =
      bind-Extends _ _ (λ d. poll_from_streams deps fuel (update_state deps d))
        (λ d. poll_from_streams deps (fuel + more) (update_state deps d))
        (pull_from_client-Extends fuel
          (record c { client = (deps.client.set_current_time c.client).0 }))
        (λ d. poll_from_streams-Extends fuel (update_state deps d))

  -- A run that ends goes the same way on more fuel.
  pub run-Extends :
      (fuel : ℕ) (rounds : List (List PvpnMessage)) (c : Conn)
      → Extends (run deps fuel c rounds) (run deps (fuel + more) c rounds)
  unfolding run
  run-Extends fuel [] c = Extends-refl _
  run-Extends fuel (ms ∷ rounds) c =
      let c' = handle_messages deps c ms in
      if-Extends c'.should_stop (Extends-refl _) (
        bind-Extends (run_round deps fuel c') (run_round deps (fuel + more) c')
          (λ d. run deps fuel d rounds) (λ d. run deps (fuel + more) d rounds)
          (run_round-Extends fuel c') (run-Extends fuel rounds))
