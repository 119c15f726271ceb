-- ===== src/Connection/Handle/Joined.antt =====
-- api/connection.rs and pvpn_connection.rs: a disconnect through the handle ends the thread.
use protun.Base.Loop.{◌>>=◌}
use mathlib.Core.List
use mathlib.Core.List.{append-nil, append_assoc}
use protun.Base.{
  suc, true, ℕ, ◌≡◌, refl, sym, ap, ◌∙◌, subst, inl, inr, none, some, List, [], ◌∷◌, ◌++◌, Any,
  Any-append_cases,
}
use protun.Base.Fuel.{Ends}
use protun.Io.{ok}
use protun.Connection.State.{Deps, PvpnConnection}
use protun.Connection.Messages.{PvpnMessage}
use protun.Connection.Run.{run, run_round}
use protun.Connection.Contract.Laws.{NoneLeftOpen, last_capture}
use protun.Connection.Reached.{Reached}
use protun.Connection.Ending.{IsEnded, run-Ends}
use protun.Connection.Guarantees.{run_disconnects}
use protun.Connection.Handle
use protun.Connection.Handle.{
  Channel, send_msg, receiver_dropped, channel_after, Call, called, all_called, empty,
  PvpnDependencies, begun, agent_settings, ThreadEnd, returned, as_end, connection_thread,
}

-- A list is divided into the lists of another.
abbrev pub IsDivided {ℓ} : {A : Type ℓ} → List (List A) → List A → Type ℓ
IsDivided [] ys = [] ≡ ys
IsDivided {A = A} (xs ∷ xss) ys = (rest : List A) × (xs ++ rest ≡ ys) × IsDivided xss rest

module _ {A : Type 0} (x : A) where
  -- The list has the element at a place.
  abbrev HasAt : List A → Type 0
  HasAt xs = (before : List A) × (after : List A) × (xs ≡ before ++ x ∷ after)

  pub Any-HasAt : (xs : List A) → Any (λ y. x ≡ y) xs → HasAt xs
  Any-HasAt [] h = absurd h
  Any-HasAt (y ∷ xs) (inl e) = ([], xs, ap (λ z. z ∷ xs) (sym e))
  Any-HasAt (y ∷ xs) (inr h) =
      let (before, after, e) = Any-HasAt xs h in (y ∷ before, after, ap (λ zs. y ∷ zs) e)

  -- So has one of the lists that it is divided into.
  pub IsDivided-HasAt :
      (xss : List (List A)) (ys : List A)
      → IsDivided xss ys
      → Any (λ y. x ≡ y) ys
      → (earlier : List (List A)) × (xs : List A) × (later : List (List A)) × (xss
          ≡ earlier ++ xs ∷ later)
        × HasAt xs
  IsDivided-HasAt [] ys e h = absurd (subst (Any (λ y. x ≡ y)) (sym e) h)
  IsDivided-HasAt (xs ∷ xss) ys (rest, e, divided) h =
      elim (Any-append_cases (λ y. x ≡ y) xs rest (subst (Any (λ y. x ≡ y)) (sym e) h)) [
        | inl a ↦ ([], xs, xss, refl, Any-HasAt xs a)
        | inr b ↦
            let (earlier, found, later, same, at) = IsDivided-HasAt xss rest divided b in
            (xs ∷ earlier, found, later, ap (λ yss. xs ∷ yss) same, at)
      ]

-- What a call of the handle sends.
abbrev pub message_of : Call → PvpnMessage
message_of (Handle.to_update u) = PvpnMessage.update u
message_of (Handle.to_update_peers peers) =
    PvpnMessage.update (record { peers = some peers; settings = none; tun = none })
message_of (Handle.to_change_connectivity event) = PvpnMessage.connectivity_change event
message_of Handle.to_disconnect = PvpnMessage.disconnect
message_of (Handle.to_start_packet_capture file) = PvpnMessage.start_capture file
message_of Handle.to_stop_packet_capture = PvpnMessage.stop_capture
message_of Handle.to_request_stats = PvpnMessage.request_stats
message_of (Handle.to_update_local_agent_settings settings) =
    PvpnMessage.update (record { peers = none; settings = some settings; tun = none })
message_of Handle.to_request_local_agent_stats = PvpnMessage.request_local_agent_stats
message_of (Handle.to_provide_api_fork_selector info) = PvpnMessage.provide_api_fork_selector info

called_lem : (call : Call) (ch : Channel) → called call ch ≡ send_msg (message_of call) ch
unfolding called Handle.update Handle.update_peers Handle.on_connectivity_change Handle.disconnect
    Handle.start_packet_capture Handle.stop_packet_capture Handle.request_stats
    Handle.update_local_agent_settings Handle.request_local_agent_stats
    Handle.provide_api_fork_selector
called_lem (Handle.to_update u) ch = refl
called_lem (Handle.to_update_peers peers) ch = refl
called_lem (Handle.to_change_connectivity event) ch = refl
called_lem Handle.to_disconnect ch = refl
called_lem (Handle.to_start_packet_capture file) ch = refl
called_lem Handle.to_stop_packet_capture ch = refl
called_lem Handle.to_request_stats ch = refl
called_lem (Handle.to_update_local_agent_settings settings) ch = refl
called_lem Handle.to_request_local_agent_stats ch = refl
called_lem (Handle.to_provide_api_fork_selector info) ch = refl

-- A call when the receiver is gone panics.
called_late : (call : Call) (ch : Channel) → called call (receiver_dropped ch) ≡ none
unfolding send_msg
called_late call ch = called_lem call (receiver_dropped ch)

-- The channel has these messages, and the loop still has the receiver.
abbrev HasSent : List PvpnMessage → Channel → Type 0
HasSent ms ch = (ch.messages ≡ ms) × (ch.has_receiver ≡ true)

called-HasSent :
    (call : Call) (ch : Channel) (ms : List PvpnMessage)
    → HasSent ms ch
    → (ch' : Channel) × (called call ch ≡ some ch') × HasSent (ms ++ message_of call ∷ []) ch'
unfolding send_msg
called-HasSent call ch ms (same, there) = (
  record ch { messages = ch.messages ++ message_of call ∷ []; wakes = suc ch.wakes },
  called_lem call ch ∙ rw there refl,
  (ap (λ xs. xs ++ message_of call ∷ []) same, there),
)

-- As long as the loop has the receiver, every call sends its message.
all_called-HasSent :
    (calls : List Call) (ch : Channel) (ms : List PvpnMessage)
    → HasSent ms ch
    → (ch' : Channel) × (all_called calls ch ≡ some ch')
      × HasSent (ms ++ List.map message_of calls) ch'
unfolding all_called
all_called-HasSent [] ch ms (same, there) = (ch, refl, (same ∙ sym (append-nil ms), there))
all_called-HasSent (call ∷ calls) ch ms h =
    let (ch1, e1, h1) = called-HasSent call ch ms h in
    let (ch2, e2, (same, there)) = all_called-HasSent calls ch1 (ms ++ message_of call ∷ []) h1 in
    (
      ch2,
      ap (λ o. o >>= all_called calls) e1 ∙ e2,
      (same ∙ append_assoc ms (message_of call ∷ []) (List.map message_of calls), there),
    )

disconnect-sent :
    (before after : List Call)
    → Any
        (λ m. PvpnMessage.disconnect ≡ m)
        (List.map message_of (before ++ Handle.to_disconnect ∷ after))
disconnect-sent [] after = inl refl
disconnect-sent (call ∷ before) after = inr (disconnect-sent before after)

module _ (deps : Deps) where
  begun-Reached :
      (d : PvpnDependencies deps)
      → Reached deps (agent_settings deps d.config.connection_mode) (begun deps d)
  unfolding begun
  begun-Reached d =
      Reached.begun d.client d.streams d.disk d.realtime_clock d.config.network_available
        d.config.peers d.config.pcap_file

  -- Let the inner loops of every round end on some fuel. While the loop has the receiver, make any calls of
  -- the handle, then disconnect, then any more calls. None of them panics; and if the rounds of the loop
  -- read what was sent in any portions, empty ones too, then on some fuel the thread of the connection
  -- ends, so that whoever joins it goes on. It leaves the connection disconnected, with no capture; the
  -- last state that was reported, if any was, is the disconnected one. The receiver is gone then, and any
  -- later call of the handle panics.
  pub disconnect_stops_thread :
      ((c : PvpnConnection deps) → (fuel : ℕ) × Ends (run_round deps fuel c))
      → (d : PvpnDependencies deps) (before after : List Call) (late : Call)
        (rounds : List (List PvpnMessage))
      → IsDivided rounds (List.map message_of (before ++ Handle.to_disconnect ∷ after))
      → (ch : Channel) × (all_called (before ++ Handle.to_disconnect ∷ after) empty ≡ some ch)
        × IsDivided rounds ch.messages
        × ((fuel : ℕ) × (c : PvpnConnection deps) × (connection_thread deps fuel (ok d) rounds
              ≡ some (returned c))
            × IsEnded deps c
            × NoneLeftOpen c.outputs
            × (last_capture c.outputs ≡ none)
            × (called late (channel_after deps (connection_thread deps fuel (ok d) rounds) ch)
                ≡ none))
  unfolding connection_thread
  disconnect_stops_thread rounds_end d before after late rounds divided =
      let calls = before ++ Handle.to_disconnect ∷ after in
      let (ch, all, (messages, there)) = all_called-HasSent calls empty [] (refl, refl) in
      let (earlier, ms, later, same, (first, rest, at)) =
        IsDivided-HasAt PvpnMessage.disconnect rounds _ divided (disconnect-sent before after) in
      let (fuel, (c, e)) = run-Ends deps rounds_end earlier first rest later (begun deps d) in
      let run_same : run deps fuel (begun deps d) rounds ≡ some c =
        ap (λ rs. run deps fuel (begun deps d) rs) (same ∙ ap (λ xs. earlier ++ xs ∷ later) at)
        ∙ e in
      let told =
        run_disconnects deps (agent_settings deps d.config.connection_mode) fuel rounds
          (begun deps d) c (begun-Reached d) run_same in
      (
        ch,
        all,
        subst (IsDivided rounds) (sym messages) divided,
        (
          fuel,
          c,
          ap (as_end deps) run_same,
          told.0,
          told.1,
          told.2,
          ap (λ o. called late (channel_after deps (as_end deps o) ch)) run_same
              ∙ called_late late ch,
        ),
      )
