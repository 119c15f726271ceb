-- ===== src/Windows/Table/Handles.antt =====
-- connection/windows/streams.rs: a poll waits for the waker and for the streams of the table.
use protun.Base.{ℕ, ◌≡◌, refl, sym, ◌∙◌, ap, Option, some, List, [], ◌∷◌, map, ◌==◌, if_elim, ite}
use protun.Io.{IoResult, ok, err, SocketAddr}
use protun.Client.Interface.{StreamIds}
use protun.Streams.{PollResult}
use protun.Windows.Tun.{TunStreamWindows}
use protun.Windows.Opening.{new_tcp_stream, new_udp_stream}
use protun.Windows.Table.{
  WinSystem, WindowsStream, tcp, udp, tun, handle, get_state, has_error, WindowsStreamInfo,
  WindowsStreams, stream_handle, register_stream, new, create_poll_result,
  get_all_streams_as_poll_results, get_stream_ref, set_stream, opened, as_tcp, as_udp,
  open_new_tcp_stream, open_new_udp_stream, close_stream, waited, poll, timeout_as_millis,
  timeout_event, waker_event,
}

module _ (ids : StreamIds) (w : WinSystem) where
  -- What the loop does with the table. A use of a stream keeps its handle.
  pub data Reached : WindowsStreams ids w → Type 0 where
    created :
        (stream : TunStreamWindows w.wintun w.text) (waker : w.Handle) (system : w.sockets.System)
        → Reached (new ids w stream waker system)
    tcp_opened :
        (t : WindowsStreams ids w) (id : ids.StreamId) (remote : SocketAddr)
        → Reached t
        → Reached (open_new_tcp_stream ids w t id remote).0
    udp_opened :
        (t : WindowsStreams ids w) (id : ids.StreamId) (remote : SocketAddr)
        → Reached t
        → Reached (open_new_udp_stream ids w t id remote).0
    closed :
        (t : WindowsStreams ids w) (id : ids.StreamId)
        → Reached t
        → Reached (close_stream ids w t id)
    polled :
        (t : WindowsStreams ids w) (deadline : Option ℕ)
        → Reached t
        → Reached (poll ids w t deadline).0
    used :
        (t : WindowsStreams ids w) (id : ids.StreamId) (s : WindowsStreamInfo ids w)
        (stream : WindowsStream ids w)
        → get_stream_ref ids w t.streams id ≡ some s
        → handle ids w stream ≡ handle ids w s.stream
        → Reached t
        → Reached (record t { streams = set_stream ids w t.streams id stream })

  -- The handles are those of the waker and of the streams, in the order of the table.
  abbrev pub IsInStep : WindowsStreams ids w → Type 0
  IsInStep t = t.handles ≡ t.waker ∷ map (stream_handle ids w) t.streams

  opened-IsInStep :
      (t : WindowsStreams ids w) (id : ids.StreamId) (r : IoResult (WindowsStream ids w))
      → IsInStep t
      → IsInStep (opened ids w t id r).0
  unfolding register_stream
  opened-IsInStep t id (ok stream) h = refl
  opened-IsInStep t id (err e) h = h

  handle-get_state : (s : WindowsStream ids w) → handle ids w (get_state ids w s).0 ≡ handle ids w s
  unfolding get_state
  handle-get_state (tcp s) = refl
  handle-get_state (udp s) = refl
  handle-get_state (tun s) = refl

  handle-has_error : (s : WindowsStream ids w) → handle ids w (has_error ids w s).0 ≡ handle ids w s
  unfolding has_error
  handle-has_error (tcp s) = refl
  handle-has_error (udp s) = refl
  handle-has_error (tun s) = refl

  handles_polled :
      (ss : List (WindowsStreamInfo ids w))
      → map (stream_handle ids w) (get_all_streams_as_poll_results ids w ss).0
        ≡ map (stream_handle ids w) ss
  unfolding get_all_streams_as_poll_results create_poll_result
  handles_polled [] = refl
  handles_polled (s ∷ ss) =
      ap (λ h. h ∷ map (stream_handle ids w) (get_all_streams_as_poll_results ids w ss).0)
        (handle-has_error (get_state ids w s.stream).0 ∙ handle-get_state s.stream)
      ∙ ap (λ hs. handle ids w s.stream ∷ hs) (handles_polled ss)

  waited-IsInStep :
      (t : WindowsStreams ids w) (system : w.sockets.System) (index : ℕ)
      → IsInStep t
      → IsInStep (waited ids w t system index).0
  unfolding waited
  waited-IsInStep t system index h =
      let P = λ (r : WindowsStreams ids w × List (PollResult ids.StreamId)). IsInStep r.0 in
      if_elim P (index == timeout_event) (λ e. h)
        (λ e.
          if_elim P (index == waker_event) (λ e. h)
            (λ e. h ∙ ap (λ hs. t.waker ∷ hs) (sym (handles_polled t.streams))))

  handles_used :
      (ss : List (WindowsStreamInfo ids w)) (id : ids.StreamId) (s : WindowsStreamInfo ids w)
      (stream : WindowsStream ids w)
      → get_stream_ref ids w ss id ≡ some s
      → handle ids w stream ≡ handle ids w s.stream
      → map (stream_handle ids w) (set_stream ids w ss id stream) ≡ map (stream_handle ids w) ss
  handles_used [] id s stream found same = refl
  handles_used (u ∷ ss) id s stream found same =
      by_id (ids.StreamId-discrete u.stream_id id) found
        (λ found'. handles_used ss id s stream found' same)
    where
      by_id :
          (d : Dec (u.stream_id ≡ id))
          → ite d (some u) (get_stream_ref ids w ss id) ≡ some s
          → (get_stream_ref ids w ss id ≡ some s
              → map (stream_handle ids w) (set_stream ids w ss id stream)
                ≡ map (stream_handle ids w) ss)
          → map
              (stream_handle ids w)
              (ite d (record u { stream = stream } ∷ ss) (u ∷ set_stream ids w ss id stream))
            ≡ map (stream_handle ids w) (u ∷ ss)
      by_id (yes e) found rest =
          ap (λ h. h ∷ map (stream_handle ids w) ss)
            (same ∙ (let e : s ≡ u = cc in ap (stream_handle ids w) e))
      by_id (no ne) found rest = ap (λ hs. handle ids w u.stream ∷ hs) (rest found)

  -- In every table that the loop reaches, the handles that a poll waits for are that of the waker and then
  -- those of the streams, in their order: no open stream is left out and no closed one is kept.
  pub handles-IsInStep : (t : WindowsStreams ids w) → Reached t → IsInStep t
  unfolding new register_stream close_stream open_new_tcp_stream open_new_udp_stream poll
  handles-IsInStep _ (created stream waker system) = refl
  handles-IsInStep _ (tcp_opened t id remote before) =
      opened-IsInStep _ id
        (as_tcp ids w (new_tcp_stream w.winsock w.sockets t.system (w.network t.system) remote).1)
        (handles-IsInStep t before)
  handles-IsInStep _ (udp_opened t id remote before) =
      opened-IsInStep _ id
        (as_udp ids w (new_udp_stream w.winsock w.sockets t.system (w.network t.system) remote).1)
        (handles-IsInStep t before)
  handles-IsInStep _ (closed t id before) = refl
  handles-IsInStep _ (polled t deadline before) =
      waited-IsInStep t (w.wait t.system t.handles (timeout_as_millis ids w deadline)).0
        (w.wait t.system t.handles (timeout_as_millis ids w deadline)).1 (handles-IsInStep t before)
  handles-IsInStep _ (used t id s stream found same before) =
      handles-IsInStep t before
      ∙ ap (λ hs. t.waker ∷ hs) (sym (handles_used t.streams id s stream found same))
