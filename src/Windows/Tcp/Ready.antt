-- ===== src/Windows/Tcp/Ready.antt =====
-- connection/windows/tcp.rs: what a poll reports of a TCP stream. Winsock reports an event once, so the
-- stream remembers it.
use protun.Base.{ℕ, ◌≡◌, refl, sym, ◌↔◌, Bool, true, false, some, List, [], ◌∷◌, ◌++◌, subst}
use protun.Base.Loop.{OnSome-some}
use protun.Io.{IoError, IoResult, ok, err}
use protun.Streams
use protun.Streams.{StreamResult, PendingWrite, pending_write, no_pending_write}
use protun.Device.Sending.{OnSending, sending-OnSome}
use protun.Windows.Socket.{WinSocket}
use protun.Windows.SocketErrors.{SocketErrorAction, to_socket_error_action, tcp}
use protun.Windows.Tcp
use protun.Windows.Tcp.{
  TcpSocketStream, get_state, has_error, with_writable, on_error, received, read, sent, write_round,
  write_from_buffer, write, shutdown_write, buffer_pends,
}
use protun.Windows.Tcp.History.{
  Did, polled, got_bytes, got_nothing, sent_all, sent_less, Since, IsReadable, IsDrained,
  IsWritable, IsFull, of_read, of_write, is_sent_all, true-eq-false, none-Since, Agrees, Agrees-set,
  Agrees-cleared, Agrees-kept, Agrees-polled,
}

module _ (w : WinSocket) where
  abbrev Tcp_ : Type 0
  Tcp_ = TcpSocketStream w

  -- A stream after its operations, and what has happened.
  pub data Reached : TcpSocketStream w → List Did → Type 0 where
    made : (socket : w.Sock) (handle : w.Handle) → Reached (Tcp.new w socket handle) []
    asked :
        (s : TcpSocketStream w) (ds : List Did)
        → Reached s ds
        → Reached (get_state w s).0 (polled (w.get_events s.socket).1 ∷ ds)
    checked : (s : TcpSocketStream w) (ds : List Did) → Reached s ds → Reached (has_error w s).0 ds
    was_read :
        (s : TcpSocketStream w) (ds : List Did)
        → Reached s ds
        → Reached (read w s).0 (of_read (read w s).1 ∷ ds)
    was_written :
        (s s' : TcpSocketStream w) (ds : List Did) (fuel : ℕ) (bytes : List ℕ) (r : StreamResult)
        → Reached s ds
        → write w fuel s bytes ≡ some (s', r)
        → Reached s' (of_write (is_sent_all r) ∷ ds)
    was_flushed :
        (s s' : TcpSocketStream w) (ds : List Did) (fuel : ℕ) (r : StreamResult)
        → Reached s ds
        → write_from_buffer w fuel s ≡ some (s', r)
        → Reached s' (of_write (is_sent_all r) ∷ ds)
    was_shut :
        (s : TcpSocketStream w) (ds : List Did) → Reached s ds → Reached (shutdown_write w s) ds

  -- The state that a poll reports is what has happened.
  abbrev pub IsReady : TcpSocketStream w → List Did → Type 0
  IsReady s ds =
      ((s.state.is_readable ≡ true) ↔ Since IsReadable IsDrained ds)
      × ((s.state.is_writable ≡ true) ↔ Since IsWritable IsFull ds)

  -- A write that returns leaves the reading side alone, and tells whether it sent all.
  abbrev IsTold : Bool → TcpSocketStream w × StreamResult → Type 0
  IsTold readable (s, r) = (s.state.is_readable ≡ readable) × (s.state.is_writable ≡ is_sent_all r)

  abbrev KeepsReadable : Bool → TcpSocketStream w → ℕ → Type 0
  KeepsReadable readable s n = s.state.is_readable ≡ readable

  on_error-IsTold :
      (s : TcpSocketStream w) (n : ℕ) (e : IoError) (a : SocketErrorAction)
      → IsTold s.state.is_readable
          (with_writable w false s, on_error w a e (Streams.ok n Streams.would_block pending_write))
  unfolding Streams.ok
  on_error-IsTold s n e SocketErrorAction.fatal_socket_error = (refl, refl)
  on_error-IsTold s n e SocketErrorAction.would_block = (refl, refl)

  sent-IsTold :
      (s : TcpSocketStream w) (r : w.Sock × IoResult ℕ) (bytes : List ℕ) (more : List (List ℕ))
      (n : ℕ)
      → OnSending
          (KeepsReadable s.state.is_readable)
          (IsTold s.state.is_readable)
          (sent w s r bytes more n)
  unfolding sent
  sent-IsTold s (socket, ok count) bytes more n = refl
  sent-IsTold s (socket, err e) bytes more n =
      on_error-IsTold (record s { socket = socket; write_buffer = bytes ∷ more }) n e
        (to_socket_error_action e tcp)

  write_round-IsTold :
      (s : TcpSocketStream w) (buffer : List (List ℕ)) (n : ℕ)
      → OnSending
          (KeepsReadable s.state.is_readable)
          (IsTold s.state.is_readable)
          (write_round w s buffer n)
  unfolding write_round Streams.ok
  write_round-IsTold s [] n = (refl, refl)
  write_round-IsTold s (bytes ∷ more) n = sent-IsTold s (w.write s.socket bytes) bytes more n

  flushed-IsTold :
      (fuel : ℕ) (s s' : TcpSocketStream w) (r : StreamResult)
      → write_from_buffer w fuel s ≡ some (s', r)
      → IsTold s.state.is_readable (s', r)
  unfolding write_from_buffer
  flushed-IsTold fuel s s' r e =
      let b = s.state.is_readable in
      OnSome-some (IsTold b) (write_from_buffer w fuel s) e (
        sending-OnSome (KeepsReadable b) (IsTold b) (λ u n. write_round w u u.write_buffer n)
          (λ u n h.
            subst (λ x. OnSending (KeepsReadable x) (IsTold x) (write_round w u u.write_buffer n)) h
              (write_round-IsTold u u.write_buffer n))
          fuel s 0 refl)

  written-IsTold :
      (fuel : ℕ) (s s' : TcpSocketStream w) (bytes : List ℕ) (r : StreamResult)
      → write w fuel s bytes ≡ some (s', r)
      → IsTold s.state.is_readable (s', r)
  unfolding write
  written-IsTold fuel s s' bytes r e =
      flushed-IsTold fuel (record s { write_buffer = s.write_buffer ++ bytes ∷ [] }) s' r e

module _ (w : WinSocket) where
  written-Agrees : (b : Bool) (ds : List Did) → Agrees IsWritable IsFull b (of_write b ∷ ds)
  written-Agrees true ds = Agrees-set IsWritable IsFull sent_all ds tt
  written-Agrees false ds = Agrees-cleared IsWritable IsFull sent_less ds (λ u. u) tt

  unread-Agrees :
      (b all : Bool) (ds : List Did)
      → Agrees IsReadable IsDrained b ds
      → Agrees IsReadable IsDrained b (of_write all ∷ ds)
  unread-Agrees b true ds old = Agrees-kept IsReadable IsDrained b sent_all ds (λ u. u) (λ u. u) old
  unread-Agrees b false ds old =
      Agrees-kept IsReadable IsDrained b sent_less ds (λ u. u) (λ u. u) old

  told-IsReady :
      (s s' : TcpSocketStream w) (ds : List Did) (r : StreamResult)
      → IsTold w s.state.is_readable (s', r)
      → IsReady w s ds
      → IsReady w s' (of_write (is_sent_all r) ∷ ds)
  told-IsReady s s' ds r (same, told) (readable, writable) = (
    subst (λ b. Agrees IsReadable IsDrained b (of_write (is_sent_all r) ∷ ds)) (sym same)
        (unread-Agrees s.state.is_readable (is_sent_all r) ds readable),
    subst (λ b. Agrees IsWritable IsFull b (of_write (is_sent_all r) ∷ ds)) (sym told)
        (written-Agrees (is_sent_all r) ds),
  )

  received-IsReady :
      (s : TcpSocketStream w) (ds : List Did) (ret : IoResult (List ℕ)) (p : PendingWrite)
      → IsReady w s ds
      → IsReady w (received w s ret p).0 (of_read ret ∷ ds)
  unfolding received
  received-IsReady s ds (ok []) p (readable, writable) = (
    Agrees-cleared IsReadable IsDrained got_nothing ds (λ u. u) tt,
    Agrees-kept IsWritable IsFull s.state.is_writable got_nothing ds (λ u. u) (λ u. u) writable,
  )
  received-IsReady s ds (ok (b ∷ bytes)) p (readable, writable) = (
    Agrees-set IsReadable IsDrained got_bytes ds tt,
    Agrees-kept IsWritable IsFull s.state.is_writable got_bytes ds (λ u. u) (λ u. u) writable,
  )
  received-IsReady s ds (err e) p (readable, writable) = (
    Agrees-cleared IsReadable IsDrained got_nothing ds (λ u. u) tt,
    Agrees-kept IsWritable IsFull s.state.is_writable got_nothing ds (λ u. u) (λ u. u) writable,
  )

  -- Winsock tells each event once. Whatever happened to a TCP stream, it counts as readable exactly if a
  -- poll has told so or a read has given bytes, and since then no read gave none; and as writable exactly
  -- if a poll has told so or a write has left nothing to be sent, and since then none has left something.
  pub reached-IsReady : (s : TcpSocketStream w) (ds : List Did) → Reached w s ds → IsReady w s ds
  unfolding get_state has_error read shutdown_write
  reached-IsReady _ _ (made socket handle) = (
    (λ e. absurd (true-eq-false (sym e)), λ h. absurd (none-Since IsReadable IsDrained h)),
    (λ e. absurd (true-eq-false (sym e)), λ h. absurd (none-Since IsWritable IsFull h)),
  )
  reached-IsReady _ _ (asked s ds before) =
      let (readable, writable) = reached-IsReady s ds before in
      let e = (w.get_events s.socket).1 in
      (
        Agrees-polled IsReadable IsDrained s.state.is_readable e.is_readable (polled e) ds
            (λ x. x, λ x. x) (λ u. u) readable,
        Agrees-polled IsWritable IsFull s.state.is_writable e.is_writable (polled e) ds
            (λ x. x, λ x. x) (λ u. u) writable,
      )
  reached-IsReady _ _ (checked s ds before) = reached-IsReady s ds before
  reached-IsReady _ _ (was_read s ds before) =
      received-IsReady (record s { socket = (w.read s.socket).0 }) ds (w.read s.socket).1
        (buffer_pends w s.write_buffer) (reached-IsReady s ds before)
  reached-IsReady _ _ (was_written s s' ds fuel bytes r before e) =
      told-IsReady s s' ds r (written-IsTold w fuel s s' bytes r e) (reached-IsReady s ds before)
  reached-IsReady _ _ (was_flushed s s' ds fuel r before e) =
      told-IsReady s s' ds r (flushed-IsTold w fuel s s' r e) (reached-IsReady s ds before)
  reached-IsReady _ _ (was_shut s ds before) = reached-IsReady s ds before
