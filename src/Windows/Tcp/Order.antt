-- ===== src/Windows/Tcp/Order.antt =====
-- connection/windows/tcp.rs: the bytes of a TCP stream are sent in order and none is lost.
use protun.Base.{
  ℕ, true, false, ◌≡◌, ◌≢◌, refl, sym, ◌∙◌, ap, some, List, [], ◌∷◌, ◌++◌, subst, ◌⊎◌, inl, inr,
}
use protun.Base.Loop.{OnSome-some}
use protun.Io.{IoError, IoResult, ok, err}
use protun.Streams
use protun.Streams.{StreamResult, no_pending_write, pending_write}
use protun.Device.{TakesInOrder, Took}
use protun.Device.Sending.{OnSending, sending-OnSome}
use protun.Device.Buffer.{concat, concat-snoc, Took-unsent}
use protun.Windows.Socket.{WinSocket}
use protun.Windows.SocketErrors.{SocketErrorAction, to_socket_error_action, tcp}
use protun.Windows.Tcp.{
  TcpSocketStream, with_writable, on_error, sent, write_round, write_from_buffer, write,
}
use mathlib.Core.List.{append_assoc}

module _ (w : WinSocket) (t : TakesInOrder w.device) where
  -- What was sent, followed by what waits to be sent.
  abbrev pub all_bytes : TcpSocketStream w → List ℕ
  all_bytes s = t.taken s.socket ++ concat s.write_buffer

  -- A stream is writable if nothing waits; else it is not, and a result that is no failure says so.
  abbrev pub IsSettled : TcpSocketStream w → StreamResult → Type 0
  IsSettled s (StreamResult.done r) =
      (r.pends ≡ no_pending_write) × (s.write_buffer ≡ []) × (s.state.is_writable ≡ true)
      ⊎ (r.pends ≡ pending_write) × (s.write_buffer ≢ []) × (s.state.is_writable ≡ false)
  IsSettled s _ = (s.write_buffer ≢ []) × (s.state.is_writable ≡ false)

  abbrev Keeps : List ℕ → TcpSocketStream w → ℕ → Type 0
  Keeps all s n = all_bytes s ≡ all

  abbrev IsSentAll : List ℕ → TcpSocketStream w × StreamResult → Type 0
  IsSentAll all (s, r) = (all_bytes s ≡ all) × IsSettled s r

  on_error-IsSettled :
      (s : TcpSocketStream w) (bytes : List ℕ) (more : List (List ℕ)) (n : ℕ) (e : IoError)
      (a : SocketErrorAction)
      → IsSettled
          (with_writable w false (record s { write_buffer = bytes ∷ more }))
          (on_error w a e (Streams.ok n Streams.would_block pending_write))
  unfolding Streams.ok
  on_error-IsSettled s bytes more n e SocketErrorAction.fatal_socket_error = (λ p. cc p, refl)
  on_error-IsSettled s bytes more n e SocketErrorAction.would_block = inr (refl, λ p. cc p, refl)

  sent-Keeps :
      (s : TcpSocketStream w) (before bytes : List ℕ) (more : List (List ℕ)) (n : ℕ)
      (r : w.Sock × IoResult ℕ)
      → Took before (t.taken r.0) bytes r.1
      → (let all = before ++ (bytes ++ concat more) in
          OnSending (Keeps all) (IsSentAll all) (sent w s r bytes more n))
  unfolding sent
  sent-Keeps s before bytes more n (socket, ok count) took =
      Took-unsent before (t.taken socket) bytes more count took
  sent-Keeps s before bytes more n (socket, err e) taken = (
    ap (λ xs. xs ++ (bytes ++ concat more)) taken,
    on_error-IsSettled (record s { socket = socket }) bytes more n e (to_socket_error_action e tcp),
  )

  write_round-Keeps :
      (s : TcpSocketStream w) (buffer : List (List ℕ)) (n : ℕ)
      → s.write_buffer ≡ buffer
      → (let all = t.taken s.socket ++ concat buffer in
          OnSending (Keeps all) (IsSentAll all) (write_round w s buffer n))
  unfolding write_round Streams.ok
  write_round-Keeps s [] n e = (ap (λ xss. t.taken s.socket ++ concat xss) e, inl (refl, e, refl))
  write_round-Keeps s (bytes ∷ more) n e =
      sent-Keeps s (t.taken s.socket) bytes more n (w.write s.socket bytes) (t.takes s.socket bytes)

  -- After a write on Windows the bytes that the socket has taken, followed by those that wait, are what
  -- they were before followed by the bytes written: they are sent in order, and none is lost or sent
  -- twice. If nothing waits, the result says that no write is pending and the stream counts as writable;
  -- if something waits, the result is a failure or says that a write is pending, and the stream does not
  -- count as writable.
  pub write-Settles :
      (fuel : ℕ) (s s' : TcpSocketStream w) (bytes : List ℕ) (r : StreamResult)
      → write w fuel s bytes ≡ some (s', r)
      → (all_bytes s' ≡ all_bytes s ++ bytes) × IsSettled s' r
  unfolding write write_from_buffer
  write-Settles fuel s s' bytes r e =
      let all = all_bytes s ++ bytes in
      OnSome-some (IsSentAll all) (write w fuel s bytes) e (
        sending-OnSome (Keeps all) (IsSentAll all) (λ u n. write_round w u u.write_buffer n)
          (λ u n h.
            subst (λ a. OnSending (Keeps a) (IsSentAll a) (write_round w u u.write_buffer n)) h
              (write_round-Keeps u u.write_buffer n refl))
          fuel _ 0
          (ap (λ ys. t.taken s.socket ++ ys) (concat-snoc s.write_buffer bytes)
            ∙ sym (append_assoc (t.taken s.socket) (concat s.write_buffer) bytes)))
