-- ===== src/Mio/Tcp/Order.antt =====
-- connection/mio/tcp.rs: the bytes of a TCP stream are sent in order and none is lost.
use protun.Base.{ℕ, ◌≡◌, refl, sym, ◌∙◌, ap, some, List, [], ◌∷◌, ◌++◌, if_elim, subst}
use protun.Base.Loop.{OnSome-some}
use protun.Io.{IoResult, ok, err}
use protun.Streams
use protun.Streams.{StreamResult, no_pending_write}
use protun.Device.{Device, TakesInOrder, Took, is_would_block}
use protun.Device.Sending.{OnSending, sending-OnSome}
use protun.Device.Buffer.{concat, concat-snoc, Took-unsent}
use protun.Mio.Tcp.{TcpSocketStream, sent, write_round, write_buffered, write_from_buffer, write}
use mathlib.Core.List.{append_assoc}

module _ (d : Device) (t : TakesInOrder d) where
  -- What was sent, followed by what waits to be sent.
  abbrev pub all_bytes : TcpSocketStream d → List ℕ
  all_bytes s = t.taken s.sock ++ concat s.write_buffer

  -- A result without a pending write leaves nothing to be sent.
  abbrev pub IsSettled : TcpSocketStream d → StreamResult → Type 0
  IsSettled s (StreamResult.done r) = r.pends ≡ no_pending_write → s.write_buffer ≡ []
  IsSettled s _ = Unit

  abbrev Keeps : List ℕ → TcpSocketStream d → ℕ → Type 0
  Keeps all s n = all_bytes s ≡ all

  abbrev IsSentAll : List ℕ → TcpSocketStream d × StreamResult → Type 0
  IsSentAll all (s, r) = (all_bytes s ≡ all) × IsSettled s r

  sent-Keeps :
      (before bytes : List ℕ) (more : List (List ℕ)) (n : ℕ) (r : d.Sock × IoResult ℕ)
      → Took before (t.taken r.0) bytes r.1
      → (let all = before ++ (bytes ++ concat more) in
          OnSending (Keeps all) (IsSentAll all) (sent d r bytes more n))
  unfolding sent Streams.ok
  sent-Keeps before bytes more n (sock, ok count) took =
      Took-unsent before (t.taken sock) bytes more count took
  sent-Keeps before bytes more n (sock, err e) taken = (
    ap (λ xs. xs ++ (bytes ++ concat more)) taken,
    if_elim (IsSettled (record { sock = sock; write_buffer = bytes ∷ more }))
        (is_would_block e.kind) (λ b p. cc) (λ b. tt),
  )

  write_round-Keeps :
      (s : TcpSocketStream d) (buffer : List (List ℕ)) (n : ℕ)
      → s.write_buffer ≡ buffer
      → (let all = t.taken s.sock ++ concat buffer in
          OnSending (Keeps all) (IsSentAll all) (write_round d s buffer n))
  unfolding write_round Streams.ok
  write_round-Keeps s [] n e = (ap (λ xss. t.taken s.sock ++ concat xss) e, λ p. e)
  write_round-Keeps s (bytes ∷ more) n e =
      sent-Keeps (t.taken s.sock) bytes more n (d.write s.sock bytes) (t.takes s.sock bytes)

  pub write_from_buffer-IsSentAll :
      (fuel : ℕ) (s s' : TcpSocketStream d) (r : StreamResult)
      → write_from_buffer d fuel s ≡ some (s', r)
      → (all_bytes s' ≡ all_bytes s) × IsSettled s' r
  unfolding write_from_buffer write_buffered
  write_from_buffer-IsSentAll fuel s s' r e =
      let all = all_bytes s in
      OnSome-some (IsSentAll all) (write_from_buffer d fuel s) e (
        sending-OnSome (Keeps all) (IsSentAll all) (λ u n. write_round d u u.write_buffer n)
          (λ u n h.
            subst (λ a. OnSending (Keeps a) (IsSentAll a) (write_round d u u.write_buffer n)) h
              (write_round-Keeps u u.write_buffer n refl))
          fuel s 0 refl)

  -- After a write the bytes that the socket has taken, followed by those that wait, are what they were
  -- before followed by the bytes written: they are sent in order, and none is lost or sent twice. If
  -- no write is pending by the result, none waits.
  pub write-IsSentAll :
      (fuel : ℕ) (s s' : TcpSocketStream d) (bytes : List ℕ) (r : StreamResult)
      → write d fuel s bytes ≡ some (s', r)
      → (all_bytes s' ≡ all_bytes s ++ bytes) × IsSettled s' r
  unfolding write
  write-IsSentAll fuel s s' bytes r e =
      let joined = record s { write_buffer = s.write_buffer ++ bytes ∷ [] } in
      let sent = write_from_buffer-IsSentAll fuel joined s' r e in
      (
        sent.0
            ∙ (ap (λ ys. t.taken s.sock ++ ys) (concat-snoc s.write_buffer bytes)
                ∙ sym (append_assoc (t.taken s.sock) (concat s.write_buffer) bytes)),
        sent.1,
      )
