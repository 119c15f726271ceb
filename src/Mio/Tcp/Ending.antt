-- ===== src/Mio/Tcp/Ending.antt =====
-- connection/mio/tcp.rs: how much fuel the loop over the write buffer takes.
use protun.Base.{ℕ, suc, ◌+◌, ◌<◌, ◌≢◌, List, [], ◌∷◌, ◌++◌, length, arith, ap}
use protun.Base.Fuel.{Ends}
use protun.Io.{IoResult, ok, err}
use protun.Device.{Device, MakesProgress}
use protun.Device.Sending.{IsLighter, sending-Ends}
use protun.Device.Buffer.{weight, weight-snoc, weight-unsent}
use protun.Mio.Tcp.{TcpSocketStream, sent, write_round, write_buffered, write_from_buffer, write}

module _ (d : Device) (progress : MakesProgress d) where
  abbrev waiting : TcpSocketStream d → ℕ → ℕ
  waiting s n = weight s.write_buffer

  sent-IsLighter :
      (r : d.Sock × IoResult ℕ) (bytes : List ℕ) (more : List (List ℕ)) (n : ℕ)
      → (0 < length bytes → r.1 ≢ ok 0)
      → IsLighter waiting (weight (bytes ∷ more)) (sent d r bytes more n)
  unfolding sent
  sent-IsLighter (sock, err e) bytes more n some_taken = tt
  sent-IsLighter (sock, ok count) bytes more n some_taken =
      weight-unsent count bytes more (λ p z. some_taken p (ap ok z))

  write_round-IsLighter :
      (s : TcpSocketStream d) (buffer : List (List ℕ)) (n : ℕ)
      → IsLighter waiting (weight buffer) (write_round d s buffer n)
  unfolding write_round
  write_round-IsLighter s [] n = tt
  write_round-IsLighter s (bytes ∷ more) n =
      sent-IsLighter (d.write s.sock bytes) bytes more n (progress s.sock bytes)

  pub write_from_buffer-Ends :
      (fuel : ℕ) (s : TcpSocketStream d)
      → weight s.write_buffer < fuel
      → Ends (write_from_buffer d fuel s)
  unfolding write_from_buffer write_buffered
  write_from_buffer-Ends fuel s h =
      sending-Ends waiting (λ u n. write_round d u u.write_buffer n)
        (λ u n. write_round-IsLighter u u.write_buffer n) fuel s 0 h

  -- If the socket takes at least one byte of every write that does not fail, a write ends, on any fuel
  -- above the number of bytes and pieces that are then to be sent.
  pub tcp_write-Ends :
      (fuel : ℕ) (s : TcpSocketStream d) (bytes : List ℕ)
      → weight s.write_buffer + suc (length bytes) < fuel
      → Ends (write d fuel s bytes)
  unfolding write
  tcp_write-Ends fuel s bytes h =
      write_from_buffer-Ends fuel (record s { write_buffer = s.write_buffer ++ bytes ∷ [] })
        (omega (arith, weight-snoc s.write_buffer bytes))
