-- ===== src/Windows/Tcp/Ending.antt =====
-- connection/windows/tcp.rs: how much fuel the loop over the write buffer takes.
use protun.Base.{ℕ, suc, ◌+◌, ◌<◌, ◌≢◌, List, [], ◌∷◌, length, arith, ap}
use protun.Base.Fuel.{Ends}
use protun.Io.{IoResult, ok, err}
use protun.Device.{MakesProgress}
use protun.Device.Sending.{IsLighter, sending-Ends}
use protun.Device.Buffer.{weight, weight-snoc, weight-unsent}
use protun.Windows.Socket.{WinSocket}
use protun.Windows.Tcp.{TcpSocketStream, sent, write_round, write_from_buffer, write}

module _ (w : WinSocket) (progress : MakesProgress w.device) where
  abbrev waiting : TcpSocketStream w → ℕ → ℕ
  waiting s n = weight s.write_buffer

  sent-IsLighter :
      (s : TcpSocketStream w) (r : w.Sock × IoResult ℕ) (bytes : List ℕ) (more : List (List ℕ))
      (n : ℕ)
      → (0 < length bytes → r.1 ≢ ok 0)
      → IsLighter waiting (weight (bytes ∷ more)) (sent w s r bytes more n)
  unfolding sent
  sent-IsLighter s (socket, err e) bytes more n some_taken = tt
  sent-IsLighter s (socket, ok count) bytes more n some_taken =
      weight-unsent count bytes more (λ p z. some_taken p (ap ok z))

  write_round-IsLighter :
      (s : TcpSocketStream w) (buffer : List (List ℕ)) (n : ℕ)
      → IsLighter waiting (weight buffer) (write_round w s buffer n)
  unfolding write_round
  write_round-IsLighter s [] n = tt
  write_round-IsLighter s (bytes ∷ more) n =
      sent-IsLighter s (w.write s.socket bytes) bytes more n (progress s.socket bytes)

  -- On Windows, if the socket takes at least one byte of every write that does not fail, a write ends, on
  -- any fuel above the number of bytes and pieces that are then to be sent.
  pub winsock_write-Ends :
      (fuel : ℕ) (s : TcpSocketStream w) (bytes : List ℕ)
      → weight s.write_buffer + suc (length bytes) < fuel
      → Ends (write w fuel s bytes)
  unfolding write write_from_buffer
  winsock_write-Ends fuel s bytes h =
      sending-Ends waiting (λ u n. write_round w u u.write_buffer n)
        (λ u n. write_round-IsLighter u u.write_buffer n) fuel _ 0
        (omega (arith, weight-snoc s.write_buffer bytes))
