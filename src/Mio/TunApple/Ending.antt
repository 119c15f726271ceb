-- ===== src/Mio/TunApple/Ending.antt =====
-- connection/mio/tun_apple.rs: the loop of a write ends on any device.
use protun.Base.{
  ℕ, zero, suc, ◌+◌, ◌-◌, ◌<◌, List, [], ◌∷◌, refl, drop, length, ltb, ltb→lt, if_elim, arith,
}
use protun.Base.Fuel.{Ends}
use protun.Io.{IoResult, ok, err, invalid_data}
use protun.Device.{Device}
use protun.Device.Sending.{IsLighter, sending-Ends}
use protun.Mio.TunApple.{
  Apple, io_error, TunStreamApple, wrote, write_round, write_from, write_packet, write,
  address_family,
}

module _ (apple : Apple) (d : Device) where
  abbrev Tun : Type 0
  Tun = TunStreamApple apple d

  abbrev left : Tun → ℕ → ℕ
  left s k = length s.write_buffer - k

  wrote-IsLighter :
      (s : Tun) (r : d.Sock × IoResult ℕ) (k : ℕ)
      → k < length s.write_buffer
      → IsLighter left (left s k) (wrote apple d s r k)
  unfolding wrote
  wrote-IsLighter s (file, ok zero) k h = tt
  wrote-IsLighter s (file, ok (suc count)) k h = omega arith
  wrote-IsLighter s (file, err e) k h = tt

  write_round-IsLighter :
      (n : ℕ) (s : Tun) (k : ℕ) → IsLighter left (left s k) (write_round apple d s n k)
  unfolding write_round
  write_round-IsLighter n s k =
      if_elim (IsLighter left (left s k)) (ltb k (length s.write_buffer))
        (λ e.
          wrote-IsLighter s (d.write s.file (drop k s.write_buffer)) k
            (ltb→lt k (length s.write_buffer) e))
        (λ e. tt)

  write_packet-Ends :
      (fuel : ℕ) (s : Tun) (bytes : List ℕ) (r : IoResult ℕ)
      → 4 + length bytes < fuel
      → Ends (write_packet apple d fuel s bytes r)
  unfolding write_packet write_from
  write_packet-Ends fuel s bytes (err e) h = (_, refl)
  write_packet-Ends fuel s bytes (ok af) h =
      sending-Ends left (λ u m. write_round apple d u (length bytes) m)
        (write_round-IsLighter (length bytes)) fuel _ 0 (omega arith)

  -- A write ends on any fuel above the length of the packet with its header, whatever the device does.
  pub tun_write-Ends :
      (fuel : ℕ) (s : Tun) (bytes : List ℕ)
      → 4 + length bytes < fuel
      → Ends (write apple d fuel s bytes)
  unfolding write
  tun_write-Ends fuel s [] h =
      write_packet-Ends fuel s [] (err (io_error invalid_data "Empty packet")) h
  tun_write-Ends fuel s (b ∷ bytes) h =
      write_packet-Ends fuel s (b ∷ bytes) (address_family apple d b) h
