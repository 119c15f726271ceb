-- ===== src/Mio/TunApple/Packets.antt =====
-- connection/mio/tun_apple.rs: a packet that is written whole is read back.
use protun.Base.{
  ℕ, zero, suc, ◌≡◌, refl, sym, ◌∙◌, ap, subst, some, List, ◌∷◌, ◌++◌, drop, take, take_more,
  take_all, length, ltb, leb, if_elim, arith,
}
use protun.Base.Loop.{OnSome, OnSome-some}
use protun.Io.{IoResult, ok, err}
use protun.Streams
use protun.Streams.{
  StreamResult, Transfer, WouldBlock, would_block, would_not_block, no_pending_write,
}
use protun.Device.{Device, TakesInOrder, Took, is_would_block}
use protun.Device.Sending.{OnSending, sending-OnSome}
use protun.Mio.TunApple.{
  Apple, TunStreamApple, apple_tun_packet_header_len, header, received, wrote, write_round,
  write_from, write_packet, write, address_family,
}
use mathlib.Core.List.{append_assoc, append-nil}

module _ (apple : Apple) (d : Device) where
  -- The payload that the connection loop takes out of a message with a header is the packet.
  pub received-header :
      (af : ℕ) (packet : List ℕ)
      → received apple d (ok (header apple d af ++ packet))
          ≡ StreamResult.done (record {
            bytes_count = length packet;
            start_offset = apple_tun_packet_header_len;
            blocks = would_not_block;
            pends = no_pending_write;
          })
        × (take (length packet) (drop apple_tun_packet_header_len (header apple d af ++ packet))
            ≡ packet)
  unfolding received
  received-header af packet = (ground arith, take_all (length packet) packet (omega arith))

module _ (apple : Apple) (d : Device) (t : TakesInOrder d) where
  abbrev Tun : Type 0
  Tun = TunStreamApple apple d

  -- The first part of the write buffer has been taken.
  abbrev IsTaken : List ℕ → Tun → ℕ → Type 0
  IsTaken before s n = t.taken s.file ≡ before ++ take n s.write_buffer

  -- By a result that does not block and is no error, all of the write buffer has been taken.
  abbrev IsWhole : List ℕ → List ℕ → ℕ → Tun × StreamResult → Type 0
  IsWhole before buffer n (s, StreamResult.done r) =
      r.blocks ≡ would_not_block → (t.taken s.file ≡ before ++ buffer) × (r.bytes_count ≡ n)
  IsWhole before buffer n _ = Unit

  abbrev Goes : List ℕ → List ℕ → Tun → ℕ → Type 0
  Goes before buffer s k = (s.write_buffer ≡ buffer) × IsTaken before s k

  wrote-Goes :
      (before : List ℕ) (s : Tun) (n k : ℕ) (r : d.Sock × IoResult ℕ)
      → IsTaken before s k
      → Took (t.taken s.file) (t.taken r.0) (drop k s.write_buffer) r.1
      → OnSending
          (Goes before s.write_buffer)
          (IsWhole before s.write_buffer n)
          (wrote apple d s r k)
  unfolding wrote Streams.ok
  wrote-Goes before s n k (file, ok zero) h took = tt
  wrote-Goes before s n k (file, ok (suc count)) h (small, took) = (
    refl,
    took
        ∙ ap (λ xs. xs ++ take (suc count) (drop k s.write_buffer)) h
        ∙ append_assoc before (take k s.write_buffer) (take (suc count) (drop k s.write_buffer))
        ∙ ap (λ xs. before ++ xs) (take_more k (suc count) s.write_buffer),
  )
  wrote-Goes before s n k (file, err e) h took =
      let P =
        (λ (r : StreamResult). IsWhole before s.write_buffer n (record s { file = file }, r)) in
      if_elim P (is_would_block e.kind)
        (λ b. if_elim P (leb apple_tun_packet_header_len k) (λ l q. cc) (λ l. tt)) (λ b. tt)

  write_round-Goes :
      (before : List ℕ) (s : Tun) (n k : ℕ)
      → IsTaken before s k
      → OnSending
          (Goes before s.write_buffer)
          (IsWhole before s.write_buffer n)
          (write_round apple d s n k)
  unfolding write_round Streams.ok
  write_round-Goes before s n k h =
      if_elim (OnSending (Goes before s.write_buffer) (IsWhole before s.write_buffer n))
        (ltb k (length s.write_buffer))
        (λ e.
          wrote-Goes before s n k (d.write s.file (drop k s.write_buffer)) h
            (t.takes s.file (drop k s.write_buffer)))
        (λ e b. (h ∙ ap (λ xs. before ++ xs) (take_all k s.write_buffer (ground arith)), refl))

  write_from-IsWhole :
      (fuel : ℕ) (before buffer : List ℕ) (n k : ℕ) (s : Tun)
      → Goes before buffer s k
      → OnSome (IsWhole before buffer n) (write_from apple d fuel n s k)
  unfolding write_from
  write_from-IsWhole fuel before buffer n k s h =
      sending-OnSome (Goes before buffer) (IsWhole before buffer n)
        (λ u m. write_round apple d u n m)
        (λ u m g.
          subst (λ b. OnSending (Goes before b) (IsWhole before b n) (write_round apple d u n m))
            g.0 (write_round-Goes before u n m g.1))
        fuel s k h

  -- A write that reports the success of a whole packet has given the device its header, with the family
  -- of the packet's version, and the packet, after all that it was given before; and it reports the
  -- length of the packet.
  pub write-IsWhole :
      (fuel af b : ℕ) (bytes : List ℕ) (s s' : Tun) (r : Transfer)
      → address_family apple d b ≡ ok af
      → write apple d fuel s (b ∷ bytes) ≡ some (s', StreamResult.done r)
      → r.blocks ≡ would_not_block
      → (t.taken s'.file ≡ t.taken s.file ++ (header apple d af ++ b ∷ bytes))
        × (r.bytes_count ≡ length (b ∷ bytes))
  unfolding write write_packet
  write-IsWhole fuel af b bytes s s' r family e =
      let buffer = header apple d af ++ b ∷ bytes in
      OnSome-some (IsWhole (t.taken s.file) buffer (length (b ∷ bytes)))
        (write_from apple d fuel (length (b ∷ bytes)) (record s { write_buffer = buffer }) 0)
        (ap (λ q. write_packet apple d fuel s (b ∷ bytes) q) (sym family) ∙ e)
        (write_from-IsWhole fuel (t.taken s.file) buffer (length (b ∷ bytes)) 0
          (record s { write_buffer = buffer }) (refl, sym (append-nil (t.taken s.file))))
