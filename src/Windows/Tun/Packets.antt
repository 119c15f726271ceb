-- ===== src/Windows/Tun/Packets.antt =====
-- connection/windows/tun_windows.rs: a write hands all its bytes to Wintun.
use protun.Base.{
  ℕ, zero, suc, ◌<◌, ◌≡◌, refl, sym, ◌∙◌, ap, Option, some, List, [], ◌∷◌, ◌++◌, drop, take, length,
  length-drop, take-append-drop, min, subst, String, arith, ◌⊎◌, inl, inr, ◌+◌, take_more,
}
use protun.Io.{IoError}
use protun.Streams
use protun.Streams.{StreamResult, would_not_block, no_pending_write}
use protun.Windows.Tun.{
  Wintun, WintunResult, ok, err, WintunError, TunStreamWindows, u16_max, or_failed, write_unwritten,
  write, wintun_error_to_result,
}
use mathlib.Core.List.{append_assoc, append-nil}

-- A session that allocates packets of the size that is asked for, and sends what is put into them, in
-- order; `taken` are the bytes sent so far.
pub record SendsInOrder (t : Wintun) : Type 1 where
  pub taken : t.Session → List ℕ
  pub allocated :
      (s : t.Session) (n : ℕ)
      → ((t.allocate_send_packet s n).1 ≡ ok n)
        ⊎ ((e : WintunError) × ((t.allocate_send_packet s n).1 ≡ err e))
  pub nothing_sent : (s : t.Session) (n : ℕ) → taken (t.allocate_send_packet s n).0 ≡ taken s
  pub sent : (s : t.Session) (bytes : List ℕ) → taken (t.send_packet s bytes) ≡ taken s ++ bytes

module _ (t : Wintun) (text : IoError → String) (o : SendsInOrder t) where
  abbrev Tun : Type 0
  Tun = TunStreamWindows t text

  -- All bytes are sent, or after an error a first part of them.
  abbrev pub IsWritten : List ℕ → List ℕ → ℕ → Tun × StreamResult → Type 0
  IsWritten before bytes n (s, StreamResult.done r) =
      (o.taken s.tun ≡ before ++ bytes) × (r.bytes_count ≡ n) × (r.pends ≡ no_pending_write)
  IsWritten before bytes n (s, _) = (k : ℕ) × (o.taken s.tun ≡ before ++ take k bytes)

  IsWritten-next :
      (before middle bytes : List ℕ) (m n : ℕ) (x : Tun × StreamResult)
      → middle ≡ before ++ take m bytes
      → IsWritten middle (drop m bytes) n x
      → IsWritten before bytes n x
  IsWritten-next before middle bytes m n (s, StreamResult.done r) e (all, counts, pends) = (
    all
        ∙ ap (λ ys. ys ++ drop m bytes) e
        ∙ append_assoc before (take m bytes) (drop m bytes)
        ∙ ap (λ ys. before ++ ys) (take-append-drop m bytes),
    counts,
    pends,
  )
  IsWritten-next before middle bytes m n (s, StreamResult.failed f) e (k, part) = (
    m + k,
    part
        ∙ ap (λ ys. ys ++ take k (drop m bytes)) e
        ∙ append_assoc before (take m bytes) (take k (drop m bytes))
        ∙ ap (λ ys. before ++ ys) (take_more m k bytes),
  )
  IsWritten-next before middle bytes m n (s, StreamResult.stream_closed) e (k, part) = (
    m + k,
    part
        ∙ ap (λ ys. ys ++ take k (drop m bytes)) e
        ∙ append_assoc before (take m bytes) (take k (drop m bytes))
        ∙ ap (λ ys. before ++ ys) (take_more m k bytes),
  )

  wintun_error_to_result-IsWritten :
      (s : Tun) (before bytes : List ℕ) (n : ℕ) (e : WintunError)
      → o.taken s.tun ≡ before
      → IsWritten before bytes n (s, wintun_error_to_result e)
  unfolding wintun_error_to_result
  wintun_error_to_result-IsWritten s before bytes n (WintunError.io e) same =
      (0, same ∙ sym (append-nil before))
  wintun_error_to_result-IsWritten s before bytes n (WintunError.another m) same =
      (0, same ∙ sym (append-nil before))

  abbrev Returns : List ℕ → List ℕ → ℕ → Option (Tun × StreamResult) → Type 0
  Returns before bytes n r = (x : Tun × StreamResult) × (r ≡ some x) × IsWritten before bytes n x

  or_failed-Returns :
      (s : Tun) (before bytes : List ℕ) (n m : ℕ) (r : t.Session × WintunResult ℕ)
      (go : t.Session → ℕ → Option (Tun × StreamResult))
      → (r.1 ≡ ok m) ⊎ ((e : WintunError) × (r.1 ≡ err e))
      → o.taken r.0 ≡ before
      → ((tun : t.Session) → o.taken tun ≡ before → Returns before bytes n (go tun m))
      → Returns before bytes n (or_failed t text s r go)
  or_failed-Returns s before bytes n m (tun, ok size) go (inl e) same goes =
      subst (λ k. Returns before bytes n (go tun k)) (cc) (goes tun same)
  or_failed-Returns s before bytes n m (tun, ok size) go (inr (w, e)) same goes = cc
  or_failed-Returns s before bytes n m (tun, err w) go _ same goes =
      (_, refl, wintun_error_to_result-IsWritten (record s { tun = tun }) before bytes n w same)

  write_unwritten-Returns :
      (fuel : ℕ) (s : Tun) (n : ℕ) (bytes : List ℕ)
      → length bytes < fuel
      → Returns (o.taken s.tun) bytes n (write_unwritten t text fuel s n bytes)
  unfolding write_unwritten Streams.ok
  write_unwritten-Returns zero s n bytes h = absurd (omega arith)
  write_unwritten-Returns (suc fuel) s n [] h =
      (_, refl, (sym (append-nil (o.taken s.tun)), refl, refl))
  write_unwritten-Returns (suc fuel) s n (b ∷ bytes) h =
      let l = b ∷ bytes in
      let m = min (length l) u16_max in
      or_failed-Returns s (o.taken s.tun) l n m (t.allocate_send_packet s.tun m) _
        (o.allocated s.tun m) (o.nothing_sent s.tun m)
        (λ tun same.
          let rest =
            write_unwritten-Returns fuel (record s { tun = t.send_packet tun (take m l) }) n
              (drop m l) (omega (arith, length-drop m l)) in
          (
            rest.0,
            rest.1,
            IsWritten-next (o.taken s.tun) _ l m n rest.0
                (o.sent tun (take m l) ∙ ap (λ ys. ys ++ take m l) same) rest.2,
          ))

  -- Let Wintun allocate a packet of the size that is asked for, or fail, and send what is put into packets
  -- in order. Then on any fuel above the number of bytes a write returns; by a result that is no failure
  -- it has sent all the bytes, after all that was sent before, and reports their number; and a write that
  -- fails has sent a first part of them and nothing else.
  pub wintun_write-Returns :
      (fuel : ℕ) (s : Tun) (bytes : List ℕ)
      → length bytes < fuel
      → (x : Tun × StreamResult) × (write t text fuel s bytes ≡ some x)
        × IsWritten (o.taken s.tun) bytes (length bytes) x
  unfolding write
  wintun_write-Returns fuel s bytes h = write_unwritten-Returns fuel s (length bytes) bytes h
