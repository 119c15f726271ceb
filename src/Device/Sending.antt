-- ===== src/Device/Sending.antt =====
-- The loops of the streams that send to a device until it blocks or has taken all, on fuel: a round
-- goes on with the number of bytes written so far, or returns.
use protun.Base.{ℕ, zero, suc, ◌<◌, refl, Option, none, some, arith}
use protun.Base.Loop.{OnSome}
use protun.Base.Fuel.{Ends}
use protun.Streams.{StreamResult}

pub data Sending {ℓ} (S : Type ℓ) : Type ℓ where
  again : S → ℕ → Sending S
  returned : S → StreamResult → Sending S

module _ {ℓ} {S : Type ℓ} where
  abbrev pub after_round :
      (S → ℕ → Option (S × StreamResult)) → Sending S → Option (S × StreamResult)
  after_round go (again s written) = go s written
  after_round go (returned s result) = some (s, result)

  unfoldable pub sending : (S → ℕ → Sending S) → ℕ → S → ℕ → Option (S × StreamResult)
  sending round zero s written = none
  sending round (suc fuel) s written = after_round (sending round fuel) (round s written)

  -- What `P` says of a state to go on with, and `Q` of a state and result that are returned.
  abbrev pub OnSending {κ} : (S → ℕ → Type κ) → (S × StreamResult → Type κ) → Sending S → Type κ
  OnSending P Q (again s n) = P s n
  OnSending P Q (returned s r) = Q (s, r)

  after_round-OnSome {κ} :
      (P : S → ℕ → Type κ) (Q : S × StreamResult → Type κ) (go : S → ℕ → Option (S × StreamResult))
      (r : Sending S)
      → OnSending P Q r
      → ((s : S) (n : ℕ) → P s n → OnSome Q (go s n))
      → OnSome Q (after_round go r)
  after_round-OnSome P Q go (again s n) h goes = goes s n h
  after_round-OnSome P Q go (returned s r) h goes = h

  -- If each round keeps `P` or returns with `Q`, the loop returns with `Q`.
  pub sending-OnSome {κ} :
      (P : S → ℕ → Type κ) (Q : S × StreamResult → Type κ) (round : S → ℕ → Sending S)
      → ((s : S) (n : ℕ) → P s n → OnSending P Q (round s n))
      → (fuel : ℕ) (s : S) (n : ℕ) → P s n
      → OnSome Q (sending round fuel s n)
  unfolding sending
  sending-OnSome P Q round keeps zero s n h = tt
  sending-OnSome P Q round keeps (suc fuel) s n h =
      after_round-OnSome P Q (sending round fuel) (round s n) (keeps s n h)
        (λ t m p. sending-OnSome P Q round keeps fuel t m p)

  -- A round that goes on leaves less to be done.
  abbrev pub IsLighter : (S → ℕ → ℕ) → ℕ → Sending S → Type 0
  IsLighter measure w (again s n) = measure s n < w
  IsLighter measure w (returned s r) = Unit

  after_round-Ends :
      (measure : S → ℕ → ℕ) (w : ℕ) (go : S → ℕ → Option (S × StreamResult)) (r : Sending S)
      → IsLighter measure w r
      → ((s : S) (n : ℕ) → measure s n < w → Ends (go s n))
      → Ends (after_round go r)
  after_round-Ends measure w go (again s n) h goes = goes s n h
  after_round-Ends measure w go (returned s r) h goes = (_, refl)

  -- A loop whose rounds bring a measure down ends on enough fuel.
  pub sending-Ends :
      (measure : S → ℕ → ℕ) (round : S → ℕ → Sending S)
      → ((s : S) (n : ℕ) → IsLighter measure (measure s n) (round s n))
      → (fuel : ℕ) (s : S) (n : ℕ) → measure s n < fuel
      → Ends (sending round fuel s n)
  unfolding sending
  sending-Ends measure round lighter zero s n h = absurd (omega arith)
  sending-Ends measure round lighter (suc fuel) s n h =
      after_round-Ends measure (measure s n) (sending round fuel) (round s n) (lighter s n)
        (λ t m lt. sending-Ends measure round lighter fuel t m (omega arith))
