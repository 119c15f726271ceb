-- ===== src/Windows/Tcp/History.antt =====
-- connection/windows/tcp.rs: what has happened to a stream, and whether a bit of its state agrees with
-- that.
use protun.Base.{
  ℕ, ◌≡◌, refl, sym, ◌↔◌, ◌⊎◌, inl, inr, Bool, true, false, ◌||◌, List, [], ◌∷◌, subst,
}
use protun.Io.{IoResult, ok, err}
use protun.Streams.{StreamResult, PendingWrite, pending_write, no_pending_write}
use protun.Windows.Socket.{SocketEvent}

-- What has happened to a stream: a poll asked for its events, a read gave bytes or none, a write left
-- nothing to be sent or something.
pub data Did : Type 0 where
  polled : SocketEvent → Did
  got_bytes got_nothing sent_all sent_less : Did

-- Last one first: something of the one kind has happened, and since then nothing of the other.
pub data Since (Sets Clears : Did → Type 0) : List Did → Type 0 where
  now : {d : Did} {ds : List Did} → Sets d → Since Sets Clears (d ∷ ds)
  still : {d : Did} {ds : List Did} → ¬ Clears d → Since Sets Clears ds → Since Sets Clears (d ∷ ds)

abbrev pub IsReadable : Did → Type 0
IsReadable (polled e) = e.is_readable ≡ true
IsReadable got_bytes = Unit
IsReadable _ = ⊥

abbrev pub IsDrained : Did → Type 0
IsDrained got_nothing = Unit
IsDrained _ = ⊥

abbrev pub IsWritable : Did → Type 0
IsWritable (polled e) = e.is_writable ≡ true
IsWritable sent_all = Unit
IsWritable _ = ⊥

abbrev pub IsFull : Did → Type 0
IsFull sent_less = Unit
IsFull _ = ⊥

abbrev pub of_read : IoResult (List ℕ) → Did
of_read (ok []) = got_nothing
of_read (ok (b ∷ bytes)) = got_bytes
of_read (err e) = got_nothing

abbrev pub has_no_pending : PendingWrite → Bool
has_no_pending no_pending_write = true
has_no_pending pending_write = false

abbrev pub is_sent_all : StreamResult → Bool
is_sent_all (StreamResult.done r) = has_no_pending r.pends
is_sent_all _ = false

abbrev pub of_write : Bool → Did
of_write true = sent_all
of_write false = sent_less

pub true-eq-false : true ≡ false → ⊥
true-eq-false e = cc

pub or_true : (b : Bool) → (b || true) ≡ true
or_true true = refl
or_true false = refl

pub or_false : (b : Bool) → (b || false) ≡ b
or_false true = refl
or_false false = refl

module _ (Sets Clears : Did → Type 0) where
  pub Since-cases :
      (d : Did) (ds : List Did)
      → Since Sets Clears (d ∷ ds)
      → Sets d ⊎ (¬ Clears d) × Since Sets Clears ds
  Since-cases d ds (now s) = inl s
  Since-cases d ds (still c h) = inr (c, h)

  pub none-Since : Since Sets Clears [] → ⊥
  none-Since h = elim h [ ]

  -- How the bit and the history agree after something that sets it, clears it or is about something else.
  abbrev pub Agrees : Bool → List Did → Type 0
  Agrees b ds = (b ≡ true) ↔ Since Sets Clears ds

  pub Agrees-set : (d : Did) (ds : List Did) → Sets d → Agrees true (d ∷ ds)
  Agrees-set d ds s = (λ e. now s, λ h. refl)

  pub Agrees-cleared : (d : Did) (ds : List Did) → ¬ Sets d → Clears d → Agrees false (d ∷ ds)
  Agrees-cleared d ds unset c = (
    λ e. absurd (true-eq-false (sym e)),
    λ h. elim (Since-cases d ds h) [
      | inl s ↦ absurd (unset s)
      | inr (not_c, h') ↦ absurd (not_c c)
    ],
  )

  pub Agrees-kept :
      (b : Bool) (d : Did) (ds : List Did) → ¬ Sets d → ¬ Clears d → Agrees b ds → Agrees b (d ∷ ds)
  Agrees-kept b d ds unset not_c (to, from) = (
    λ e. still not_c (to e),
    λ h. elim (Since-cases d ds h) [ inl s ↦ absurd (unset s) | inr (u, h') ↦ from h' ],
  )

  pub Agrees-polled :
      (b x : Bool) (d : Did) (ds : List Did)
      → (Sets d ↔ (x ≡ true))
      → ¬ Clears d
      → Agrees b ds
      → Agrees (b || x) (d ∷ ds)
  Agrees-polled b true d ds sets not_c old =
      subst (λ y. Agrees y (d ∷ ds)) (sym (or_true b)) (Agrees-set d ds (sets.1 refl))
  Agrees-polled b false d ds sets not_c old =
      subst (λ y. Agrees y (d ∷ ds)) (sym (or_false b))
        (Agrees-kept b d ds (λ s. true-eq-false (sym (sets.0 s))) not_c old)
