-- ===== src/Windows/Session/Sizes.antt =====
-- connection/windows/helpers/wintun/wintun_session.rs: the size of the ring is one that Wintun takes.
use protun.Base.{
  ℕ, zero, suc, ◌+◌, ◌*◌, ◌^◌, ◌≤◌, ◌<◌, ◌≡◌, refl, sym, ◌∙◌, ap, ltb→lt, Option, none, some, ltb,
  leb, leb→le, if_elim, ◌⊎◌, inl, inr, arith,
}
use native.Mathlib.Nat.{pow-suc}
use protun.Windows.Session.{
  RingCapacity, next_power, checked_next_power_of_two, unwrap_or, clamp,
  get_valid_wintun_buffer_size,
}

abbrev pub IsPower : ℕ → Type 0
IsPower n = (k : ℕ) × (n ≡ 2 ^ k)

-- A power of two that is not below the number, and whose half is below it unless it is the first.
abbrev IsNext : ℕ → ℕ → Option ℕ → Type 0
IsNext n hi none = hi < n
IsNext n hi (some p) = IsPower p × (n ≤ p) × (p < 2 * n ⊎ (p ≡ 1))

next_power-IsNext :
    (more k p n : ℕ)
    → p ≡ 2 ^ k
    → (p < 2 * n ⊎ (p ≡ 1))
    → k + more ≡ 32
    → IsNext n (2 ^ 31) (next_power more p n)
unfolding next_power
next_power-IsNext zero k p n e small all =
    let last : p ≡ 2 ^ 32 = e ∙ ap (λ j. 2 ^ j) {y = 32} (omega arith) in
    elim small [ inl lt ↦ omega arith | inr one ↦ absurd (omega arith) ]
next_power-IsNext (suc more) k p n e small all =
    if_elim (IsNext n (2 ^ 31)) (leb n p) (λ le. ((k, e), leb→le n p le, small))
      (λ gt.
        next_power-IsNext more (suc k) (p * 2) n (ap (λ q. q * 2) e ∙ sym (pow-suc 2 k))
          (inl (ground arith)) (omega arith))

abbrev pub IsValidSize : RingCapacity → ℕ → ℕ → Type 0
IsValidSize c n v =
    IsPower v
    × (c.min_ring_capacity ≤ v)
    × (v ≤ c.max_ring_capacity)
    × (n ≤ c.max_ring_capacity → n ≤ v)
    × (c.min_ring_capacity < n → v < 2 * n)

below_double : (p n : ℕ) → p < 2 * n ⊎ (p ≡ 1) → 0 < n → p < 2 * n
below_double p n (inl lt) h = lt
below_double p n (inr one) h = omega arith

clamp-IsValidSize :
    (c : RingCapacity) (n : ℕ) (o : Option ℕ)
    → IsPower c.min_ring_capacity
    → IsPower c.max_ring_capacity
    → c.min_ring_capacity ≤ c.max_ring_capacity
    → c.max_ring_capacity < 2 ^ 32
    → IsNext n (2 ^ 31) o
    → IsValidSize c n
        (clamp (unwrap_or o c.max_ring_capacity) c.min_ring_capacity c.max_ring_capacity)
clamp-IsValidSize c n none lo hi le fits next =
    let max = c.max_ring_capacity in
    let IsValid = IsValidSize c n in
    if_elim IsValid (ltb max c.min_ring_capacity)
      (λ lt. absurd (omega (arith, ltb→lt max c.min_ring_capacity lt)))
      (λ ge.
        if_elim IsValid (ltb max max) (λ lt. absurd (omega (arith, ltb→lt max max lt)))
          (λ eq. (hi, le, omega arith, λ small. small, λ big. omega arith)))
clamp-IsValidSize c n (some p) lo hi le fits (power, above, small) =
    let IsValid = IsValidSize c n in
    if_elim IsValid (ltb p c.min_ring_capacity)
      (λ lt. (
        lo,
        omega arith,
        le,
        λ small. omega (arith, ltb→lt p c.min_ring_capacity lt),
        λ big. omega arith,
      ))
      (λ ge.
        if_elim IsValid (ltb c.max_ring_capacity p)
          (λ lt. (
            hi,
            le,
            omega arith,
            λ fit. fit,
            λ big.
                omega
                  (arith, below_double p n small (omega arith), ltb→lt c.max_ring_capacity p lt),
          ))
          (λ not_gt. (
            power,
            ground arith,
            ground arith,
            λ fit. above,
            λ big. below_double p n small (omega arith),
          )))

-- Let the least and the greatest size that Wintun takes be powers of two, in order, and the greatest a
-- u32. Then the size of the ring is a power of two between them; it is not below the proposed size unless
-- that is above the greatest; and it is less than twice the proposed size, unless that is not above the
-- least.
pub buffer_size-IsValidSize :
    (c : RingCapacity) (proposed_size : ℕ)
    → IsPower c.min_ring_capacity
    → IsPower c.max_ring_capacity
    → c.min_ring_capacity ≤ c.max_ring_capacity
    → c.max_ring_capacity < 2 ^ 32
    → IsValidSize c proposed_size (get_valid_wintun_buffer_size c proposed_size)
unfolding get_valid_wintun_buffer_size checked_next_power_of_two
buffer_size-IsValidSize c n lo hi le fits =
    clamp-IsValidSize c n (next_power 32 1 n) lo hi le fits
      (next_power-IsNext 32 0 1 n refl (inr refl) refl)
