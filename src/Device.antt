-- ===== src/Device.antt =====
-- What the streams ask of the system: a socket or a device that is read and written.
pub mod Sending
pub mod Buffer
use protun.Base.{ℕ, ◌≤◌, ◌<◌, ◌≡◌, ◌≢◌, Bool, true, false, List, ◌++◌, take, length}
use protun.Io.{IoResult, ok, err, ErrorKind, would_block}

-- A read gives the bytes that it put at the start of the buffer, a write the number of bytes that it
-- took.
pub record Device : Type 1 where
  pub Sock : Type 0
  pub read : Sock → Sock × IoResult (List ℕ)
  pub write : Sock → List ℕ → Sock × IoResult ℕ
  pub shutdown : Sock → Sock

abbrev pub is_would_block : ErrorKind → Bool
is_would_block would_block = true
is_would_block _ = false

-- What a write did to the bytes that a device has taken so far.
abbrev pub Took : List ℕ → List ℕ → List ℕ → IoResult ℕ → Type 0
Took before after bytes (ok n) = (n ≤ length bytes) × (after ≡ before ++ take n bytes)
Took before after bytes (err e) = after ≡ before

-- A device that takes a first part of what it is given, in order, or nothing if it fails.
pub record TakesInOrder (d : Device) : Type 0 where
  pub taken : d.Sock → List ℕ
  pub takes :
      (s : d.Sock) (bytes : List ℕ)
      → Took (taken s) (taken (d.write s bytes).0) bytes (d.write s bytes).1

-- A write of some bytes that does not fail takes at least one of them.
abbrev pub MakesProgress : Device → Type 0
MakesProgress d = (s : d.Sock) (bytes : List ℕ) → 0 < length bytes → (d.write s bytes).1 ≢ ok 0
