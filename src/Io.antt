-- ===== src/Io.antt =====
-- The types of the standard library that the crate reads: `std::io::ErrorKind`, `std::io::Error`,
-- `std::net::IpAddr` and `SocketAddr`. An address is its number, of 32 or 128 bits.
use protun.Base.{ℕ, String, Option, ℕ_discrete}
use protun.Base.Int.{ℤ}

-- The kinds that the crate names, and `uncategorized` for the rest of that open enumeration.
pub data ErrorKind : Type 0 where
  addr_in_use addr_not_available already_exists broken_pipe connection_aborted : ErrorKind
  connection_refused connection_reset host_unreachable interrupted invalid_data : ErrorKind
  invalid_input network_down network_unreachable not_connected not_found : ErrorKind
  permission_denied quota_exceeded resource_busy timed_out unexpected_eof : ErrorKind
  would_block write_zero other uncategorized : ErrorKind

pub record IoError : Type 0 where
  pub kind : ErrorKind
  pub raw_os_error : Option ℤ
  pub message : String

pub data IoResult {ℓ} (A : Type ℓ) : Type ℓ where
  ok : A → IoResult A
  err : IoError → IoResult A

-- What a predicate says of the value of a result, if it is one.
abbrev pub OnOk {ℓ κ} : {A : Type ℓ} → (A → Type κ) → IoResult A → Type κ
OnOk P (ok a) = P a
OnOk P (err e) = Unit

pub OnOk-mono {ℓ κ ι} :
    {A : Type ℓ} (P : A → Type κ) (Q : A → Type ι)
    → ((a : A) → P a → Q a)
    → (r : IoResult A) → OnOk P r
    → OnOk Q r
OnOk-mono P Q f (ok a) h = f a h
OnOk-mono P Q f (err e) h = tt

pub data IpAddr : Type 0 where
  v4 v6 : ℕ → IpAddr

pub IpAddr-discrete : Discrete IpAddr
IpAddr-discrete = hlevel ℕ_discrete

pub record SocketAddr : Type 0 where
  pub ip : IpAddr
  pub port : ℕ

pub ErrorKind-discrete : Discrete ErrorKind
ErrorKind-discrete = hlevel
