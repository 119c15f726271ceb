-- ===== src/Windows/ProTunError.antt =====
-- api/windows/protun_error.rs: the errors that end a connection on Windows, less their messages.
pub data ProTunFatalError : Type 0 where
  no_local_ip handle_creation_failed winsock_start_failed : ProTunFatalError
  wintun_library_loading_failed wintun_interface_creation_failed : ProTunFatalError
  wintun_adapter_index_fetch_failed wintun_session_creation_failed : ProTunFatalError
  wintun_ip_address_setup_failed wintun_session_handle_creation_failed : ProTunFatalError

pub data Fallible (A : Type 0) : Type 0 where
  done : A → Fallible A
  fatal : ProTunFatalError → Fallible A

infixl 5 ◌>>=◌
abbrev pub ◌>>=◌ : {A B : Type 0} → Fallible A → (A → Fallible B) → Fallible B
done a >>= f = f a
fatal e >>= f = fatal e
