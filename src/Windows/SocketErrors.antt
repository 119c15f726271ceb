-- ===== src/Windows/SocketErrors.antt =====
-- utils/windows/io_error.rs: which errors of a socket are temporary.
use protun.Base.{ℕ, Bool, false, ◌||◌, Option, none, some, List, [], ◌∷◌, ◌++◌, ◌==◌, if◌then◌else◌}
use protun.Base.Int.{ℤ, pos, negsuc}
use protun.Io.{IoError}
use protun.Device.{is_would_block}

pub data Transport : Type 0 where
  udp tcp : Transport

pub data SocketErrorAction : Type 0 where
  fatal_socket_error would_block : SocketErrorAction

-- The codes of Winsock that no transport recovers from.
abbrev pub fatal_codes : List ℕ
fatal_codes =
    6 ∷ 10009 ∷ 10014 ∷ 10022 ∷ 10024 ∷ 10038 ∷ 10039 ∷ 10043 ∷ 10044 ∷ 10045 ∷ 10047 ∷ 10048
    ∷ 10049 ∷ 10050 ∷ 10058 ∷ 10067 ∷ 10091 ∷ 10092 ∷ 10093 ∷ 10106 ∷ []

-- Those of a lost connection, which only TCP takes for fatal.
abbrev pub connection_codes : List ℕ
connection_codes = 10013 ∷ 10051 ∷ 10052 ∷ 10053 ∷ 10054 ∷ 10060 ∷ 10061 ∷ 10065 ∷ []

pub is_one_of : ℕ → List ℕ → Bool
is_one_of code [] = false
is_one_of code (c ∷ cs) = code == c || is_one_of code cs

abbrev pub fatal_codes_of : Transport → List ℕ
fatal_codes_of udp = fatal_codes
fatal_codes_of tcp = fatal_codes ++ connection_codes

unfoldable pub code_action : Transport → Option ℤ → SocketErrorAction
unfolding is_one_of
code_action transport none = would_block
code_action transport (some (negsuc n)) = would_block
code_action transport (some (pos code)) =
    if is_one_of code (fatal_codes_of transport) then fatal_socket_error else would_block

unfoldable pub to_socket_error_action : IoError → Transport → SocketErrorAction
unfolding code_action
to_socket_error_action e transport =
    if is_would_block e.kind then would_block else code_action transport e.raw_os_error
