-- ===== src/Api/Config.antt =====
-- api/connection.rs: what the client configures. A key is the list of its bytes; the file
-- descriptors are signed.
use protun.Base.{Bool, is_some, not, ◌||◌, ℕ, String, Option, List, ℕ_discrete, String_discrete}
use protun.Base.Int.{ℤ}
use protun.Io.{IpAddr}
use protun.Api.LocalAgent.{LocalAgentSettings}

pub record PeerInfo : Type 0 where
  pub peer_id : String
  pub server_ip : IpAddr
  pub server_public_key : List ℕ
  pub udp_ports : List ℕ
  pub tcp_ports : List ℕ
  pub tls_ports : List ℕ
  pub priority : ℤ
  pub exit_label : Option String

pub data ConnectivityEvent : Type 0 where
  up down network_switch : ConnectivityEvent

pub data CacheKey : Type 0 where
  certificate private_key api_session : CacheKey

pub data FileWriteMode : Type 0 where
  append overwrite : FileWriteMode

pub data PcapFile : Type 0 where
  path : String → FileWriteMode → PcapFile
  fd : ℤ → PcapFile

pub record PcapFileInfo : Type 0 where
  pub file : PcapFile
  pub max_bytes : Option ℕ

pub data TunStreamInfo : Type 0 where
  no_tun : TunStreamInfo
  tun_fd : ℤ → TunStreamInfo

pub record ConfigUpdate : Type 0 where
  pub peers : Option (List PeerInfo)
  pub settings : Option LocalAgentSettings
  pub tun : Option TunStreamInfo

-- `ConfigUpdate::is_empty`.
unfoldable pub is_empty : ConfigUpdate → Bool
is_empty u = not (is_some u.peers || is_some u.settings || is_some u.tun)

-- A private key is the list of its bytes.
pub data ConnectionMode : Type 0 where
  no_local_agent : List ℕ → ConnectionMode
  local_agent : String → String → LocalAgentSettings → ConnectionMode

pub record InitialConnectionConfig : Type 0 where
  pub peers : List PeerInfo
  pub network_available : Bool
  pub pcap_file : Option PcapFileInfo
  pub connection_mode : ConnectionMode

pub record Cookie : Type 0 where
  pub name : String
  pub value : String

pub record ForkSelectorInfo : Type 0 where
  pub selector : String
  pub cookies : List Cookie

pub PeerInfo-discrete : Discrete PeerInfo
PeerInfo-discrete = hlevel (ℕ_discrete, String_discrete)
