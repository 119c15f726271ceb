-- ===== src/Api/State.antt =====
-- api/state.rs: the state that the library reports to its client.
use protun.Base.{ℕ, Bool, true, not, String, Option, none, some, List, ℕ_discrete, String_discrete}
use protun.Io.{IpAddr}
use protun.Api.LocalAgent.{AgentConnectionInfo, WaitJailReason}

pub data InterfaceError : Type 0 where
  io_error : String → InterfaceError

pub data InterfaceState : Type 0 where
  up down : Option InterfaceError → InterfaceState

pub data Protocol : Type 0 where
  wireguard_udp wireguard_tcp stealth : Protocol

pub record PeerConnectionInfo : Type 0 where
  pub peer_id : String
  pub entry_ip : IpAddr
  pub protocol : Protocol
  pub port : ℕ

pub data PeerConnectionWaitReason : Type 0 where
  waiting_for_network : PeerConnectionWaitReason

pub data AgentConnectionWaitReason : Type 0 where
  soft_jailed : AgentConnectionWaitReason
  hard_jailed : List WaitJailReason → AgentConnectionWaitReason

pub data DisconnectReason : Type 0 where
  tun_establish_error : String → DisconnectReason

pub data ConnectionState : Type 0 where
  disconnected : Option DisconnectReason → ConnectionState
  connecting : List PeerConnectionInfo → List PeerConnectionWaitReason → ConnectionState
  connecting_to_local_agent :
      PeerConnectionInfo → Option AgentConnectionWaitReason → ConnectionState
  connected : PeerConnectionInfo → Option AgentConnectionInfo → ConnectionState

pub record VpnState : Type 0 where
  pub interface_state : InterfaceState
  pub connection_state : ConnectionState

pub PeerConnectionInfo-discrete : Discrete PeerConnectionInfo
PeerConnectionInfo-discrete = hlevel (ℕ_discrete, String_discrete)

pub ConnectionState-discrete : Discrete ConnectionState
ConnectionState-discrete = hlevel (ℕ_discrete, String_discrete)

-- Only a loop with a local agent waits for it or reports what it says, and it always does.
abbrev pub fits_mode : Bool → ConnectionState → Bool
fits_mode agent (connected peer (some info)) = agent
fits_mode agent (connected peer none) = not agent
fits_mode agent (connecting_to_local_agent peer reason) = agent
fits_mode agent _ = true
