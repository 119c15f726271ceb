-- ===== src/Windows.antt =====
-- connection/windows and utils/windows: the streams over Winsock and Wintun, their table, and what the
-- connection sets up on a Windows system. What the system does is a parameter.
pub mod SocketErrors
pub mod Socket
pub mod Tcp
pub mod Udp
pub mod ProTunError
pub mod Interfaces
pub mod RoutingTable
pub mod Registry
pub mod Opening
pub mod Table
pub mod Routes
pub mod Session
pub mod WinTunSession
pub mod Tun
