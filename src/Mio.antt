-- ===== src/Mio.antt =====
-- connection/mio: the streams over sockets and tun devices and the table of the streams.
pub mod Tcp
pub mod Udp
pub mod TunUnix
pub mod TunApple
pub mod Table
pub mod Interface
