-- ===== src/Lib.antt =====
-- The core of protun, the VPN library: the connection loop and the parts that it is made of.
--
-- The program runs one connection in a thread of its own. The loop of src/connection/pvpn_connection.rs
-- takes messages of the application, passes actions between the client of the crate `pvpnclient` and
-- the streams (sockets and the tun device), and reports states and events through callbacks. Around it
-- stand the handler that recovers from network errors, the handler of the local agent's messages, the
-- packet capture and the list of peers.
--
-- The files, and the code that they are about:
--   Base, Io             native numbers, signed integers with the casts of Rust, lists; loops on fuel
--                        (Base/Loop, Base/Fuel); io::Error and its kinds.
--   Api                  src/api/connection.rs, state.rs, events.rs, local_agent.rs: the data types.
--   Client               what `pvpnclient` declares and the code names; Client/Interface is the trait
--                        PvpnClient of src/connection/pvpn_client.rs as a record of operations.
--   Adapter              PvpnClientImpl of src/connection/pvpn_client.rs, the trait's implementation over a
--                        client of `pvpnclient` that is a parameter; Pending has its theorem.
--   Streams              src/connection/streams.rs: the traits Stream and Streams as records of operations,
--                        and the law of the streams that send in order, as the TCP stream of Mio does;
--                        nothing is asked of the others.
--   Convert              src/connection/util.rs and src/api/type_conversions.rs.
--   Recovery             src/connection/network_recovery_handler.rs and constants.rs: NetworkRecoveryHandler,
--                        one function per method; Backoff and Timing have its theorems.
--   Peers                src/connection/sanitized_peers.rs: SanitizedPeers::from with its two loops; Best
--                        and Unique have its theorems.
--   Agent                src/connection/local_agent_handler.rs: LocalAgentHandler; Stats is the accumulator
--                        that its macros make, Jails the reasons to wait.
--   Pcap                 src/connection/pcap_stream.rs, over an abstract file system; Limit has its theorems,
--                        and the law that a write adds what is written at most.
--   Mio                  src/connection/mio: Tcp, Udp, TunUnix and TunApple are the streams over a device that
--                        is read and written, Table is MioStreams, and Interface makes
--                        it the streams of the loop; their children have the theorems.
--   Device               what takes bytes in order: the loop that writes until the device blocks
--                        (Sending) and the bytes that wait (Buffer), for the streams of Mio and Windows.
--   Windows              src/connection/windows: SocketErrors (src/utils/windows/io_error.rs), Socket, Tcp,
--                        Udp, Tun, Table (WindowsStreams) and Opening (how the streams are made);
--                        Interfaces (helpers/local_ip_finder.rs), RoutingTable and Routes (helpers),
--                        Registry (src/utils/windows/registry_editor.rs), Session and
--                        WinTunSession (helpers/wintun/wintun_session.rs), ProTunError
--                        (src/api/windows/protun_error.rs); their children have the theorems.
--   Vectors              src/utils/vector.rs: distinct and split_ips_by_protocol; Firsts has its theorem.
--   Connection           src/connection/pvpn_connection.rs, over the records of the client, the streams and
--                        the files: State (the fields, set_state, the capture), Write (handle_open,
--                        handle_write), Pull (pull_from_client), Read (read_from_streams,
--                        handle_poll_results), Messages (handle_messages), Run (new, update_state,
--                        poll_from_streams, run, on_connection_loop_end).
--   Connection/Contract  what the loop promises, as a step relation on a view without the client and the
--                        streams; Contract/Laws has what follows from it, Refines that the loop keeps to it.
--   Connection/Handle    the methods of Connection of src/api/connection.rs, which send messages as long as
--                        the loop has the receiver and panic after that, and the thread of
--                        start_pvpn_connection; Joined has the theorem.
--   Connection/Reached   the states that the loop reaches; Guarantees, Ending, Fuel and PeerSync have the
--                        theorems about them.
--   Tests                a small client, and the theorems at concrete values.
--
-- State is passed explicitly. The calls of the callbacks and of the persistent cache are a list of
-- outputs in the state of the connection, last one first. The answers of the client, of the streams, of
-- the files and of the clock are functions of their own states, which are parameters; nothing is
-- assumed of them unless a theorem says so. The features `local-agent` and `mio` are on. A release
-- build is modelled: a debug assertion is not.
--
-- Machine integers wrap where the code can wrap: the casts to i16 and i64, the sums of u64 in the
-- statistics and in the size of a capture. A Duration is a number of nanoseconds. A slice of the read
-- buffer that is out of range, which panics, is cut instead.
--
-- The writes of a TCP stream and of a tun device loop until the device blocks or has taken all, and take
-- fuel too.
--
-- On Windows the sockets, Wintun, the registry and the tables of the system are parameters. The tables of
-- routes and of addresses are taken to stay as they are during one call that reads them. The fatal errors
-- of ProTun carry no text.
--
-- The loops that pull from the client and read from the streams run as long as these have something, so
-- they take fuel, and so does `run`, which takes the messages that wait at each of its rounds. More fuel
-- never changes a result, and some fuel is enough if the inner loops end.
--
-- Not modelled: the builder of the client of `pvpnclient`, the constructors for
-- the platforms, the calls of the Windows API under helpers/windows_api but the DNS servers, and logging.
pub mod Base
pub mod Io
pub mod Api
pub mod Recovery
pub mod Peers
pub mod Client
pub mod Convert
pub mod Agent
pub mod Streams
pub mod Pcap
pub mod Device
pub mod Mio
pub mod Windows
pub mod Adapter
pub mod Vectors
pub mod Connection
pub mod Tests
