-- ===== src/Tests/Components.antt =====
-- The theorems about the components, tried on concrete values.
use protun.Base.{
  ◌==◌, if_elim, if◌then◌else◌, ℕ, ◌+◌, ◌*◌, ◌^◌, ◌%◌, ◌≤◌, ◌<◌, ◌≡◌, ◌≢◌, ◌↔◌, refl, true, false,
  none, some, List, [], ◌∷◌, min, suc, length, arith,
}
use protun.Base.Int.{ℤ, pos, negsuc, ◌<ℤ◌}
use protun.Io.{IoResult, ok, err, network_down, v4}
use protun.Api.Config.{PeerInfo, PcapFile, overwrite}
use protun.Api.State.{PeerConnectionInfo, Protocol}
use protun.Api.Events.{LocalAgentStats, local_agent_stats, error, api_session_expired}
use protun.Client.Agent.{torrent, LocalAgentMessage, LocalAgentValue, Jail, ToHandleJail}
use protun.Recovery
use protun.Recovery.{
  resumed, socket_opened, connectivity_changed, stream_failed, on_resumed, wakeup_delay,
  initial_delayed_network_change_duration,
}
use protun.Recovery.Backoff
use protun.Recovery.Backoff.{run-new-Inv, run-backoff, retries}
use protun.Recovery.Timing.{
  wakeup_delay-on_resumed, changes_one_second_apart, IsSpaced, change_times,
}
use protun.Peers.{from}
use protun.Peers.Best.{best_peers, from-eq-best_peers, any_at_most}
use protun.Peers.Unique.{IsUnique, from-IsUnique}
use protun.Io.{IpAddr}
use protun.Convert.{as_peer}
use protun.Convert.Ports.{as_peer-priority_wraps}
use protun.Agent
use protun.Agent.{
  LocalAgentHandler, peer_connected, message, get_state, get_wait_reason, on_connected_to_peer,
  handle_message,
}
use protun.Agent.Stats.{StatsAccumulator, StatsField, no_stats, accumulate, update_with_estimates}
use protun.Agent.Collecting.{
  stored, reported, estimated_bytes, accumulate_reports, update_with_estimates-data_saved,
}
use protun.Agent.Reports.{IsUnfilled, reported_info-IsUnfilled, IsRejected, session_expired_iff}
use protun.Pcap
use protun.Pcap.{PcapStream, FileSystem}
use protun.Pcap.Limit.{HasLength, writes, uncounted, writes-WithinLimit, limit_reached}
use protun.Tests.{files}

-- The network fails at 5 s, so that a change is due at 6 s.
abbrev calls : List Recovery.Call
calls =
    stream_failed (record { kind = network_down; raw_os_error = none; message = "" }) 5_000_000_000
    ∷ resumed 5_500_000_000
    ∷ resumed 6_000_000_000
    ∷ stream_failed (record { kind = network_down; raw_os_error = none; message = "" })
        6_000_000_000
    ∷ resumed 8_000_000_000
    ∷ []

run-new-Inv_example : Backoff.Inv (Recovery.run (Recovery.new false true) calls)
run-new-Inv_example = run-new-Inv false true calls

run-backoff_example :
    (Recovery.run (Recovery.new false true) calls).delayed_network_change_duration
    ≡ min
        ((Recovery.new false true).initial_duration * 2 ^ retries (Recovery.new false true) calls 0)
        (Recovery.new false true).max_duration
run-backoff_example = run-backoff false true calls

abbrev scheduled : Recovery.NetworkRecoveryHandler
scheduled = record {
  send_delayed_network_change_at = some 9;
  delayed_network_change_duration = 4;
  network_available = true;
  initial_duration = 1;
  max_duration = 10;
}

scheduled_delay : wakeup_delay scheduled 3 ≡ some 6
unfolding wakeup_delay
scheduled_delay = refl

wakeup_delay-on_resumed_example :
    ((on_resumed scheduled (3 + 6)).1 ≡ true)
    × ((t : ℕ) → 3 ≤ t → t < 3 + 6 → on_resumed scheduled t ≡ (scheduled, false))
wakeup_delay-on_resumed_example = wakeup_delay-on_resumed scheduled 3 6 scheduled_delay

changes_one_second_apart_example :
    IsSpaced initial_delayed_network_change_duration 0
      (change_times (Recovery.new false true) calls)
changes_one_second_apart_example =
    changes_one_second_apart false true calls
      (omega arith, (omega arith, (omega arith, (omega arith, (omega arith, tt)))))

abbrev peer : ℕ → ℤ → PeerInfo
peer ip priority = record {
  peer_id = "p";
  server_ip = v4 ip;
  server_public_key = 1 ∷ [];
  udp_ports = 51820 ∷ [];
  tcp_ports = [];
  tls_ports = [];
  priority = priority;
  exit_label = none;
}

abbrev three_peers : List PeerInfo
three_peers = peer 1 (pos 2) ∷ peer 1 (negsuc 0) ∷ peer 2 (pos 2) ∷ []

from-eq-best_peers_example : from three_peers ≡ best_peers [] three_peers
from-eq-best_peers_example = from-eq-best_peers three_peers

from-IsUnique_example :
    IsUnique (from three_peers)
    × ((ip : IpAddr) (x : ℤ) → any_at_most ip x (from three_peers) ≡ any_at_most ip x three_peers)
from-IsUnique_example = from-IsUnique three_peers

as_peer-priority_wraps_example :
    (pos 3 <ℤ pos 40000)
    × ((as_peer (peer 2 (pos 40000))).priority <ℤ (as_peer (peer 1 (pos 3))).priority)
as_peer-priority_wraps_example =
    as_peer-priority_wraps (peer 1 (pos 3)) (peer 2 (pos 40000)) (omega arith) (omega arith)
      (omega arith) (omega arith)

abbrev info : PeerConnectionInfo
info = record { peer_id = "p"; entry_ip = v4 1; protocol = Protocol.stealth; port = 443 }

abbrev other_info : PeerConnectionInfo
other_info = record { peer_id = "q"; entry_ip = v4 2; protocol = Protocol.stealth; port = 443 }

abbrev fresh_handler : LocalAgentHandler
fresh_handler = Agent.new

abbrev jail : Jail
jail = Jail.to_handle (ToHandleJail.expired_2fa "2fa")

abbrev connected_handler : LocalAgentHandler
connected_handler = record Agent.new { is_connected = true; last_peer = some info }

not_jailed : fresh_handler.agent_info.settings.soft_jail ≢ some true
unfolding Agent.new
not_jailed e = cc

abbrev full_but_one : StatsAccumulator
full_but_one = record no_stats {
  bytes_received = some (some 1);
  bytes_sent = some none;
  malicious_blocked = some (some 2);
  ads_blocked = some (some 3);
  trackers_blocked = some (some 4);
}

abbrev six_stats : LocalAgentStats
six_stats = record {
  bytes_received = some 1;
  bytes_sent = none;
  malicious_blocked = some 2;
  ads_blocked = some 3;
  trackers_blocked = some 4;
  adult_content_blocked = some 5;
  data_saved = none;
}

six_reported :
    (accumulate StatsField.adult_content_blocked (some 5) full_but_one).1
    ≡ some (local_agent_stats (update_with_estimates six_stats))
unfolding accumulate
six_reported = refl

accumulate_reports_example :
    (reported StatsField.adult_content_blocked (update_with_estimates six_stats) ≡ some 5)
    × ((other : StatsField)
        → other ≢ StatsField.adult_content_blocked
        → stored other full_but_one ≡ some (reported other (update_with_estimates six_stats)))
accumulate_reports_example =
    accumulate_reports StatsField.adult_content_blocked (some 5) full_but_one
      (update_with_estimates six_stats) six_reported

update_with_estimates-data_saved_example :
    (update_with_estimates six_stats).data_saved ≡ some (estimated_bytes six_stats % 2 ^ 64)
update_with_estimates-data_saved_example = update_with_estimates-data_saved six_stats

abbrev agent_calls : List Agent.Call
agent_calls =
    peer_connected info
    ∷ message LocalAgentMessage.local_agent_connected
    ∷ message (LocalAgentMessage.value (LocalAgentValue.restrictions (some (torrent "no" ∷ []))))
    ∷ []

reported_info-IsUnfilled_example : IsUnfilled (Agent.run Agent.new agent_calls).agent_info
reported_info-IsUnfilled_example = reported_info-IsUnfilled agent_calls

session_expired_iff_example :
    (((handle_message fresh_handler LocalAgentMessage.muon_fork_selector_needed).1
        ≡ some (error api_session_expired))
      ↔ IsRejected LocalAgentMessage.muon_fork_selector_needed)
    × (IsRejected LocalAgentMessage.muon_fork_selector_needed
        → (handle_message fresh_handler LocalAgentMessage.muon_fork_selector_needed).0
          ≡ fresh_handler)
session_expired_iff_example =
    session_expired_iff fresh_handler LocalAgentMessage.muon_fork_selector_needed

abbrev capture : PcapStream files
capture = record {
  file_info = record { file = PcapFile.path "a.pcap" overwrite; max_bytes = some 3 };
  file = [];
  size = 0;
  max_bytes = some 3;
  at_max_size = false;
}

-- A file with the number of its bytes. A write of a byte 9 fails, with one byte written.
abbrev write_some : ℕ → List ℕ → ℕ × IoResult (Unit {0})
write_some f [] = (f, ok tt)
write_some f (b ∷ bytes) =
    if b == 9
    then (suc f, err (record { kind = network_down; raw_os_error = none; message = "" }))
    else (f + length (b ∷ bytes), ok tt)

write_some_lem : (f : ℕ) (bytes : List ℕ) → (write_some f bytes).0 ≤ f + length bytes
write_some_lem f [] = omega arith
write_some_lem f (b ∷ bytes) =
    if_elim (λ (r : ℕ × IoResult (Unit {0})). r.0 ≤ f + length (b ∷ bytes)) (b == 9)
      (λ e. omega arith) (λ e. omega arith)

abbrev disk_files : FileSystem
disk_files = record {
  File = ℕ;
  Disk = Unit {0};
  parent = λ path. none;
  create_dir_all = λ d path. (d, ok tt);
  open_path = λ d path append. (d, ok 1);
  from_raw_fd = λ fd. 0;
  len = λ f. ok f;
  write_all = λ f bytes. write_some f bytes;
}

told_len : (f n : ℕ) → ok f ≡ ok n → f ≡ n
told_len f n e = cc

abbrev disk_files_law : HasLength disk_files
disk_files_law = record { file_len = λ f. f; len_lem = told_len; write_all_lem = write_some_lem }

abbrev opened : PcapStream disk_files
opened = record {
  file_info = record { file = PcapFile.path "a.pcap" overwrite; max_bytes = some 4 };
  file = 1;
  size = 1;
  max_bytes = some 4;
  at_max_size = false;
}

opened-new : (Pcap.new disk_files tt opened.file_info).1 ≡ ok opened
unfolding Pcap.new
opened-new = refl

-- The first is written, the second fails after a byte, the third is written, the last is refused.
abbrev pieces : List (List ℕ)
pieces = (1 ∷ 2 ∷ []) ∷ (9 ∷ []) ∷ (3 ∷ []) ∷ (4 ∷ []) ∷ []

writes-WithinLimit_example :
    (writes disk_files opened pieces).file ≤ 4 + uncounted disk_files opened pieces
writes-WithinLimit_example =
    writes-WithinLimit disk_files disk_files_law 4 tt opened.file_info opened pieces opened-new refl
      (omega arith) (omega arith, (omega arith, (omega arith, (omega arith, tt))))

-- With the failed write the file has a byte more than the limit.
limit_passed : (writes disk_files opened pieces).file ≡ 5
unfolding Pcap.write
limit_passed = refl

limit_reached_example :
    ((writes files capture ((1 ∷ 2 ∷ 3 ∷ 4 ∷ []) ∷ (3 ∷ []) ∷ [])).at_max_size ≡ true)
    × ((writes files capture ((1 ∷ 2 ∷ 3 ∷ 4 ∷ []) ∷ (3 ∷ []) ∷ [])).file ≡ [])
limit_reached_example =
    limit_reached files 3 capture (1 ∷ 2 ∷ 3 ∷ 4 ∷ []) ((3 ∷ []) ∷ []) refl refl (omega arith)
