-- ===== src/Agent/Collecting.antt =====
-- connection/local_agent_handler.rs: when the collected statistics become an event, and what it says.
use protun.Base.{ℕ, suc, ◌+◌, ◌*◌, ◌%◌, ◌^◌, ◌<◌, ◌≡◌, ◌≢◌, Option, none, some, arith}
use protun.Api.Events.{LocalAgentStats, local_agent_stats}
use protun.Agent.Stats.{
  StatsAccumulator, StatsField, no_stats, add_estimate, update_with_estimates, accumulate,
  avg_ad_size_bytes, avg_tracker_size_bytes, avg_malicious_size_bytes, avg_adult_content_size_bytes,
}

abbrev pub stored : StatsField → StatsAccumulator → Option (Option ℕ)
stored StatsField.bytes_received a = a.bytes_received
stored StatsField.bytes_sent a = a.bytes_sent
stored StatsField.malicious_blocked a = a.malicious_blocked
stored StatsField.ads_blocked a = a.ads_blocked
stored StatsField.trackers_blocked a = a.trackers_blocked
stored StatsField.adult_content_blocked a = a.adult_content_blocked

abbrev pub reported : StatsField → LocalAgentStats → Option ℕ
reported StatsField.bytes_received s = s.bytes_received
reported StatsField.bytes_sent s = s.bytes_sent
reported StatsField.malicious_blocked s = s.malicious_blocked
reported StatsField.ads_blocked s = s.ads_blocked
reported StatsField.trackers_blocked s = s.trackers_blocked
reported StatsField.adult_content_blocked s = s.adult_content_blocked

abbrev pub absent : Option (Option ℕ) → ℕ
absent none = 1
absent (some v) = 0

-- How many of the six values have not come yet.
abbrev pub missing : StatsAccumulator → ℕ
missing a =
    absent a.bytes_received
    + absent a.bytes_sent
    + absent a.malicious_blocked
    + absent a.ads_blocked
    + absent a.trackers_blocked
    + absent a.adult_content_blocked

-- A value that had come already changes no count and makes no event; a new one counts one down and
-- makes no event, but the last missing one makes the event and empties the accumulator.
pub accumulate-missing :
    (field : StatsField) (val : Option ℕ) (a : StatsAccumulator)
    → 0 < missing a
    → let (a', event) = accumulate field val a in
      (stored field a ≢ none → (event ≡ none) × (missing a' ≡ missing a))
      × (stored field a ≡ none → 1 < missing a → (event ≡ none) × (suc (missing a') ≡ missing a))
      × (stored field a ≡ none → missing a ≡ 1 → (event ≢ none) × (a' ≡ no_stats))
unfolding accumulate
accumulate-missing StatsField.bytes_received val a h = ground arith
accumulate-missing _ val a h = ground arith

-- The event has the value at hand in its field and in each other field the value that came last.
pub accumulate_reports :
    (field : StatsField) (val : Option ℕ) (a : StatsAccumulator) (s : LocalAgentStats)
    → (accumulate field val a).1 ≡ some (local_agent_stats s)
    → (reported field s ≡ val)
      × ((other : StatsField) → other ≢ field → stored other a ≡ some (reported other s))
unfolding accumulate update_with_estimates
accumulate_reports StatsField.bytes_received val a s e = (ground arith, λ other ne. ground arith)
accumulate_reports _ val a s e = (ground arith, λ other ne. ground arith)

abbrev pub count_of : Option ℕ → ℕ
count_of none = 0
count_of (some n) = n

-- The number of bytes that the blocked items would have had.
abbrev pub estimated_bytes : LocalAgentStats → ℕ
estimated_bytes s =
    count_of s.malicious_blocked * avg_malicious_size_bytes
    + count_of s.ads_blocked * avg_ad_size_bytes
    + count_of s.trackers_blocked * avg_tracker_size_bytes
    + count_of s.adult_content_blocked * avg_adult_content_size_bytes

add_estimate-mod :
    (saved : ℕ) (count : Option ℕ) (size : ℕ)
    → add_estimate (saved % 2 ^ 64) count size ≡ (saved + count_of count * size) % 2 ^ 64
unfolding add_estimate
add_estimate-mod saved none size = omega arith
add_estimate-mod saved (some n) size = omega arith

add_estimate-zero :
    (count : Option ℕ) (size : ℕ) → add_estimate 0 count size ≡ count_of count * size % 2 ^ 64
unfolding add_estimate
add_estimate-zero none size = omega arith
add_estimate-zero (some n) size = omega arith

-- The estimate of the data saved is the sum over the blocked items modulo 2 ^ 64: the sum itself as
-- long as it fits a u64.
pub update_with_estimates-data_saved :
    (s : LocalAgentStats) → (update_with_estimates s).data_saved ≡ some (estimated_bytes s % 2 ^ 64)
unfolding update_with_estimates
update_with_estimates-data_saved s = rw (
  add_estimate-zero s.malicious_blocked avg_malicious_size_bytes,
  add_estimate-mod _ s.ads_blocked avg_ad_size_bytes,
  add_estimate-mod _ s.trackers_blocked avg_tracker_size_bytes,
  add_estimate-mod _ s.adult_content_blocked avg_adult_content_size_bytes,
)
