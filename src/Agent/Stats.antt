-- ===== src/Agent/Stats.antt =====
-- connection/local_agent_handler.rs: the accumulator that the macro `create_stats_accumulator` makes,
-- and the estimate of the data saved, in u64 arithmetic that wraps.
use protun.Base.{ℕ, ◌+◌, ◌*◌, ◌%◌, ◌^◌, Option, none, some}
use protun.Api.Events.{Event, LocalAgentStats, local_agent_stats}

-- The outer option says whether the value has come, the inner one is what came.
pub record StatsAccumulator : Type 0 where
  pub bytes_received : Option (Option ℕ)
  pub bytes_sent : Option (Option ℕ)
  pub malicious_blocked : Option (Option ℕ)
  pub ads_blocked : Option (Option ℕ)
  pub trackers_blocked : Option (Option ℕ)
  pub adult_content_blocked : Option (Option ℕ)

pub data StatsField : Type 0 where
  bytes_received bytes_sent malicious_blocked ads_blocked : StatsField
  trackers_blocked adult_content_blocked : StatsField

abbrev pub no_stats : StatsAccumulator
no_stats = record {
  bytes_received = none;
  bytes_sent = none;
  malicious_blocked = none;
  ads_blocked = none;
  trackers_blocked = none;
  adult_content_blocked = none;
}

abbrev pub avg_ad_size_bytes : ℕ
avg_ad_size_bytes = 204_800

abbrev pub avg_tracker_size_bytes : ℕ
avg_tracker_size_bytes = 51_200

abbrev pub avg_malicious_size_bytes : ℕ
avg_malicious_size_bytes = 768_000

abbrev pub avg_adult_content_size_bytes : ℕ
avg_adult_content_size_bytes = 1_488_896

-- `saved += *count * size` on u64.
unfoldable pub add_estimate : ℕ → Option ℕ → ℕ → ℕ
add_estimate saved none size = saved
add_estimate saved (some count) size = (saved + count * size % 2 ^ 64) % 2 ^ 64

unfoldable pub update_with_estimates : LocalAgentStats → LocalAgentStats
unfolding add_estimate
update_with_estimates s = record s {
  data_saved = some (
      add_estimate
        (add_estimate
          (add_estimate (add_estimate 0 s.malicious_blocked avg_malicious_size_bytes) s.ads_blocked
            avg_ad_size_bytes)
          s.trackers_blocked avg_tracker_size_bytes)
        s.adult_content_blocked avg_adult_content_size_bytes);
}

collected :
    Option (Option ℕ)
    → Option (Option ℕ)
    → Option (Option ℕ)
    → Option (Option ℕ)
    → Option (Option ℕ)
    → Option (Option ℕ)
    → Option LocalAgentStats
collected (some received) (some sent) (some malicious) (some ads) (some trackers) (some adult) =
    some (record {
      bytes_received = received;
      bytes_sent = sent;
      malicious_blocked = malicious;
      ads_blocked = ads;
      trackers_blocked = trackers;
      adult_content_blocked = adult;
      data_saved = none;
    })
collected _ _ _ _ _ _ = none

pub collect : StatsAccumulator → Option LocalAgentStats
unfolding collected
collect a =
    collected a.bytes_received a.bytes_sent a.malicious_blocked a.ads_blocked a.trackers_blocked
      a.adult_content_blocked

pub emit_event_when_full : StatsAccumulator → StatsAccumulator × Option Event
unfolding collect
emit_event_when_full a = elim (collect a) [
  | some stats ↦ (no_stats, some (local_agent_stats (update_with_estimates stats)))
  | none ↦ (a, none)
]

pub put : StatsField → Option ℕ → StatsAccumulator → StatsAccumulator
put StatsField.bytes_received val a = record a { bytes_received = some val }
put StatsField.bytes_sent val a = record a { bytes_sent = some val }
put StatsField.malicious_blocked val a = record a { malicious_blocked = some val }
put StatsField.ads_blocked val a = record a { ads_blocked = some val }
put StatsField.trackers_blocked val a = record a { trackers_blocked = some val }
put StatsField.adult_content_blocked val a = record a { adult_content_blocked = some val }

-- The method that the macro `create_accumulate_fn` makes for a field.
unfoldable pub accumulate :
    StatsField → Option ℕ → StatsAccumulator → StatsAccumulator × Option Event
unfolding put emit_event_when_full
accumulate field val a = emit_event_when_full (put field val a)
