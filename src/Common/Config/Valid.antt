-- ===== src/Common/Config/Valid.antt =====
-- What `ValidateConfig` accepts.
use vcpkg_webrtc_sample.Prelude.{◌≡◌, ◌≢◌, ◌↔◌, ◌<◌, ◌⊎◌, String, eq_iff, true, ok_status, arith}
use vcpkg_webrtc_sample.Prelude.Int.{ℤ, pos_part}
use vcpkg_webrtc_sample.Common.Config.{
  AppConfig, is_log_severity, validate_numbers, validate_config,
}

-- A positive `int`.
abbrev pub IsPositive : ℤ → Type 0
IsPositive n = 0 < pos_part n

-- The severities that the command line names.
abbrev pub IsSeverity : String → Type 0
IsSeverity s = (s ≡ "verbose") ⊎ (s ≡ "info") ⊎ (s ≡ "warning") ⊎ (s ≡ "error") ⊎ (s ≡ "none")

-- The conditions on the numbers.
pub record HasValidNumbers (c : AppConfig) : Type 0 where
  pub timeout : IsPositive c.timeout_seconds
  pub duration : IsPositive c.call_duration_seconds
  pub interval : IsPositive c.stats_interval_seconds
  pub frequency : IsPositive c.audio_frequency_hz
  pub sample_rate : IsPositive c.audio_sample_rate_hz
  pub channels : IsPositive c.audio_channels
  pub call_in_time : pos_part c.call_duration_seconds < pos_part c.timeout_seconds

pub record IsValid (c : AppConfig) : Type 0 where
  pub room : c.room_id ≢ ""
  pub video : c.video_path ≢ ""
  pub severity : IsSeverity c.log_severity
  pub numbers : HasValidNumbers c

is_log_severity_iff : (s : String) → (is_log_severity s ≡ true) ↔ IsSeverity s
unfolding is_log_severity
is_log_severity_iff s = ground (
  arith,
  eq_iff s "verbose",
  eq_iff s "info",
  eq_iff s "warning",
  eq_iff s "error",
  eq_iff s "none",
)

numbers-ok : (c : AppConfig) → validate_numbers c ≡ ok_status → HasValidNumbers c
unfolding validate_numbers
numbers-ok c h = ground arith

ok-numbers : (c : AppConfig) → HasValidNumbers c → validate_numbers c ≡ ok_status
unfolding validate_numbers
ok-numbers c v = ground arith

ok_IsValid : (c : AppConfig) → validate_config c ≡ ok_status → IsValid c
unfolding validate_config
ok_IsValid c h = record {
  room = ground (arith, eq_iff c.room_id "");
  video = ground (arith, eq_iff c.video_path "");
  severity = (is_log_severity_iff c.log_severity).0 (ground arith);
  numbers = numbers-ok c (ground arith);
}

IsValid-ok : (c : AppConfig) → IsValid c → validate_config c ≡ ok_status
unfolding validate_config
IsValid-ok c v = ground (
  arith,
  eq_iff c.room_id "",
  eq_iff c.video_path "",
  (is_log_severity_iff c.log_severity).1 v.severity,
  ok-numbers c v.numbers,
)

-- A configuration is accepted exactly if the room and the video are named, the severity is one of
-- the five, all numbers are positive, and the call is shorter than the timeout.
pub validate_config-IsValid : (c : AppConfig) → (validate_config c ≡ ok_status) ↔ IsValid c
validate_config-IsValid c = (ok_IsValid c, IsValid-ok c)
