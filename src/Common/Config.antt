-- ===== src/Common/Config.antt =====
-- `AppConfig`, `ExitCode` and `ValidateConfig` of src/apprtc_common.h and src/apprtc_common.cc.
pub mod Valid
use vcpkg_webrtc_sample.Prelude.{
  ℕ, String, str_eq, Bool, false, ◌||◌, not, if◌then◌else◌, Status, ok_status, fail,
  invalid_argument,
}
use vcpkg_webrtc_sample.Prelude.Int.{ℤ, pos, leb_ℤ}

pub data ExitCode : Type 0 where
  success invalid_argument_code initialization_failed media_failed : ExitCode
  signaling_failed peer_connection_failed timed_out runtime_failed : ExitCode

-- The value that the enumerator has as an `int`.
abbrev pub to_int : ExitCode → ℕ
to_int success = 0
to_int invalid_argument_code = 2
to_int initialization_failed = 3
to_int media_failed = 4
to_int signaling_failed = 5
to_int peer_connection_failed = 6
to_int timed_out = 7
to_int runtime_failed = 8

pub record AppConfig : Type 0 where
  pub room_server_url : String
  pub room_id : String
  pub video_path : String
  pub log_severity : String
  pub timeout_seconds : ℤ
  pub call_duration_seconds : ℤ
  pub stats_interval_seconds : ℤ
  pub audio_frequency_hz : ℤ
  pub audio_sample_rate_hz : ℤ
  pub audio_channels : ℤ
  pub trace_signaling : Bool
  pub validate_inputs_only : Bool

-- The member initialisers of the struct.
abbrev pub default_config : AppConfig
default_config = record {
  room_server_url = "https://appr.tc";
  room_id = "";
  video_path = "";
  log_severity = "info";
  timeout_seconds = pos 20;
  call_duration_seconds = pos 4;
  stats_interval_seconds = pos 1;
  audio_frequency_hz = pos 440;
  audio_sample_rate_hz = pos 48000;
  audio_channels = pos 1;
  trace_signaling = false;
  validate_inputs_only = false;
}

unfoldable pub is_log_severity : String → Bool
is_log_severity s =
    str_eq s "verbose"
    || str_eq s "info"
    || str_eq s "warning"
    || str_eq s "error"
    || str_eq s "none"

-- `n <= 0`
abbrev pub is_not_positive : ℤ → Bool
is_not_positive n = leb_ℤ n (pos 0)

-- The checks on the numbers, from `timeout_seconds` on.
unfoldable pub validate_numbers : AppConfig → Status
validate_numbers c =
    if is_not_positive c.timeout_seconds
    then fail invalid_argument "--timeout_seconds must be > 0"
    else if is_not_positive c.call_duration_seconds
    then fail invalid_argument "--call_duration_seconds must be > 0"
    else if is_not_positive c.stats_interval_seconds
    then fail invalid_argument "--stats_interval_seconds must be > 0"
    else if is_not_positive c.audio_frequency_hz
    then fail invalid_argument "--audio_frequency_hz must be > 0"
    else if is_not_positive c.audio_sample_rate_hz
    then fail invalid_argument "--audio_sample_rate_hz must be > 0"
    else if is_not_positive c.audio_channels
    then fail invalid_argument "--audio_channels must be > 0"
    else if leb_ℤ c.timeout_seconds c.call_duration_seconds
    then fail invalid_argument "--call_duration_seconds must be less than --timeout_seconds"
    else ok_status

unfoldable pub validate_config : AppConfig → Status
validate_config c =
    if str_eq c.room_id ""
    then fail invalid_argument "--room_id must not be empty"
    else if str_eq c.video_path ""
    then fail invalid_argument "--video_path must not be empty"
    else if not (is_log_severity c.log_severity)
    then fail invalid_argument "--log_severity must be one of: verbose, info, warning, error, none"
    else validate_numbers c
