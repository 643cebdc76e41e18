-- ===== src/Main.antt =====
-- src/main.cc: the flags, and the exit code of the process.
--
-- absl parses the command line; what it leaves in the flags is an argument.
pub mod Success
use vcpkg_webrtc_sample.Prelude.{ℕ, String, Bool, false}
use vcpkg_webrtc_sample.Prelude.Int.{ℤ, pos}
use vcpkg_webrtc_sample.Common.Config.{AppConfig}
use vcpkg_webrtc_sample.Call.App.{Environment, run_app_rtc_call}

pub record Flags : Type 0 where
  pub room_server_url : String
  pub room_id : String
  pub video_path : String
  pub timeout_seconds : ℤ
  pub call_duration_seconds : ℤ
  pub stats_interval_seconds : ℤ
  pub audio_frequency_hz : ℤ
  pub audio_sample_rate_hz : ℤ
  pub audio_channels : ℤ
  pub log_severity : String
  pub trace_signaling : Bool
  pub validate_inputs_only : Bool

-- The flags of a command line that sets none.
abbrev pub default_flags : Flags
default_flags = record {
  room_server_url = "";
  room_id = "";
  video_path = "";
  timeout_seconds = pos 20;
  call_duration_seconds = pos 4;
  stats_interval_seconds = pos 1;
  audio_frequency_hz = pos 440;
  audio_sample_rate_hz = pos 48000;
  audio_channels = pos 1;
  log_severity = "info";
  trace_signaling = false;
  validate_inputs_only = false;
}

-- Every member is assigned, the defaults of the struct do not show.
abbrev pub config_from_flags : Flags → AppConfig
config_from_flags f = record {
  room_server_url = f.room_server_url;
  room_id = f.room_id;
  video_path = f.video_path;
  log_severity = f.log_severity;
  timeout_seconds = f.timeout_seconds;
  call_duration_seconds = f.call_duration_seconds;
  stats_interval_seconds = f.stats_interval_seconds;
  audio_frequency_hz = f.audio_frequency_hz;
  audio_sample_rate_hz = f.audio_sample_rate_hz;
  audio_channels = f.audio_channels;
  trace_signaling = f.trace_signaling;
  validate_inputs_only = f.validate_inputs_only;
}

-- `main`: the exit code, where `controller` is what the call makes of the configuration.
unfoldable pub main : Environment → (AppConfig → ℕ) → Flags → ℕ
main env controller flags =
    let config = config_from_flags flags in (run_app_rtc_call env config (controller config)).0
