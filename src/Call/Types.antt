-- ===== src/Call/Types.antt =====
-- The enumerations of src/apprtc_call.cc, and the functions on them.
use vcpkg_webrtc_sample.Prelude.{
  ℕ, String, str_eq, if◌then◌else◌, Result, ok, fail, invalid_argument,
}
use vcpkg_webrtc_sample.Common.Config.{
  ExitCode, success, media_failed, signaling_failed, peer_connection_failed, timed_out, AppConfig,
}
use vcpkg_webrtc_sample.Common.Message.{
  SignalingMessageType, offer, answer, candidate, bye, unknown,
}

pub data CallState : Type 0 where
  starting joining_room connecting_web_socket registering : CallState
  negotiating connected_state stopping finished_state : CallState

pub data TerminalReason : Type 0 where
  local_duration_reached remote_bye_after_established : TerminalReason
  remote_bye_before_established startup_timeout : TerminalReason
  signaling_error peer_connection_error media_error : TerminalReason

-- The order in which the messages that waited in the room are handled.
abbrev pub queued_message_priority : SignalingMessageType → ℕ
queued_message_priority offer = 0
queued_message_priority answer = 0
queued_message_priority candidate = 1
queued_message_priority bye = 2
queued_message_priority unknown = 3

abbrev pub exit_code_for_reason : TerminalReason → ExitCode
exit_code_for_reason local_duration_reached = success
exit_code_for_reason remote_bye_after_established = success
exit_code_for_reason remote_bye_before_established = signaling_failed
exit_code_for_reason signaling_error = signaling_failed
exit_code_for_reason startup_timeout = timed_out
exit_code_for_reason peer_connection_error = peer_connection_failed
exit_code_for_reason media_error = media_failed

abbrev pub call_state_to_string : CallState → String
call_state_to_string starting = "starting"
call_state_to_string joining_room = "joining_room"
call_state_to_string connecting_web_socket = "connecting_websocket"
call_state_to_string registering = "registering"
call_state_to_string negotiating = "negotiating"
call_state_to_string connected_state = "connected"
call_state_to_string stopping = "stopping"
call_state_to_string finished_state = "finished"

abbrev pub terminal_reason_to_string : TerminalReason → String
terminal_reason_to_string local_duration_reached = "local_duration_reached"
terminal_reason_to_string remote_bye_after_established = "remote_bye_after_established"
terminal_reason_to_string remote_bye_before_established = "remote_bye_before_established"
terminal_reason_to_string startup_timeout = "startup_timeout"
terminal_reason_to_string signaling_error = "signaling_error"
terminal_reason_to_string peer_connection_error = "peer_connection_error"
terminal_reason_to_string media_error = "media_error"

-- The severities of `webrtc::LoggingSeverity`.
pub data LoggingSeverity : Type 0 where
  ls_verbose ls_info ls_warning ls_error ls_none : LoggingSeverity

unfoldable pub log_severity_from_config : AppConfig → Result LoggingSeverity
log_severity_from_config c =
    if str_eq c.log_severity "verbose"
    then ok ls_verbose
    else if str_eq c.log_severity "info"
    then ok ls_info
    else if str_eq c.log_severity "warning"
    then ok ls_warning
    else if str_eq c.log_severity "error"
    then ok ls_error
    else if str_eq c.log_severity "none"
    then ok ls_none
    else fail invalid_argument "invalid log severity"
