-- ===== src/Call/App.antt =====
-- `RunAppRtcCall`: the checks in front of the call, and the libraries that are set up around it.
pub mod Codes
use vcpkg_webrtc_sample.Prelude.{
  ℕ, Bool, if◌then◌else◌, List, [], ◌∷◌, ◌++◌, Result, ok, err, Status,
}
use vcpkg_webrtc_sample.Common.Config.{
  AppConfig, to_int, invalid_argument_code, initialization_failed, media_failed, success,
  validate_config,
}
use vcpkg_webrtc_sample.Call.Types.{LoggingSeverity, log_severity_from_config}

-- The calls that set a library up for the whole process, and those that undo it.
pub data GlobalCall : Type 0 where
  curl_global_init curl_global_cleanup : GlobalCall
  init_net_system uninit_net_system : GlobalCall
  initialize_ssl cleanup_ssl : GlobalCall
  wrap_current_thread unwrap_current_thread : GlobalCall

-- What `Thread::Current` and, without a thread, `WrapCurrentThread` give.
pub data CurrentThread : Type 0 where
  has_thread can_wrap cannot_wrap : CurrentThread

-- What the libraries answer. `start_source` is what `FileVideoSource::Start` gives.
pub record Environment : Type 0 where
  pub ssl_initialized : Bool
  pub start_source : Status
  pub current_thread : CurrentThread

-- An exit code, and the calls in their order. An `absl::Cleanup` makes its call when the function
-- is left, after those that were set up later.
abbrev pub Outcome : Type 0
Outcome = ℕ × List GlobalCall

abbrev pub scoped : GlobalCall → GlobalCall → Outcome → Outcome
scoped enter leave (code, calls) = (code, enter ∷ calls ++ leave ∷ [])

abbrev pub exit_with : ℕ → Outcome
exit_with code = (code, [])

-- `controller` is what `CallController::Run` returns.
unfoldable pub call_on_thread : CurrentThread → ℕ → Outcome
call_on_thread has_thread controller = exit_with controller
call_on_thread can_wrap controller =
    scoped wrap_current_thread unwrap_current_thread (exit_with controller)
call_on_thread cannot_wrap controller = exit_with (to_int initialization_failed)

unfoldable pub validated_inputs : Status → Outcome
validated_inputs (ok _) = exit_with (to_int success)
validated_inputs (err e) = exit_with (to_int media_failed)

unfoldable pub with_ssl : Environment → AppConfig → ℕ → Outcome
unfolding call_on_thread validated_inputs
with_ssl env config controller =
    if env.ssl_initialized
    then scoped initialize_ssl cleanup_ssl (
        if config.validate_inputs_only
        then validated_inputs env.start_source
        else call_on_thread env.current_thread controller)
    else exit_with (to_int initialization_failed)

unfoldable pub with_severity : Environment → AppConfig → ℕ → Result LoggingSeverity → Outcome
unfolding with_ssl
with_severity env config controller (err e) = exit_with (to_int invalid_argument_code)
with_severity env config controller (ok s) =
    scoped curl_global_init curl_global_cleanup
      (scoped init_net_system uninit_net_system (with_ssl env config controller))

unfoldable pub with_validation : Environment → AppConfig → ℕ → Status → Outcome
unfolding with_severity
with_validation env config controller (err e) = exit_with (to_int invalid_argument_code)
with_validation env config controller (ok _) =
    with_severity env config controller (log_severity_from_config config)

unfoldable pub run_app_rtc_call : Environment → AppConfig → ℕ → Outcome
unfolding with_validation
run_app_rtc_call env config controller =
    with_validation env config controller (validate_config config)
