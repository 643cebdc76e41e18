-- ===== src/Call/App/Codes.antt =====
-- The exit codes of `RunAppRtcCall`, and its cleanups.
use vcpkg_webrtc_sample.Prelude.{
  ℕ, ◌≡◌, ◌≢◌, ◌↔◌, sym, ◌∙◌, ◌⊎◌, inl, inr, Bool, true, false, some, List, [], ◌∷◌, Crashes,
  Result, ok, err, Error, String, Result-cases, arith,
}
use vcpkg_webrtc_sample.Common.Config.{AppConfig, validate_config, to_int}
use vcpkg_webrtc_sample.Common.Config.Valid.{IsValid, IsSeverity, validate_config-IsValid}
use vcpkg_webrtc_sample.Common.Message.{SignalingMessage}
use vcpkg_webrtc_sample.Peer.Api.{PeerApi}
use vcpkg_webrtc_sample.Call.Types.{
  LoggingSeverity, ls_verbose, ls_info, ls_warning, ls_error, ls_none, log_severity_from_config,
  exit_code_for_reason, TerminalReason,
}
use vcpkg_webrtc_sample.Call.State.{Call}
use vcpkg_webrtc_sample.Call.Run.{Event, run}
use vcpkg_webrtc_sample.Call.Ending.{exit_code_of_run}
use vcpkg_webrtc_sample.Call.App.{
  GlobalCall, curl_global_init, curl_global_cleanup, init_net_system, uninit_net_system,
  initialize_ssl, cleanup_ssl, wrap_current_thread, unwrap_current_thread, Environment,
  call_on_thread, validated_inputs, with_ssl, with_severity, with_validation, run_app_rtc_call,
}

severity_found :
    (c : AppConfig)
    → IsSeverity c.log_severity
    → (s : LoggingSeverity) × (log_severity_from_config c ≡ ok s)
unfolding log_severity_from_config
severity_found c (inl e) = (ls_verbose, rw e)
severity_found c (inr (inl e)) = (ls_info, rw e)
severity_found c (inr (inr (inl e))) = (ls_warning, rw e)
severity_found c (inr (inr (inr (inl e)))) = (ls_error, rw e)
severity_found c (inr (inr (inr (inr e)))) = (ls_none, rw e)

-- Whether the calls undo what they set up, the latest first, with those that are open.
abbrev pub are_nested : List GlobalCall → List GlobalCall → Bool
are_nested [] [] = true
are_nested ds (curl_global_init ∷ cs) = are_nested (curl_global_cleanup ∷ ds) cs
are_nested ds (init_net_system ∷ cs) = are_nested (uninit_net_system ∷ ds) cs
are_nested ds (initialize_ssl ∷ cs) = are_nested (cleanup_ssl ∷ ds) cs
are_nested ds (wrap_current_thread ∷ cs) = are_nested (unwrap_current_thread ∷ ds) cs
are_nested (curl_global_cleanup ∷ ds) (curl_global_cleanup ∷ cs) = are_nested ds cs
are_nested (uninit_net_system ∷ ds) (uninit_net_system ∷ cs) = are_nested ds cs
are_nested (cleanup_ssl ∷ ds) (cleanup_ssl ∷ cs) = are_nested ds cs
are_nested (unwrap_current_thread ∷ ds) (unwrap_current_thread ∷ cs) = are_nested ds cs
are_nested ds cs = false

-- On every path through `RunAppRtcCall`, every library that was set up is cleaned up once, after
-- those that were set up later.
pub run_app_rtc_call-are_nested :
    (env : Environment) (config : AppConfig) (controller : ℕ)
    → are_nested [] (run_app_rtc_call env config controller).1 ≡ true
unfolding run_app_rtc_call with_validation with_severity with_ssl validated_inputs call_on_thread
run_app_rtc_call-are_nested env config controller = ground arith

-- The code of a call that has ended is not the one for invalid arguments.
reason_code : (r : TerminalReason) → to_int (exit_code_for_reason r) ≢ 2
reason_code r = ground arith

accepted :
    (env : Environment) (config : AppConfig) (controller : ℕ)
    → controller ≢ 2
    → IsValid config
    → (run_app_rtc_call env config controller).0 ≢ 2
unfolding run_app_rtc_call with_validation with_severity with_ssl validated_inputs call_on_thread
accepted env config controller n v =
    let h = (validate_config-IsValid config).1 v in
    let (s, e) = severity_found config v.severity in rw h (rw e (ground arith))

refused :
    (env : Environment) (config : AppConfig) (controller : ℕ)
    → ¬ IsValid config
    → (run_app_rtc_call env config controller).0 ≡ 2
unfolding run_app_rtc_call with_validation
refused env config controller n = go (Result-cases (validate_config config))
  where
    go :
        ((a : Unit) × (validate_config config ≡ ok a))
          ⊎ ((e : Error) × (validate_config config ≡ err e))
        → (run_app_rtc_call env config controller).0 ≡ 2
    go (inl (a, h)) = absurd (n ((validate_config-IsValid config).0 h))
    go (inr (e, h)) = rw h

module _ {api : PeerApi} (parse : String → Crashes (Result SignalingMessage)) where
  -- If the controller returns the exit code of a run that was told to quit, the program returns 2,
  -- the code of an invalid argument, exactly if the configuration is not valid.
  pub exit_code-invalid :
      (env : Environment) (config : AppConfig) (es : List (Event api)) (c : Call api)
      → run parse config es ≡ some c
      → c.quit ≡ true
      → ((run_app_rtc_call env config c.exit_code).0 ≡ 2) ↔ ¬ IsValid config
  exit_code-invalid env config es c h q =
      let (r, s, t, x, f, z) = exit_code_of_run parse config es c h q in
      (
        λ two v. accepted env config c.exit_code (λ e. reason_code r (sym x ∙ e)) v two,
        refused env config c.exit_code,
      )
