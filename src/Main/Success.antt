-- ===== src/Main/Success.antt =====
-- What the exit code 0 of the process says.
use vcpkg_webrtc_sample.Prelude.{
  ℕ, ◌≡◌, ◌⊎◌, inl, inr, true, false, some, String, List, Crashes, Error, Result, ok, err,
  Result-cases, arith,
}
use vcpkg_webrtc_sample.Common.Config.{AppConfig, validate_config}
use vcpkg_webrtc_sample.Common.Config.Valid.{IsValid, validate_config-IsValid}
use vcpkg_webrtc_sample.Common.Message.{SignalingMessage}
use vcpkg_webrtc_sample.Peer.Api.{PeerApi}
use vcpkg_webrtc_sample.Call.App.{
  Environment, run_app_rtc_call, with_validation, with_severity, with_ssl, call_on_thread,
}
use vcpkg_webrtc_sample.Call.State.{Call}
use vcpkg_webrtc_sample.Call.Run.{Event, run}
use vcpkg_webrtc_sample.Call.Ending.{exit_code_of_run}
use vcpkg_webrtc_sample.Main.{Flags, config_from_flags, main}

-- Without the check of the inputs, 0 is what the controller returned, for a valid configuration.
controller_code :
    (env : Environment) (config : AppConfig) (controller : ℕ)
    → config.validate_inputs_only ≡ false
    → (run_app_rtc_call env config controller).0 ≡ 0
    → controller ≡ 0
unfolding run_app_rtc_call with_validation with_severity with_ssl call_on_thread
controller_code env config controller v z = ground arith

accepted :
    (env : Environment) (config : AppConfig) (controller : ℕ)
    → (run_app_rtc_call env config controller).0 ≡ 0
    → IsValid config
unfolding run_app_rtc_call with_validation
accepted env config controller z = go (Result-cases (validate_config config))
  where
    go :
        ((a : Unit) × (validate_config config ≡ ok a))
          ⊎ ((e : Error) × (validate_config config ≡ err e))
        → IsValid config
    go (inl (a, h)) = (validate_config-IsValid config).0 h
    go (inr (e, h)) = absurd (grind arith)

module _ {api : PeerApi} (parse : String → Crashes (Result SignalingMessage)) where
  -- If the process is not asked to check its inputs only, and the controller is through with a run
  -- that was told to quit, the exit code 0 of the process says that the flags were valid and that the
  -- call was established.
  pub main-eq-zero :
      (env : Environment) (flags : Flags) (es : List (Event api)) (c : Call api)
      → run parse (config_from_flags flags) es ≡ some c
      → c.quit ≡ true
      → flags.validate_inputs_only ≡ false
      → main env (λ config. c.exit_code) flags ≡ 0
      → IsValid (config_from_flags flags) × (c.call_established ≡ true)
  unfolding main
  main-eq-zero env flags es c h q v z =
      let config = config_from_flags flags in
      let (r, s, t, x, f, established) = exit_code_of_run parse config es c h q in
      (accepted env config c.exit_code z, established (controller_code env config c.exit_code v z))
