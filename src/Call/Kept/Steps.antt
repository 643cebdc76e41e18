-- ===== src/Call/Kept/Steps.antt =====
-- Invariants and whole schedules.
use vcpkg_webrtc_sample.Prelude.{◌≡◌, some, Result, Crashes, Keeps, >>=-Keeps, String, List}
use vcpkg_webrtc_sample.Common.Config.{AppConfig}
use vcpkg_webrtc_sample.Common.Message.{SignalingMessage}
use vcpkg_webrtc_sample.Peer.Api.{PeerApi}
use vcpkg_webrtc_sample.Call.State.{Call, new_call}
use vcpkg_webrtc_sample.Call.Handlers.{start}
use vcpkg_webrtc_sample.Call.Run.{Event, peer_event, deliver, step, run}
use vcpkg_webrtc_sample.Call.Run.Rules.{StepRules, step-Keeps, run-Keeps}
use vcpkg_webrtc_sample.Call.Kept.{Core, core, Kept, Claimed}
use vcpkg_webrtc_sample.Call.Kept.Handlers.{
  stats_timer-Kept, join_complete-Kept, web_socket_open-Kept, register_complete-Kept, inbound-Kept,
  description_sent-Kept, candidate_sent-Kept, signaling_error-Kept, notify_all-Kept,
}

module _ {api : PeerApi} (P : Core → Type 0) (kept : Kept api P) where
  abbrev Good : Call api → Type 0
  Good c = P (core c)

  pub peer_event-Kept :
      (parse : String → Crashes (Result SignalingMessage)) (e : api.Event) (c : Call api)
      → Good c
      → Keeps Good (deliver parse (peer_event e) c)
  unfolding deliver
  peer_event-Kept parse e c v =
      >>=-Keeps Good (api.handle e c.peer) _
        (λ r. notify_all-Kept P kept r.1 (record c { peer = r.0 }) v)

  module _ (claimed : Claimed api P) (parse : String → Crashes (Result SignalingMessage)) where
    kept_rules : StepRules parse Good
    kept_rules = record {
      join_rule = λ r k c b v.
          join_complete-Kept P kept parse r (record c { join_callbacks = k })
            (claimed.join_claimed k c b v);
      register_rule = λ s k c b v.
          register_complete-Kept P kept s (record c { register_callbacks = k })
            (claimed.register_claimed k c b v);
      description_rule = λ s k c b v.
          description_sent-Kept P kept s (record c { description_callbacks = k })
            (claimed.description_claimed k c b v);
      candidate_rule = λ s k c b v.
          candidate_sent-Kept P kept s (record c { candidate_callbacks = k })
            (claimed.candidate_claimed k c b v);
      bye_rule = claimed.bye_kept;
      startup_rule = claimed.startup_kept;
      duration_rule = claimed.duration_kept;
      stats_rule = stats_timer-Kept P kept;
      open_rule = web_socket_open-Kept P kept;
      inbound_rule = inbound-Kept P kept;
      error_rule = signaling_error-Kept P kept;
      peer_rule = peer_event-Kept parse;
    }

    pub step-Kept : (e : Event api) (c : Call api) → Good c → Keeps Good (step parse e c)
    step-Kept = step-Keeps parse Good kept_rules

    pub run-Kept :
        (config : AppConfig) (es : List (Event api)) {c : Call api}
        → Good (start (new_call api config))
        → run parse config es ≡ some c
        → Good c
    run-Kept = run-Keeps parse Good kept_rules
