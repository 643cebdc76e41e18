-- ===== src/Call/Goodbye/Steps.antt =====
-- How often a call says goodbye.
use vcpkg_webrtc_sample.Prelude.{
  ℕ, suc, ◌&&◌, true, ◌≡◌, if◌then◌else◌, flag, some, Result, Crashes, String, List, arith,
}
use vcpkg_webrtc_sample.Common.Config.{AppConfig}
use vcpkg_webrtc_sample.Common.Message.{SignalingMessage}
use vcpkg_webrtc_sample.Peer.Api.{PeerApi}
use vcpkg_webrtc_sample.Call.State.{Call, new_call}
use vcpkg_webrtc_sample.Call.Handlers.{start}
use vcpkg_webrtc_sample.Call.Run.{Event, remove_first, run}
use vcpkg_webrtc_sample.Call.Kept.{Claimed, Core, core, Kept}
use vcpkg_webrtc_sample.Call.Kept.Steps.{run-Kept}
use vcpkg_webrtc_sample.Call.Ending.{Ending, Ending-Kept, Ending-Claimed, start-Ending}
use vcpkg_webrtc_sample.Call.Goodbye.{
  Counted, byes, leaves, has_joined, reached_duration, finish-Goodbye, startup_timer-Goodbye,
  duration_timer-Goodbye, mark-Goodbye, joined-Goodbye, described-Goodbye, candidate-Goodbye,
  bye_sent-Goodbye,
}

record Goodbye (k : Core) : Type 0 where
  ending : Ending k
  counted :
      Counted (byes k.requests) (leaves k.requests) k.finished k.quit k.terminal k.join_response

both :
    {k : Core}
    → Ending k
    → Counted (byes k.requests) (leaves k.requests) k.finished k.quit k.terminal k.join_response
    → Goodbye k
both e v = record { ending = e; counted = v }

bye_finished :
    {api : PeerApi} (c : Call api) (n : ℕ)
    → c.bye_callbacks ≡ suc n
    → Ending (core c)
    → c.finished ≡ true
bye_finished c n b v = ground arith

module _ (api : PeerApi) where
  Goodbye-Kept : Kept api Goodbye
  Goodbye-Kept =
      let e = Ending-Kept api in
      record {
        finish_kept = λ r s c j v.
            both (e.finish_kept r s c j v.ending)
              (finish-Goodbye api r s c (λ f. (v.ending.unfinished f).0) v.counted);
        mark_kept = λ c f v. both (e.mark_kept c f v.ending) (mark-Goodbye api c v.counted);
        restate_kept = λ s c f v. both (e.restate_kept s c f v.ending) v.counted;
        joined_kept = λ jr c f v.
            both (e.joined_kept jr c f v.ending)
              (joined-Goodbye api jr c (v.ending.unfinished f).0 v.counted);
        connect_kept = λ jr c v. both (e.connect_kept jr c v.ending) v.counted;
        register_kept = λ jr c v. both (e.register_kept jr c v.ending) v.counted;
        description_kept = λ jr payload c v.
            both (e.description_kept jr payload c v.ending)
              (described-Goodbye api jr payload c v.counted);
        candidate_kept = λ jr payload c v.
            both (e.candidate_kept jr payload c v.ending)
              (candidate-Goodbye api jr payload c v.counted);
      }

  Goodbye-Claimed : Claimed api Goodbye
  Goodbye-Claimed =
      let e = Ending-Claimed api in
      record {
        join_claimed = λ n c b v. both (e.join_claimed n c b v.ending) v.counted;
        register_claimed = λ n c b v. both (e.register_claimed n c b v.ending) v.counted;
        description_claimed = λ n c b v. both (e.description_claimed n c b v.ending) v.counted;
        candidate_claimed = λ n c b v. both (e.candidate_claimed n c b v.ending) v.counted;
        bye_kept = λ n c q b v.
            both (e.bye_kept n c q b v.ending)
              (bye_sent-Goodbye api n c (bye_finished c n b v.ending) q v.counted);
        startup_kept = λ g c v. both (e.startup_kept g c v.ending) (
            startup_timer-Goodbye api g
              (record c { startup_timers = remove_first g c.startup_timers })
              (λ f. (v.ending.unfinished f).0) v.counted);
        duration_kept = λ g c v. both (e.duration_kept g c v.ending) (
            duration_timer-Goodbye api g
              (record c { duration_timers = remove_first g c.duration_timers })
              (λ f. (v.ending.unfinished f).0) v.counted);
      }

  start-Goodbye : (config : AppConfig) → Goodbye (core (start (new_call api config)))
  unfolding start
  start-Goodbye config = both (start-Ending api config) (started config)
    where
      started :
          (config : AppConfig)
          → (let c = start (new_call api config) in
              Counted
                (byes c.requests)
                (leaves c.requests)
                c.finished
                c.quit
                c.terminal
                c.join_response)
      started config = ground arith

module _ {api : PeerApi} (parse : String → Crashes (Result SignalingMessage)) where
  -- Among the requests that the controller has made after any schedule: as long as the thread was
  -- not told to quit, there is one bye if the call is finished, none otherwise, and no call of
  -- `CloseAsync`. After that, there is one bye if the call had joined and ended since its duration
  -- was reached, none otherwise; and one call of `CloseAsync` if the call had joined, none otherwise.
  pub run_says_goodbye_once :
      (config : AppConfig) (es : List (Event api)) (c : Call api)
      → run parse config es ≡ some c
      → (byes c.requests ≡ (
          if c.quit
          then flag (reached_duration c.terminal && has_joined c.join_response)
          else flag c.finished))
        × (leaves c.requests ≡ (if c.quit then flag (has_joined c.join_response) else 0))
  run_says_goodbye_once config es c h =
      let v =
        run-Kept Goodbye (Goodbye-Kept api) (Goodbye-Claimed api) parse config es
          (start-Goodbye api config) h in
      (v.counted.byes_sent, v.counted.times_left)
