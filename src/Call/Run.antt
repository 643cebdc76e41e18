-- ===== src/Call/Run.antt =====
-- The message loop of the signaling thread: which callback runs next is up to the world.
--
-- `ProcessMessages` runs the callbacks one by one until `Quit`. A schedule is a list of events. One
-- whose callback was never handed out, or has run, is passed over; every interleaving is a schedule.
pub mod Rules
use vcpkg_webrtc_sample.Prelude.{
  ℕ, zero, suc, ◌==◌, String, Bool, true, false, if◌then◌else◌, Option, none, some, List, [], ◌∷◌,
  Crashes, Error, Result, Status, ◌>>=◌,
}
use vcpkg_webrtc_sample.Common.Config.{AppConfig}
use vcpkg_webrtc_sample.Common.Message.{SignalingMessage}
use vcpkg_webrtc_sample.Common.Join.{JoinResponse}
use vcpkg_webrtc_sample.Peer.Api.{PeerApi}
use vcpkg_webrtc_sample.Call.State.{Call, new_call}
use vcpkg_webrtc_sample.Call.Handlers.{
  start, on_startup_timer, on_duration_timer, on_stats_timer, on_join_complete, on_web_socket_open,
  on_register_complete, on_inbound_signaling_message, on_description_sent, on_candidate_sent,
  on_signaling_error, on_bye_sent, notify_all,
}

pub data Event (api : PeerApi) : Type 0 where
  -- The callback of a request, with the answer.
  join_complete : Result JoinResponse → Event api
  register_complete : Status → Event api
  description_sent : Status → Event api
  candidate_sent : Status → Event api
  bye_sent : Status → Event api
  -- A delayed task, by its generation, and the repeating task.
  startup_timer : ℕ → Event api
  duration_timer : ℕ → Event api
  stats_timer : Event api
  -- The event callbacks of the signaling client.
  web_socket_open : Event api
  inbound : SignalingMessage → Event api
  signaling_failure : Error → Event api
  -- Anything that happens to the peer connection.
  peer_event : api.Event → Event api

-- Whether a timer of the generation is due to fire, and the timers without it.
unfoldable pub has : ℕ → List ℕ → Bool
has g [] = false
has g (x ∷ xs) = if x == g then true else has g xs

unfoldable pub remove_first : ℕ → List ℕ → List ℕ
remove_first g [] = []
remove_first g (x ∷ xs) = if x == g then xs else x ∷ remove_first g xs

module _ {api : PeerApi} where
  abbrev pub take_one : ℕ → (ℕ → Call api) → Option (Call api)
  take_one zero c = none
  take_one (suc n) c = some (c n)

  -- A callback runs once: the state without it, `none` if there is none to run.
  unfoldable pub claim : Event api → Call api → Option (Call api)
  claim (join_complete r) c = take_one c.join_callbacks λ n. record c { join_callbacks = n }
  claim (register_complete s) c =
      take_one c.register_callbacks λ n. record c { register_callbacks = n }
  claim (description_sent s) c =
      take_one c.description_callbacks λ n. record c { description_callbacks = n }
  claim (candidate_sent s) c =
      take_one c.candidate_callbacks λ n. record c { candidate_callbacks = n }
  claim (bye_sent s) c = take_one c.bye_callbacks λ n. record c { bye_callbacks = n }
  claim (startup_timer g) c =
      if has g c.startup_timers
      then some (record c { startup_timers = remove_first g c.startup_timers })
      else none
  claim (duration_timer g) c =
      if has g c.duration_timers
      then some (record c { duration_timers = remove_first g c.duration_timers })
      else none
  claim e c = some c

  module _ (parse : String → Crashes (Result SignalingMessage)) where
    unfoldable pub deliver : Event api → Call api → Crashes (Call api)
    deliver (join_complete r) c = on_join_complete parse r c
    deliver (register_complete s) c = on_register_complete s c
    deliver (description_sent s) c = on_description_sent s c
    deliver (candidate_sent s) c = some (on_candidate_sent s c)
    deliver (bye_sent s) c = some (on_bye_sent c)
    deliver (startup_timer g) c = some (on_startup_timer g c)
    deliver (duration_timer g) c = some (on_duration_timer g c)
    deliver stats_timer c = some (on_stats_timer c)
    deliver web_socket_open c = some (on_web_socket_open c)
    deliver (inbound m) c = on_inbound_signaling_message m c
    deliver (signaling_failure e) c = some (on_signaling_error e c)
    deliver (peer_event e) c = api.handle e c.peer >>= λ r. notify_all r.1 (record c { peer = r.0 })

    abbrev pub deliver_claimed : Event api → Call api → Option (Call api) → Crashes (Call api)
    deliver_claimed e c none = some c
    deliver_claimed e c (some c') = deliver e c'

    -- After `Quit` nothing runs.
    unfoldable pub step : Event api → Call api → Crashes (Call api)
    step e c = if c.quit then some c else deliver_claimed e c (claim e c)

    unfoldable pub run_events : List (Event api) → Call api → Crashes (Call api)
    run_events [] c = some c
    run_events (e ∷ es) c = step e c >>= run_events es

    -- `Run`: the state after the events of a schedule.
    unfoldable pub run : AppConfig → List (Event api) → Crashes (Call api)
    unfolding run_events
    run config es = run_events es (start (new_call api config))
