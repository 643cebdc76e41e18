-- ===== src/Call/Heard/Claimed.antt =====
-- Every event, with what it brings.
use mathlib.Core.List.{append-nil}
use vcpkg_webrtc_sample.Prelude.{
  ℕ, zero, suc, ◌≡◌, refl, sym, subst, Bool, true, false, if◌then◌else◌, none, some, String, List,
  [], ◌∷◌, ◌++◌, Crashes, Result, Keeps, ◌>>=◌,
}
use vcpkg_webrtc_sample.Common.Message.{SignalingMessage}
use vcpkg_webrtc_sample.Common.Join.{JoinResponse}
use vcpkg_webrtc_sample.Peer.Api.{PeerApi, Notice}
use vcpkg_webrtc_sample.Call.State.{Call}
use vcpkg_webrtc_sample.Call.Handlers.{
  notify_all, on_stats_timer, on_web_socket_open, on_signaling_error,
}
use vcpkg_webrtc_sample.Call.Run.{
  Event, join_complete, register_complete, description_sent, candidate_sent, bye_sent,
  startup_timer, duration_timer, stats_timer, web_socket_open, inbound, signaling_failure,
  peer_event, has, remove_first, take_one, claim, deliver, deliver_claimed,
}
use vcpkg_webrtc_sample.Call.Heard.{listening, joined, one_fewer, if_left, arrivals, Heard}
use vcpkg_webrtc_sample.Call.Heard.Handlers.{
  startup_timer-Heard, duration_timer-Heard, bye_sent-Heard, stats_timer-Heard,
  web_socket_open-Heard, register_complete-Heard, description_sent-Heard, candidate_sent-Heard,
  signaling_error-Heard, notify_all-Heard,
}
use vcpkg_webrtc_sample.Call.Heard.Arriving.{inbound-Heard, join_complete-Heard}

module _ (api : PeerApi) (parse : String → Crashes (Result SignalingMessage)) where
  -- The messages of one event, and the joins that are left.
  abbrev pub brings : ℕ → Event (listening api) → List SignalingMessage
  brings n (join_complete r) = if_left n (joined parse r)
  brings n (inbound m) = m ∷ []
  brings n e = []

  abbrev pub left : ℕ → Event (listening api) → ℕ
  left n (join_complete r) = one_fewer n
  left n e = n

  pub arrivals-∷ :
      (n : ℕ) (e : Event (listening api)) (es : List (Event (listening api)))
      → arrivals parse n (e ∷ es) ≡ brings n e ++ arrivals parse (left n e) es
  arrivals-∷ n (join_complete r) es = refl
  arrivals-∷ n (register_complete s) es = refl
  arrivals-∷ n (description_sent s) es = refl
  arrivals-∷ n (candidate_sent s) es = refl
  arrivals-∷ n (bye_sent s) es = refl
  arrivals-∷ n (startup_timer g) es = refl
  arrivals-∷ n (duration_timer g) es = refl
  arrivals-∷ n stats_timer es = refl
  arrivals-∷ n web_socket_open es = refl
  arrivals-∷ n (inbound m) es = refl
  arrivals-∷ n (signaling_failure e) es = refl
  arrivals-∷ n (peer_event e) es = refl

  module _ (n : ℕ) (arrived : List SignalingMessage) where
    Good : Call (listening api) → Type 0
    Good = Heard api n arrived

    -- An event that brings nothing.
    silent :
        (m : Crashes (Call (listening api)))
        → Keeps (Heard api n arrived) m
        → Keeps (Heard api n (arrived ++ [])) m
    silent m h = subst (λ l. Keeps (Heard api n l) m) (sym (append-nil arrived)) h

    counted :
        (e : Event (listening api)) (c : Call (listening api)) (k : ℕ)
        (f : ℕ → Call (listening api))
        → ((j : ℕ) → Keeps (Heard api n arrived) (deliver parse e (f j)))
        → Heard api n arrived c
        → Keeps (Heard api n (arrived ++ [])) (deliver_claimed parse e c (take_one k f))
    counted e c zero f k h = silent (some c) h
    counted e c (suc j) f k h = silent _ (k j)

    timed :
        (e : Event (listening api)) (c d : Call (listening api)) (due : Bool)
        → Keeps (Heard api n arrived) (deliver parse e d)
        → Heard api n arrived c
        → Keeps
            (Heard api n (arrived ++ []))
            (deliver_claimed parse e c (if due then some d else none))
    timed e c d true k h = silent _ k
    timed e c d false k h = silent (some c) h

    with_list :
        List SignalingMessage
        → api.State × List Notice
        → Crashes ((api.State × List SignalingMessage) × List Notice)
    with_list l r = some ((r.0, l), r.1)

    handled :
        (m : Crashes (api.State × List Notice)) (c : Call (listening api))
        → Heard api n arrived c
        → Keeps
            (Heard api n arrived)
            ((m >>= with_list c.peer.1) >>= λ r. notify_all r.1 (record c { peer = r.0 }))
    unfolding with_list
    handled none c h = tt
    handled (some r) c h = notify_all-Heard api n arrived r.1 _ h

  join_taken :
      (arrived : List SignalingMessage) (r : Result JoinResponse) (c : Call (listening api)) (k : ℕ)
      → c.quit ≡ false
      → Heard api k arrived c
      → Keeps (Heard api (left k (join_complete r)) (arrived ++ brings k (join_complete r))) (
          deliver_claimed parse
            (join_complete r)
            c
            (take_one k (λ j. record c { join_callbacks = j })))
  unfolding deliver
  join_taken arrived r c zero q h = silent 0 arrived (some c) h
  join_taken arrived r c (suc k) q h =
      join_complete-Heard api arrived parse k r (record c { join_callbacks = k }) q
        (record { joins_left = refl; is_part = h.is_part; is_all = h.is_all })

  pub claimed-Heard :
      (n : ℕ) (arrived : List SignalingMessage) (e : Event (listening api))
      (c : Call (listening api))
      → c.quit ≡ false
      → Heard api n arrived c
      → Keeps (Heard api (left n e) (arrived ++ brings n e)) (deliver_claimed parse e c (claim e c))
  unfolding claim deliver with_list
  claimed-Heard n arrived (join_complete r) c q h =
      subst
        (λ k.
          Keeps (Heard api (left k (join_complete r)) (arrived ++ brings k (join_complete r)))
            (deliver_claimed parse (join_complete r) c (claim (join_complete r) c)))
        h.joins_left
        (join_taken arrived r c c.join_callbacks q
          (record { joins_left = refl; is_part = h.is_part; is_all = h.is_all }))
  claimed-Heard n arrived (register_complete s) c q h =
      counted n arrived (register_complete s) c c.register_callbacks _
        (λ j. register_complete-Heard api n arrived s (record c { register_callbacks = j }) h) h
  claimed-Heard n arrived (description_sent s) c q h =
      counted n arrived (description_sent s) c c.description_callbacks _
        (λ j. description_sent-Heard api n arrived s (record c { description_callbacks = j }) h) h
  claimed-Heard n arrived (candidate_sent s) c q h =
      counted n arrived (candidate_sent s) c c.candidate_callbacks _
        (λ j. candidate_sent-Heard api n arrived s (record c { candidate_callbacks = j }) h) h
  claimed-Heard n arrived (bye_sent s) c q h =
      counted n arrived (bye_sent s) c c.bye_callbacks _
        (λ j. bye_sent-Heard api n arrived (record c { bye_callbacks = j }) h) h
  claimed-Heard n arrived (startup_timer g) c q h =
      let d = record c { startup_timers = remove_first g c.startup_timers } in
      timed n arrived (startup_timer g) c d (has g c.startup_timers)
        (startup_timer-Heard api n arrived g d h) h
  claimed-Heard n arrived (duration_timer g) c q h =
      let d = record c { duration_timers = remove_first g c.duration_timers } in
      timed n arrived (duration_timer g) c d (has g c.duration_timers)
        (duration_timer-Heard api n arrived g d h) h
  claimed-Heard n arrived stats_timer c q h =
      silent n arrived (some (on_stats_timer c)) (stats_timer-Heard api n arrived c h)
  claimed-Heard n arrived web_socket_open c q h =
      silent n arrived (some (on_web_socket_open c)) (web_socket_open-Heard api n arrived c h)
  claimed-Heard n arrived (inbound m) c q h = inbound-Heard api arrived n m c q h
  claimed-Heard n arrived (signaling_failure e) c q h =
      silent n arrived (some (on_signaling_error e c)) (signaling_error-Heard api n arrived e c h)
  claimed-Heard n arrived (peer_event e) c q h =
      silent n arrived _ (handled n arrived (api.handle e c.peer.0) c h)
