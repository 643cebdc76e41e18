-- ===== src/Call/Requests/Moved.antt =====
-- What one event does to the callbacks and the requests.
use vcpkg_webrtc_sample.Prelude.{
  ℕ, zero, suc, ◌+◌, ◌≤◌, ◌≡◌, refl, Bool, true, false, flag, String, List, [], ◌++◌, if_cases,
  Crashes, Result, Keeps, Keeps-imp, arith,
}
use vcpkg_webrtc_sample.Common.Message.{SignalingMessage}
use vcpkg_webrtc_sample.Peer.Api.{PeerApi}
use vcpkg_webrtc_sample.Call.State.{Call, Request}
use vcpkg_webrtc_sample.Call.Run.{
  Event, join_complete, register_complete, description_sent, candidate_sent, bye_sent,
  startup_timer, duration_timer, stats_timer, web_socket_open, inbound, signaling_failure,
  peer_event, has, remove_first, take_one, claim, deliver, deliver_claimed, step,
}
use vcpkg_webrtc_sample.Call.Kept.{core}
use vcpkg_webrtc_sample.Call.Kept.Handlers.{
  stats_timer-Kept, join_complete-Kept, web_socket_open-Kept, register_complete-Kept, inbound-Kept,
  description_sent-Kept, candidate_sent-Kept, signaling_error-Kept,
}
use vcpkg_webrtc_sample.Call.Kept.Steps.{peer_event-Kept}
use vcpkg_webrtc_sample.Call.Requests.{
  Kind, of_join, of_register, of_description, of_candidate, of_bye, count, callbacks,
}
use vcpkg_webrtc_sample.Call.Requests.Grown.{
  Grown, Grown-refl, Grown-Kept, bye_sent-Grown, startup_timer-Grown, duration_timer-Grown,
}

module _ {api : PeerApi} where
  -- Whether an event is the callback of a request, and of which kind.
  abbrev pub answers : Event api → Kind → Bool
  answers (join_complete r) of_join = true
  answers (register_complete s) of_register = true
  answers (description_sent s) of_description = true
  answers (candidate_sent s) of_candidate = true
  answers (bye_sent s) of_bye = true
  answers e k = false

  -- The requests that were made, and the callbacks: those before, with one for each new request that
  -- has one, without the one that ran.
  pub record Moved (e : Event api) (c d : Call api) : Type 0 where
    pub made : List Request
    pub on_top : d.requests ≡ made ++ c.requests
    pub balanced :
        (k : Kind) → callbacks k (core d) + flag (answers e k) ≡ callbacks k (core c) + count k made

  unmoved : (e : Event api) (c : Call api) → ((k : Kind) → answers e k ≡ false) → Moved e c c
  unmoved e c h = record { made = []; on_top = refl; balanced = λ k. rw (h k) (omega arith) }

  -- From the state without the callback that runs.
  moved :
      (e : Event api) (c b : Call api)
      → b.requests ≡ c.requests
      → ((k : Kind) → callbacks k (core b) + flag (answers e k) ≡ callbacks k (core c))
      → (d : Call api) → Grown (core b) (core d)
      → Moved e c d
  moved e c b r h d g = record {
    made = g.made;
    on_top = rw (← r) g.on_top;
    balanced = λ k. omega (arith, h k, g.balanced k);
  }

  from :
      (e : Event api) (c b : Call api)
      → b.requests ≡ c.requests
      → ((k : Kind) → callbacks k (core b) + flag (answers e k) ≡ callbacks k (core c))
      → (m : Crashes (Call api)) → Keeps (λ d. Grown (core b) (core d)) m
      → Keeps (Moved e c) m
  from e c b r h m = Keeps-imp (λ d. Grown (core b) (core d)) (Moved e c) m (moved e c b r h)

  module _ (parse : String → Crashes (Result SignalingMessage)) where
    -- An event for which there is a callback.
    taken :
        (e : Event api) (c : Call api) (n : ℕ) (f : ℕ → Call api)
        → 1 ≤ n
        → ((m : ℕ) → n ≡ suc m → Keeps (Moved e c) (deliver parse e (f m)))
        → Keeps (Moved e c) (deliver_claimed parse e c (take_one n f))
    taken e c zero f p h = absurd (omega arith)
    taken e c (suc m) f p h = h m refl

    claimed-Moved :
        (e : Event api) (c : Call api)
        → ((k : Kind) → flag (answers e k) ≤ callbacks k (core c))
        → Keeps (Moved e c) (deliver_claimed parse e c (claim e c))
    unfolding claim deliver
    claimed-Moved (join_complete r) c p =
        taken (join_complete r) c c.join_callbacks _ (p of_join) (λ m q.
          let b = record c { join_callbacks = m } in
          from (join_complete r) c b refl (λ k. ground arith) (deliver parse (join_complete r) b)
            (join_complete-Kept (Grown (core b)) (Grown-Kept api (core b)) parse r b
              (Grown-refl (core b))))
    claimed-Moved (register_complete s) c p =
        taken (register_complete s) c c.register_callbacks _ (p of_register) (λ m q.
          let b = record c { register_callbacks = m } in
          from (register_complete s) c b refl (λ k. ground arith)
            (deliver parse (register_complete s) b)
            (register_complete-Kept (Grown (core b)) (Grown-Kept api (core b)) s b
              (Grown-refl (core b))))
    claimed-Moved (description_sent s) c p =
        taken (description_sent s) c c.description_callbacks _ (p of_description) (λ m q.
          let b = record c { description_callbacks = m } in
          from (description_sent s) c b refl (λ k. ground arith)
            (deliver parse (description_sent s) b)
            (description_sent-Kept (Grown (core b)) (Grown-Kept api (core b)) s b
              (Grown-refl (core b))))
    claimed-Moved (candidate_sent s) c p =
        taken (candidate_sent s) c c.candidate_callbacks _ (p of_candidate) (λ m q.
          let b = record c { candidate_callbacks = m } in
          from (candidate_sent s) c b refl (λ k. ground arith) (deliver parse (candidate_sent s) b)
            (candidate_sent-Kept (Grown (core b)) (Grown-Kept api (core b)) s b
              (Grown-refl (core b))))
    claimed-Moved (bye_sent s) c p = taken (bye_sent s) c c.bye_callbacks _ (p of_bye) (λ m q.
        let b = record c { bye_callbacks = m } in
        from (bye_sent s) c b refl (λ k. ground arith) (deliver parse (bye_sent s) b)
          (bye_sent-Grown api (core b) b (Grown-refl (core b))))
    claimed-Moved (startup_timer g) c p =
        let b = record c { startup_timers = remove_first g c.startup_timers } in
        if_cases
          (λ o. Keeps (Moved (startup_timer g) c) (deliver_claimed parse (startup_timer g) c o))
          (has g c.startup_timers)
          (λ _.
            from (startup_timer g) c b refl (λ k. ground arith) (deliver parse (startup_timer g) b)
              (startup_timer-Grown api (core b) g b (Grown-refl (core b))))
          (λ _. unmoved (startup_timer g) c (λ k. refl))
    claimed-Moved (duration_timer g) c p =
        let b = record c { duration_timers = remove_first g c.duration_timers } in
        if_cases
          (λ o. Keeps (Moved (duration_timer g) c) (deliver_claimed parse (duration_timer g) c o))
          (has g c.duration_timers)
          (λ _.
            from (duration_timer g) c b refl (λ k. ground arith)
              (deliver parse (duration_timer g) b)
              (duration_timer-Grown api (core b) g b (Grown-refl (core b))))
          (λ _. unmoved (duration_timer g) c (λ k. refl))
    claimed-Moved stats_timer c p =
        from stats_timer c c refl (λ k. omega arith) (deliver parse stats_timer c)
          (stats_timer-Kept (Grown (core c)) (Grown-Kept api (core c)) c (Grown-refl (core c)))
    claimed-Moved web_socket_open c p =
        from web_socket_open c c refl (λ k. omega arith) (deliver parse web_socket_open c)
          (web_socket_open-Kept (Grown (core c)) (Grown-Kept api (core c)) c (Grown-refl (core c)))
    claimed-Moved (inbound m) c p =
        from (inbound m) c c refl (λ k. omega arith) (deliver parse (inbound m) c)
          (inbound-Kept (Grown (core c)) (Grown-Kept api (core c)) m c (Grown-refl (core c)))
    claimed-Moved (signaling_failure e) c p =
        from (signaling_failure e) c c refl (λ k. omega arith)
          (deliver parse (signaling_failure e) c)
          (signaling_error-Kept (Grown (core c)) (Grown-Kept api (core c)) e c
            (Grown-refl (core c)))
    claimed-Moved (peer_event e) c p =
        from (peer_event e) c c refl (λ k. omega arith) (deliver parse (peer_event e) c)
          (peer_event-Kept (Grown (core c)) (Grown-Kept api (core c)) parse e c
            (Grown-refl (core c)))

    -- Nothing runs after `Quit`. Otherwise an event that is the callback of a request runs it, where
    -- there is one.
    pub step-Moved :
        (e : Event api) (c : Call api)
        → c.quit ≡ false
        → ((k : Kind) → flag (answers e k) ≤ callbacks k (core c))
        → Keeps (Moved e c) (step parse e c)
    unfolding step
    step-Moved e c q p =
        if_cases (Keeps (Moved e c)) c.quit (λ t. absurd (cc)) (λ _. claimed-Moved e c p)
