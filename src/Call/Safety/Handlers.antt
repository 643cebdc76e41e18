-- ===== src/Call/Safety/Handlers.antt =====
-- Crashes and the callbacks on the signaling thread.
use vcpkg_webrtc_sample.Prelude.{
  ℕ, suc, ◌==◌, not, ◌&&◌, ◌≡◌, refl, true, false, Option, none, some, List, [], ◌∷◌, Crashes,
  Error, Result, ok, err, Status, ok_status, Returns, >>=-Returns, Returns-eq, if_cases, arith,
  String,
}
use vcpkg_webrtc_sample.Common.Message.{SignalingMessage}
use vcpkg_webrtc_sample.Common.Join.{JoinResponse}
use vcpkg_webrtc_sample.Peer.Api.{PeerApi, PeerLaws}
use vcpkg_webrtc_sample.Call.Types.{
  startup_timeout, local_duration_reached, media_error, signaling_error, peer_connection_error,
}
use vcpkg_webrtc_sample.Call.State.{Call}
use vcpkg_webrtc_sample.Call.Queue.{parse_messages}
use vcpkg_webrtc_sample.Call.Finish.{finish, start_stats_timer}
use vcpkg_webrtc_sample.Call.Handlers.{
  on_startup_timer, on_duration_timer, on_stats_timer, start_media, queue_join_messages,
  initialized, join_completed, on_join_complete, web_socket_opened, on_web_socket_open, registered,
  on_register_complete, on_inbound_signaling_message, on_description_sent, on_candidate_sent,
  on_signaling_error,
}
use vcpkg_webrtc_sample.Call.Safety.{Safe, finish-Safe, finish-Safe_failed}
use vcpkg_webrtc_sample.Call.Safety.Pump.{pump-Safe}

-- Reading the texts does not crash.
abbrev pub Decode : (String → Crashes (Result SignalingMessage)) → List String → Type 0
Decode parse [] = Unit
Decode parse (text ∷ texts) = Returns (λ r. Unit) (parse text) × Decode parse texts

parse_messages_total :
    (parse : String → Crashes (Result SignalingMessage)) (texts : List String)
    → Decode parse texts
    → Returns (λ ms. Unit) (parse_messages parse texts)
unfolding parse_messages
parse_messages_total parse [] d = tt
parse_messages_total parse (text ∷ texts) d =
    >>=-Returns (λ r. Unit) (λ ms. Unit) (parse text) _ d.0
      λ r _.
        >>=-Returns (λ ms. Unit) (λ ms. Unit) (parse_messages parse texts) _
          (parse_messages_total parse texts d.1) (λ ms _. tt)

module _ {api : PeerApi} (laws : PeerLaws api) where
  abbrev failed :
      (c : Call api) (s : Status) → Safe laws 0 c → Safe laws 0 (finish signaling_error s c)
  failed c s v = finish-Safe laws 0 signaling_error s c v

  pub startup_timer-Safe :
      (g : ℕ) (c : Call api) → Safe laws 0 c → Safe laws 0 (on_startup_timer g c)
  unfolding on_startup_timer
  startup_timer-Safe g c v =
      if_cases (Safe laws 0) c.finished (λ _. v)
        λ _.
          if_cases (Safe laws 0) (g == c.startup_timeout_generation && not c.call_established)
            (λ _. finish-Safe laws 0 startup_timeout _ c v) (λ _. v)

  pub duration_timer-Safe :
      (g : ℕ) (c : Call api) → Safe laws 0 c → Safe laws 0 (on_duration_timer g c)
  unfolding on_duration_timer
  duration_timer-Safe g c v =
      if_cases (Safe laws 0) c.finished (λ _. v)
        λ _.
          if_cases (Safe laws 0) (g == c.call_duration_generation && c.call_established)
            (λ _. finish-Safe laws 0 local_duration_reached _ c v) (λ _. v)

  pub stats_timer-Safe : (c : Call api) → Safe laws 0 c → Safe laws 0 (on_stats_timer c)
  unfolding on_stats_timer
  stats_timer-Safe c v = ground (arith, laws.log_stats_lem c.peer)

  module _ (parse : String → Crashes (Result SignalingMessage)) where
    start_media-Safe :
        (jr : JoinResponse) (s : Status) (p : api.State) (c : Call api)
        → Decode parse jr.messages
        → c.finished ≡ false
        → Safe laws 0 (record c { peer = p })
        → Returns (Safe laws 0) (start_media parse jr (s, p) c)
    unfolding start_media queue_join_messages
    start_media-Safe jr (ok _) p c d f v =
        >>=-Returns (Safe laws 0) (Safe laws 0)
          (queue_join_messages parse jr (record c { peer = p })) _
          (>>=-Returns (λ ms. Unit) (Safe laws 0) (parse_messages parse jr.messages) _
            (parse_messages_total parse jr.messages d) (λ ms _. v))
          (λ c' w. w)
    start_media-Safe jr (err e) p c d f v =
        finish-Safe laws 0 media_error _ (record c { peer = p }) v

    initialized-Safe :
        (jr : JoinResponse) (s : Status) (p : api.State) (c : Call api)
        → Decode parse jr.messages
        → c.finished ≡ false
        → c.join_response ≡ some jr
        → (s ≡ ok_status → laws.is_open p ≡ true)
        → (laws.is_open p ≡ true → Safe laws 0 (record c { peer = p }))
        → (c.negotiation_ready ≡ false → c.signaling_action_in_flight ≡ false)
        → Returns (Safe laws 0) (initialized parse jr (s, p) c)
    unfolding initialized
    initialized-Safe jr (err e) p c d f j o v u =
        finish-Safe_failed laws peer_connection_error _ (record c { peer = p }) (λ h. cc) f
          (λ h. cc) u
    initialized-Safe jr (ok _) p c d f j o v u =
        let (s, q, h, b, o') = laws.start_media_lem p (o refl) in
        Returns-eq (Safe laws 0) _ h
          (start_media-Safe jr s q (record c { peer = p }) d f (moved q b o' (v (o refl))))
      where
        moved :
            (q : api.State)
            → laws.busy q ≡ laws.busy p
            → laws.is_open q ≡ true
            → Safe laws 0 (record c { peer = p })
            → Safe laws 0 (record c { peer = q })
        moved q b o' w = ground arith

    join_completed-Safe :
        (jr : JoinResponse) (c : Call api)
        → laws.Accepts jr
        → Decode parse jr.messages
        → c.finished ≡ false
        → Safe laws 0 c
        → Returns (Safe laws 0) (join_completed parse (ok jr) c)
    unfolding join_completed
    join_completed-Safe jr c a d f v =
        let (s, q, h, b, o) = laws.initialize_lem jr c.peer a in
        Returns-eq (Safe laws 0) _ h (
          initialized-Safe jr s q (record c { join_response = some jr }) d f refl o (joined q b)
            v.unready)
      where
        joined :
            (q : api.State)
            → laws.busy q ≡ laws.busy c.peer
            → laws.is_open q ≡ true
            → Safe laws 0 (record c { join_response = some jr; peer = q })
        joined q b o = ground arith

    -- What the signaling client has checked of an answer: the peer connection client accepts it,
    -- and reading the texts that it holds does not throw.
    abbrev pub Checked : Result JoinResponse → Type 0
    Checked (err e) = Unit
    Checked (ok jr) = laws.Accepts jr × Decode parse jr.messages

    pub join_complete-Safe :
        (r : Result JoinResponse) (c : Call api)
        → Checked r
        → Safe laws 0 c
        → Returns (Safe laws 0) (on_join_complete parse r c)
    unfolding on_join_complete join_completed
    join_complete-Safe (err e) c a v =
        if_cases (Returns (Safe laws 0)) c.finished (λ _. v) (λ _. failed c (err e) v)
    join_complete-Safe (ok jr) c a v =
        if_cases (Returns (Safe laws 0)) c.finished (λ _. v)
          λ f. join_completed-Safe jr c a.0 a.1 f v

  web_socket_opened-Safe :
      (j : Option JoinResponse) (c : Call api)
      → c.join_response ≡ j
      → Safe laws 0 c
      → Safe laws 0 (web_socket_opened j c)
  unfolding web_socket_opened
  web_socket_opened-Safe none c e v = v
  web_socket_opened-Safe (some jr) c e v = ground arith

  pub web_socket_open-Safe : (c : Call api) → Safe laws 0 c → Safe laws 0 (on_web_socket_open c)
  unfolding on_web_socket_open
  web_socket_open-Safe c v =
      if_cases (Safe laws 0) c.finished (λ _. v)
        (λ _. web_socket_opened-Safe c.join_response c refl v)

  -- A registration was asked for only after the join.
  pub register_complete-Safe :
      (s : Status) (n : ℕ) (c : Call api)
      → c.register_callbacks ≡ suc n
      → Safe laws 0 c
      → Returns (Safe laws 0) (on_register_complete s (record c { register_callbacks = n }))
  unfolding on_register_complete registered
  register_complete-Safe (err e) n c r v =
      if_cases (Returns (Safe laws 0)) c.finished (λ _. ground arith)
        (λ _. failed (record c { register_callbacks = n }) (err e) (ground arith))
  register_complete-Safe (ok _) n c r v =
      if_cases (Returns (Safe laws 0)) c.finished (λ _. ground arith)
        (λ _.
          pump-Safe laws
            (start_stats_timer (record c { register_callbacks = n; negotiation_ready = true }))
            (ground arith))

  pub inbound-Safe :
      (m : SignalingMessage) (c : Call api)
      → Safe laws 0 c
      → Returns (Safe laws 0) (on_inbound_signaling_message m c)
  unfolding on_inbound_signaling_message
  inbound-Safe m c v =
      if_cases (Returns (Safe laws 0)) c.finished (λ _. v) (λ _. pump-Safe laws _ v)

  pub description_sent-Safe :
      (s : Status) (n : ℕ) (c : Call api)
      → c.quit ≡ false
      → c.description_callbacks ≡ suc n
      → Safe laws 0 c
      → Returns (Safe laws 0) (on_description_sent s (record c { description_callbacks = n }))
  unfolding on_description_sent
  description_sent-Safe (err e) n c q d v =
      failed (record c { description_callbacks = n; signaling_action_in_flight = false }) (err e)
        (ground arith)
  description_sent-Safe (ok _) n c q d v =
      pump-Safe laws (record c { description_callbacks = n; signaling_action_in_flight = false })
        (ground arith)

  pub candidate_sent-Safe :
      (s : Status) (c : Call api) → Safe laws 0 c → Safe laws 0 (on_candidate_sent s c)
  unfolding on_candidate_sent
  candidate_sent-Safe (ok _) c v = v
  candidate_sent-Safe (err e) c v = failed c (err e) v

  pub signaling_error-Safe :
      (e : Error) (c : Call api) → Safe laws 0 c → Safe laws 0 (on_signaling_error e c)
  unfolding on_signaling_error
  signaling_error-Safe e c v = if_cases (Safe laws 0) c.finished (λ _. v) (λ _. failed c (err e) v)
