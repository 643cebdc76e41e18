-- ===== src/Peer/Calls/Fresh/Steps.antt =====
-- The observers, call by call and callback by callback.
use vcpkg_webrtc_sample.Prelude.{
  Bool, ℕ, ◌==◌, true, Option, none, some, List, [], ◌∷◌, String, Crashes, Result, ok, err, Status,
  ◌>>=◌, ◌&&◌, Keeps, >>=-Keeps_both, if_cases, not,
}
use vcpkg_webrtc_sample.Common.Json.{Json}
use vcpkg_webrtc_sample.Common.Message.{serialize_session_description}
use vcpkg_webrtc_sample.Peer.Api.{Notice}
use vcpkg_webrtc_sample.Peer.Rtc.{Rtc, RtcResult, done, rtc_error, offer_type, answer_type}
use vcpkg_webrtc_sample.Peer.State.{
  Peer, Observer, create_description, set_local, set_remote, AfterRemote, report,
  then_create_answer, Answer, created, applied, PeerEvent, called_back, connection_change,
  ice_candidate, frame_arrived, track_added, state_logged,
}
use vcpkg_webrtc_sample.Peer.Setup.{initialize, start_media, close}
use vcpkg_webrtc_sample.Peer.Candidates.{add_remote_candidate, flush_pending_remote_candidates}
use vcpkg_webrtc_sample.Peer.Negotiation.{
  create_offer, create_answer, apply_local_description, set_remote_answer,
  set_remote_offer_and_create_answer, serialized, description_made, after_remote,
  remote_description_applied, resume,
}
use vcpkg_webrtc_sample.Peer.Events.{
  take_at, on_connection_change, on_frame, on_track, resumed, on_answer, handle,
}
use vcpkg_webrtc_sample.Peer.Calls.{
  PeerCall, initializes, starts_media, creates_offer, sets_remote_offer, sets_remote_answer,
  adds_candidate, logs_stats, closes, hears, described, answer_set, peer_call, peer_calls,
}
use vcpkg_webrtc_sample.Peer.Calls.Fresh.{
  AllUpTo-weaken, Taken, take_at-Taken, Fresh, FreshAnd, FreshStatus, FreshResult, call_with-Fresh,
  with_description-Fresh, initialize-Fresh, start_media-Fresh, add_remote_candidate-Fresh,
  flush-Fresh, log_stats-Fresh,
}

module _ {rtc : Rtc} where
  description_made-Fresh :
      (json : Json) (r : RtcResult rtc.Description) (p : Peer rtc)
      → Fresh p
      → Keeps FreshAnd (description_made json r p)
  unfolding description_made serialized apply_local_description
  description_made-Fresh json (rtc_error m) p h = h
  description_made-Fresh json (done d) p h =
      serialized-Fresh
        (serialize_session_description json (rtc.description_type d) (rtc.description_to_string d))
    where
      serialized-Fresh : (r : Result String) → Keeps FreshAnd (serialized d r p)
      serialized-Fresh (err e) = h
      serialized-Fresh (ok text) =
          >>=-Keeps_both Fresh FreshAnd (apply_local_description d text p) _
            (call_with-Fresh (set_local text) (rtc.set_local_description d) p.connection p h)
            (λ q g. g)

  after_remote-Fresh :
      (k : AfterRemote) (r : Status × Peer rtc) → FreshStatus r → Keeps FreshAnd (after_remote k r)
  unfolding after_remote create_answer
  after_remote-Fresh report (s, p) h = h
  after_remote-Fresh then_create_answer (err e, p) h = h
  after_remote-Fresh then_create_answer (ok _, p) h =
      >>=-Keeps_both Fresh FreshAnd (create_answer p) _
        (call_with-Fresh create_description rtc.create_answer p.connection p h) (λ q g. g)

  remote_applied-Fresh :
      (k : AfterRemote) (r : Option String) (p : Peer rtc)
      → Fresh p
      → Keeps FreshAnd (remote_description_applied k r p)
  unfolding remote_description_applied
  remote_applied-Fresh k (some m) p h = after_remote-Fresh k _ h
  remote_applied-Fresh k none p h =
      >>=-Keeps_both FreshStatus FreshAnd
        (flush_pending_remote_candidates (record p { remote_description_set = true })) _
        (flush-Fresh (record p { remote_description_set = true }) h) (after_remote-Fresh k)

  resumed-Fresh :
      (json : Json) (ob : Observer) (a : Answer rtc) (p q : Peer rtc)
      → Fresh p
      → Fresh q
      → Keeps FreshAnd (resumed p (resume json ob a q))
  unfolding resume
  resumed-Fresh json create_description (created r) p q g h = description_made-Fresh json r q h
  resumed-Fresh json create_description (applied r) p q g h = g
  resumed-Fresh json (set_local text) (created r) p q g h = g
  resumed-Fresh json (set_local text) (applied r) p q g h = h
  resumed-Fresh json (set_remote k) (created r) p q g h = g
  resumed-Fresh json (set_remote k) (applied r) p q g h = remote_applied-Fresh k r q h

  on_answer-Fresh :
      (json : Json) (t : Option ((ℕ × Observer) × List (ℕ × Observer))) (a : Answer rtc)
      (p : Peer rtc)
      → Fresh p
      → Taken p.safety t
      → Keeps FreshAnd (on_answer json t a p)
  unfolding on_answer
  on_answer-Fresh json none a p h t = h
  on_answer-Fresh json (some ((c, ob), rest)) a p h t =
      if_cases (Keeps FreshAnd) (c == p.safety)
        (λ _. resumed-Fresh json ob a p (record p { observers = rest }) h t.1) (λ _. t.1)

  on_frame-Fresh : (c : ℕ) (p : Peer rtc) → Fresh p → FreshAnd (on_frame c p)
  unfolding on_frame
  on_frame-Fresh c p h =
      if_cases FreshAnd (c == p.safety && not p.remote_media_seen) (λ _. h) (λ _. h)

  on_track-Fresh : (track : Option Bool) (p : Peer rtc) → Fresh p → Fresh (on_track track p)
  unfolding on_track
  on_track-Fresh none p h = h
  on_track-Fresh (some is_video) p h =
      if_cases Fresh (is_video && p.remote_frame_sink) (λ _. h) (λ _. h)

  handle-Fresh :
      (json : Json) (e : PeerEvent rtc) (p : Peer rtc) → Fresh p → Keeps FreshAnd (handle json e p)
  unfolding handle on_connection_change
  handle-Fresh json (called_back i a) p h =
      on_answer-Fresh json (take_at i p.observers) a p h (take_at-Taken p.safety i p.observers h)
  handle-Fresh json (connection_change s) p h = h
  handle-Fresh json (ice_candidate c) p h = h
  handle-Fresh json (frame_arrived c) p h = on_frame-Fresh c p h
  handle-Fresh json (track_added track) p h = on_track-Fresh track p h
  handle-Fresh json state_logged p h = h

  close-Fresh : (p : Peer rtc) → Fresh p → Fresh (close p)
  unfolding close
  close-Fresh p h = AllUpTo-weaken p.safety p.observers h

  from_result :
      (f : Result (Peer rtc) → Peer rtc × List Notice) (m : Crashes (Result (Peer rtc)))
      → ((r : Result (Peer rtc)) → FreshResult r → FreshAnd (f r))
      → Keeps FreshResult m
      → Keeps FreshAnd (m >>= λ r. some (f r))
  from_result f none g h = tt
  from_result f (some r) g h = g r h

  peer_call-Fresh :
      (json : Json) (x : PeerCall rtc) (p : Peer rtc)
      → Fresh p
      → Keeps FreshAnd (peer_call json x p)
  unfolding peer_call create_offer set_remote_answer set_remote_offer_and_create_answer
  peer_call-Fresh json (initializes jr) p h =
      >>=-Keeps_both FreshStatus FreshAnd (initialize json jr p) _ (initialize-Fresh json jr p h)
        (λ r g. g)
  peer_call-Fresh json (starts_media s) p h =
      >>=-Keeps_both FreshStatus FreshAnd (start_media s p) _ (start_media-Fresh s p h) (λ r g. g)
  peer_call-Fresh json creates_offer p h =
      >>=-Keeps_both Fresh FreshAnd (create_offer p) _
        (call_with-Fresh create_description rtc.create_offer p.connection p h) (λ q g. g)
  peer_call-Fresh json (sets_remote_offer m) p h =
      from_result (described p) (set_remote_offer_and_create_answer m p) (described-Fresh h) (
        with_description-Fresh then_create_answer (rtc.create_session_description offer_type m.sdp)
          p h)
    where
      described-Fresh : Fresh p → (r : Result (Peer rtc)) → FreshResult r → FreshAnd (described p r)
      described-Fresh g (ok q) k = k
      described-Fresh g (err e) k = g
  peer_call-Fresh json (sets_remote_answer m) p h =
      from_result (answer_set p) (set_remote_answer m p) (answer_set-Fresh h)
        (with_description-Fresh report (rtc.create_session_description answer_type m.sdp) p h)
    where
      answer_set-Fresh :
          Fresh p → (r : Result (Peer rtc)) → FreshResult r → FreshAnd (answer_set p r)
      answer_set-Fresh g (ok q) k = k
      answer_set-Fresh g (err e) k = g
  peer_call-Fresh json (adds_candidate m) p h =
      >>=-Keeps_both FreshStatus FreshAnd (add_remote_candidate m p) _
        (add_remote_candidate-Fresh m p h) (λ r g. g)
  peer_call-Fresh json logs_stats p h = log_stats-Fresh p h
  peer_call-Fresh json closes p h = close-Fresh p h
  peer_call-Fresh json (hears e) p h = handle-Fresh json e p h

  pub peer_calls-Fresh :
      (json : Json) (xs : List (PeerCall rtc)) (p : Peer rtc)
      → Fresh p
      → Keeps FreshAnd (peer_calls json xs p)
  unfolding peer_calls
  peer_calls-Fresh json [] p h = h
  peer_calls-Fresh json (x ∷ xs) p h =
      >>=-Keeps_both FreshAnd FreshAnd (peer_call json x p) _ (peer_call-Fresh json x p h) λ r g.
        >>=-Keeps_both FreshAnd FreshAnd (peer_calls json xs r.0) _ (peer_calls-Fresh json xs r.0 g)
          (λ q k. k)
