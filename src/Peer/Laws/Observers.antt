-- ===== src/Peer/Laws/Observers.antt =====
-- The laws of the callbacks of the WebRTC library.
use vcpkg_webrtc_sample.Prelude.{
  ℕ, zero, suc, ◌+◌, ◌==◌, ◌≡◌, refl, ap, ◌∙◌, sym, subst, ◌⊎◌, Bool, true, if_cases, Option, none,
  some, List, [], ◌∷◌, String, Crashes, Result, ok, err, Status, Returns, >>=-Returns, arith,
  if◌then◌else◌,
}
use vcpkg_webrtc_sample.Common.Json.{Json}
use vcpkg_webrtc_sample.Peer.Api.{Notice, completions}
use vcpkg_webrtc_sample.Peer.Rtc.{Rtc, RtcResult, done, rtc_error}
use vcpkg_webrtc_sample.Peer.State.{
  Peer, Observer, create_description, set_local, set_remote, AfterRemote, report,
  then_create_answer, Answer, created, applied, PeerEvent, called_back, connection_change,
  ice_candidate, frame_arrived, track_added, state_logged,
}
use vcpkg_webrtc_sample.Peer.Candidates.{flush_pending_remote_candidates}
use vcpkg_webrtc_sample.Peer.Negotiation.{
  quietly, serialized, description_made, after_remote, remote_description_applied, resume,
}
use vcpkg_webrtc_sample.Peer.Events.{
  behind, take_at, resumed, on_answer, on_connection_change, on_frame, on_track, handle,
}
use vcpkg_webrtc_sample.Peer.Laws.{alive, is_open, busy}
use vcpkg_webrtc_sample.Peer.Laws.Connection.{
  Same, Waits, flush_total, create_answer_total, apply_local_total,
}

abbrev Entry : Type 0
Entry = ℕ × Observer

-- Taking an observer out takes one from those that are alive, if it is.
abbrev Counted : ℕ → List Entry → Option (Entry × List Entry) → Type 0
Counted s xs none = Unit
Counted s xs (some ((g, ob), rest)) =
    alive s xs ≡ (if g == s then suc (alive s rest) else alive s rest)

behind-Counted :
    (s : ℕ) (x : Entry) (xs : List Entry) (t : Option (Entry × List Entry))
    → Counted s xs t
    → Counted s (x ∷ xs) (behind x t)
behind-Counted s x xs none h = tt
behind-Counted s x xs (some ((g, ob), rest)) h = ground arith

take_at-Counted : (s n : ℕ) (xs : List Entry) → Counted s xs (take_at n xs)
unfolding take_at
take_at-Counted s n [] = tt
take_at-Counted s zero (x ∷ xs) = refl
take_at-Counted s (suc n) (x ∷ xs) = behind-Counted s x xs (take_at n xs) (take_at-Counted s n xs)

module _ {rtc : Rtc} where
  -- Waiting observers and calls that completed make up the count, and the connection stays.
  abbrev pub Handled : ℕ → Bool → Peer rtc × List Notice → Type 0
  Handled n o (q, ns) = (busy q + completions ns ≡ n) × (is_open q ≡ o)

  quietly-Handled :
      (n : ℕ) (p : Peer rtc) (m : Crashes (Peer rtc))
      → suc (busy p) ≡ n
      → Returns (Waits p) m
      → Returns (Handled n true) (quietly m)
  quietly-Handled n p m e w = >>=-Returns (Waits p) (Handled n true) m _ w (λ q v. ground arith)

  serialized-Handled :
      (d : rtc.Description) (r : Result String) (p : Peer rtc)
      → is_open p ≡ true
      → Returns (Handled (suc (busy p)) true) (serialized d r p)
  unfolding serialized
  serialized-Handled d (err e) p o = ground arith
  serialized-Handled d (ok text) p o =
      quietly-Handled (suc (busy p)) p _ refl (apply_local_total d text p o)

  description_made-Handled :
      (json : Json) (r : RtcResult rtc.Description) (p : Peer rtc)
      → is_open p ≡ true
      → Returns (Handled (suc (busy p)) true) (description_made json r p)
  unfolding description_made
  description_made-Handled json (rtc_error m) p o = ground arith
  description_made-Handled json (done d) p o = serialized-Handled d _ p o

  after_remote-Handled :
      (k : AfterRemote) (s : Status) (p : Peer rtc) (n : ℕ)
      → busy p ≡ n
      → is_open p ≡ true
      → Returns (Handled (suc n) true) (after_remote k (s, p))
  unfolding after_remote
  after_remote-Handled report s p n b o = ground arith
  after_remote-Handled then_create_answer (err e) p n b o = ground arith
  after_remote-Handled then_create_answer (ok _) p n b o =
      quietly-Handled (suc n) p _ (ap suc b) (create_answer_total p o)

  remote_description_applied-Handled :
      (k : AfterRemote) (r : Option String) (p : Peer rtc)
      → is_open p ≡ true
      → Returns (Handled (suc (busy p)) true) (remote_description_applied k r p)
  unfolding remote_description_applied
  remote_description_applied-Handled k (some m) p o = after_remote-Handled k _ p (busy p) refl o
  remote_description_applied-Handled k none p o =
      let p' = record p { remote_description_set = true } in
      >>=-Returns (Same p') (Handled (suc (busy p)) true) (flush_pending_remote_candidates p')
        (after_remote k) (flush_total p' o)
        (λ r v. after_remote-Handled k r.0 r.1 (busy p) v.0 (v.1 ∙ o))

  -- `p'` is the client without the observer.
  resumed-Handled :
      (json : Json) (ob : Observer) (a : Answer rtc) (p p' : Peer rtc)
      → busy p ≡ suc (busy p')
      → is_open p ≡ true
      → is_open p' ≡ true
      → Returns (Handled (suc (busy p')) true) (resumed p (resume json ob a p'))
  unfolding resume
  resumed-Handled json create_description (created r) p p' b o o' =
      description_made-Handled json r p' o'
  resumed-Handled json create_description (applied r) p p' b o o' = ground arith
  resumed-Handled json (set_local text) (created r) p p' b o o' = ground arith
  resumed-Handled json (set_local text) (applied r) p p' b o o' = ground arith
  resumed-Handled json (set_remote k) (created r) p p' b o o' = ground arith
  resumed-Handled json (set_remote k) (applied r) p p' b o o' =
      remote_description_applied-Handled k r p' o'

  recount :
      (n k : ℕ) (o u : Bool) (m : Crashes (Peer rtc × List Notice))
      → n ≡ k
      → o ≡ u
      → Returns (Handled n o) m
      → Returns (Handled k u) m
  recount n k o u m e f h =
      subst (λ i. Returns (Handled i u) m) e (subst (λ b. Returns (Handled n b) m) f h)

  observer_called-Handled :
      (json : Json) (g : ℕ) (ob : Observer) (rest : List Entry) (a : Answer rtc) (p : Peer rtc)
      → busy p ≡ (if g == p.safety then suc (alive p.safety rest) else alive p.safety rest)
      → (is_open p ≡ true) ⊎ (busy p ≡ 0)
      → g == p.safety ≡ true
      → Returns
          (Handled (busy p) (is_open p))
          (resumed p (resume json ob a (record p { observers = rest })))
  observer_called-Handled json g ob rest a p c h here =
      let p' = record p { observers = rest } in
      let b : busy p ≡ suc (busy p') = ground arith in
      let o : is_open p ≡ true = ground arith in
      recount _ _ _ _ (resumed p (resume json ob a p')) (sym b) (sym o)
        (resumed-Handled json ob a p p' b o o)

  on_answer-Handled :
      (json : Json) (t : Option (Entry × List Entry)) (a : Answer rtc) (p : Peer rtc)
      → Counted p.safety p.observers t
      → (is_open p ≡ true) ⊎ (busy p ≡ 0)
      → Returns (Handled (busy p) (is_open p)) (on_answer json t a p)
  unfolding on_answer
  on_answer-Handled json none a p c h = ground arith
  on_answer-Handled json (some ((g, ob), rest)) a p c h =
      if_cases (Returns (Handled (busy p) (is_open p))) (g == p.safety)
        (observer_called-Handled json g ob rest a p c h) (λ gone. ground arith)

  on_track-Handled :
      (track : Option Bool) (p : Peer rtc)
      → (is_open p ≡ true) ⊎ (busy p ≡ 0)
      → Handled (busy p) (is_open p) (on_track track p, [])
  unfolding on_track
  on_track-Handled none p h = ground arith
  on_track-Handled (some is_video) p h = ground arith

  pub handle_total :
      (json : Json) (e : PeerEvent rtc) (p : Peer rtc)
      → (is_open p ≡ true) ⊎ (busy p ≡ 0)
      → Returns (Handled (busy p) (is_open p)) (handle json e p)
  unfolding handle on_connection_change on_frame
  handle_total json (called_back n a) p h =
      on_answer-Handled json (take_at n p.observers) a p (take_at-Counted p.safety n p.observers) h
  handle_total json (connection_change s) p h = ground arith
  handle_total json (ice_candidate c) p h = ground arith
  handle_total json (frame_arrived g) p h = ground arith
  handle_total json (track_added track) p h = on_track-Handled track p h
  handle_total json state_logged p h = ground arith
