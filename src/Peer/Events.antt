-- ===== src/Peer/Events.antt =====
-- The callbacks of the WebRTC library, on the signaling thread.
use vcpkg_webrtc_sample.Prelude.{
  ℕ, zero, suc, ◌+◌, ◌==◌, String, Bool, true, false, not, ◌&&◌, if◌then◌else◌, Option, none, some,
  List, [], ◌∷◌, ◌++◌, Crashes, Error, Result, ok, err, internal,
}
use vcpkg_webrtc_sample.Prelude.Int.{ℤ}
use vcpkg_webrtc_sample.Common.Json.{Json}
use vcpkg_webrtc_sample.Common.Message.{serialize_ice_candidate}
use vcpkg_webrtc_sample.Peer.Api.{
  Notice, local_message, connection_changed, remote_media, peer_error,
}
use vcpkg_webrtc_sample.Peer.Rtc.{Rtc}
use vcpkg_webrtc_sample.Peer.State.{
  Peer, Observer, Answer, ConnectionState, connected_peer, failed, PeerEvent, called_back,
  connection_change, ice_candidate, frame_arrived, track_added, state_logged,
}
use vcpkg_webrtc_sample.Peer.Negotiation.{resume}

-- The entry at a place, and the others.
abbrev pub behind {ℓ} : {A : Type ℓ} → A → Option (A × List A) → Option (A × List A)
behind x none = none
behind x (some (y, ys)) = some (y, x ∷ ys)

unfoldable pub take_at {ℓ} : {A : Type ℓ} → ℕ → List A → Option (A × List A)
take_at n [] = none
take_at zero (x ∷ xs) = some (x, xs)
take_at (suc n) (x ∷ xs) = behind x (take_at n xs)

abbrev is_connected : ConnectionState → Bool
is_connected connected_peer = true
is_connected _ = false

abbrev is_failed : ConnectionState → Bool
is_failed failed = true
is_failed _ = false

abbrev differ : Bool → Bool → Bool
differ true b = not b
differ false b = b

-- A candidate that cannot be serialised is only logged.
unfoldable pub candidate_notices : Result String → List Notice
candidate_notices (ok text) = local_message text ∷ []
candidate_notices (err e) = []

unfoldable pub ice_candidate_notices : Json → Option (ℤ × String × Option String) → List Notice
unfolding candidate_notices
ice_candidate_notices json none = []
ice_candidate_notices json (some (index, mid, text)) =
    candidate_notices (serialize_ice_candidate json index mid text)

-- The controller has set the callback.
abbrev pub report_error : Error → List Notice
report_error e = peer_error e ∷ []

module _ {rtc : Rtc} where
  unfoldable pub on_connection_change : ConnectionState → Peer rtc → Peer rtc × List Notice
  on_connection_change s p =
      let now = is_connected s in
      let changed : List Notice =
        if differ p.connected now then connection_changed now ∷ [] else [] in
      let failure : List Notice =
        if is_failed s
        then report_error
            (record { code = internal; message = "peer connection entered failed state" })
        else [] in
      (record p { connected = now }, changed ++ failure)

  unfoldable pub on_frame : ℕ → Peer rtc → Peer rtc × List Notice
  on_frame captured p =
      if captured == p.safety && not p.remote_media_seen
      then (record p { remote_media_seen = true }, remote_media ∷ [])
      else (p, [])

  -- What the observer goes on with, or the client as it was.
  abbrev pub resumed :
      Peer rtc → Option (Crashes (Peer rtc × List Notice)) → Crashes (Peer rtc × List Notice)
  resumed p none = some (p, [])
  resumed p (some m) = m

  -- An observer whose flag was cleared does nothing.
  unfoldable pub on_answer :
      Json
      → Option ((ℕ × Observer) × List (ℕ × Observer))
      → Answer rtc
      → Peer rtc
      → Crashes (Peer rtc × List Notice)
  on_answer json none a p = some (p, [])
  on_answer json (some ((captured, ob), rest)) a p =
      let p' = record p { observers = rest } in
      if captured == p.safety then resumed p (resume json ob a p') else some (p', [])

  -- The frame sink is attached to a video track.
  unfoldable pub on_track : Option Bool → Peer rtc → Peer rtc
  on_track none p = p
  on_track (some is_video) p =
      if is_video && p.remote_frame_sink
      then record p { attached_tracks = p.attached_tracks + 1 }
      else p

  -- The state of the client stays as it is.
  abbrev pub log_state : Peer rtc → Peer rtc × List Notice
  log_state p = (p, [])

  unfoldable pub handle : Json → PeerEvent rtc → Peer rtc → Crashes (Peer rtc × List Notice)
  unfolding on_answer ice_candidate_notices
  handle json (called_back n a) p = on_answer json (take_at n p.observers) a p
  handle json (connection_change s) p = some (on_connection_change s p)
  handle json (ice_candidate c) p = some (p, ice_candidate_notices json c)
  handle json (frame_arrived captured) p = some (on_frame captured p)
  handle json (track_added track) p = some (on_track track p, [])
  handle json state_logged p = some (log_state p)
