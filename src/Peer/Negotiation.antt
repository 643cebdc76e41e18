-- ===== src/Peer/Negotiation.antt =====
-- Offers and answers: `CreateOffer`, `CreateAnswer`, `SetRemoteAnswer`,
-- `SetRemoteOfferAndCreateAnswer`, and what their observers go on with.
use vcpkg_webrtc_sample.Prelude.{
  String, true, Option, none, some, List, [], ◌∷◌, Crashes, Result, ok, err, Status, fail, ◌>>=◌,
  invalid_argument, internal,
}
use vcpkg_webrtc_sample.Common.Json.{Json}
use vcpkg_webrtc_sample.Common.Message.{SignalingMessage, serialize_session_description}
use vcpkg_webrtc_sample.Peer.Api.{Notice, description_done, answer_done}
use vcpkg_webrtc_sample.Peer.Rtc.{Rtc, RtcResult, done, rtc_error, offer_type, answer_type}
use vcpkg_webrtc_sample.Peer.State.{
  Peer, Observer, create_description, set_local, set_remote, AfterRemote, report,
  then_create_answer, Answer, created, applied,
}
use vcpkg_webrtc_sample.Peer.Candidates.{flush_pending_remote_candidates}

-- The lambda on `ApplyLocalDescription`: the text is handed back once the description is set.
unfoldable pub set_local_result : String → Option String → Result String
set_local_result text none = ok text
set_local_result text (some m) = fail internal m

module _ {rtc : Rtc} where
  -- A call on the connection, which is dereferenced, with an observer that it is given.
  unfoldable pub call_with :
      Observer
      → (rtc.Connection → rtc.Connection)
      → Option rtc.Connection
      → Peer rtc
      → Crashes (Peer rtc)
  call_with ob f none p = none
  call_with ob f (some c) p =
      some (record p { connection = some (f c); observers = (p.safety, ob) ∷ p.observers })

  unfoldable pub create_offer : Peer rtc → Crashes (Peer rtc)
  unfolding call_with
  create_offer p = call_with create_description rtc.create_offer p.connection p

  unfoldable pub create_answer : Peer rtc → Crashes (Peer rtc)
  unfolding call_with
  create_answer p = call_with create_description rtc.create_answer p.connection p

  unfoldable pub apply_local_description : rtc.Description → String → Peer rtc → Crashes (Peer rtc)
  unfolding call_with
  apply_local_description d text p =
      call_with (set_local text) (rtc.set_local_description d) p.connection p

  unfoldable pub apply_remote_description :
      rtc.Description → AfterRemote → Peer rtc → Crashes (Peer rtc)
  unfolding call_with
  apply_remote_description d k p =
      call_with (set_remote k) (rtc.set_remote_description d) p.connection p

  -- `ParseSessionDescription`, and what stands behind it in the two callers: on an error the
  -- callback is made at once.
  unfoldable pub with_description :
      AfterRemote → RtcResult rtc.Description → Peer rtc → Crashes (Result (Peer rtc))
  with_description k (rtc_error m) p = some (fail invalid_argument m)
  with_description k (done d) p = apply_remote_description d k p >>= λ q. some (ok q)

  unfoldable pub set_remote_answer : SignalingMessage → Peer rtc → Crashes (Result (Peer rtc))
  unfolding with_description
  set_remote_answer m p =
      with_description report (rtc.create_session_description answer_type m.sdp) p

  unfoldable pub set_remote_offer_and_create_answer :
      SignalingMessage → Peer rtc → Crashes (Result (Peer rtc))
  unfolding with_description
  set_remote_offer_and_create_answer m p =
      with_description then_create_answer (rtc.create_session_description offer_type m.sdp) p

  abbrev pub quietly : Crashes (Peer rtc) → Crashes (Peer rtc × List Notice)
  quietly m = m >>= λ q. some (q, [])

  -- The lambda of `CreateOffer` and `CreateAnswer`, once there is a description: serialised before
  -- it is handed to the connection.
  unfoldable pub serialized :
      rtc.Description → Result String → Peer rtc → Crashes (Peer rtc × List Notice)
  serialized d (err e) p = some (p, description_done (err e) ∷ [])
  serialized d (ok text) p = quietly (apply_local_description d text p)

  unfoldable pub description_made :
      Json → RtcResult rtc.Description → Peer rtc → Crashes (Peer rtc × List Notice)
  unfolding serialized
  description_made json (rtc_error m) p = some (p, description_done (fail internal m) ∷ [])
  description_made json (done d) p =
      serialized d
        (serialize_session_description json (rtc.description_type d) (rtc.description_to_string d))
        p

  unfoldable pub after_remote : AfterRemote → Status × Peer rtc → Crashes (Peer rtc × List Notice)
  after_remote report (s, p) = some (p, answer_done s ∷ [])
  after_remote then_create_answer (err e, p) = some (p, description_done (err e) ∷ [])
  after_remote then_create_answer (ok _, p) = quietly (create_answer p)

  -- The lambda of `ApplyRemoteDescription`: the candidates that waited are applied.
  unfoldable pub remote_description_applied :
      AfterRemote → Option String → Peer rtc → Crashes (Peer rtc × List Notice)
  unfolding after_remote
  remote_description_applied k (some m) p = after_remote k (fail internal m, p)
  remote_description_applied k none p =
      flush_pending_remote_candidates (record p { remote_description_set = true })
      >>= after_remote k

  -- `none` if the answer is not one for the observer.
  unfoldable pub resume :
      Json → Observer → Answer rtc → Peer rtc → Option (Crashes (Peer rtc × List Notice))
  unfolding description_made set_local_result remote_description_applied
  resume json create_description (created r) p = some (description_made json r p)
  resume json (set_local text) (applied r) p =
      some (some (p, description_done (set_local_result text r) ∷ []))
  resume json (set_remote k) (applied r) p = some (remote_description_applied k r p)
  resume json ob a p = none
