-- ===== src/Peer/Calls.antt =====
-- The calls of the client, and what the library calls back, as a sequence.
pub mod Fresh
pub mod Late
use vcpkg_webrtc_sample.Prelude.{List, [], ◌∷◌, ◌++◌, some, Crashes, Result, ok, err, Status, ◌>>=◌}
use vcpkg_webrtc_sample.Common.Join.{JoinResponse}
use vcpkg_webrtc_sample.Common.Json.{Json}
use vcpkg_webrtc_sample.Common.Message.{SignalingMessage}
use vcpkg_webrtc_sample.Peer.Api.{Notice, description_done, answer_done}
use vcpkg_webrtc_sample.Peer.Rtc.{Rtc}
use vcpkg_webrtc_sample.Peer.State.{Peer, PeerEvent}
use vcpkg_webrtc_sample.Peer.Setup.{initialize, start_media, close, log_stats}
use vcpkg_webrtc_sample.Peer.Candidates.{add_remote_candidate}
use vcpkg_webrtc_sample.Peer.Negotiation.{
  create_offer, set_remote_answer, set_remote_offer_and_create_answer,
}
use vcpkg_webrtc_sample.Peer.Events.{handle}

pub data PeerCall (rtc : Rtc) : Type 0 where
  initializes : JoinResponse → PeerCall rtc
  -- With what `FileVideoSource::Start` gives.
  starts_media : Status → PeerCall rtc
  creates_offer : PeerCall rtc
  sets_remote_offer sets_remote_answer adds_candidate : SignalingMessage → PeerCall rtc
  logs_stats closes : PeerCall rtc
  hears : PeerEvent rtc → PeerCall rtc

module _ {rtc : Rtc} where
  abbrev pub quiet : Status × Peer rtc → Peer rtc × List Notice
  quiet (status, p) = (p, [])

  -- An error of the two calls that set a description is their callback, made at once.
  abbrev pub described : Peer rtc → Result (Peer rtc) → Peer rtc × List Notice
  described p (ok q) = (q, [])
  described p (err e) = (p, description_done (err e) ∷ [])

  abbrev pub answer_set : Peer rtc → Result (Peer rtc) → Peer rtc × List Notice
  answer_set p (ok q) = (q, [])
  answer_set p (err e) = (p, answer_done (err e) ∷ [])

  module _ (json : Json) where
    unfoldable pub peer_call : PeerCall rtc → Peer rtc → Crashes (Peer rtc × List Notice)
    peer_call (initializes jr) p = initialize json jr p >>= λ r. some (quiet r)
    peer_call (starts_media status) p = start_media status p >>= λ r. some (quiet r)
    peer_call creates_offer p = create_offer p >>= λ q. some (q, [])
    peer_call (sets_remote_offer m) p =
        set_remote_offer_and_create_answer m p >>= λ r. some (described p r)
    peer_call (sets_remote_answer m) p = set_remote_answer m p >>= λ r. some (answer_set p r)
    peer_call (adds_candidate m) p = add_remote_candidate m p >>= λ r. some (quiet r)
    peer_call logs_stats p = some (log_stats p, [])
    peer_call closes p = some (close p, [])
    peer_call (hears e) p = handle json e p

    -- The state after the calls, and the callbacks that were made, in order.
    unfoldable pub peer_calls : List (PeerCall rtc) → Peer rtc → Crashes (Peer rtc × List Notice)
    peer_calls [] p = some (p, [])
    peer_calls (x ∷ xs) p =
        let rest = peer_calls xs in peer_call x p >>= λ r. rest r.0 >>= λ q. some (q.0, r.1 ++ q.1)
