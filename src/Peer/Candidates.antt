-- ===== src/Peer/Candidates.antt =====
-- Remote candidates: `AddRemoteCandidate` and `FlushPendingRemoteCandidates`.
pub mod Early
use vcpkg_webrtc_sample.Prelude.{
  String, Bool, true, false, if◌then◌else◌, Option, none, some, List, [], ◌∷◌, ◌++◌, Crashes, ok,
  err, Status, ok_status, fail, ◌>>=◌, invalid_argument, internal,
}
use vcpkg_webrtc_sample.Common.Message.{SignalingMessage}
use vcpkg_webrtc_sample.Peer.Rtc.{Rtc, RtcResult, done, rtc_error}
use vcpkg_webrtc_sample.Peer.State.{Peer}

module _ (rtc : Rtc) where
  unfoldable pub added : String → Bool × rtc.Connection → Status × Option rtc.Connection
  added refusal (true, c) = (ok_status, some c)
  added refusal (false, c) = (fail internal refusal, some c)

  -- `connection_->AddIceCandidate` dereferences the connection; a candidate that cannot be parsed
  -- returns before that.
  unfoldable pub apply_parsed :
      String
      → RtcResult rtc.Candidate
      → Option rtc.Connection
      → Crashes (Status × Option rtc.Connection)
  unfolding added
  apply_parsed refusal (rtc_error m) c = some (fail invalid_argument m, c)
  apply_parsed refusal (done a) none = none
  apply_parsed refusal (done a) (some c) = some (added refusal (rtc.add_ice_candidate a c))

  -- One message, with the text for a candidate that the connection refuses.
  unfoldable pub apply_candidate :
      String → SignalingMessage → Option rtc.Connection → Crashes (Status × Option rtc.Connection)
  unfolding apply_parsed
  apply_candidate refusal m c =
      apply_parsed refusal (rtc.create_ice_candidate m.sdp_mid m.sdp_mline_index m.candidate_text) c

  -- The loop goes on after a success, and returns at the first error.
  abbrev pub flush_next :
      (Option rtc.Connection → Crashes (Status × Option rtc.Connection))
      → Status × Option rtc.Connection
      → Crashes (Status × Option rtc.Connection)
  flush_next rest (ok _, c) = rest c
  flush_next rest (err e, c) = some (err e, c)

  unfoldable pub flush_loop :
      List SignalingMessage → Option rtc.Connection → Crashes (Status × Option rtc.Connection)
  flush_loop [] c = some (ok_status, c)
  flush_loop (m ∷ ms) c =
      let rest = flush_loop ms in
      apply_candidate "AddIceCandidate failed while flushing" m c >>= flush_next rest

module _ {rtc : Rtc} where
  abbrev pub has_remote_description : Peer rtc → Bool
  has_remote_description p = p.remote_description_set

  unfoldable pub queue_remote_candidate : SignalingMessage → Peer rtc → Peer rtc
  queue_remote_candidate m p = record p {
    pending_remote_candidates = p.pending_remote_candidates ++ m ∷ [];
  }

  unfoldable pub add_remote_candidate : SignalingMessage → Peer rtc → Crashes (Status × Peer rtc)
  unfolding queue_remote_candidate
  add_remote_candidate m p =
      if has_remote_description p
      then (apply_candidate rtc "AddIceCandidate failed" m p.connection >>= λ r.
          some (r.0, record p { connection = r.1 }))
      else some (ok_status, queue_remote_candidate m p)

  -- The buffer is cleared only if every candidate was applied.
  abbrev pub flushed : Peer rtc → Status × Option rtc.Connection → Status × Peer rtc
  flushed p (ok _, c) = (ok_status, record p { connection = c; pending_remote_candidates = [] })
  flushed p (err e, c) = (err e, record p { connection = c })

  -- On an empty buffer the loop does nothing, as the early return of the code does.
  unfoldable pub flush_pending_remote_candidates : Peer rtc → Crashes (Status × Peer rtc)
  flush_pending_remote_candidates p =
      flush_loop rtc p.pending_remote_candidates p.connection >>= λ r. some (flushed p r)
