-- ===== src/Peer/Candidates/Early.antt =====
-- Candidates that come before the remote description.
use mathlib.Core.List.{append_assoc, append-nil}
use vcpkg_webrtc_sample.Prelude.{
  ◌≡◌, refl, sym, ap, ◌∙◌, String, Bool, true, false, Option, none, some, List, [], ◌∷◌, ◌++◌,
  Crashes, ok, err, Status, ok_status, ◌>>=◌, arith,
}
use vcpkg_webrtc_sample.Common.Message.{SignalingMessage}
use vcpkg_webrtc_sample.Peer.Rtc.{Rtc, RtcResult, done, rtc_error}
use vcpkg_webrtc_sample.Peer.State.{Peer}
use vcpkg_webrtc_sample.Peer.Candidates.{
  added, apply_parsed, apply_candidate, queue_remote_candidate, add_remote_candidate, flush_next,
  flush_loop, flushed, flush_pending_remote_candidates,
}

abbrev pub succeeded : Status → Bool
succeeded (ok _) = true
succeeded (err e) = false

module _ {rtc : Rtc} where
  abbrev pub add_next :
      (Peer rtc → Crashes (Status × Peer rtc)) → Status × Peer rtc → Crashes (Status × Peer rtc)
  add_next rest (ok _, p) = rest p
  add_next rest (err e, p) = some (err e, p)

  -- The calls of `AddRemoteCandidate` for the messages in order, up to the first error.
  unfoldable pub add_all : List SignalingMessage → Peer rtc → Crashes (Status × Peer rtc)
  add_all [] p = some (ok_status, p)
  add_all (m ∷ ms) p = let rest = add_all ms in add_remote_candidate m p >>= add_next rest

  -- The messages come first, and then the remote description.
  unfoldable pub add_early : List SignalingMessage → Peer rtc → Crashes (Status × Peer rtc)
  add_early ms p = add_all ms p >>= λ r.
      flush_pending_remote_candidates (record r.1 { remote_description_set = true })

  -- Whether all went well, and the connection, the texts of the errors aside.
  abbrev pub verdict : Crashes (Status × Peer rtc) → Crashes (Bool × Option rtc.Connection)
  verdict m = m >>= λ r. some (succeeded r.0, r.1.connection)

  -- Without a remote description the messages wait.
  queued :
      (ms : List SignalingMessage) (p : Peer rtc)
      → p.remote_description_set ≡ false
      → add_all ms p
        ≡ some
            (ok_status, record p { pending_remote_candidates = p.pending_remote_candidates ++ ms })
  unfolding add_all add_remote_candidate queue_remote_candidate
  queued [] p h =
      ap (λ l. some (ok_status, record p { pending_remote_candidates = l }))
        (sym (append-nil p.pending_remote_candidates))
  queued (m ∷ ms) p h =
      ap (λ r. r >>= add_next (add_all ms)) (waits h)
      ∙ queued ms (queue p) h
      ∙ ap (λ l. some (ok_status, record p { pending_remote_candidates = l }))
          (append_assoc p.pending_remote_candidates (m ∷ []) ms)
    where
      queue : Peer rtc → Peer rtc
      queue q = record q { pending_remote_candidates = q.pending_remote_candidates ++ m ∷ [] }

      waits :
          p.remote_description_set ≡ false → add_remote_candidate m p ≡ some (ok_status, queue p)
      waits e = ground arith

module _ (rtc : Rtc) where
  abbrev verdict_of :
      Crashes (Status × Option rtc.Connection) → Crashes (Bool × Option rtc.Connection)
  verdict_of m = m >>= λ r. some (succeeded r.0, r.1)

  abbrev applied_to :
      Peer rtc → Crashes (Status × Option rtc.Connection) → Crashes (Status × Peer rtc)
  applied_to p m = m >>= λ r. some (r.0, record p { connection = r.1 })

  module _ (p : Peer rtc) (s t : String)
      (f : Option rtc.Connection → Crashes (Status × Option rtc.Connection))
      (g : Peer rtc → Crashes (Status × Peer rtc))
      (same : (d : Option rtc.Connection)
        → verdict_of (f d) ≡ verdict (g (record p { connection = d }))) where
    -- One candidate, with another text for a refusal on each side.
    added-verdict :
        (b : Bool) (c : rtc.Connection)
        → verdict_of (some (added rtc s (b, c)) >>= flush_next rtc f)
          ≡ verdict (applied_to p (some (added rtc t (b, c))) >>= add_next g)
    unfolding added
    added-verdict true c = same (some c)
    added-verdict false c = refl

    apply_parsed-verdict :
        (r : RtcResult rtc.Candidate) (c : Option rtc.Connection)
        → verdict_of (apply_parsed rtc s r c >>= flush_next rtc f)
          ≡ verdict (applied_to p (apply_parsed rtc t r c) >>= add_next g)
    unfolding apply_parsed
    apply_parsed-verdict (rtc_error m) c = refl
    apply_parsed-verdict (done a) none = refl
    apply_parsed-verdict (done a) (some c) =
        let (b, d) = rtc.add_ice_candidate a c in added-verdict b d

    step-verdict :
        (m : SignalingMessage)
        → p.remote_description_set ≡ true
        → verdict_of (apply_candidate rtc s m p.connection >>= flush_next rtc f)
          ≡ verdict (applied_to p (apply_candidate rtc t m p.connection) >>= add_next g)
    unfolding apply_candidate
    step-verdict m h =
        apply_parsed-verdict (rtc.create_ice_candidate m.sdp_mid m.sdp_mline_index m.candidate_text)
          p.connection

module _ {rtc : Rtc} where
  applied :
      (m : SignalingMessage) (p : Peer rtc)
      → p.remote_description_set ≡ true
      → add_remote_candidate m p
        ≡ applied_to rtc p (apply_candidate rtc "AddIceCandidate failed" m p.connection)
  unfolding add_remote_candidate
  applied m p h = ground arith

  flush_loop-verdict :
      (ms : List SignalingMessage) (p : Peer rtc)
      → p.remote_description_set ≡ true
      → verdict_of rtc (flush_loop rtc ms p.connection) ≡ verdict (add_all ms p)
  unfolding flush_loop add_all
  flush_loop-verdict [] p h = refl
  flush_loop-verdict (m ∷ ms) p h =
      step-verdict rtc p "AddIceCandidate failed while flushing" "AddIceCandidate failed"
        (flush_loop rtc ms) (add_all ms)
        (λ d. flush_loop-verdict ms (record p { connection = d }) h) m h
      ∙ ap (λ r. verdict (r >>= add_next (add_all ms))) (sym (applied m p h))

  flushed-verdict :
      (p : Peer rtc) (r : Crashes (Status × Option rtc.Connection))
      → verdict (r >>= λ x. some (flushed p x)) ≡ verdict_of rtc r
  flushed-verdict p none = refl
  flushed-verdict p (some (ok u, c)) = refl
  flushed-verdict p (some (err e, c)) = refl

  -- For a client without a remote description and with no candidate waiting: candidates that come
  -- before the description, which is then set, end as they do when they come after it. The result
  -- is an error in the same cases, and the connection is left in the same state.
  pub add_early-verdict :
      (ms : List SignalingMessage) (p : Peer rtc)
      → p.remote_description_set ≡ false
      → p.pending_remote_candidates ≡ []
      → verdict (add_early ms p) ≡ verdict (add_all ms (record p { remote_description_set = true }))
  unfolding add_early flush_pending_remote_candidates
  add_early-verdict ms p h none_waits =
      ap
        (λ m. verdict (
          m >>= λ r.
          flush_pending_remote_candidates (record r.1 { remote_description_set = true })))
        (queued ms p h)
      ∙ flushed-verdict
          (record p {
            pending_remote_candidates = p.pending_remote_candidates ++ ms;
            remote_description_set = true;
          })
          (flush_loop rtc (p.pending_remote_candidates ++ ms) p.connection)
      ∙ ap (λ l. verdict_of rtc (flush_loop rtc (l ++ ms) p.connection)) none_waits
      ∙ flush_loop-verdict ms (record p { remote_description_set = true }) refl
