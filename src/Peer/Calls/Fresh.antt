-- ===== src/Peer/Calls/Fresh.antt =====
-- The safety flags that the waiting observers captured.
pub mod Steps
use vcpkg_webrtc_sample.Prelude.{
  ℕ, zero, suc, ◌+◌, ◌≤◌, Option, none, some, List, [], ◌∷◌, Result, ok, err, Status, ◌>>=◌, Keeps,
  >>=-Keeps, >>=-Keeps_both, if_cases, arith,
}
use vcpkg_webrtc_sample.Common.Join.{JoinResponse}
use vcpkg_webrtc_sample.Common.Json.{Json}
use vcpkg_webrtc_sample.Common.Message.{SignalingMessage}
use vcpkg_webrtc_sample.Peer.Rtc.{Rtc, RtcResult, done, rtc_error}
use vcpkg_webrtc_sample.Peer.State.{Peer, Observer, set_remote, AfterRemote}
use vcpkg_webrtc_sample.Peer.Setup.{initialize, start_media, log_stats}
use vcpkg_webrtc_sample.Peer.Candidates.{
  apply_candidate, queue_remote_candidate, add_remote_candidate, flush_loop, flushed,
  flush_pending_remote_candidates,
}
use vcpkg_webrtc_sample.Peer.Negotiation.{call_with, apply_remote_description, with_description}
use vcpkg_webrtc_sample.Peer.Events.{behind, take_at}

abbrev pub AllUpTo : ℕ → List (ℕ × Observer) → Type 0
AllUpTo n [] = Unit
AllUpTo n ((captured, ob) ∷ obs) = (captured ≤ n) × AllUpTo n obs

AllUpTo-weaken : (n : ℕ) (obs : List (ℕ × Observer)) → AllUpTo n obs → AllUpTo (n + 1) obs
AllUpTo-weaken n [] h = tt
AllUpTo-weaken n ((c, ob) ∷ obs) h = (omega arith, AllUpTo-weaken n obs h.1)

abbrev pub Taken : ℕ → Option ((ℕ × Observer) × List (ℕ × Observer)) → Type 0
Taken n none = Unit
Taken n (some ((c, ob), rest)) = (c ≤ n) × AllUpTo n rest

behind-Taken :
    (n : ℕ) (x : ℕ × Observer) (t : Option ((ℕ × Observer) × List (ℕ × Observer)))
    → x.0 ≤ n
    → Taken n t
    → Taken n (behind x t)
behind-Taken n x none l h = tt
behind-Taken n x (some ((c, ob), rest)) l h = (h.0, (l, h.1))

pub take_at-Taken : (n i : ℕ) (obs : List (ℕ × Observer)) → AllUpTo n obs → Taken n (take_at i obs)
unfolding take_at
take_at-Taken n i [] h = tt
take_at-Taken n zero ((c, ob) ∷ obs) h = h
take_at-Taken n (suc i) ((c, ob) ∷ obs) h =
    behind-Taken n (c, ob) (take_at i obs) h.0 (take_at-Taken n i obs h.1)

module _ {rtc : Rtc} where
  abbrev pub Fresh : Peer rtc → Type 0
  Fresh p = AllUpTo p.safety p.observers

  abbrev pub FreshAnd : {A : Type 0} → Peer rtc × A → Type 0
  FreshAnd (p, a) = Fresh p

  abbrev FreshStatus : Status × Peer rtc → Type 0
  FreshStatus (s, p) = Fresh p

  abbrev FreshResult : Result (Peer rtc) → Type 0
  FreshResult (ok p) = Fresh p
  FreshResult (err e) = Unit

  call_with-Fresh :
      (ob : Observer) (f : rtc.Connection → rtc.Connection) (c : Option rtc.Connection)
      (p : Peer rtc)
      → Fresh p
      → Keeps Fresh (call_with ob f c p)
  unfolding call_with
  call_with-Fresh ob f none p h = tt
  call_with-Fresh ob f (some c) p h = (omega arith, h)

  with_description-Fresh :
      (k : AfterRemote) (r : RtcResult rtc.Description) (p : Peer rtc)
      → Fresh p
      → Keeps FreshResult (with_description k r p)
  unfolding with_description apply_remote_description
  with_description-Fresh k (rtc_error m) p h = tt
  with_description-Fresh k (done d) p h =
      >>=-Keeps_both Fresh FreshResult (apply_remote_description d k p) _
        (call_with-Fresh (set_remote k) (rtc.set_remote_description d) p.connection p h) (λ q g. g)

  initialize-Fresh :
      (json : Json) (jr : JoinResponse) (p : Peer rtc)
      → Fresh p
      → Keeps FreshStatus (initialize json jr p)
  unfolding initialize
  initialize-Fresh json jr p h = ground arith

  start_media-Fresh :
      (status : Status) (p : Peer rtc) → Fresh p → Keeps FreshStatus (start_media status p)
  unfolding start_media
  start_media-Fresh status p h = ground arith

  add_remote_candidate-Fresh :
      (m : SignalingMessage) (p : Peer rtc) → Fresh p → Keeps FreshStatus (add_remote_candidate m p)
  unfolding add_remote_candidate queue_remote_candidate
  add_remote_candidate-Fresh m p h =
      if_cases (Keeps FreshStatus) p.remote_description_set
        (λ _.
          >>=-Keeps FreshStatus (apply_candidate rtc "AddIceCandidate failed" m p.connection) _
            (λ r. h))
        (λ _. h)

  flushed-Fresh :
      (p : Peer rtc) (r : Status × Option rtc.Connection) → Fresh p → FreshStatus (flushed p r)
  flushed-Fresh p (ok _, c) h = h
  flushed-Fresh p (err e, c) h = h

  flush-Fresh : (p : Peer rtc) → Fresh p → Keeps FreshStatus (flush_pending_remote_candidates p)
  unfolding flush_pending_remote_candidates
  flush-Fresh p h =
      >>=-Keeps FreshStatus (flush_loop rtc p.pending_remote_candidates p.connection) _
        (λ r. flushed-Fresh p r h)

  log_stats-Fresh : (p : Peer rtc) → Fresh p → Fresh (log_stats p)
  unfolding log_stats
  log_stats-Fresh p h = ground arith
