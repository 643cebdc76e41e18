-- ===== src/Peer/Calls/Late.antt =====
-- The callbacks that come after `Close`.
use vcpkg_webrtc_sample.Prelude.{
  ℕ, ◌+◌, ◌≤◌, ◌==◌, ◌≡◌, refl, ap, subst, ◌∙◌, ◌&&◌, ◌||◌, not, Bool, true, false, if◌then◌else◌,
  Option, none, some, List, [], ◌∷◌, ◌++◌, Keeps-some, Returns, >>=-Returns, Returns-some, if_cases,
  arith, map,
}
use vcpkg_webrtc_sample.Common.Json.{Json}
use vcpkg_webrtc_sample.Peer.Api.{Notice, remote_media}
use vcpkg_webrtc_sample.Peer.Rtc.{Rtc}
use vcpkg_webrtc_sample.Peer.State.{
  Peer, Observer, Answer, PeerEvent, called_back, connection_change, ice_candidate, frame_arrived,
  track_added, state_logged, initial_peer,
}
use vcpkg_webrtc_sample.Peer.Setup.{close}
use vcpkg_webrtc_sample.Peer.Events.{take_at, on_frame, on_answer, handle}
use vcpkg_webrtc_sample.Peer.Calls.{PeerCall, hears, peer_call, peer_calls}
use vcpkg_webrtc_sample.Peer.Calls.Fresh.{AllUpTo, Taken, take_at-Taken, Fresh, FreshAnd}
use vcpkg_webrtc_sample.Peer.Calls.Fresh.Steps.{peer_calls-Fresh}

abbrev media_notices : Bool → List Notice
media_notices slipped = if slipped then remote_media ∷ [] else []

both_notices :
    (a b seen : Bool)
    → media_notices (a && not seen) ++ media_notices (b && not (seen || a))
      ≡ media_notices ((a || b) && not seen)
both_notices true true true = refl
both_notices true true false = refl
both_notices true false true = refl
both_notices true false false = refl
both_notices false true true = refl
both_notices false true false = refl
both_notices false false true = refl
both_notices false false false = refl

or_assoc : (a b c : Bool) → a || b || c ≡ a || (b || c)
or_assoc true b c = refl
or_assoc false b c = refl

module _ {rtc : Rtc} where
  -- Any observer calls back, with any answer, or the task of a frame runs. A frame captures the safety
  -- flag when it reaches the sink: the flag `n` that `Close` replaces or an earlier one, or the new
  -- one, if it reaches the old sink while `Close` runs.
  abbrev pub IsLate : ℕ → PeerEvent rtc → Type 0
  IsLate n (called_back i a) = Unit
  IsLate n (frame_arrived c) = c ≤ n + 1
  IsLate n (connection_change s) = ⊥
  IsLate n (ice_candidate c) = ⊥
  IsLate n (track_added track) = ⊥
  IsLate n state_logged = ⊥

  abbrev pub AllLate : ℕ → List (PeerEvent rtc) → Type 0
  AllLate n [] = Unit
  AllLate n (e ∷ es) = IsLate n e × AllLate n es

  -- Whether a frame has captured the new flag.
  abbrev pub slips_in : ℕ → PeerEvent rtc → Bool
  slips_in n (frame_arrived c) = c == n + 1
  slips_in n e = false

  abbrev pub any_slips_in : ℕ → List (PeerEvent rtc) → Bool
  any_slips_in n [] = false
  any_slips_in n (e ∷ es) = slips_in n e || any_slips_in n es

  -- No callback is made but that of the first frame that slips in, and only the list of observers and
  -- the mark of the frame change.
  abbrev CutOff : ℕ → Bool → Peer rtc → Peer rtc × List Notice → Type 0
  CutOff n slipped q (r, ns) =
      (ns ≡ media_notices (slipped && not q.remote_media_seen))
      × AllUpTo n r.observers
      × (r ≡ record q {
        observers = r.observers;
        remote_media_seen = q.remote_media_seen || slipped;
      })

  unmarked : (q : Peer rtc) → q ≡ record q { remote_media_seen = q.remote_media_seen || false }
  unmarked q =
      ap {A = Bool} {B = Peer rtc} (λ b. record q { remote_media_seen = b })
        (same q.remote_media_seen)
    where
      same : (b : Bool) → b ≡ b || false
      same true = refl
      same false = refl

  answer-CutOff :
      (json : Json) (n : ℕ) (t : Option ((ℕ × Observer) × List (ℕ × Observer))) (a : Answer rtc)
      (q : Peer rtc)
      → q.safety ≡ n + 1
      → AllUpTo n q.observers
      → Taken n t
      → Returns (CutOff n false q) (on_answer json t a q)
  unfolding on_answer
  answer-CutOff json n none a q s h t = (refl, h, unmarked q)
  answer-CutOff json n (some ((c, ob), rest)) a q s h t =
      if_cases (Returns (CutOff n false q)) (c == q.safety) (λ e. absurd (later c q.safety s t.0 e))
        (λ _. (refl, t.1, unmarked (record q { observers = rest })))
    where
      later : (c k : ℕ) → k ≡ n + 1 → c ≤ n → c == k ≡ true → ⊥
      later c k s l e = ground arith

  frame-CutOff :
      (n c : ℕ) (q : Peer rtc)
      → q.safety ≡ n + 1
      → AllUpTo n q.observers
      → CutOff n (c == n + 1) q (on_frame c q)
  unfolding on_frame
  frame-CutOff n c q s h =
      subst (λ k. CutOff n (c == k) q (on_frame c q)) s (go (c == q.safety) q.remote_media_seen)
    where
      go :
          (new seen : Bool)
          → (let q' = record q { remote_media_seen = seen } in
              CutOff n new q' (
                if new && not seen
                then (record q' { remote_media_seen = true }, remote_media ∷ [])
                else (q', [])))
      go true true = (refl, h, refl)
      go true false = (refl, h, refl)
      go false true = (refl, h, refl)
      go false false = (refl, h, refl)

  handle-CutOff :
      (json : Json) (n : ℕ) (e : PeerEvent rtc) (q : Peer rtc)
      → q.safety ≡ n + 1
      → AllUpTo n q.observers
      → IsLate n e
      → Returns (CutOff n (slips_in n e) q) (handle json e q)
  unfolding handle
  handle-CutOff json n (called_back i a) q s h l =
      answer-CutOff json n (take_at i q.observers) a q s h (take_at-Taken n i q.observers h)
  handle-CutOff json n (frame_arrived c) q s h l = frame-CutOff n c q s h
  handle-CutOff json n (connection_change x) q s h l = absurd l
  handle-CutOff json n (ice_candidate c) q s h l = absurd l
  handle-CutOff json n (track_added track) q s h l = absurd l
  handle-CutOff json n state_logged q s h l = absurd l

  both_cut :
      (n : ℕ) (a b : Bool) (p : Peer rtc) (r q : Peer rtc × List Notice)
      → CutOff n a p r
      → CutOff n b r.0 q
      → CutOff n (a || b) p (q.0, r.1 ++ q.1)
  both_cut n a b p (r, ms) (q, ns) (k, o, f) (l, u, g) =
      let seen : r.remote_media_seen ≡ p.remote_media_seen || a = ap (λ x. x.remote_media_seen) f in
      (
        ap (λ x. x ++ ns) k
            ∙ ap (λ x. media_notices (a && not p.remote_media_seen) ++ x)
                (l ∙ ap (λ x. media_notices (b && not x)) seen)
            ∙ both_notices a b p.remote_media_seen,
        u,
        g
            ∙ ap {A = Peer rtc}
                (λ x. record x {
                  observers = q.observers;
                  remote_media_seen = x.remote_media_seen || b;
                })
                f
            ∙ ap {A = Bool} {B = Peer rtc}
                (λ x. record p { observers = q.observers; remote_media_seen = x })
                (or_assoc p.remote_media_seen a b),
      )

  calls-CutOff :
      (json : Json) (n : ℕ) (es : List (PeerEvent rtc)) (q : Peer rtc)
      → q.safety ≡ n + 1
      → AllUpTo n q.observers
      → AllLate n es
      → Returns (CutOff n (any_slips_in n es) q) (peer_calls json (map hears es) q)
  unfolding peer_calls peer_call
  calls-CutOff json n [] q s h l = (refl, h, unmarked q)
  calls-CutOff json n (e ∷ es) q s h l =
      >>=-Returns (CutOff n (slips_in n e) q) (CutOff n (any_slips_in n (e ∷ es)) q)
        (handle json e q) _ (handle-CutOff json n e q s h l.0)
        λ r c.
          >>=-Returns (CutOff n (any_slips_in n es) r.0) (CutOff n (any_slips_in n (e ∷ es)) q)
            (peer_calls json (map hears es) r.0) _
            (calls-CutOff json n es r.0 (ap (λ x. x.safety) c.2 ∙ s) c.1 l.1)
            (λ x d. both_cut n (slips_in n e) (any_slips_in n es) q r x c d)

  closed-CutOff :
      (json : Json) (es : List (PeerEvent rtc)) (p : Peer rtc)
      → Fresh p
      → AllLate p.safety es
      → Returns
          (CutOff p.safety (any_slips_in p.safety es) (close p))
          (peer_calls json (map hears es) (close p))
  unfolding close
  closed-CutOff json es p h l = calls-CutOff json p.safety es (close p) refl h l

  -- Take any calls on a new client, and then `Close`. Whatever observers call back from then on,
  -- with whatever answers, and whatever tasks of frames run, with the safety flag that `Close` made or
  -- an earlier one: nothing crashes. If no frame captured the flag that `Close` made, no callback of
  -- the client is made. If one did, since it
  -- reached the old sink while `Close` ran, the callback for remote media is made once, and no other.
  -- Nothing but the list of waiting observers changes, and the mark that remote media was seen, which
  -- is set if there was such a frame.
  pub close_cuts_off :
      (json : Json) (xs : List (PeerCall rtc)) (es : List (PeerEvent rtc)) (p : Peer rtc)
      (ns : List Notice)
      → peer_calls json xs (initial_peer rtc) ≡ some (p, ns)
      → AllLate p.safety es
      → (q : Peer rtc) × (peer_calls json (map hears es) (close p)
          ≡ some (q, if any_slips_in p.safety es then remote_media ∷ [] else []))
        × (q ≡ record (close p) {
          observers = q.observers;
          remote_media_seen = any_slips_in p.safety es;
        })
  unfolding close
  close_cuts_off json xs es p ns h l =
      let fresh : Fresh p =
        Keeps-some FreshAnd (peer_calls json xs (initial_peer rtc))
          (peer_calls-Fresh json xs (initial_peer rtc) tt) h in
      let ((q, ms), e, (a, b, c)) =
        Returns-some (CutOff p.safety (any_slips_in p.safety es) (close p))
          (peer_calls json (map hears es) (close p)) (closed-CutOff json es p fresh l) in
      (q, e ∙ ap (λ m. some (q, m)) (a ∙ ap media_notices (and_true (any_slips_in p.safety es))), c)
    where
      and_true : (b : Bool) → b && true ≡ b
      and_true true = refl
      and_true false = refl
