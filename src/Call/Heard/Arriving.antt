-- ===== src/Call/Heard/Arriving.antt =====
-- The two callbacks that bring messages of the other side.
use mathlib.Core.List.{append_assoc}
use mathlib.Core.List.Sublist
use vcpkg_webrtc_sample.Prelude.{
  ℕ, ◌≡◌, sym, ap, ◌∙◌, subst, true, false, none, some, String, List, [], ◌∷◌, ◌++◌, Sublist,
  Crashes, Result, err, ok, Status, if_cases, Keeps, ◌>>=◌,
}
use vcpkg_webrtc_sample.Common.Message.{SignalingMessage}
use vcpkg_webrtc_sample.Common.Join.{JoinResponse}
use vcpkg_webrtc_sample.Peer.Api.{PeerApi}
use vcpkg_webrtc_sample.Call.Types.{signaling_error, media_error, peer_connection_error}
use vcpkg_webrtc_sample.Call.State.{Call}
use vcpkg_webrtc_sample.Call.Queue.{parse_messages, stable_sort}
use vcpkg_webrtc_sample.Call.Handlers.{
  start_media, queue_join_messages, initialized, join_completed, on_join_complete,
  on_inbound_signaling_message,
}
use vcpkg_webrtc_sample.Call.Heard.{listening, sorted_messages, joined, sublist-++, told, Heard}
use vcpkg_webrtc_sample.Call.Heard.Pump.{Partly, finish-Heard, pump-Heard}

module _ (api : PeerApi) (arrived : List SignalingMessage) where
  -- What arrives when the call has finished is not heard.
  ignored :
      (n : ℕ) (ms : List SignalingMessage) (c : Call (listening api))
      → c.finished ≡ true
      → Sublist (told api c) arrived
      → c.join_callbacks ≡ n
      → Heard api n (arrived ++ ms) c
  ignored n ms c f p j = record {
    joins_left = j;
    is_part = sublist-++ arrived ms p;
    is_all = λ g. cc;
  }

  -- What is put behind all that waits.
  queued :
      (n : ℕ) (ms : List SignalingMessage) (c : Call (listening api))
      → told api c ≡ arrived
      → c.join_callbacks ≡ n
      → Heard api n
          (arrived ++ ms)
          (record c { pending_signaling_messages = c.pending_signaling_messages ++ ms })
  queued n ms c e j =
      let q = sym (append_assoc c.peer.1 c.pending_signaling_messages ms) ∙ ap (λ l. l ++ ms) e in
      record {
        joins_left = j;
        is_part = subst (λ l. Sublist l (arrived ++ ms)) (sym q) (Sublist.refl (arrived ++ ms));
        is_all = λ f g. q;
      }

  pub inbound-Heard :
      (n : ℕ) (m : SignalingMessage) (c : Call (listening api))
      → c.quit ≡ false
      → Heard api n arrived c
      → Keeps (Heard api n (arrived ++ m ∷ [])) (on_inbound_signaling_message m c)
  unfolding on_inbound_signaling_message
  inbound-Heard n m c q h =
      if_cases (Keeps (Heard api n (arrived ++ m ∷ []))) c.finished
        (λ f. ignored n (m ∷ []) c f h.is_part h.joins_left)
        (λ f.
          pump-Heard api n (arrived ++ m ∷ []) _ (queued n (m ∷ []) c (h.is_all f q) h.joins_left))

  module _ (parse : String → Crashes (Result SignalingMessage)) (n : ℕ) where
    -- All was heard before, and one join fewer is left.
    All : Call (listening api) → Type 0
    All c = (told api c ≡ arrived) × (c.join_callbacks ≡ n)

    All-Partly :
        (ms : List SignalingMessage) (c : Call (listening api))
        → All c
        → Partly api n (arrived ++ ms) c
    unfolding All
    All-Partly ms c a = record {
      joins_left = a.1;
      is_part =
          sublist-++ arrived ms (subst (λ l. Sublist l arrived) (sym a.0) (Sublist.refl arrived));
    }

    messages-Heard :
        (r : Crashes (List SignalingMessage)) (c : Call (listening api))
        (g : Call (listening api) → Call (listening api))
        → ((d : Call (listening api)) (ms : List SignalingMessage)
            → Heard api n ms d
            → Heard api n ms (g d))
        → All c
        → Keeps (Heard api n (arrived ++ sorted_messages r)) (
            (r >>= λ ms. some (record c {
              pending_signaling_messages = c.pending_signaling_messages ++ stable_sort ms;
            }))
            >>= λ d. some (g d))
    unfolding All
    messages-Heard none c g k a = tt
    messages-Heard (some ms) c g k a = k _ _ (queued n (stable_sort ms) c a.0 a.1)

    start_media-Heard :
        (jr : JoinResponse) (r : Status × api.State) (c : Call (listening api))
        → All c
        → Keeps
            (Heard api n (arrived ++ joined parse (ok jr)))
            (start_media parse jr (r.0, (r.1, c.peer.1)) c)
    unfolding start_media queue_join_messages All
    start_media-Heard jr (ok _, p) c a =
        messages-Heard (parse_messages parse jr.messages) (record c { peer = (p, c.peer.1) }) _
          (λ d ms h. h) a
    start_media-Heard jr (err e, p) c a =
        finish-Heard api n _ media_error _ _
          (All-Partly (joined parse (ok jr)) (record c { peer = (p, c.peer.1) }) a)

    initialized-Heard :
        (jr : JoinResponse) (r : Status × api.State) (c : Call (listening api))
        → All c
        → Keeps
            (Heard api n (arrived ++ joined parse (ok jr)))
            (initialized parse jr (r.0, (r.1, c.peer.1)) c)
    unfolding initialized All
    initialized-Heard jr (err e, p) c a =
        finish-Heard api n _ peer_connection_error _ _
          (All-Partly (joined parse (ok jr)) (record c { peer = (p, c.peer.1) }) a)
    initialized-Heard jr (ok _, p) c a = go (api.start_media p)
      where
        go :
            (x : Crashes (Status × api.State))
            → Keeps (Heard api n (arrived ++ joined parse (ok jr))) (
                (x >>= λ r. some (r.0, (r.1, c.peer.1))) >>= λ r.
                start_media parse jr r (record c { peer = (p, c.peer.1) }))
        go none = tt
        go (some r) = start_media-Heard jr r (record c { peer = (p, c.peer.1) }) a

    join_completed-Heard :
        (r : Result JoinResponse) (c : Call (listening api))
        → All c
        → Keeps (Heard api n (arrived ++ joined parse r)) (join_completed parse r c)
    unfolding join_completed All
    join_completed-Heard (err e) c a = finish-Heard api n _ signaling_error _ _ (All-Partly [] c a)
    join_completed-Heard (ok jr) c a = go (api.initialize jr c.peer.0)
      where
        go :
            (x : Crashes (Status × api.State))
            → Keeps (Heard api n (arrived ++ joined parse (ok jr))) (
                (x >>= λ r. some (r.0, (r.1, c.peer.1))) >>= λ r.
                initialized parse jr r (record c { join_response = some jr }))
        go none = tt
        go (some r) = initialized-Heard jr r (record c { join_response = some jr }) a

    pub join_complete-Heard :
        (r : Result JoinResponse) (c : Call (listening api))
        → c.quit ≡ false
        → Heard api n arrived c
        → Keeps (Heard api n (arrived ++ joined parse r)) (on_join_complete parse r c)
    unfolding on_join_complete All
    join_complete-Heard r c q h =
        if_cases (Keeps (Heard api n (arrived ++ joined parse r))) c.finished
          (λ f. ignored n (joined parse r) c f h.is_part h.joins_left)
          (λ f. join_completed-Heard r c (h.is_all f q, h.joins_left))
