-- ===== src/Call/Heard/Steps.antt =====
-- The messages along a schedule.
use mathlib.Core.List.{append_assoc, append-nil}
use mathlib.Core.List.Sublist
use vcpkg_webrtc_sample.Prelude.{
  ℕ, ◌≡◌, refl, sym, ap, ◌∙◌, subst, true, false, some, String, List, [], ◌∷◌, ◌++◌, Sublist,
  Crashes, Result, if_cases, Keeps, Keeps-some, >>=-Keeps_both, ◌>>=◌,
}
use vcpkg_webrtc_sample.Common.Config.{AppConfig}
use vcpkg_webrtc_sample.Common.Message.{SignalingMessage}
use vcpkg_webrtc_sample.Peer.Api.{PeerApi}
use vcpkg_webrtc_sample.Call.State.{Call, new_call}
use vcpkg_webrtc_sample.Call.Handlers.{start}
use vcpkg_webrtc_sample.Call.Run.{Event, claim, deliver_claimed, step, run_events, run}
use vcpkg_webrtc_sample.Call.Ending.{run-Ending}
use vcpkg_webrtc_sample.Call.Heard.{listening, arrivals, sublist-++, told, Heard}
use vcpkg_webrtc_sample.Call.Heard.Claimed.{brings, left, arrivals-∷, claimed-Heard}

module _ (api : PeerApi) (parse : String → Crashes (Result SignalingMessage)) where
  -- At the end of a schedule.
  abbrev HeardAll : List SignalingMessage → Call (listening api) → Type 0
  HeardAll arrived c =
      Sublist (told api c) arrived × (c.finished ≡ false → c.quit ≡ false → told api c ≡ arrived)

  stopped-HeardAll :
      (es : List (Event (listening api))) (arrived : List SignalingMessage)
      (c : Call (listening api))
      → c.quit ≡ true
      → Sublist (told api c) arrived
      → Keeps (HeardAll arrived) (run_events parse es c)
  unfolding run_events step
  stopped-HeardAll [] arrived c q h = (h, λ f g. cc)
  stopped-HeardAll (e ∷ es) arrived c q h =
      if_cases
        (λ (b : Crashes (Call (listening api))).
          Keeps (HeardAll arrived) (b >>= run_events parse es))
        c.quit (λ _. stopped-HeardAll es arrived c q h) (λ g. absurd (cc))

  events-HeardAll :
      (es : List (Event (listening api))) (n : ℕ) (arrived : List SignalingMessage)
      (c : Call (listening api))
      → Heard api n arrived c
      → Keeps (HeardAll (arrived ++ arrivals parse n es)) (run_events parse es c)
  unfolding run_events step
  events-HeardAll [] n arrived c h =
      subst (λ l. HeardAll l c) (sym (append-nil arrived)) (h.is_part, h.is_all)
  events-HeardAll (e ∷ es) n arrived c h =
      let all = arrived ++ arrivals parse n (e ∷ es) in
      if_cases
        (λ (b : Crashes (Call (listening api))). Keeps (HeardAll all) (b >>= run_events parse es))
        c.quit
        (λ q.
          stopped-HeardAll es all c q (sublist-++ arrived (arrivals parse n (e ∷ es)) h.is_part))
        (λ q.
          >>=-Keeps_both (Heard api (left api parse n e) (arrived ++ brings api parse n e))
            (HeardAll all) (deliver_claimed parse e c (claim e c)) (run_events parse es)
            (claimed-Heard api parse n arrived e c q h)
            (λ d k.
              subst (λ l. Keeps (HeardAll l) (run_events parse es d))
                (append_assoc arrived (brings api parse n e)
                    (arrivals parse (left api parse n e) es)
                  ∙ ap (λ l. arrived ++ l) (sym (arrivals-∷ api parse n e es)))
                (events-HeardAll es (left api parse n e) (arrived ++ brings api parse n e) d k)))

  run-HeardAll :
      (config : AppConfig) (es : List (Event (listening api))) {c : Call (listening api)}
      → run parse config es ≡ some c
      → HeardAll (arrivals parse 1 es) c
  unfolding run start
  run-HeardAll config es h =
      Keeps-some (HeardAll (arrivals parse 1 es)) (run parse config es)
        (events-HeardAll es 1 [] (start (new_call (listening api) config))
          (record { joins_left = refl; is_part = Sublist.refl []; is_all = λ f q. refl }))
        h

  -- After any schedule, with any peer connection client: the messages that were handed to the client,
  -- and behind them those that wait in the controller, are a part of the messages that arrived, in the
  -- order of their arrival and none more than once. Those are the messages of the first join
  -- response, in their stable order by kind, and those that came in. As long as the call is not
  -- finished, nothing is missing. A description that the client refuses at once does not count as
  -- handed over.
  pub run_hears_in_order :
      (config : AppConfig) (es : List (Event (listening api))) (c : Call (listening api))
      → run parse config es ≡ some c
      → Sublist (told api c) (arrivals parse 1 es)
        × (c.finished ≡ false → told api c ≡ arrivals parse 1 es)
  run_hears_in_order config es c h =
      let (p, a) = run-HeardAll config es h in
      (p, λ f. a f ((run-Ending parse config es h).unfinished f).0)
