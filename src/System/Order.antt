-- ===== src/System/Order.antt =====
-- The order in which texts are handed to the web socket.
use mathlib.Core.List.Sublist
use mathlib.Core.List.{append_assoc}
use vcpkg_webrtc_sample.Prelude.{
  ◌≡◌, refl, sym, ap, ◌∙◌, subst, false, List, [], ◌∷◌, ◌++◌, Sublist, some, Keeps, >>=-Keeps,
  >>=-Keeps_both, Keeps-pair, arith, flag, Keeps-some, if_cases,
}
use vcpkg_webrtc_sample.Common.Config.{AppConfig}
use vcpkg_webrtc_sample.Signaling.Http.{send_to_room_answer}
use vcpkg_webrtc_sample.Common.Json.{Json}
use vcpkg_webrtc_sample.Common.Message.{parse_signaling_message}
use vcpkg_webrtc_sample.Signaling.Socket as S
use vcpkg_webrtc_sample.Peer.Api.{PeerApi}
use vcpkg_webrtc_sample.Call.State.{Request}
use vcpkg_webrtc_sample.Call.Handlers.{start}
use vcpkg_webrtc_sample.Call.Run.{Event, step}
use vcpkg_webrtc_sample.Call.Requests.Moved.{Moved, step-Moved}
use vcpkg_webrtc_sample.System.Answers.{callback_event-answers, made_since-++, count_answers}
use vcpkg_webrtc_sample.System.Balance.{
  IsBalanced, is_own-answers, move-IsBalanced, start-IsBalanced,
}
use vcpkg_webrtc_sample.System.Sent.{texts, SentBy, perform-SentBy, heard-sent}
use vcpkg_webrtc_sample.System.{
  Callback, runs, reads_response, callback_event, Reply, made_since, queue_tasks, perform, is_own,
  System, Move, works, hears, calls_back, happens, start_system, run_event, work, call_back, move,
  run_moves, run_system,
}

-- The newest first, as the controller keeps its requests.
abbrev pub newest_first : List Request → List Request
newest_first [] = []
newest_first (r ∷ rs) = newest_first rs ++ r ∷ []

newest_first-snoc :
    (rs : List Request) (r : Request) → newest_first (rs ++ r ∷ []) ≡ r ∷ newest_first rs
newest_first-snoc [] r = refl
newest_first-snoc (x ∷ rs) r = ap (λ l. l ++ x ∷ []) (newest_first-snoc rs r)

newest_first-queue_tasks :
    (made tasks : List Request) → newest_first (queue_tasks made tasks) ≡ made ++ newest_first tasks
newest_first-queue_tasks [] tasks = refl
newest_first-queue_tasks (r ∷ made) tasks =
    newest_first-snoc (queue_tasks made tasks) r
    ∙ ap (λ l. r ∷ l) (newest_first-queue_tasks made tasks)

module _ (json : Json) (api : PeerApi) where
  -- The requests are those that were performed, and above them the tasks that are left.
  record Ordered (s : System json api) : Type 0 where
    performed : List Request
    left : s.call.requests ≡ newest_first s.tasks ++ performed
    sent_part : Sublist s.socket.sent (texts json api performed)

  run_event-Ordered :
      (e : Event api) (s : System json api)
      → Keeps (Moved e s.call) (step (parse_signaling_message json) e s.call)
      → Ordered s
      → Keeps Ordered (run_event json api e s)
  unfolding run_event
  run_event-Ordered e s moved o =
      >>=-Keeps_both (Moved e s.call) Ordered (step (parse_signaling_message json) e s.call) _ moved
        (λ d v. record {
          performed = o.performed;
          left =
              v.on_top
              ∙ ap (λ l. v.made ++ l) o.left
              ∙ sym (append_assoc v.made (newest_first s.tasks) o.performed)
              ∙ ap (λ l. l ++ o.performed) (sym (newest_first-queue_tasks v.made s.tasks))
              ∙ ap (λ l. newest_first (queue_tasks l s.tasks) ++ o.performed)
                  (sym (
                    ap (made_since s.call.requests) v.on_top
                    ∙ made_since-++ v.made s.call.requests));
          sent_part = o.sent_part;
        })

  work-Ordered :
      (rs : List Request) (w : Reply) (s : System json api)
      → s.tasks ≡ rs
      → Ordered s
      → Keeps Ordered (work json api rs w s)
  unfolding work
  work-Ordered [] w s e o = o
  work-Ordered (r ∷ rs) w s e o =
      >>=-Keeps_both (SentBy json api r (texts json api o.performed)) Ordered
        (perform json api r w s.socket) _
        (perform-SentBy json api r w s.socket (texts json api o.performed) o.sent_part)
        (λ q p. record {
          performed = r ∷ o.performed;
          left =
              o.left
              ∙ ap (λ l. newest_first l ++ o.performed) e
              ∙ append_assoc (newest_first rs) (r ∷ []) o.performed;
          sent_part = p;
        })

  call_back-Ordered :
      (cs : List (Callback json api)) (s : System json api)
      → s.call.quit ≡ false
      → s.posted ≡ cs
      → IsBalanced json api s
      → Ordered s
      → Keeps Ordered (call_back json api cs s)
  unfolding call_back
  call_back-Ordered [] s q e b o = o
  call_back-Ordered (runs x ∷ cs) s q e b o =
      run_event-Ordered x (record s { posted = cs })
        (step-Moved (parse_signaling_message json) x s.call q
          (λ k. omega (arith, b k, ap (count_answers json api k) e)))
        (record { performed = o.performed; left = o.left; sent_part = o.sent_part })
  call_back-Ordered (reads_response callback response ∷ cs) s q e b o =
      >>=-Keeps Ordered (send_to_room_answer json response) _ (λ status.
        run_event-Ordered (callback_event json api callback status) (record s { posted = cs })
          (step-Moved (parse_signaling_message json) (callback_event json api callback status)
            s.call q
            (λ k. omega (
              arith,
              b k,
              ap (count_answers json api k) e,
              ap flag (callback_event-answers json api callback status k),
            )))
          (record { performed = o.performed; left = o.left; sent_part = o.sent_part }))

  move-Ordered :
      (m : Move json api) (s : System json api)
      → IsBalanced json api s
      → Ordered s
      → Keeps Ordered (move json api m s)
  unfolding move
  move-Ordered (works w) s b o = work-Ordered s.tasks w s refl o
  move-Ordered (hears m) s b o =
      >>=-Keeps_both (λ (q : S.Socket × List S.Posted). q.0.sent ≡ s.socket.sent) Ordered
        (S.on_web_socket_message json m s.socket) _ (heard-sent json api m s.socket)
        (λ q e. record {
          performed = o.performed;
          left = o.left;
          sent_part = subst (λ l. Sublist l (texts json api o.performed)) (sym e) o.sent_part;
        })
  move-Ordered calls_back s b o =
      if_cases (Keeps Ordered) s.call.quit (λ _. o) (λ q. call_back-Ordered s.posted s q refl b o)
  move-Ordered (happens e) s b o =
      if_cases (Keeps Ordered) s.call.quit (λ _. o)
        (λ q.
          if_cases (Keeps Ordered) (is_own json api e)
            (λ w.
              run_event-Ordered e s
                (step-Moved (parse_signaling_message json) e s.call q
                  (λ k. omega (arith, ap flag (is_own-answers json api e k w))))
                o)
            (λ _. o))

  moves-Ordered :
      (ms : List (Move json api)) (s : System json api)
      → IsBalanced json api s
      → Ordered s
      → Keeps Ordered (run_moves json api ms s)
  unfolding run_moves
  moves-Ordered [] s b o = o
  moves-Ordered (m ∷ ms) s b o =
      >>=-Keeps_both (λ t. IsBalanced json api t × Ordered t) Ordered (move json api m s)
        (run_moves json api ms)
        (Keeps-pair (IsBalanced json api) Ordered (move json api m s)
          (move-IsBalanced json api m s b) (move-Ordered m s b o))
        (λ t v. moves-Ordered ms t v.0 v.1)

  -- In every state of the system, the requests of the controller, the newest first, are the tasks
  -- that the network thread has left, the last of them in front, and below them those that it
  -- performed. The texts that were handed to the web socket, the newest first, are those of the
  -- performed registrations and messages in this order: some may be missing, since the web socket was
  -- not open, but none is sent twice, out of order, or unasked.
  pub run_system_in_order :
      (config : AppConfig) (ms : List (Move json api)) (s : System json api)
      → run_system json api config ms ≡ some s
      → (performed : List Request) × (s.call.requests ≡ newest_first s.tasks ++ performed)
        × Sublist s.socket.sent (texts json api performed)
  unfolding run_system start
  run_system_in_order config ms s h =
      let first : Ordered (start_system json api config) = record {
        performed = [];
        left = refl;
        sent_part = Sublist.refl [];
      } in
      let o =
        Keeps-some Ordered (run_system json api config ms)
          (moves-Ordered ms (start_system json api config) (start-IsBalanced json api config) first)
          h in
      (o.performed, o.left, o.sent_part)
