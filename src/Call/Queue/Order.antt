-- ===== src/Call/Queue/Order.antt =====
-- The order of the messages that waited in the room, kind by kind.
use mathlib.Core.List.{append-nil}
use vcpkg_webrtc_sample.Prelude.{
  ℕ, ◌≤◌, ◌<◌, ◌≡◌, refl, ap, subst, ◌∙◌, Bool, true, false, leb, if_cases, if◌then◌else◌, List, [],
  ◌∷◌, ◌++◌, arith,
}
use vcpkg_webrtc_sample.Common.Message.{
  SignalingMessage, SignalingMessageType, offer, answer, candidate, bye, unknown,
}
use vcpkg_webrtc_sample.Call.Types.{queued_message_priority}
use vcpkg_webrtc_sample.Call.Queue.{priority, insert_stable, stable_sort}

abbrev pub is_description : SignalingMessageType → Bool
is_description offer = true
is_description answer = true
is_description k = false

abbrev pub is_candidate : SignalingMessageType → Bool
is_candidate candidate = true
is_candidate k = false

abbrev pub is_bye : SignalingMessageType → Bool
is_bye bye = true
is_bye k = false

abbrev pub is_unknown : SignalingMessageType → Bool
is_unknown unknown = true
is_unknown k = false

-- The messages of some kinds, in their order.
abbrev pub those : (SignalingMessageType → Bool) → List SignalingMessage → List SignalingMessage
those test [] = []
those test (m ∷ ms) = if test m.kind then m ∷ those test ms else those test ms

-- The descriptions, then the candidates, the byes and the unknown messages.
abbrev pub by_kind : List SignalingMessage → List SignalingMessage
by_kind ms =
    those is_description ms ++ (those is_candidate ms ++ (those is_bye ms ++ those is_unknown ms))

abbrev AllBelow : ℕ → List SignalingMessage → Type 0
AllBelow n [] = Unit
AllBelow n (m ∷ ms) = (priority m < n) × AllBelow n ms

-- The first message has a priority no smaller than the bound, if there is one.
abbrev StartsFrom : ℕ → List SignalingMessage → Type 0
StartsFrom n [] = Unit
StartsFrom n (m ∷ ms) = n ≤ priority m

insert_stable-front :
    (m : SignalingMessage) (ms : List SignalingMessage)
    → StartsFrom (priority m) ms
    → insert_stable m ms ≡ m ∷ ms
unfolding insert_stable
insert_stable-front m [] h = refl
insert_stable-front m (x ∷ xs) h =
    if_cases (λ l. l ≡ m ∷ x ∷ xs) (leb (priority m) (priority x)) (λ _. refl)
      (λ e. absurd (ground arith))

insert_stable-++ :
    (m : SignalingMessage) (xs ys : List SignalingMessage)
    → AllBelow (priority m) xs
    → insert_stable m (xs ++ ys) ≡ xs ++ insert_stable m ys
unfolding insert_stable
insert_stable-++ m [] ys h = refl
insert_stable-++ m (x ∷ xs) ys (h, hs) =
    if_cases (λ l. l ≡ x ∷ (xs ++ insert_stable m ys)) (leb (priority m) (priority x))
      (λ e. absurd (ground arith)) (λ _. ap (λ l. x ∷ l) (insert_stable-++ m xs ys hs))

those-AllBelow :
    (test : SignalingMessageType → Bool) (n : ℕ)
    → ((m : SignalingMessage) → test m.kind ≡ true → priority m < n)
    → (ms : List SignalingMessage) → AllBelow n (those test ms)
those-AllBelow test n h [] = tt
those-AllBelow test n h (m ∷ ms) =
    if_cases (AllBelow n) (test m.kind) (λ e. (h m e, those-AllBelow test n h ms))
      (λ _. those-AllBelow test n h ms)

those-StartsFrom :
    (test : SignalingMessageType → Bool) (n : ℕ)
    → ((m : SignalingMessage) → test m.kind ≡ true → n ≤ priority m)
    → (ms rest : List SignalingMessage) → StartsFrom n rest
    → StartsFrom n (those test ms ++ rest)
those-StartsFrom test n h [] rest r = r
those-StartsFrom test n h (m ∷ ms) rest r =
    if_cases (λ l. StartsFrom n (l ++ rest)) (test m.kind) (λ e. h m e)
      (λ _. those-StartsFrom test n h ms rest r)

description_priority :
    (k : SignalingMessageType) → is_description k ≡ true → queued_message_priority k ≡ 0
description_priority k e = ground arith

candidate_priority :
    (k : SignalingMessageType) → is_candidate k ≡ true → queued_message_priority k ≡ 1
candidate_priority k e = ground arith

bye_priority : (k : SignalingMessageType) → is_bye k ≡ true → queued_message_priority k ≡ 2
bye_priority k e = ground arith

unknown_priority : (k : SignalingMessageType) → is_unknown k ≡ true → queued_message_priority k ≡ 3
unknown_priority k e = ground arith

-- The last three parts, the last two and the last have no message of a smaller priority.
unknowns-StartsFrom :
    (n : ℕ) (ms : List SignalingMessage) → n ≤ 3 → StartsFrom n (those is_unknown ms)
unknowns-StartsFrom n ms h =
    subst (StartsFrom n) (append-nil (those is_unknown ms))
      (those-StartsFrom is_unknown n (λ m e. omega (arith, unknown_priority m.kind e)) ms [] tt)

byes-StartsFrom :
    (n : ℕ) (ms : List SignalingMessage)
    → n ≤ 2
    → StartsFrom n (those is_bye ms ++ those is_unknown ms)
byes-StartsFrom n ms h =
    those-StartsFrom is_bye n (λ m e. omega (arith, bye_priority m.kind e)) ms _
      (unknowns-StartsFrom n ms (omega arith))

candidates-StartsFrom :
    (n : ℕ) (ms : List SignalingMessage)
    → n ≤ 1
    → StartsFrom n (those is_candidate ms ++ (those is_bye ms ++ those is_unknown ms))
candidates-StartsFrom n ms h =
    those-StartsFrom is_candidate n (λ m e. omega (arith, candidate_priority m.kind e)) ms _
      (byes-StartsFrom n ms (omega arith))

descriptions_below :
    (n : ℕ) (ms : List SignalingMessage) → 0 < n → AllBelow n (those is_description ms)
descriptions_below n ms h =
    those-AllBelow is_description n (λ m e. omega (arith, description_priority m.kind e)) ms

candidates_below : (n : ℕ) (ms : List SignalingMessage) → 1 < n → AllBelow n (those is_candidate ms)
candidates_below n ms h =
    those-AllBelow is_candidate n (λ m e. omega (arith, candidate_priority m.kind e)) ms

byes_below : (n : ℕ) (ms : List SignalingMessage) → 2 < n → AllBelow n (those is_bye ms)
byes_below n ms h = those-AllBelow is_bye n (λ m e. omega (arith, bye_priority m.kind e)) ms

insert_stable-by_kind :
    (m : SignalingMessage) (ms : List SignalingMessage)
    → insert_stable m (by_kind ms) ≡ by_kind (m ∷ ms)
insert_stable-by_kind m ms = go m.kind refl
  where
    ds : List SignalingMessage
    ds = those is_description ms

    cs : List SignalingMessage
    cs = those is_candidate ms

    bs : List SignalingMessage
    bs = those is_bye ms

    us : List SignalingMessage
    us = those is_unknown ms

    -- A description goes in front of all.
    front :
        priority m ≡ 0 → insert_stable m (ds ++ (cs ++ (bs ++ us))) ≡ m ∷ (ds ++ (cs ++ (bs ++ us)))
    front p = insert_stable-front m (ds ++ (cs ++ (bs ++ us))) (
        those-StartsFrom is_description (priority m) (λ x e. omega (arith, p)) ms _
          (candidates-StartsFrom (priority m) ms (omega (arith, p))))

    -- A message of each kind.
    go :
        (k : SignalingMessageType)
        → m.kind ≡ k
        → insert_stable m (by_kind ms)
          ≡ (if is_description k then m ∷ ds else ds)
            ++ ((if is_candidate k then m ∷ cs else cs)
                ++ ((if is_bye k then m ∷ bs else bs) ++ (if is_unknown k then m ∷ us else us)))
    go offer e = front (ap queued_message_priority e)
    go answer e = front (ap queued_message_priority e)
    go candidate e =
        let p : priority m ≡ 1 = ap queued_message_priority e in
        (insert_stable-++ m ds _ (descriptions_below (priority m) ms (omega (arith, p)))
          ∙ ap (λ l. ds ++ l)
              (insert_stable-front m (cs ++ (bs ++ us))
                (candidates-StartsFrom (priority m) ms (omega (arith, p)))))
    go bye e =
        let p : priority m ≡ 2 = ap queued_message_priority e in
        (insert_stable-++ m ds _ (descriptions_below (priority m) ms (omega (arith, p)))
          ∙ ap (λ l. ds ++ l)
              (insert_stable-++ m cs _ (candidates_below (priority m) ms (omega (arith, p)))
                ∙ ap (λ l. cs ++ l)
                    (insert_stable-front m (bs ++ us)
                      (byes-StartsFrom (priority m) ms (omega (arith, p))))))
    go unknown e =
        let p : priority m ≡ 3 = ap queued_message_priority e in
        (insert_stable-++ m ds _ (descriptions_below (priority m) ms (omega (arith, p)))
          ∙ ap (λ l. ds ++ l)
              (insert_stable-++ m cs _ (candidates_below (priority m) ms (omega (arith, p)))
                ∙ ap (λ l. cs ++ l)
                    (insert_stable-++ m bs _ (byes_below (priority m) ms (omega (arith, p)))
                      ∙ ap (λ l. bs ++ l)
                          (insert_stable-front m us
                            (unknowns-StartsFrom (priority m) ms (omega (arith, p)))))))

pub stable_sort-by_kind : (ms : List SignalingMessage) → stable_sort ms ≡ by_kind ms
unfolding stable_sort
stable_sort-by_kind [] = refl
stable_sort-by_kind (m ∷ ms) =
    ap (insert_stable m) (stable_sort-by_kind ms) ∙ insert_stable-by_kind m ms
