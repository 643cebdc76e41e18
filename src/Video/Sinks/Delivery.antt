-- ===== src/Video/Sinks/Delivery.antt =====
-- Who gets a frame.
use vcpkg_webrtc_sample.Prelude.{
  flag, ℕ, suc, ◌==◌, ◌≡◌, refl, Bool, true, false, if◌then◌else◌, List, [], ◌∷◌, arith,
}
use vcpkg_webrtc_sample.Video.Sinks.{
  SinkEntry, add_or_update_sink, remove_sink, broadcast_frame, SinkCall, adds, removes, apply_calls,
}

-- Whether the last call for a sink added it.
abbrev pub is_registered {ℓ} : {Wants : Type ℓ} → ℕ → Bool → List (SinkCall Wants) → Bool
is_registered k b [] = b
is_registered k b (adds sink wants ∷ calls) = is_registered k (if sink == k then true else b) calls
is_registered k b (removes sink ∷ calls) = is_registered k (if sink == k then false else b) calls

abbrev pub times : ℕ → List ℕ → ℕ
times k [] = 0
times k (x ∷ xs) = if x == k then suc (times k xs) else times k xs

-- How often a sink stands among the entries.
abbrev entry_times {ℓ} : {Wants : Type ℓ} → ℕ → List (SinkEntry Wants) → ℕ
entry_times k [] = 0
entry_times k (e ∷ es) = if e.sink == k then suc (entry_times k es) else entry_times k es

module _ {ℓ} {Wants : Type ℓ} where
  -- Only the sink itself is delivered to.
  delivered :
      (k : ℕ) (es : List (SinkEntry Wants))
      → times k (broadcast_frame es) ≡ (if k == 0 then 0 else entry_times k es)
  unfolding broadcast_frame
  delivered k [] = ground arith
  delivered k (e ∷ es) = ground (arith, delivered k es)

  add-entry_times_self :
      (k sink : ℕ) (wants : Wants) (es : List (SinkEntry Wants)) (b : Bool)
      → sink == k ≡ true
      → entry_times k es ≡ flag b
      → entry_times k (add_or_update_sink sink wants es) ≡ 1
  unfolding add_or_update_sink
  add-entry_times_self k sink wants [] b s h = ground arith
  add-entry_times_self k sink wants (e ∷ es) b s h =
      ground (arith, add-entry_times_self k sink wants es b s)

  add-entry_times_ne :
      (k sink : ℕ) (wants : Wants) (es : List (SinkEntry Wants))
      → sink == k ≡ false
      → entry_times k (add_or_update_sink sink wants es) ≡ entry_times k es
  unfolding add_or_update_sink
  add-entry_times_ne k sink wants [] s = ground arith
  add-entry_times_ne k sink wants (e ∷ es) s = ground (arith, add-entry_times_ne k sink wants es s)

  remove-entry_times_self :
      (k sink : ℕ) (es : List (SinkEntry Wants))
      → sink == k ≡ true
      → entry_times k (remove_sink sink es) ≡ 0
  unfolding remove_sink
  remove-entry_times_self k sink [] s = refl
  remove-entry_times_self k sink (e ∷ es) s = ground (arith, remove-entry_times_self k sink es s)

  remove-entry_times_ne :
      (k sink : ℕ) (es : List (SinkEntry Wants))
      → sink == k ≡ false
      → entry_times k (remove_sink sink es) ≡ entry_times k es
  unfolding remove_sink
  remove-entry_times_ne k sink [] s = refl
  remove-entry_times_ne k sink (e ∷ es) s = ground (arith, remove-entry_times_ne k sink es s)

  after_add :
      (k sink : ℕ) (wants : Wants) (es : List (SinkEntry Wants)) (b : Bool)
      → entry_times k es ≡ flag b
      → entry_times k (add_or_update_sink sink wants es) ≡ flag (if sink == k then true else b)
  after_add k sink wants es b h =
      ground (arith, add-entry_times_self k sink wants es b, add-entry_times_ne k sink wants es)

  after_remove :
      (k sink : ℕ) (es : List (SinkEntry Wants)) (b : Bool)
      → entry_times k es ≡ flag b
      → entry_times k (remove_sink sink es) ≡ flag (if sink == k then false else b)
  after_remove k sink es b h =
      ground (arith, remove-entry_times_self k sink es, remove-entry_times_ne k sink es)

  registered_once :
      (k : ℕ) (calls : List (SinkCall Wants)) (es : List (SinkEntry Wants)) (b : Bool)
      → entry_times k es ≡ flag b
      → entry_times k (apply_calls calls es) ≡ flag (is_registered k b calls)
  unfolding apply_calls
  registered_once k [] es b h = h
  registered_once k (adds sink wants ∷ calls) es b h =
      registered_once k calls (add_or_update_sink sink wants es) (if sink == k then true else b)
        (after_add k sink wants es b h)
  registered_once k (removes sink ∷ calls) es b h =
      registered_once k calls (remove_sink sink es) (if sink == k then false else b)
        (after_remove k sink es b h)

  -- After any calls of `AddOrUpdateSink` and `RemoveSink`, a frame is delivered exactly once to a
  -- sink that is not null and whose last call added it, and to no other.
  pub broadcast_frame-is_registered :
      (calls : List (SinkCall Wants)) (k : ℕ)
      → times k (broadcast_frame (apply_calls calls []))
        ≡ (if k == 0 then 0 else if is_registered k false calls then 1 else 0)
  broadcast_frame-is_registered calls k =
      ground (arith, delivered k (apply_calls calls []), registered_once k calls [] false refl)
