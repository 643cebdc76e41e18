-- ===== src/Video/Sinks.antt =====
-- The sinks of `FileVideoSource`: `AddOrUpdateSink`, `RemoveSink`, `BroadcastFrame`.
--
-- The mutex is held for the whole of the first two and for the copy that the third works on, so
-- calls from several threads are a sequence.
pub mod Delivery
pub mod Registry
use vcpkg_webrtc_sample.Prelude.{ℕ, ◌==◌, if◌then◌else◌, List, [], ◌∷◌}

-- A pointer to a sink is a number, `nullptr` is 0.
pub record SinkEntry {ℓ} (Wants : Type ℓ) : Type ℓ where
  pub sink : ℕ
  pub wants : Wants

module _ {ℓ} {Wants : Type ℓ} where
  unfoldable pub add_or_update_sink : ℕ → Wants → List (SinkEntry Wants) → List (SinkEntry Wants)
  add_or_update_sink sink wants [] = record { sink = sink; wants = wants } ∷ []
  add_or_update_sink sink wants (entry ∷ entries) =
      if entry.sink == sink
      then record entry { wants = wants } ∷ entries
      else entry ∷ add_or_update_sink sink wants entries

  unfoldable pub remove_sink : ℕ → List (SinkEntry Wants) → List (SinkEntry Wants)
  remove_sink sink [] = []
  remove_sink sink (entry ∷ entries) =
      let rest = remove_sink sink entries in if entry.sink == sink then rest else entry ∷ rest

  -- The sinks whose `OnFrame` is called, in order.
  unfoldable pub broadcast_frame : List (SinkEntry Wants) → List ℕ
  broadcast_frame [] = []
  broadcast_frame (entry ∷ entries) =
      let rest = broadcast_frame entries in if entry.sink == 0 then rest else entry.sink ∷ rest

-- The calls that change the sinks, in their order.
pub data SinkCall {ℓ} (Wants : Type ℓ) : Type ℓ where
  adds : ℕ → Wants → SinkCall Wants
  removes : ℕ → SinkCall Wants

unfoldable pub apply_calls {ℓ} :
    {Wants : Type ℓ} → List (SinkCall Wants) → List (SinkEntry Wants) → List (SinkEntry Wants)
apply_calls [] entries = entries
apply_calls (adds sink wants ∷ calls) entries =
    apply_calls calls (add_or_update_sink sink wants entries)
apply_calls (removes sink ∷ calls) entries = apply_calls calls (remove_sink sink entries)
