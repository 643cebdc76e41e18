-- ===== src/Video/Sinks/Registry.antt =====
-- The sinks as a table from a sink to its wants.
use vcpkg_webrtc_sample.Prelude.{
  ℕ, ◌==◌, ◌≡◌, refl, ap, ◌∙◌, if◌then◌else◌, Option, none, some, List, [], ◌∷◌, arith,
}
use vcpkg_webrtc_sample.Video.Sinks.{
  SinkEntry, add_or_update_sink, remove_sink, SinkCall, adds, removes, apply_calls,
}

module _ {ℓ} {Wants : Type ℓ} where
  -- The wants that the source has for a sink.
  abbrev pub wants_of : ℕ → List (SinkEntry Wants) → Option Wants
  wants_of sink [] = none
  wants_of sink (entry ∷ entries) =
      if entry.sink == sink then some entry.wants else wants_of sink entries

  -- A table, as a function.
  abbrev pub assigned : ℕ → Wants → (ℕ → Option Wants) → ℕ → Option Wants
  assigned sink wants table other = if sink == other then some wants else table other

  abbrev pub without : ℕ → (ℕ → Option Wants) → ℕ → Option Wants
  without sink table other = if sink == other then none else table other

  abbrev pub table_after : List (SinkCall Wants) → (ℕ → Option Wants) → ℕ → Option Wants
  table_after [] table = table
  table_after (adds sink wants ∷ calls) table = table_after calls (assigned sink wants table)
  table_after (removes sink ∷ calls) table = table_after calls (without sink table)

  wants_of-add_or_update_sink :
      (sink : ℕ) (wants : Wants) (entries : List (SinkEntry Wants)) (other : ℕ)
      → wants_of other (add_or_update_sink sink wants entries)
        ≡ assigned sink wants (λ k. wants_of k entries) other
  unfolding add_or_update_sink
  wants_of-add_or_update_sink sink wants [] other = refl
  wants_of-add_or_update_sink sink wants (entry ∷ entries) other =
      ground (arith, wants_of-add_or_update_sink sink wants entries other)

  wants_of-remove_sink :
      (sink : ℕ) (entries : List (SinkEntry Wants)) (other : ℕ)
      → wants_of other (remove_sink sink entries) ≡ without sink (λ k. wants_of k entries) other
  unfolding remove_sink
  wants_of-remove_sink sink [] other = ground arith
  wants_of-remove_sink sink (entry ∷ entries) other =
      ground (arith, wants_of-remove_sink sink entries other)

  table_after-ext :
      (calls : List (SinkCall Wants)) (f g : ℕ → Option Wants)
      → ((k : ℕ) → f k ≡ g k)
      → (other : ℕ) → table_after calls f other ≡ table_after calls g other
  table_after-ext calls f g h other = ap (λ t. table_after calls t other) (λ i k. h k i)

  from_entries :
      (calls : List (SinkCall Wants)) (entries : List (SinkEntry Wants)) (other : ℕ)
      → wants_of other (apply_calls calls entries)
        ≡ table_after calls (λ k. wants_of k entries) other
  unfolding apply_calls
  from_entries [] entries other = refl
  from_entries (adds sink wants ∷ calls) entries other =
      from_entries calls (add_or_update_sink sink wants entries) other
      ∙ table_after-ext calls _ _ (wants_of-add_or_update_sink sink wants entries) other
  from_entries (removes sink ∷ calls) entries other =
      from_entries calls (remove_sink sink entries) other
      ∙ table_after-ext calls _ _ (wants_of-remove_sink sink entries) other

  -- The list of sinks implements a table: after any calls, the wants that it has for a sink are those
  -- of a function from sinks to wants that starts empty, to which `AddOrUpdateSink` assigns, and from
  -- which `RemoveSink` takes a sink away.
  pub apply_calls-table_after :
      (calls : List (SinkCall Wants)) (sink : ℕ)
      → wants_of sink (apply_calls calls []) ≡ table_after calls (λ k. none) sink
  apply_calls-table_after calls sink = from_entries calls [] sink
