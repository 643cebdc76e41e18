-- ===== src/Audio/Capture/Tone.antt =====
-- What the capture thread delivers.
use mathlib.Core.List.{append-nil, append_assoc}
use vcpkg_webrtc_sample.Prelude.{
  ℕ, zero, suc, ◌+◌, ◌*◌, ◌≤◌, ◌≡◌, refl, sym, ap, ◌∙◌, ◌<◌, true, false, if◌then◌else◌, length,
  length-append, List, [], ◌∷◌, ◌++◌, some, if_cases, Returns, Returns-imp, Returns-eq,
  Returns-some, arith,
}
use vcpkg_webrtc_sample.Audio.Buffer.Interleaved.{
  suc_mul, copies, length-copies, interleaved, fill_frames_buffer,
}
use vcpkg_webrtc_sample.Audio.Capture.{
  Wave, Schedule, phase_after, Capture, ten_milliseconds, slept_until, silent, new_capture,
  block_done, fill_block, capture_loop,
}

phase_after-phase_after :
    (w : Wave) (m n : ℕ) (p : w.Phase)
    → phase_after w n (phase_after w m p) ≡ phase_after w (m + n) p
phase_after-phase_after w zero n p =
    let e : n ≡ 0 + n = omega arith in ap (λ k. phase_after w k p) e
phase_after-phase_after w (suc m) n p =
    let e : suc (m + n) ≡ suc m + n = omega arith in
    phase_after-phase_after w m n (w.advance_phase p) ∙ ap (λ k. phase_after w k p) e

length-silent : (w : Wave) (n : ℕ) → length (silent w n) ≡ n
length-silent w zero = refl
length-silent w (suc n) = ap (λ m. suc m) (length-silent w n)

interleaved-ext :
    {Sample : Type 0} (c : ℕ) (f g : ℕ → Sample)
    → ((i : ℕ) → f i ≡ g i)
    → (i n : ℕ) → interleaved c f i n ≡ interleaved c g i n
interleaved-ext c f g h i n = ap (λ k. interleaved c k i n) (λ x j. h j x)

length-interleaved :
    {Sample : Type 0} (c : ℕ) (f : ℕ → Sample) (i n : ℕ) → length (interleaved c f i n) ≡ n * c
length-interleaved c f i zero = omega arith
length-interleaved c f i (suc n) =
    length-append (copies c (f i)) (interleaved c f (i + 1) n)
    ∙ (ap (λ k. k + length (interleaved c f (i + 1) n)) (length-copies c (f i))
        ∙ (ap (λ k. c + k) (length-interleaved c f (i + 1) n) ∙ sym (suc_mul n c)))

slept_on_time : (deadline now : ℕ) → deadline ≤ slept_until deadline now
slept_on_time deadline now = ground arith

module _ (w : Wave) (s : Schedule) (n c : ℕ) where
  -- Block t of one tone that goes on from the first sample: frame i is sample t * n + i.
  abbrev pub tone_block : ℕ → List w.Sample
  tone_block t = interleaved c (λ i. w.sample_of (phase_after w (t * n + i) w.outset)) 0 n

  -- Some blocks from one on, those for which there is a callback.
  abbrev pub heard_blocks : ℕ → ℕ → List (List w.Sample)
  heard_blocks t zero = []
  heard_blocks t (suc k) =
      (if s.has_callback t then tone_block t ∷ [] else []) ++ heard_blocks (t + 1) k

  fill_block-tone_block :
      (b : Capture w)
      → b.phase ≡ phase_after w (b.tests * n) w.outset
      → length b.buffer ≡ n * c
      → fill_block w s n c b ≡ some (tone_block b.tests)
  fill_block-tone_block b p l =
      fill_frames_buffer c (λ i. w.sample_of (phase_after w i b.phase)) n b.buffer l
      ∙ ap some (
          interleaved-ext c _ _
            (λ i.
              ap (λ q. w.sample_of (phase_after w i q)) p
              ∙ ap w.sample_of (phase_after-phase_after w (b.tests * n) i w.outset))
            0 n)

  next_block : (t : ℕ) → t * n + n ≡ (t + 1) * n
  next_block t = omega arith

  module _ (m : ℕ) (stopped : s.recording m ≡ false) where
    before : (t : ℕ) → s.recording t ≡ true → t ≤ m → t < m
    before t r l = grind arith

    abbrev Heard : Capture w → Capture w → Type 0
    Heard b d =
        (k : ℕ) × (b.tests + k ≤ m)
        × (s.recording (b.tests + k) ≡ false)
        × (d.delivered ≡ b.delivered ++ heard_blocks b.tests k)
        × (d.next_tick ≡ b.next_tick + ten_milliseconds * k)
        × (d.next_tick ≤ d.now)

    one_block :
        (b d : Capture w)
        → Heard
            (block_done w s n c
              (s.has_callback b.tests)
              (s.took b.tests)
              (record b { tests = b.tests + 1 })
              (tone_block b.tests))
            d
        → Heard b d
    one_block b d (k, t, r, e, q, v) =
        let x : b.tests + suc k ≡ b.tests + 1 + k = omega arith in
        (
          suc k,
          omega arith,
          ap s.recording x ∙ r,
          e
              ∙ append_assoc b.delivered
                  (if s.has_callback b.tests then tone_block b.tests ∷ [] else [])
                  (heard_blocks (b.tests + 1) k),
          omega (arith, q),
          v,
        )

    next_phase :
        (b : Capture w)
        → b.phase ≡ phase_after w (b.tests * n) w.outset
        → phase_after w n b.phase ≡ phase_after w ((b.tests + 1) * n) w.outset
    next_phase b p =
        ap (phase_after w n) p
        ∙ phase_after-phase_after w (b.tests * n) n w.outset
        ∙ ap (λ k. phase_after w k w.outset) (next_block b.tests)

    capture_loop-Heard :
        (fuel : ℕ) (b : Capture w)
        → b.phase ≡ phase_after w (b.tests * n) w.outset
        → length b.buffer ≡ n * c
        → b.tests ≤ m
        → m < fuel + b.tests
        → b.next_tick ≤ b.now
        → Returns (Heard b) (capture_loop w s n c fuel b)
    unfolding capture_loop
    capture_loop-Heard zero b p l t f v = absurd (omega arith)
    capture_loop-Heard (suc fuel) b p l t f v =
        let b' = record b { tests = b.tests + 1 } in
        if_cases (Returns (Heard b)) (s.recording b.tests)
          (λ r.
            let later = before b.tests r t in
            let d =
              block_done w s n c (s.has_callback b.tests) (s.took b.tests) b'
                (tone_block b.tests) in
            Returns-eq (Heard b)
              (λ buffer.
                capture_loop w s n c fuel
                  (block_done w s n c (s.has_callback b.tests) (s.took b.tests) b' buffer))
              (fill_block-tone_block b p l)
              (Returns-imp (Heard d) (Heard b) (capture_loop w s n c fuel d) (one_block b) (
                capture_loop-Heard fuel d (next_phase b p) (length-interleaved c _ 0 n)
                  (omega arith) (omega arith)
                  (slept_on_time d.next_tick (b.now + s.took b.tests)))))
          (λ r.
            let x : b.tests + 0 ≡ b.tests = omega arith in
            (0, omega arith, ap s.recording x ∙ r, sym (append-nil b.delivered), omega arith, v))

    -- The recording is stopped before test m. Then the capture thread ends at test m at the latest,
    -- so `StopRecording`, which joins it, does not wait forever, and no write is out of range. The
    -- callback was given one tone that goes on from block to block without a break: for each block
    -- until then, if there was a callback, its buffer of consecutive samples, each once for every
    -- channel; and the deadline for which the thread slept advanced by ten milliseconds for each
    -- block, whatever the blocks took, and was never still to come when it went on.
    pub capture_loop_tone :
        (d : Capture w) × (k : ℕ) × (capture_loop w s n c (m + 1) (new_capture w s n c) ≡ some d)
        × (k ≤ m)
        × (s.recording k ≡ false)
        × (d.delivered ≡ heard_blocks 0 k)
        × (d.next_tick ≡ ten_milliseconds * k)
        × (d.next_tick ≤ d.now)
    capture_loop_tone =
        let b = new_capture w s n c in
        let first : w.outset ≡ phase_after w (0 * n) w.outset =
          (let z : 0 ≡ 0 * n = omega arith in ap (λ k. phase_after w k w.outset) z) in
        let (d, e, (k, t, r, h, q, v)) = Returns-some (Heard b) (capture_loop w s n c (m + 1) b) (
          capture_loop-Heard (m + 1) b first (length-silent w (n * c)) (omega arith) (omega arith)
            (omega arith)) in
        let x : k ≡ 0 + k = omega arith in
        (d, k, e, omega arith, ap s.recording x ∙ r, h, omega (arith, q), v)
