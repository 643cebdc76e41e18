-- ===== src/Audio/Buffer/Interleaved.antt =====
-- What the loops leave in the buffer.
use mathlib.Core.List.{append_assoc}
use vcpkg_webrtc_sample.Prelude.{
  ℕ, zero, suc, ◌+◌, ◌*◌, ◌≡◌, refl, sym, ap, ◌∙◌, length, length-append, List, [], ◌∷◌, ◌++◌, some,
  ◌>>=◌, arith,
}
use vcpkg_webrtc_sample.Audio.Buffer.{write_at, fill_channels, fill_frames}

pub suc_mul : (n c : ℕ) → suc n * c ≡ c + n * c
suc_mul n c = omega arith

-- Where the next frame begins.
next_frame : (i c a b : ℕ) → b ≡ c → a ≡ i * c → a + b ≡ (i + 1) * c
next_frame i c a b h e = omega arith

module _ {ℓ} {Sample : Type ℓ} where
  abbrev pub copies : ℕ → Sample → List Sample
  copies zero s = []
  copies (suc n) s = s ∷ copies n s

  -- Frame by frame, a copy for each channel.
  abbrev pub interleaved : ℕ → (ℕ → Sample) → ℕ → ℕ → List Sample
  interleaved c sample i zero = []
  interleaved c sample i (suc n) = copies c (sample i) ++ interleaved c sample (i + 1) n

  write_at-append :
      (n : ℕ) (pre post : List Sample) (x s : Sample)
      → length pre ≡ n
      → write_at n s (pre ++ x ∷ post) ≡ some (pre ++ s ∷ post)
  unfolding write_at
  write_at-append zero [] post x s h = refl
  write_at-append zero (y ∷ pre) post x s h = absurd (omega arith)
  write_at-append (suc n) [] post x s h = absurd (omega arith)
  write_at-append (suc n) (y ∷ pre) post x s h =
      ap (λ m. m >>= λ ys. some (y ∷ ys)) (write_at-append n pre post x s (omega arith))

  fill_channels-copies :
      (base channel k : ℕ) (s : Sample) (pre old post : List Sample)
      → length pre ≡ base + channel
      → length old ≡ k
      → fill_channels base channel k s (pre ++ (old ++ post)) ≡ some (pre ++ (copies k s ++ post))
  unfolding fill_channels
  fill_channels-copies base channel zero s pre [] post a b = refl
  fill_channels-copies base channel zero s pre (x ∷ old) post a b = absurd (omega arith)
  fill_channels-copies base channel (suc k) s pre [] post a b = absurd (omega arith)
  fill_channels-copies base channel (suc k) s pre (x ∷ old) post a b =
      ap (λ m. m >>= fill_channels base (channel + 1) k s)
        (write_at-append (base + channel) pre (old ++ post) x s a)
      ∙ ap (fill_channels base (channel + 1) k s) (sym (append_assoc pre (s ∷ []) (old ++ post)))
      ∙ fill_channels-copies base (channel + 1) k s (pre ++ s ∷ []) old post
          (omega (arith, length-append pre (s ∷ []))) (omega arith)
      ∙ ap some (append_assoc pre (s ∷ []) (copies k s ++ post))

  split_at :
      (n k : ℕ) (xs : List Sample)
      → length xs ≡ n + k
      → (ys : List Sample) × (zs : List Sample) × (xs ≡ ys ++ zs)
        × (length ys ≡ n)
        × (length zs ≡ k)
  split_at zero k xs h = ([], xs, refl, refl, (omega arith))
  split_at (suc n) k [] h = absurd (omega arith)
  split_at (suc n) k (x ∷ xs) h =
      let (ys, zs, e, a, b) = split_at n k xs (omega arith) in
      (x ∷ ys, zs, ap (λ l. x ∷ l) e, ap (λ m. suc m) a, b)

  pub length-copies : (n : ℕ) (s : Sample) → length (copies n s) ≡ n
  length-copies zero s = refl
  length-copies (suc n) s = ap (λ m. suc m) (length-copies n s)

  module _ (c : ℕ) (sample : ℕ → Sample) where
    fill_frames-interleaved :
        (i n : ℕ) (pre old : List Sample)
        → length pre ≡ i * c
        → length old ≡ n * c
        → fill_frames c sample i n (pre ++ old) ≡ some (pre ++ interleaved c sample i n)
    unfolding fill_frames
    fill_frames-interleaved i zero pre [] a b = refl
    fill_frames-interleaved i zero pre (x ∷ old) a b = absurd (omega arith)
    fill_frames-interleaved i (suc n) pre old a b =
        let (ys, zs, e, f, g) = split_at c (n * c) old (b ∙ suc_mul n c) in
        ap (λ l. fill_frames c sample i (suc n) (pre ++ l)) e
        ∙ ap (λ m. m >>= fill_frames c sample (i + 1) n)
            (fill_channels-copies (i * c) 0 c (sample i) pre ys zs (omega arith) f)
        ∙ ap (fill_frames c sample (i + 1) n) (sym (append_assoc pre (copies c (sample i)) zs))
        ∙ fill_frames-interleaved (i + 1) n (pre ++ copies c (sample i)) zs
            (length-append pre (copies c (sample i))
              ∙ next_frame i c (length pre) _ (length-copies c (sample i)) a)
            g
        ∙ ap some (append_assoc pre (copies c (sample i)) (interleaved c sample (i + 1) n))

    -- For a buffer of `n` frames, each of one sample per channel: no write of the two loops is out
    -- of range, and afterwards the buffer has, frame by frame, the frame's sample once for each
    -- channel.
    pub fill_frames_buffer :
        (n : ℕ) (buffer : List Sample)
        → length buffer ≡ n * c
        → fill_frames c sample 0 n buffer ≡ some (interleaved c sample 0 n)
    fill_frames_buffer n buffer h = fill_frames-interleaved 0 n [] buffer (omega arith) h
