-- ===== src/Video/Decoder/Ready.antt =====
-- The decoder that the decoder thread finds.
use vcpkg_webrtc_sample.Prelude.{
  ◌≡◌, refl, ◌<◌, true, false, ◌&&◌, ok, err, Status, ◌∷◌, arith, if_cases,
}
use vcpkg_webrtc_sample.Prelude.Int.{pos, leb_ℤ, pos_part, neg_part}
use vcpkg_webrtc_sample.Video.Decoder.{
  Ffmpeg, format_memory, codec_memory, live, ended, Source, new_source, prepare_scaler,
  prepare_frames, prepare_codec, prepare_stream, initialize_decoder, started, start, allocate_frame,
  allocate_packet,
}

-- No pointer of the decoder is null, the stream is one of the file, and a frame has an area.
pub record IsReady (s : Source) : Type 0 where
  pub format_context : s.format_context ≡ true
  pub codec_context : s.codec_context ≡ true
  pub decoded_frame : s.decoded_frame ≡ true
  pub packet : s.packet ≡ true
  pub sws_context : s.sws_context ≡ true
  pub stream : neg_part s.video_stream_index ≡ 0
  pub width : 0 < pos_part s.width
  pub height : 0 < pos_part s.height

-- After a success.
abbrev Succeeds : Status × Source → Type 0
Succeeds (ok _, s) = IsReady s
Succeeds (err e, s) = Unit

prepare_scaler-Succeeds :
    (f : Ffmpeg) (s : Source)
    → s.format_context ≡ true
    → s.codec_context ≡ true
    → s.decoded_frame ≡ true
    → s.packet ≡ true
    → neg_part s.video_stream_index ≡ 0
    → Succeeds (prepare_scaler f s)
unfolding prepare_scaler
prepare_scaler-Succeeds f s a b c d i = ground arith

prepare_frames-Succeeds :
    (f : Ffmpeg) (s : Source)
    → s.format_context ≡ true
    → s.codec_context ≡ true
    → neg_part s.video_stream_index ≡ 0
    → Succeeds (prepare_frames f s)
unfolding prepare_frames
prepare_frames-Succeeds f s a b i =
    let s' = allocate_packet f.allocates_packet (allocate_frame f.allocates_frame s) in
    if_cases Succeeds (f.allocates_frame && f.allocates_packet)
      (λ h.
        prepare_scaler-Succeeds f s' (ground arith) (ground arith) (ground arith) (ground arith)
          (ground arith))
      (λ _. tt)

prepare_codec-Succeeds :
    (f : Ffmpeg) (s : Source)
    → s.format_context ≡ true
    → neg_part s.video_stream_index ≡ 0
    → Succeeds (prepare_codec f s)
unfolding prepare_codec
prepare_codec-Succeeds f s a i =
    let s' = record s { codec_context = true; allocated = codec_memory ∷ s.allocated } in
    let v : Succeeds (prepare_frames f s') = prepare_frames-Succeeds f s' a refl i in
    if_cases Succeeds f.allocates_context
      (λ _.
        if_cases Succeeds f.takes_parameters
          (λ _. if_cases Succeeds f.codec_opens (λ _. v) (λ _. tt)) (λ _. tt))
      (λ _. tt)

prepare_stream-Succeeds :
    (f : Ffmpeg) (s : Source) → s.format_context ≡ true → Succeeds (prepare_stream f s)
unfolding prepare_stream
prepare_stream-Succeeds f s a =
    if_cases Succeeds (leb_ℤ (pos 0) f.best_stream)
      (λ h.
        if_cases Succeeds f.has_decoder
          (λ _.
            prepare_codec-Succeeds f (record s { video_stream_index = f.best_stream }) a
              (ground arith))
          (λ _. tt))
      (λ _. tt)

initialize_decoder-Succeeds : (f : Ffmpeg) (s : Source) → Succeeds (initialize_decoder f s)
unfolding initialize_decoder
initialize_decoder-Succeeds f s =
    let s' = record s { format_context = true; allocated = format_memory ∷ s.allocated } in
    let v : Succeeds (prepare_stream f s') = prepare_stream-Succeeds f s' refl in
    if_cases Succeeds f.input_opens (λ _. if_cases Succeeds f.has_stream_info (λ _. v) (λ _. tt))
      (λ _. tt)

-- The thread runs on a decoder that is ready, or does not run and the source has ended.
abbrev pub Outcome : Status × Source → Type 0
Outcome (ok _, s) = IsReady s × (s.state ≡ live) × (s.decoder_thread ≡ true)
Outcome (err e, s) = (s.state ≡ ended) × (s.decoder_thread ≡ false)

keeps_thread :
    (f : Ffmpeg) (s : Source) → (initialize_decoder f s).1.decoder_thread ≡ s.decoder_thread
unfolding initialize_decoder
keeps_thread f s = ground arith

-- Whatever FFmpeg answers: if `Start` succeeds, the source is live, its thread runs, and every
-- pointer, the stream index and the dimensions that the thread uses are valid; if it fails, the
-- source has ended and no thread runs.
pub start-Outcome : (f : Ffmpeg) → Outcome (start f new_source)
unfolding start
start-Outcome f =
    after (initialize_decoder f new_source) (initialize_decoder-Succeeds f new_source)
      (keeps_thread f new_source)
  where
    after : (x : Status × Source) → Succeeds x → x.1.decoder_thread ≡ false → Outcome (started x)
    after (ok _, s) h t = (ground arith, refl, refl)
    after (err e, s) h t = (refl, t)
