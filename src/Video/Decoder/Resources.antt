-- ===== src/Video/Decoder/Resources.antt =====
-- What `Start` leaves behind, and what the destructor frees.
use vcpkg_webrtc_sample.Prelude.{
  flag, ℕ, suc, ◌+◌, ◌≡◌, refl, ◌&&◌, Bool, true, false, if◌then◌else◌, List, [], ◌∷◌, ok, err,
  Status, arith, if_cases,
}
use vcpkg_webrtc_sample.Prelude.Int.{ℤ, pos, leb_ℤ}
use vcpkg_webrtc_sample.Video.Decoder.{
  Ffmpeg, live, ended, Resource, format_memory, codec_memory, frame_memory, packet_memory,
  scaler_memory, Source, new_source, prepare_scaler, prepare_frames, prepare_codec, prepare_stream,
  initialize_decoder, cleanup_decoder, started, start, allocate_frame, allocate_packet, free_packet,
  free_frame, free_codec, free_format, free_scaler, destroy,
}

-- How often a resource stands in a list.
abbrev pub is_same : Resource → Resource → Bool
is_same format_memory format_memory = true
is_same codec_memory codec_memory = true
is_same frame_memory frame_memory = true
is_same packet_memory packet_memory = true
is_same scaler_memory scaler_memory = true
is_same _ _ = false

abbrev pub times : Resource → List Resource → ℕ
times r [] = 0
times r (x ∷ xs) = if is_same r x then suc (times r xs) else times r xs

-- The pointer to a resource.
abbrev pub owns : Resource → Source → Bool
owns format_memory s = s.format_context
owns codec_memory s = s.codec_context
owns frame_memory s = s.decoded_frame
owns packet_memory s = s.packet
owns scaler_memory s = s.sws_context

-- What was allocated and not freed is what the pointers point to.
abbrev Owned : Resource → Source → Type 0
Owned r s = times r s.allocated ≡ times r s.freed + flag (owns r s)

abbrev OwnedAfter : Resource → Status × Source → Type 0
OwnedAfter r (status, s) = Owned r s

prepare_scaler-Owned :
    (r : Resource) (f : Ffmpeg) (s : Source)
    → s.sws_context ≡ false
    → Owned r s
    → OwnedAfter r (prepare_scaler f s)
unfolding prepare_scaler
prepare_scaler-Owned r f s n h = ground arith

allocate_frame-Owned :
    (r : Resource) (b : Bool) (s : Source)
    → s.decoded_frame ≡ false
    → Owned r s
    → Owned r (allocate_frame b s)
allocate_frame-Owned r b s n h = ground arith

allocate_packet-Owned :
    (r : Resource) (b : Bool) (s : Source)
    → s.packet ≡ false
    → Owned r s
    → Owned r (allocate_packet b s)
allocate_packet-Owned r b s n h = ground arith

prepare_frames-Owned :
    (r : Resource) (f : Ffmpeg) (s : Source)
    → s.decoded_frame ≡ false
    → s.packet ≡ false
    → s.sws_context ≡ false
    → Owned r s
    → OwnedAfter r (prepare_frames f s)
unfolding prepare_frames
prepare_frames-Owned r f s a b n h =
    let s' = allocate_packet f.allocates_packet (allocate_frame f.allocates_frame s) in
    let v : Owned r s' =
      allocate_packet-Owned r f.allocates_packet (allocate_frame f.allocates_frame s) (ground arith)
        (allocate_frame-Owned r f.allocates_frame s a h) in
    if_cases (OwnedAfter r) (f.allocates_frame && f.allocates_packet)
      (λ _. prepare_scaler-Owned r f s' (ground arith) v) (λ _. v)

-- The decoder's pointers, but for the one to the input, are null.
abbrev NoDecoder : Source → Type 0
NoDecoder s =
    (s.codec_context ≡ false)
    × (s.decoded_frame ≡ false)
    × (s.packet ≡ false)
    × (s.sws_context ≡ false)

allocated_codec-Owned :
    (r : Resource) (s : Source)
    → s.codec_context ≡ false
    → Owned r s
    → Owned r (record s { codec_context = true; allocated = codec_memory ∷ s.allocated })
allocated_codec-Owned r s n h = ground arith

prepare_codec-Owned :
    (r : Resource) (f : Ffmpeg) (s : Source)
    → NoDecoder s
    → Owned r s
    → OwnedAfter r (prepare_codec f s)
unfolding prepare_codec
prepare_codec-Owned r f s (a, b, c, d) h =
    let s' = record s { codec_context = true; allocated = codec_memory ∷ s.allocated } in
    let v : Owned r s' = allocated_codec-Owned r s a h in
    if_cases (OwnedAfter r) f.allocates_context
      (λ _.
        if_cases (OwnedAfter r) f.takes_parameters
          (λ _.
            if_cases (OwnedAfter r) f.codec_opens (λ _. prepare_frames-Owned r f s' b c d v)
              (λ _. v))
          (λ _. v))
      (λ _. h)

found_stream-Owned :
    (r : Resource) (i : ℤ) (s : Source) → Owned r s → Owned r (record s { video_stream_index = i })
found_stream-Owned r i s h = ground arith

live_source-Owned :
    (r : Resource) (s : Source)
    → Owned r s
    → Owned r (record s { state = live; decoder_thread = true })
live_source-Owned r s h = ground arith

ended_source-Owned : (r : Resource) (s : Source) → Owned r s → Owned r (record s { state = ended })
ended_source-Owned r s h = ground arith

stopped_source-Owned :
    (r : Resource) (s : Source)
    → Owned r s
    → Owned r (record s { stop = true; decoder_thread = false })
stopped_source-Owned r s h = ground arith

prepare_stream-Owned :
    (r : Resource) (f : Ffmpeg) (s : Source)
    → NoDecoder s
    → Owned r s
    → OwnedAfter r (prepare_stream f s)
unfolding prepare_stream
prepare_stream-Owned r f s n h =
    let s' = record s { video_stream_index = f.best_stream } in
    let v : Owned r s' = found_stream-Owned r f.best_stream s h in
    if_cases (OwnedAfter r) (leb_ℤ (pos 0) f.best_stream)
      (λ _. if_cases (OwnedAfter r) f.has_decoder (λ _. prepare_codec-Owned r f s' n v) (λ _. v))
      (λ _. v)

initialize_decoder-Owned :
    (r : Resource) (f : Ffmpeg) → OwnedAfter r (initialize_decoder f new_source)
unfolding initialize_decoder
initialize_decoder-Owned r f =
    let s' = record new_source { format_context = true; allocated = format_memory ∷ [] } in
    let v : Owned r s' = ground arith in
    if_cases (OwnedAfter r) f.input_opens
      (λ _.
        if_cases (OwnedAfter r) f.has_stream_info
          (λ _. prepare_stream-Owned r f s' (refl, refl, refl, refl) v) (λ _. v))
      (λ _. ground arith)

start-Owned : (r : Resource) (f : Ffmpeg) → OwnedAfter r (start f new_source)
unfolding start
start-Owned r f = after (initialize_decoder f new_source) (initialize_decoder-Owned r f)
  where
    after : (x : Status × Source) → OwnedAfter r x → OwnedAfter r (started x)
    after (ok _, s) h = live_source-Owned r s h
    after (err e, s) h = ended_source-Owned r s h

free_packet-Owned : (r : Resource) (s : Source) → Owned r s → Owned r (free_packet s)
free_packet-Owned r s h = ground arith

free_frame-Owned : (r : Resource) (s : Source) → Owned r s → Owned r (free_frame s)
free_frame-Owned r s h = ground arith

free_codec-Owned : (r : Resource) (s : Source) → Owned r s → Owned r (free_codec s)
free_codec-Owned r s h = ground arith

free_format-Owned : (r : Resource) (s : Source) → Owned r s → Owned r (free_format s)
free_format-Owned r s h = ground arith

free_scaler-Owned : (r : Resource) (s : Source) → Owned r s → Owned r (free_scaler s)
free_scaler-Owned r s h = ground arith

cleanup_decoder-Owned : (r : Resource) (s : Source) → Owned r s → Owned r (cleanup_decoder s)
unfolding cleanup_decoder
cleanup_decoder-Owned r s h =
    let a = free_packet-Owned r s h in
    let b = free_frame-Owned r (free_packet s) a in
    let c = free_codec-Owned r (free_frame (free_packet s)) b in
    let d = free_format-Owned r (free_codec (free_frame (free_packet s))) c in
    free_scaler-Owned r (free_format (free_codec (free_frame (free_packet s)))) d

cleanup_decoder_nulls : (r : Resource) (s : Source) → owns r (cleanup_decoder s) ≡ false
unfolding cleanup_decoder
cleanup_decoder_nulls r s = ground arith

destroyed :
    (r : Resource) (s : Source)
    → Owned r s
    → times r (destroy s).freed ≡ times r (destroy s).allocated
unfolding destroy
destroyed r s h =
    let s' = record s { stop = true; decoder_thread = false } in
    ground
      (arith, cleanup_decoder-Owned r s' (stopped_source-Owned r s h), cleanup_decoder_nulls r s')

-- Whatever FFmpeg answers to `Start`, success or an error at any point: once the source is
-- destroyed, each resource was freed exactly as often as it was allocated.
pub start-destroy :
    (f : Ffmpeg) (r : Resource)
    → times r (destroy (start f new_source).1).freed
      ≡ times r (destroy (start f new_source).1).allocated
start-destroy f r = destroyed r (start f new_source).1 (start-Owned r f)
