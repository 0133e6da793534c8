-- ===== src/Audio.antt =====
-- server/audio_server/LocalPCMSource.h and .cpp: the source of the audio stream, which cuts the batches
-- of samples that the audio thread queues into frames. The arithmetic of floats is a parameter.
pub mod Frames
pub mod Flow
pub mod History
pub mod Edges
pub mod Streaming
pub mod Encoding
use Prim.Native.Nat.{◌^◌}
use pi_scan.Base.{
  ℕ, zero, suc, ◌+◌, ◌-◌, ◌*◌, ◌/◌, ◌%◌, ℤ, pos, negsuc, Bool, true, false, ◌&&◌, List, [], ◌∷◌,
  ◌++◌, Option, none, some, ok, undefined, Outcome, ◌>>=◌, if◌then◌else◌, ltb, leb, ◌==◌, length,
  take,
}

pub record Floats : Type 1 where
  pub Float : Type 0
  -- `std::floor(sample * 32767)`.
  pub scaled : Float → ℤ
  -- `(unsigned)(0.02 * rate)`, and `(unsigned)((1e6 / rate * size) / bytes_per_sample)`.
  pub short_frame : ℕ → ℕ
  pub play_time : ℕ → ℕ → ℕ → ℕ

-- What the source uses of the audio thread.
pub record AudioController (F : Type 0) : Type 0 where
  pub sample_rate : ℕ
  pub output_queue : List (List F)
  pub terminated : Bool

-- `current_batch` is what is left of the batch from the iterator on; the time is in seconds and
-- microseconds.
pub record LocalPcmSource (F : Type 0) : Type 0 where
  pub num_channels : ℕ
  pub bits_per_sample : ℕ
  pub sampling_frequency : ℕ
  pub preferred_frame_size : ℕ
  pub last_play_time : ℕ
  pub current_batch : Option (List F)
  pub presentation_time : ℕ × ℕ

pub record AudioFrame : Type 0 where
  pub bytes : List ℕ
  pub presentation_time : ℕ × ℕ
  pub duration : ℕ

-- What the loop over the samples comes to.
pub record Reading (F : Type 0) : Type 0 where
  pub bytes : List ℕ
  pub samples : ℕ
  pub batch : Option (List F)
  pub queue : List (List F)

-- The cast of a whole float to `short`, as 16 bits: undefined where it does not fit.
abbrev pub to_short : ℤ → Outcome ℕ
to_short (pos n) = if ltb n 0x8000 then ok n else undefined
to_short (negsuc n) = if ltb n 0x8000 then ok (0xffff - n) else undefined

-- The first bytes of a `short`, lower byte first, as `memcpy` takes them.
abbrev pub copy_short : ℕ → ℕ → Outcome (List ℕ)
copy_short size pcm = if ltb 2 size then undefined else ok (take size (pcm % 256 ∷ pcm / 256 ∷ []))

-- A write behind the end of the buffer is undefined.
abbrev pub write_bytes : ℕ → List ℕ → List ℕ → Outcome (List ℕ)
write_bytes capacity bytes new =
    if ltb capacity (length bytes + length new) then undefined else ok (bytes ++ new)

abbrev pub is_empty {ℓ} : {A : Type ℓ} → List A → Bool
is_empty [] = true
is_empty _ = false

-- `_currentBatch`, which is dropped at its end.
abbrev pub batch_left {ℓ} : {A : Type ℓ} → List A → Option (List A)
batch_left [] = none
batch_left (x ∷ xs) = some (x ∷ xs)

-- The time of a frame: `now` for the first, else the play time of the frame before is added.
unfoldable pub next_time : ℕ × ℕ → ℕ → ℕ × ℕ → ℕ × ℕ
next_time now last_play_time (seconds, micros) =
    let u = (micros + last_play_time) % 2 ^ 32 in
    if (seconds == 0) && (micros == 0) then now else (seconds + u / 1_000_000, u % 1_000_000)

module _ (A : Floats) where
  open A use {Float, scaled, short_frame, play_time}

  -- The constructor.
  unfoldable pub new_source : AudioController Float → LocalPcmSource Float
  new_source c =
      let max_samples = 1400 * 8 / (1 * 16) in
      let desired = short_frame c.sample_rate in
      let samples = if ltb desired max_samples then desired else max_samples in
      record {
        num_channels = 1;
        bits_per_sample = 16;
        sampling_frequency = c.sample_rate;
        preferred_frame_size = samples * 1 * 16 / 8;
        last_play_time = 0;
        current_batch = none;
        presentation_time = (0, 0);
      }

  -- `createNew`, given the audio thread, if there is one.
  unfoldable pub create_source : Option (AudioController Float) → Option (LocalPcmSource Float)
  unfolding new_source
  create_source none = none
  create_source (some c) = let s = new_source c in if s.bits_per_sample == 0 then none else some s

  module _ (capacity bytes_per_sample samples_to_read : ℕ) where
    unfoldable pub put_sample : List ℕ → Float → Outcome (List ℕ)
    put_sample bytes x = do
      pcm ← to_short (scaled x)
      new ← copy_short bytes_per_sample pcm
      write_bytes capacity bytes new

    -- The loop within a batch; `next` goes on with the batch behind it. An empty batch has no sample
    -- to read.
    unfoldable pub read_batch :
        (ℕ → List ℕ → Outcome (Reading Float))
        → List (List Float)
        → List Float
        → ℕ
        → List ℕ
        → Outcome (Reading Float)
    unfolding put_sample
    read_batch next queue [] samples bytes = undefined
    read_batch next queue (x ∷ xs) samples bytes = do
      bytes' ← put_sample bytes x
      let more = read_batch next queue xs (samples + 1) bytes'
      let on = if is_empty xs then next (samples + 1) bytes' else more
      let read : Reading Float = record {
        bytes = bytes';
        samples = samples + 1;
        batch = batch_left xs;
        queue = queue;
      }
      if samples + 1 == samples_to_read then ok read else on

    unfoldable pub read_queue : List (List Float) → ℕ → List ℕ → Outcome (Reading Float)
    unfolding read_batch
    read_queue [] samples bytes =
        ok record { bytes = bytes; samples = samples; batch = none; queue = [] }
    read_queue (b ∷ queue) samples bytes = read_batch (read_queue queue) queue b samples bytes

    unfoldable pub read_samples : Option (List Float) → List (List Float) → Outcome (Reading Float)
    unfolding read_queue
    read_samples none queue = read_queue queue 0 []
    read_samples (some b) queue = read_batch (read_queue queue) queue b 0 []

  -- What is done with the samples that were read, given the time of the frame.
  abbrev pub finish_frame :
      ℕ × ℕ
      → ℕ
      → AudioController Float
      → LocalPcmSource Float
      → Reading Float
      → Option AudioFrame × LocalPcmSource Float × AudioController Float
  finish_frame time bytes_per_sample c s r =
      let s' = record s { current_batch = r.batch } in
      let c' = record c { output_queue = r.queue } in
      let play = play_time s.sampling_frequency (length r.bytes) bytes_per_sample in
      let frame : AudioFrame = record {
        bytes = r.bytes;
        presentation_time = time;
        duration = play;
      } in
      if r.samples == 0
      then (none, s', c')
      else (some frame, record s' { last_play_time = play; presentation_time = time }, c')

  -- `doGetNextFrame`, with the time of day and the size of the buffer; `none` is the closure.
  unfoldable pub do_get_next_frame :
      ℕ × ℕ
      → ℕ
      → AudioController Float
      → LocalPcmSource Float
      → Outcome (Option AudioFrame × LocalPcmSource Float × AudioController Float)
  unfolding read_samples next_time
  do_get_next_frame now max_size c s =
      let size = if ltb s.preferred_frame_size max_size then s.preferred_frame_size else max_size in
      let width = s.num_channels * s.bits_per_sample / 8 in
      let bytes_per_sample = if width == 0 then 1 else width in
      let time = next_time now s.last_play_time s.presentation_time in
      let read = (do
        r ←
            read_samples max_size bytes_per_sample (size / bytes_per_sample) s.current_batch
              c.output_queue
        ok (finish_frame time bytes_per_sample c s r)) in
      if c.terminated then ok (none, s, c) else read

  -- What happens to a source: the stream asks for a frame, or the audio thread queues a batch.
  pub data AudioEvent : Type 0 where
    asks_frame : ℕ × ℕ → ℕ → AudioEvent
    queues_batch : List Float → AudioEvent

  abbrev pub bytes_of : Option AudioFrame → List ℕ
  bytes_of none = []
  bytes_of (some f) = f.bytes

  -- A history, with the bytes that were delivered.
  unfoldable pub run_audio :
      List AudioEvent
      → AudioController Float
      → LocalPcmSource Float
      → Outcome (List ℕ × LocalPcmSource Float × AudioController Float)
  unfolding do_get_next_frame
  run_audio [] c s = ok ([], s, c)
  run_audio (queues_batch b ∷ es) c s =
      run_audio es (record c { output_queue = c.output_queue ++ b ∷ [] }) s
  run_audio (asks_frame now max_size ∷ es) c s = do
    (frame, s', c') ← do_get_next_frame now max_size c s
    (bytes, s'', c'') ← run_audio es c' s'
    ok (bytes_of frame ++ bytes, s'', c'')
