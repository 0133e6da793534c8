-- ===== src/Audio/History.antt =====
-- The samples of the audio thread reach the stream in order, each once.
use mathlib.Core.Path.{subst}
use mathlib.Core.List.{append_assoc, append-nil}
use pi_scan.Base.{
  ℕ, ◌/◌, ◌%◌, ◌≤◌, ◌≡◌, refl, sym, ap, ◌∙◌, List, [], ◌∷◌, ◌++◌, Option, none, some, ok, take,
  drop, All, take-append-drop, All-append,
}
use pi_scan.Audio.{
  Floats, AudioController, LocalPcmSource, bytes_of, AudioEvent, asks_frame, queues_batch,
  run_audio,
}
use pi_scan.Audio.Frames.{concat, of_batch, pcm_of, IsFull, IsFilled, encode, IsSample}
use pi_scan.Audio.Flow.{waiting, IsLive, frame_samples, do_get_next_frame-Takes}

module _ (A : Floats) where
  open A use {Float, scaled}

  -- The batches that are queued in a history.
  abbrev pub queued : List (AudioEvent A) → List Float
  queued [] = []
  queued (asks_frame now max_size ∷ es) = queued es
  queued (queues_batch b ∷ es) = b ++ queued es

  -- The stream asks for frames with room for a sample, and the audio thread queues batches with samples.
  abbrev pub IsFlow : List (AudioEvent A) → Type 0
  IsFlow [] = Unit
  IsFlow (asks_frame now max_size ∷ es) = (2 ≤ max_size) × IsFlow es
  IsFlow (queues_batch b ∷ es) = IsFull b × All (IsSample A) b × IsFlow es

  concat-append :
      (queue : List (List Float)) (b : List Float) → concat (queue ++ b ∷ []) ≡ concat queue ++ b
  concat-append [] b = append-nil b
  concat-append (x ∷ queue) b =
      ap (◌++◌ x) (concat-append queue b) ∙ sym (append_assoc x (concat queue) b)

  queue_batch :
      (queue : List (List Float)) (b : List Float) (batch : Option (List Float))
      → of_batch batch ++ concat (queue ++ b ∷ []) ≡ (of_batch batch ++ concat queue) ++ b
  queue_batch queue b batch =
      ap (◌++◌ (of_batch batch)) (concat-append queue b)
      ∙ sym (append_assoc (of_batch batch) (concat queue) b)

  queue_batch-IsFilled :
      (batch : Option (List Float)) (queue : List (List Float)) (b : List Float)
      → IsFilled batch queue
      → IsFull b
      → IsFilled batch (queue ++ b ∷ [])
  queue_batch-IsFilled none queue b h full = All-append IsFull queue (b ∷ []) h (full, tt)
  queue_batch-IsFilled (some x) queue b h full =
      (h.0, All-append IsFull queue (b ∷ []) h.1 (full, tt))

  encode-append : (xs ys : List Float) → encode A (xs ++ ys) ≡ encode A xs ++ encode A ys
  encode-append [] ys = refl
  encode-append (x ∷ xs) ys =
      ap (λ bytes. pcm_of (scaled x) % 256 ∷ pcm_of (scaled x) / 256 ∷ bytes) (encode-append xs ys)

  -- What is taken of the samples, and then the rest and what follows, are the samples and what follows.
  joined :
      (k : ℕ) (xs left more : List Float) (out rest behind : List ℕ)
      → out ≡ encode A (take k xs)
      → left ≡ drop k xs
      → rest ++ behind ≡ encode A (left ++ more)
      → (out ++ rest) ++ behind ≡ encode A (xs ++ more)
  joined k xs left more out rest behind h same e =
      append_assoc out rest behind
      ∙ ap (◌++◌ out) e
      ∙ ap (λ bytes. bytes ++ encode A (left ++ more)) h
      ∙ sym (encode-append (take k xs) (left ++ more))
      ∙ ap (λ ys. encode A (take k xs ++ (ys ++ more))) same
      ∙ ap (encode A) (sym (append_assoc (take k xs) (drop k xs) more))
      ∙ ap (λ ys. encode A (ys ++ more)) (take-append-drop k xs)

  queue_batch-IsLive :
      (c : AudioController Float) (s : LocalPcmSource Float) (b : List Float)
      → IsLive A c s
      → IsFull b
      → All (IsSample A) b
      → IsLive A (record c { output_queue = c.output_queue ++ b ∷ [] }) s
        × (waiting A (record c { output_queue = c.output_queue ++ b ∷ [] }) s ≡ waiting A c s ++ b)
  queue_batch-IsLive c s b live full hs =
      let same = queue_batch c.output_queue b s.current_batch in
      (
        record {
          one_channel = live.one_channel;
          sixteen_bits = live.sixteen_bits;
          some_size = live.some_size;
          runs = live.runs;
          filled = queue_batch-IsFilled s.current_batch c.output_queue b live.filled full;
          samples =
              subst (All (IsSample A)) (sym same)
                (All-append (IsSample A) (waiting A c s) b live.samples hs);
        },
        same,
      )

  -- Over every history from a live source the frames and the samples that wait behind them are the
  -- samples that waited before and those of the batches that were queued, in order.
  pub run_audio-flows :
      (es : List (AudioEvent A)) (c : AudioController Float) (s : LocalPcmSource Float)
      → IsLive A c s
      → IsFlow es
      → (bytes : List ℕ) × (s' : LocalPcmSource Float) × (c' : AudioController Float) × (run_audio A
            es c s
          ≡ ok (bytes, s', c'))
        × (bytes ++ encode A (waiting A c' s') ≡ encode A (waiting A c s ++ queued es))
        × IsLive A c' s'
  unfolding run_audio
  run_audio-flows [] c s live flow =
      ([], s, c, refl, ap (encode A) (sym (append-nil (waiting A c s))), live)
  run_audio-flows (asks_frame now max_size ∷ es) c s live flow =
      let (frame, s', c', ran, taken, left, open_, closed, live') =
        do_get_next_frame-Takes A now max_size c s live flow.0 in
      let (bytes, s'', c'', goes, same, live'') = run_audio-flows es c' s' live' flow.1 in
      (
        bytes_of A frame ++ bytes,
        s'',
        c'',
        rw (ran, goes) refl,
        joined (frame_samples A max_size s) (waiting A c s) (waiting A c' s') (queued es)
            (bytes_of A frame) bytes (encode A (waiting A c'' s'')) taken left same,
        live'',
      )
  run_audio-flows (queues_batch b ∷ es) c s live flow =
      let (live', same) = queue_batch-IsLive c s b live flow.0 flow.1 in
      let (bytes, s', c', ran, flows, live'') =
        run_audio-flows es (record c { output_queue = c.output_queue ++ b ∷ [] }) s live' flow.2 in
      (
        bytes,
        s',
        c',
        ran,
        flows
            ∙ ap (λ xs. encode A (xs ++ queued es)) same
            ∙ ap (encode A) (append_assoc (waiting A c s) b (queued es)),
        live'',
      )
