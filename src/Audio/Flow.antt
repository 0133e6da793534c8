-- ===== src/Audio/Flow.antt =====
-- What a frame takes of the samples that wait.
use pi_scan.Base.{
  ℕ, zero, suc, ◌/◌, ◌≤◌, ◌<◌, ◌≡◌, refl, sym, ap, ◌∙◌, false, List, [], ◌∷◌, ◌++◌, Option, none,
  some, ok, if◌then◌else◌, ltb, length, take, drop, All, arith,
}
use mathlib.Core.Path.{subst}
use pi_scan.Audio.{
  Floats, AudioController, LocalPcmSource, AudioFrame, Reading, read_samples, do_get_next_frame,
  finish_frame, next_time, bytes_of,
}
use pi_scan.Audio.Frames.{
  concat, of_batch, IsFilled, encode, IsSample, HasTaken, read_samples-HasTaken,
}

module _ (A : Floats) where
  open A use {Float, scaled, play_time}

  -- The samples that wait, in order.
  abbrev pub waiting : AudioController Float → LocalPcmSource Float → List Float
  waiting c s = of_batch s.current_batch ++ concat c.output_queue

  -- A source as it is made, with batches that hold samples and samples within [-1.0, 1.0].
  pub record IsLive (c : AudioController Float) (s : LocalPcmSource Float) : Type 0 where
    pub one_channel : s.num_channels ≡ 1
    pub sixteen_bits : s.bits_per_sample ≡ 16
    pub some_size : 2 ≤ s.preferred_frame_size
    pub runs : c.terminated ≡ false
    pub filled : IsFilled s.current_batch c.output_queue
    pub samples : All (IsSample A) (waiting c s)

  -- The samples of a frame.
  abbrev pub frame_samples : ℕ → LocalPcmSource Float → ℕ
  frame_samples max_size s =
      (if ltb s.preferred_frame_size max_size then s.preferred_frame_size else max_size) / 2

  All-drop {ℓ κ} :
      {T : Type ℓ} (P : T → Type κ) (n : ℕ) (xs : List T) → All P xs → All P (drop n xs)
  All-drop P zero xs h = h
  All-drop P (suc n) [] h = tt
  All-drop P (suc n) (x ∷ xs) h = All-drop P n xs h.1

  abbrev left_over : LocalPcmSource Float → Reading Float → LocalPcmSource Float
  left_over s r = record s { current_batch = r.batch }

  abbrev framed : ℕ × ℕ → LocalPcmSource Float → Reading Float → AudioFrame
  framed now s r = record {
    bytes = r.bytes;
    presentation_time = next_time now s.last_play_time s.presentation_time;
    duration = play_time s.sampling_frequency (length r.bytes) 2;
  }

  abbrev played : ℕ × ℕ → LocalPcmSource Float → Reading Float → LocalPcmSource Float
  played now s r = record (left_over s r) {
    last_play_time = (framed now s r).duration;
    presentation_time = (framed now s r).presentation_time;
  }

  frame_read :
      (now : ℕ × ℕ) (max_size : ℕ) (c : AudioController Float) (s : LocalPcmSource Float)
      (r : Reading Float)
      → IsLive c s
      → read_samples A max_size 2 (frame_samples max_size s) s.current_batch c.output_queue ≡ ok r
      → do_get_next_frame A now max_size c s
        ≡ ok (finish_frame A (next_time now s.last_play_time s.presentation_time) 2 c s r)
  unfolding do_get_next_frame
  frame_read now max_size c s r live ran =
      rw (live.runs, live.one_channel, live.sixteen_bits, ran) refl

  take-nil : (k : ℕ) → take {A = Float} k [] ≡ []
  take-nil zero = refl
  take-nil (suc k) = refl

  take-none : (k : ℕ) (xs : List Float) → 0 < k → length (take k xs) ≡ 0 → xs ≡ []
  take-none zero xs some_room h = absurd (omega arith)
  take-none (suc k) [] some_room h = refl
  take-none (suc k) (x ∷ xs) some_room h = absurd (omega arith)

  -- What a frame takes: in order, as many samples as fit and no more than the source prefers.
  abbrev pub Takes : ℕ × ℕ → ℕ → AudioController Float → LocalPcmSource Float → Type 0
  Takes now max_size c s =
      (frame : Option AudioFrame) × (s' : LocalPcmSource Float) × (c' : AudioController Float)
      × (do_get_next_frame A now max_size c s ≡ ok (frame, s', c'))
      × (bytes_of A frame ≡ encode A (take (frame_samples max_size s) (waiting c s)))
      × (waiting c' s' ≡ drop (frame_samples max_size s) (waiting c s))
      × (frame ≡ none → waiting c s ≡ [])
      × (waiting c s ≡ [] → frame ≡ none)
      × IsLive c' s'

  module _ (now : ℕ × ℕ) (max_size : ℕ) (c : AudioController Float) (s : LocalPcmSource Float)
      (live : IsLive c s) (r : Reading Float)
      (ran : read_samples A max_size 2 (frame_samples max_size s) s.current_batch c.output_queue
        ≡ ok r)
      (took : HasTaken A (frame_samples max_size s) 0 [] (waiting c s) r) where
    left-IsLive : IsLive (record c { output_queue = r.queue }) (left_over s r)
    left-IsLive = record {
      one_channel = live.one_channel;
      sixteen_bits = live.sixteen_bits;
      some_size = live.some_size;
      runs = live.runs;
      filled = took.filled;
      samples =
          subst (All (IsSample A)) (sym took.rest)
            (All-drop (IsSample A) (frame_samples max_size s) (waiting c s) live.samples);
    }

    reading-Takes : (n : ℕ) → 0 < frame_samples max_size s → r.samples ≡ n → Takes now max_size c s
    reading-Takes zero some_room counted =
        let k = frame_samples max_size s in
        let empty : waiting c s ≡ [] =
          take-none k (waiting c s) some_room (omega (arith, took.counted, counted)) in
        (
          none,
          left_over s r,
          record c { output_queue = r.queue },
          frame_read now max_size c s r live ran ∙ rw counted refl,
          ap (encode A) (sym (ap (take k) empty ∙ take-nil k)),
          took.rest,
          λ _. empty,
          λ _. refl,
          left-IsLive,
        )
    reading-Takes (suc n) some_room counted =
        let k = frame_samples max_size s in
        (
          some (framed now s r),
          played now s r,
          record c { output_queue = r.queue },
          frame_read now max_size c s r live ran ∙ rw counted (ground arith),
          took.written,
          took.rest,
          λ e. cc,
          λ empty.
              let none_taken : length (take k (waiting c s)) ≡ 0 =
                ap length (ap (take k) empty ∙ take-nil k) in
              absurd (omega (arith, took.counted, counted, none_taken)),
          record {
            one_channel = live.one_channel;
            sixteen_bits = live.sixteen_bits;
            some_size = live.some_size;
            runs = live.runs;
            filled = took.filled;
            samples = left-IsLive.samples;
          },
        )

  -- A frame of a live source that is asked for with room for a sample holds the samples that wait, in
  -- order, as many as fit and no more than the source prefers; the rest waits. Where none waits the
  -- stream is closed.
  pub do_get_next_frame-Takes :
      (now : ℕ × ℕ) (max_size : ℕ) (c : AudioController Float) (s : LocalPcmSource Float)
      → IsLive c s
      → 2 ≤ max_size
      → Takes now max_size c s
  do_get_next_frame-Takes now max_size c s live room =
      let k = frame_samples max_size s in
      let some_room : 0 < k = ground (arith, room, live.some_size) in
      let (r, ran, took) =
        read_samples-HasTaken A max_size k (ground (arith, room)) s.current_batch c.output_queue
          some_room live.filled live.samples in
      reading-Takes now max_size c s live r ran took r.samples some_room refl
