-- ===== src/Audio/Edges.antt =====
-- The times of the frames, and the frame that a buffer without room for a sample comes to.
use Prim.Native.Nat.{◌^◌}
use native.Mathlib.Nat.{mod-eq_of_lt}
use pi_scan.Base.{
  ℕ, ◌+◌, ◌-◌, ◌*◌, ◌/◌, ◌%◌, ◌<◌, ◌≡◌, refl, false, ◌&&◌, List, [], ◌∷◌, Option, none, some, ok,
  undefined, if◌then◌else◌, ltb, ◌==◌, arith, Post, Bool-cases, if-Post, if-elim, ℤ, pos, negsuc,
  ◌⊎◌, inl, inr, bind_any-Post,
}
use pi_scan.Audio.{
  Floats, AudioController, LocalPcmSource, AudioFrame, Reading, read_samples, read_batch,
  put_sample, do_get_next_frame, finish_frame, next_time, to_short,
}

abbrev pub micros : ℕ × ℕ → ℕ
micros (seconds, us) = seconds * 1_000_000 + us

-- A time with microseconds below a second, and a play time with which they stay within 32 bits.
next_time-adds :
    (now : ℕ × ℕ) (play_time : ℕ) (t : ℕ × ℕ)
    → 0 < micros t
    → t.1 < 1_000_000
    → play_time < 0xfff0_0000
    → (micros (next_time now play_time t) ≡ micros t + play_time)
      × ((next_time now play_time t).1 < 1_000_000)
unfolding next_time
next_time-adds now play_time (seconds, us) later small short =
    let fits : (us + play_time) % 2 ^ 32 ≡ us + play_time = mod-eq_of_lt (omega arith) in
    let goes_on : ((seconds == 0) && (us == 0)) ≡ false = ground arith in
    rw (goes_on, fits) (omega arith, omega arith)

module _ (A : Floats) where
  open A use {Float}

  -- What holds of a frame that follows another: it begins where that one ended, and the source keeps
  -- its time and its duration.
  abbrev pub FollowsIn :
      LocalPcmSource Float
      → Option AudioFrame × LocalPcmSource Float × AudioController Float
      → Type 0
  FollowsIn s (none, s', c') =
      (s'.presentation_time ≡ s.presentation_time) × (s'.last_play_time ≡ s.last_play_time)
  FollowsIn s (some f, s', c') =
      (micros f.presentation_time ≡ micros s.presentation_time + s.last_play_time)
      × (f.presentation_time.1 < 1_000_000)
      × (s'.presentation_time ≡ f.presentation_time)
      × (s'.last_play_time ≡ f.duration)

  finish_frame_follows :
      (now : ℕ × ℕ) (c : AudioController Float) (s : LocalPcmSource Float) (r : Reading Float)
      (width : ℕ)
      → micros (next_time now s.last_play_time s.presentation_time)
        ≡ micros s.presentation_time + s.last_play_time
      → (next_time now s.last_play_time s.presentation_time).1 < 1_000_000
      → FollowsIn s
          (finish_frame A (next_time now s.last_play_time s.presentation_time) width c s r)
  finish_frame_follows now c s r width adds below = elim (Bool-cases (r.samples == 0)) [
    | inl e ↦ rw e (refl, refl)
    | inr e ↦ rw e (adds, below, refl, refl)
  ]

  -- Behind a first frame, whose time has less than 1,000,000 microseconds and is not zero: where the
  -- play time of the last frame is below 2^32 - 2^20 microseconds, the next frame begins when the
  -- last one has been played.
  pub do_get_next_frame_follows :
      (now : ℕ × ℕ) (max_size : ℕ) (c : AudioController Float) (s : LocalPcmSource Float)
      → 0 < micros s.presentation_time
      → s.presentation_time.1 < 1_000_000
      → s.last_play_time < 0xfff0_0000
      → Post (FollowsIn s) (do_get_next_frame A now max_size c s)
  unfolding do_get_next_frame
  do_get_next_frame_follows now max_size c s later small short =
      let (adds, below) =
        next_time-adds now s.last_play_time s.presentation_time later small short in
      let size = if ltb s.preferred_frame_size max_size then s.preferred_frame_size else max_size in
      let width = s.num_channels * s.bits_per_sample / 8 in
      let bytes = if width == 0 then 1 else width in
      let time = next_time now s.last_play_time s.presentation_time in
      if-Post (FollowsIn s) c.terminated _ _ (λ _. (refl, refl))
        (λ _.
          bind_any-Post (FollowsIn s)
            (read_samples A max_size bytes (size / bytes) s.current_batch c.output_queue)
            (λ r. ok (finish_frame A time bytes c s r))
            (λ r. finish_frame_follows now c s r bytes adds below))

  to_short-cases : (z : ℤ) → (to_short z ≡ undefined) ⊎ ((w : ℕ) × (to_short z ≡ ok w))
  to_short-cases (pos n) =
      if-elim (λ o. (o ≡ undefined) ⊎ ((w : ℕ) × (o ≡ ok w))) (ltb n 0x8000) _ _
        (λ _. inr (n, refl)) (λ _. inl refl)
  to_short-cases (negsuc n) =
      if-elim (λ o. (o ≡ undefined) ⊎ ((w : ℕ) × (o ≡ ok w))) (ltb n 0x8000) _ _
        (λ _. inr (0xffff - n, refl)) (λ _. inl refl)

  sample_overflows :
      (capacity want : ℕ) (x : Float) → capacity < 2 → put_sample A capacity 2 want [] x ≡ undefined
  unfolding put_sample
  sample_overflows capacity want x small = elim (to_short-cases (A.scaled x)) [
    | inl e ↦ rw e refl
    | inr (w, e) ↦ rw e (ground (arith, small))
  ]

  -- Where a sample waits and the buffer has no room for one, the loop does not stop before it writes
  -- behind the end of the buffer.
  pub do_get_next_frame_overflows :
      (now : ℕ × ℕ) (max_size : ℕ) (c : AudioController Float) (s : LocalPcmSource Float)
      (x : Float) (xs : List Float)
      → max_size < 2
      → s.num_channels ≡ 1
      → s.bits_per_sample ≡ 16
      → c.terminated ≡ false
      → s.current_batch ≡ some (x ∷ xs)
      → do_get_next_frame A now max_size c s ≡ undefined
  unfolding do_get_next_frame read_samples read_batch put_sample
  do_get_next_frame_overflows now max_size c s x xs none_fits one sixteen runs batch =
      rw (runs, one, sixteen, batch, sample_overflows max_size _ x none_fits) refl
