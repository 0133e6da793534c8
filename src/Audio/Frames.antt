-- ===== src/Audio/Frames.antt =====
-- What a frame takes of the samples that wait: the source as a flat queue of samples.
use pi_scan.Base.{
  ℕ, zero, suc, ◌+◌, ◌-◌, ◌/◌, ◌%◌, ◌≤◌, ◌<◌, ◌≡◌, refl, sym, ◌∙◌, ℤ, pos, negsuc, List, [], ◌∷◌,
  ◌++◌, Option, none, some, ok, Outcome, if◌then◌else◌, length, take, drop, All, arith,
  length-append, All-prefix,
}
use mathlib.Core.Path.{subst}
use mathlib.Core.List.{append_assoc, append-nil}
use pi_scan.Audio.{
  Floats, Reading, to_short, is_empty, batch_left, put_sample, read_batch, read_queue, read_samples,
}

abbrev pub concat {ℓ} : {A : Type ℓ} → List (List A) → List A
concat [] = []
concat (xs ∷ xss) = xs ++ concat xss

abbrev pub of_batch {ℓ} : {A : Type ℓ} → Option (List A) → List A
of_batch none = []
of_batch (some xs) = xs

-- A batch has samples.
abbrev pub IsFull {ℓ} : {A : Type ℓ} → List A → Type 0
IsFull xs = 0 < length xs

abbrev pub IsFilled {ℓ} : {A : Type ℓ} → Option (List A) → List (List A) → Type 0
IsFilled none queue = All IsFull queue
IsFilled (some b) queue = IsFull b × All IsFull queue

-- The two bytes of a sample, lower byte first.
abbrev pub pcm_of : ℤ → ℕ
pcm_of (pos n) = n
pcm_of (negsuc n) = 0xffff - n

abbrev pub FitsShort : ℤ → Type 0
FitsShort (pos n) = n < 0x8000
FitsShort (negsuc n) = n < 0x8000

module _ (A : Floats) where
  open A use {Float, scaled}

  abbrev pub encode : List Float → List ℕ
  encode [] = []
  encode (x ∷ xs) = pcm_of (scaled x) % 256 ∷ pcm_of (scaled x) / 256 ∷ encode xs

  -- The value of the sample is within [-1.0, 1.0].
  abbrev pub IsSample : Float → Type 0
  IsSample x = FitsShort (scaled x)

  to_short-pcm_of : (z : ℤ) → FitsShort z → to_short z ≡ ok (pcm_of z)
  to_short-pcm_of (pos n) h = ground arith
  to_short-pcm_of (negsuc n) h = ground arith

  module _ (capacity want : ℕ) (fits : want + want ≤ capacity) where
    put_sample-some :
        (bytes : List ℕ) (x : Float)
        → length bytes + 2 ≤ capacity
        → IsSample x
        → put_sample A capacity 2 want bytes x ≡ ok (bytes ++ encode (x ∷ []))
    unfolding put_sample
    put_sample-some bytes x room h = rw (to_short-pcm_of (scaled x) h) (ground arith)

  -- What a reading has taken of the samples that wait, behind some bytes of `n` samples.
  pub record HasTaken (left n : ℕ) (bytes : List ℕ) (waiting : List Float) (r : Reading Float)
      : Type 0 where
    pub written : r.bytes ≡ bytes ++ encode (take left waiting)
    pub counted : r.samples ≡ n + length (take left waiting)
    pub rest : of_batch r.batch ++ concat r.queue ≡ drop left waiting
    pub filled : IsFilled r.batch r.queue

  took_more :
      (left n : ℕ) (bytes : List ℕ) (x : Float) (waiting : List Float) (r : Reading Float)
      → HasTaken left (n + 1) (bytes ++ encode (x ∷ [])) waiting r
      → HasTaken (suc left) n bytes (x ∷ waiting) r
  took_more left n bytes x waiting r t = record {
    written = t.written ∙ append_assoc bytes (encode (x ∷ [])) (encode (take left waiting));
    counted = omega (arith, t.counted);
    rest = t.rest;
    filled = t.filled;
  }

  module _ (capacity want : ℕ) (fits : want + want ≤ capacity) where
    abbrev pub Reads : (ℕ → List ℕ → Outcome (Reading Float)) → List Float → Type 0
    Reads read waiting =
        (left n : ℕ) (bytes : List ℕ)
        → n + suc left ≡ want
        → length bytes ≡ n + n
        → (r : Reading Float) × (read n bytes ≡ ok r) × HasTaken (suc left) n bytes waiting r

    wrote :
        (n : ℕ) (bytes : List ℕ) (x : Float)
        → suc n ≤ want
        → length bytes ≡ n + n
        → IsSample x
        → put_sample A capacity 2 want bytes x ≡ ok (bytes ++ encode (x ∷ []))
    wrote n bytes x inside even h =
        put_sample-some capacity want fits bytes x (omega (arith, fits)) h

    last_sample :
        (next : ℕ → List ℕ → Outcome (Reading Float)) (queue : List (List Float)) (x : Float)
        (xs : List Float) (n : ℕ) (bytes : List ℕ)
        → n + 1 ≡ want
        → length bytes ≡ n + n
        → IsSample x
        → read_batch A capacity 2 want next queue (x ∷ xs) n bytes
          ≡ ok record {
            bytes = bytes ++ encode (x ∷ []);
            samples = n + 1;
            batch = batch_left xs;
            queue = queue;
          }
    unfolding read_batch
    last_sample next queue x xs n bytes last even h =
        rw (wrote n bytes x (omega arith) even h) (ground (arith, last))

    next_sample :
        (next : ℕ → List ℕ → Outcome (Reading Float)) (queue : List (List Float)) (x : Float)
        (xs : List Float) (n : ℕ) (bytes : List ℕ)
        → n + 1 < want
        → length bytes ≡ n + n
        → IsSample x
        → read_batch A capacity 2 want next queue (x ∷ xs) n bytes ≡ (
            if is_empty xs
            then next (n + 1) (bytes ++ encode (x ∷ []))
            else read_batch A capacity 2 want next queue xs (n + 1) (bytes ++ encode (x ∷ [])))
    unfolding read_batch
    next_sample next queue x xs n bytes more even h =
        rw (wrote n bytes x (omega arith) even h) (ground (arith, more))

    left-IsFilled :
        (xs : List Float) (queue : List (List Float))
        → All IsFull queue
        → (of_batch (batch_left xs) ++ concat queue ≡ xs ++ concat queue)
          × IsFilled (batch_left xs) queue
    left-IsFilled [] queue full = (refl, full)
    left-IsFilled (x ∷ xs) queue full = (refl, (omega arith, full))

    still_even :
        (n : ℕ) (bytes : List ℕ) (x : Float)
        → length bytes ≡ n + n
        → length (bytes ++ encode (x ∷ [])) ≡ (n + 1) + (n + 1)
    still_even n bytes x even = omega (arith, length-append bytes (encode (x ∷ [])))

    read_batch-Reads :
        (next : ℕ → List ℕ → Outcome (Reading Float)) (queue : List (List Float)) (x : Float)
        (xs : List Float)
        → Reads next (concat queue)
        → All IsFull queue
        → IsSample x
        → All IsSample xs
        → Reads (read_batch A capacity 2 want next queue (x ∷ xs)) ((x ∷ xs) ++ concat queue)
    read_batch-Reads next queue x xs goes full h hs zero n bytes last even =
        let (rest, filled) = left-IsFilled xs queue full in
        (
          record {
            bytes = bytes ++ encode (x ∷ []);
            samples = n + 1;
            batch = batch_left xs;
            queue = queue;
          },
          last_sample next queue x xs n bytes last even h,
          record { written = refl; counted = refl; rest = rest; filled = filled },
        )
    read_batch-Reads next queue x [] goes full h hs (suc left) n bytes more even =
        let (r, ran, took) =
          goes left (n + 1) (bytes ++ encode (x ∷ [])) (omega arith) (still_even n bytes x even) in
        (
          r,
          next_sample next queue x [] n bytes (omega arith) even h ∙ ran,
          took_more (suc left) n bytes x (concat queue) r took,
        )
    read_batch-Reads next queue x (y ∷ ys) goes full h hs (suc left) n bytes more even =
        let (r, ran, took) =
          read_batch-Reads next queue y ys goes full hs.0 hs.1 left (n + 1)
            (bytes ++ encode (x ∷ [])) (omega arith) (still_even n bytes x even) in
        (
          r,
          next_sample next queue x (y ∷ ys) n bytes (omega arith) even h ∙ ran,
          took_more (suc left) n bytes x ((y ∷ ys) ++ concat queue) r took,
        )

    pub read_queue-Reads :
        (queue : List (List Float))
        → All IsFull queue
        → All IsSample (concat queue)
        → Reads (read_queue A capacity 2 want queue) (concat queue)
    unfolding read_queue
    read_queue-Reads [] full hs left n bytes more even = (
      record { bytes = bytes; samples = n; batch = none; queue = [] },
      refl,
      record { written = sym (append-nil bytes); counted = omega arith; rest = refl; filled = tt },
    )
    read_queue-Reads ([] ∷ queue) full hs left n bytes more even = absurd (omega (arith, full.0))
    read_queue-Reads ((x ∷ xs) ∷ queue) full hs left n bytes more even =
        let (front, back) = All-prefix IsSample xs (concat queue) hs.1 in
        read_batch-Reads (read_queue A capacity 2 want queue) queue x xs
          (read_queue-Reads queue full.1 back) full.1 hs.0 front left n bytes more even

    pub read_samples-HasTaken :
        (batch : Option (List Float)) (queue : List (List Float))
        → 0 < want
        → IsFilled batch queue
        → All IsSample (of_batch batch ++ concat queue)
        → (r : Reading Float) × (read_samples A capacity 2 want batch queue ≡ ok r)
          × HasTaken want 0 [] (of_batch batch ++ concat queue) r
    unfolding read_samples
    read_samples-HasTaken none queue some_room full hs =
        let (r, ran, took) = read_queue-Reads queue full hs (want - 1) 0 [] (omega arith) refl in
        (r, ran, subst (λ n. HasTaken n 0 [] (concat queue) r) (omega arith) took)
    read_samples-HasTaken (some []) queue some_room filled hs = absurd (omega (arith, filled.0))
    read_samples-HasTaken (some (x ∷ xs)) queue some_room filled hs =
        let (front, back) = All-prefix IsSample xs (concat queue) hs.1 in
        let (r, ran, took) =
          read_batch-Reads (read_queue A capacity 2 want queue) queue x xs
            (read_queue-Reads queue filled.1 back) filled.1 hs.0 front (want - 1) 0 [] (omega arith)
            refl in
        (r, ran, subst (λ n. HasTaken n 0 [] (x ∷ xs ++ concat queue) r) (omega arith) took)
