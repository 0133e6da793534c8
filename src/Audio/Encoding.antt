-- ===== src/Audio/Encoding.antt =====
-- The sink of a stream announces what its source delivers, and the server ends as it was started.
use Prim.Native.Nat.{◌^◌}
use pi_scan.Base.{
  ℕ, ◌+◌, ◌*◌, ◌/◌, ◌%◌, ◌<◌, ◌≡◌, refl, ap, String, Bool, true, false, some, ok, undefined,
  if◌then◌else◌, arith, Bool-cases, inl, inr,
}
use pi_scan.Audio.{Floats, AudioController, create_source, new_source}
use pi_scan.Audio.Streaming.{
  Filter, u_law, swap16, swap24, plain, Subsession, create_stream_source, create_rtp_sink,
  new_audio_server, start_audio, stop_audio, new_subsession,
}

-- The name of an encoding, as the sink announces it.
abbrev pub mime_of : Filter → String
mime_of u_law = "PCMU"
mime_of swap16 = "L16"
mime_of swap24 = "L24"
mime_of plain = "L8"

-- The bits of an encoded sample.
abbrev pub bits_of : Filter → ℕ
bits_of u_law = 8
bits_of swap16 = 16
bits_of swap24 = 24
bits_of plain = 8

module _ (A : Floats) where
  open A use {Float}

  -- Where there is an audio thread, whose rate is below 2^27, a session makes a source of one channel
  -- at that rate, and the sink that is made behind it announces the encoding of the source's filter, the
  -- rate and the channel; the estimate is the bits of its samples per second, in rounded kilobits.
  pub create_rtp_sink_agrees :
      (c : AudioController Float) (s : Subsession) (dynamic : ℕ)
      → c.sample_rate < 0x800_0000
      → (filter : Filter) × (s' : Subsession) × (create_stream_source A (some c) s
          ≡ (some (filter, (c.sample_rate * bits_of filter + 500) / 1000, new_source A c), s'))
        × ((create_rtp_sink dynamic s').mime_type ≡ mime_of filter)
        × ((create_rtp_sink dynamic s').frequency ≡ c.sample_rate)
        × ((create_rtp_sink dynamic s').channels ≡ 1)
  unfolding create_stream_source create_rtp_sink create_source new_source
  create_rtp_sink_agrees c s dynamic small =
      let filled : Subsession = record s {
        bits_per_sample = 16;
        sampling_frequency = c.sample_rate;
        num_channels = 1;
      } in
      let whole : c.sample_rate * 16 * 1 % 2 ^ 32 ≡ c.sample_rate * 16 = omega arith in
      let halved : (c.sample_rate * 16 / 2 + 500) % 2 ^ 32 / 1000
          ≡ (c.sample_rate * 8 + 500) / 1000 =
        omega arith in
      let kept : (c.sample_rate * 16 + 500) % 2 ^ 32 / 1000 ≡ (c.sample_rate * 16 + 500) / 1000 =
        omega arith in
      elim (Bool-cases s.convert_to_u_law) [
        | inl e ↦ (
          u_law,
          filled,
          rw (whole, e)
              (ap
                (λ k. (
                  some (u_law, k, new_source A c),
                  record (new_subsession true) { sampling_frequency = c.sample_rate },
                ))
                halved),
          rw e refl,
          refl,
          refl,
        )
        | inr e ↦ (
          swap16,
          filled,
          rw (whole, e)
              (ap
                (λ k. (
                  some (swap16, k, new_source A c),
                  record (new_subsession false) { sampling_frequency = c.sample_rate },
                ))
                kept),
          rw e refl,
          refl,
          refl,
        )
      ]

-- A server that was started stops where the library made it, and throws where it did not.
pub stop_audio-start :
    (made tunneling : Bool) (free : ℕ → Bool)
    → stop_audio (start_audio free tunneling (new_audio_server made)) ≡ (
        if made
        then ok record (start_audio free tunneling (new_audio_server made)) {
          event_loop_watch = true;
          server_thread = false;
        }
        else undefined)
unfolding stop_audio start_audio
stop_audio-start true tunneling free = refl
stop_audio-start false tunneling free = refl
