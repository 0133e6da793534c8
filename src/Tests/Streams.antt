-- ===== src/Tests/Streams.antt =====
-- A source with a batch and a half of samples, of which each is its own number.
use pi_scan.Base.{
  ℕ, ◌+◌, ◌*◌, ◌/◌, ◌≡◌, refl, ◌++◌, pos, true, false, List, [], ◌∷◌, some, ok, arith, Post,
}
use pi_scan.Audio.{
  Floats, AudioController, LocalPcmSource, AudioEvent, asks_frame, queues_batch, run_audio,
  do_get_next_frame, new_source,
}
use pi_scan.Audio.Frames.{encode}
use pi_scan.Audio.Flow.{IsLive, Takes, waiting, do_get_next_frame-Takes}
use pi_scan.Audio.History.{queued, run_audio-flows}
use pi_scan.Audio.Edges.{FollowsIn, do_get_next_frame_follows}
use pi_scan.Audio.Streaming.{
  Filter, Subsession, new_subsession, create_stream_source, create_rtp_sink,
}
use pi_scan.Audio.Encoding.{mime_of, bits_of, create_rtp_sink_agrees}

abbrev numbers : Floats
numbers = record {
  Float = ℕ;
  scaled = pos;
  short_frame = λ rate. rate / 50;
  play_time = λ rate size width. size * 125 / width;
}

abbrev thread : AudioController ℕ
thread = record {
  sample_rate = 8_000;
  output_queue = (300 ∷ 4 ∷ []) ∷ (5 ∷ []) ∷ [];
  terminated = false;
}

abbrev source : LocalPcmSource ℕ
source = record {
  num_channels = 1;
  bits_per_sample = 16;
  sampling_frequency = 8_000;
  preferred_frame_size = 320;
  last_play_time = 250;
  current_batch = some (7 ∷ []);
  presentation_time = (5, 999_900);
}

source-IsLive : IsLive numbers thread source
source-IsLive = record {
  one_channel = refl;
  sixteen_bits = refl;
  some_size = omega arith;
  runs = refl;
  filled = (omega arith, (omega arith, (omega arith, tt)));
  samples = (omega arith, (omega arith, (omega arith, (omega arith, tt))));
}

do_get_next_frame-Takes_example : Takes numbers (6, 0) 6 thread source
do_get_next_frame-Takes_example =
    do_get_next_frame-Takes numbers (6, 0) 6 thread source source-IsLive (omega arith)

abbrev flow : List (AudioEvent numbers)
flow = asks_frame (6, 0) 6 ∷ queues_batch (9 ∷ []) ∷ asks_frame (6, 500) 6 ∷ []

run_audio-flows_example :
    (bytes : List ℕ) × (s : LocalPcmSource ℕ) × (c : AudioController ℕ) × (run_audio numbers flow
        thread source
      ≡ ok (bytes, s, c))
    × (bytes ++ encode numbers (waiting numbers c s)
        ≡ encode numbers (waiting numbers thread source ++ queued numbers flow))
    × IsLive numbers c s
run_audio-flows_example =
    run_audio-flows numbers flow thread source source-IsLive
      (omega arith, (omega arith, (omega arith, tt), (omega arith, tt)))

do_get_next_frame_follows_example :
    Post (FollowsIn numbers source) (do_get_next_frame numbers (6, 0) 6 thread source)
do_get_next_frame_follows_example =
    do_get_next_frame_follows numbers (6, 0) 6 thread source (omega arith) (omega arith)
      (omega arith)

create_rtp_sink_agrees_example :
    (filter : Filter) × (s : Subsession) × (create_stream_source numbers
        (some thread)
        (new_subsession true)
      ≡ (some (filter, (8_000 * bits_of filter + 500) / 1000, new_source numbers thread), s))
    × ((create_rtp_sink 96 s).mime_type ≡ mime_of filter)
    × ((create_rtp_sink 96 s).frequency ≡ 8_000)
    × ((create_rtp_sink 96 s).channels ≡ 1)
create_rtp_sink_agrees_example =
    create_rtp_sink_agrees numbers thread (new_subsession true) 96 (omega arith)
