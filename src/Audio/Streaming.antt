-- ===== src/Audio/Streaming.antt =====
-- server/AudioStreamServer.cpp and server/audio_server/AudioServerMediaSubsession.cpp: the server of the
-- audio stream. What the streaming library is asked to make is data, its answers are parameters.
use Prim.Native.Nat.{◌^◌}
use pi_scan.Base.{
  ℕ, ◌+◌, ◌*◌, ◌/◌, ◌%◌, String, Bool, true, false, ◌||◌, ◌&&◌, not, List, [], ◌∷◌, Option, none,
  some, ok, undefined, Outcome, if◌then◌else◌, ltb, ◌==◌,
}
use pi_scan.Audio.{Floats, AudioController, LocalPcmSource, create_source}

-- The filter in front of the source of a stream.
pub data Filter : Type 0 where
  plain u_law swap16 swap24 : Filter

pub record Subsession : Type 0 where
  pub convert_to_u_law : Bool
  pub bits_per_sample : ℕ
  pub sampling_frequency : ℕ
  pub num_channels : ℕ

-- `createNew`, with the members' initial values.
abbrev pub new_subsession : Bool → Subsession
new_subsession convert = record {
  convert_to_u_law = convert;
  bits_per_sample = 16;
  sampling_frequency = 0;
  num_channels = 1;
}

-- What `SimpleRTPSink::createNew` is called with.
pub record RtpSink : Type 0 where
  pub payload_format : ℕ
  pub frequency : ℕ
  pub mime_type : String
  pub channels : ℕ

abbrev unhandled_width : ℕ → Bool
unhandled_width bits = not (bits % 4 == 0) || (ltb bits 4 || (ltb 24 bits || bits == 12))

-- The filter, and the bits per second behind it.
abbrev pub choose_filter : Subsession → ℕ → Filter × ℕ
choose_filter s rate =
    if s.bits_per_sample == 16
    then (if s.convert_to_u_law then (u_law, rate / 2) else (swap16, rate))
    else if (s.bits_per_sample == 20) || (s.bits_per_sample == 24)
    then (swap24, rate)
    else (plain, rate)

module _ (A : Floats) where
  open A use {Float}

  -- `createNewStreamSource`: the source with its filter and the estimated kilobits per second, if
  -- there is one, and the members. `unsigned` has 32 bits, `fBitsPerSample` 8.
  unfoldable pub create_stream_source :
      Option (AudioController Float)
      → Subsession
      → Option (Filter × ℕ × LocalPcmSource Float) × Subsession
  unfolding create_source
  create_stream_source controller s = elim (create_source A controller) [
    | none ↦ (none, s)
    | some source ↦
        let s1 = record s { bits_per_sample = source.bits_per_sample % 2 ^ 8 } in
        let s2 = record s1 {
          sampling_frequency = source.sampling_frequency;
          num_channels = source.num_channels;
        } in
        let rate = s2.sampling_frequency * s2.bits_per_sample * s2.num_channels % 2 ^ 32 in
        let (filter, bits) = choose_filter s2 rate in
        if unhandled_width s1.bits_per_sample
        then (none, s1)
        else (some (filter, (bits + 500) % 2 ^ 32 / 1000, source), s2)
  ]

abbrev pub sink_of : Subsession → ℕ → String → RtpSink
sink_of s format mime = record {
  payload_format = format;
  frequency = s.sampling_frequency;
  mime_type = mime;
  channels = s.num_channels;
}

-- The payload type of a stream of 16 bits: a static one, where there is one.
abbrev pub static_format : ℕ → Subsession → ℕ
static_format dynamic s =
    if s.convert_to_u_law
    then (if (s.sampling_frequency == 8_000) && (s.num_channels == 1) then 0 else dynamic)
    else if (s.sampling_frequency == 44_100) && (s.num_channels == 2)
    then 10
    else if (s.sampling_frequency == 44_100) && (s.num_channels == 1)
    then 11
    else dynamic

-- `createNewRTPSink`, with the payload type that is free.
unfoldable pub create_rtp_sink : ℕ → Subsession → RtpSink
create_rtp_sink dynamic s =
    if s.bits_per_sample == 16
    then sink_of s (static_format dynamic s) (if s.convert_to_u_law then "PCMU" else "L16")
    else if s.bits_per_sample == 20
    then sink_of s dynamic "L20"
    else if s.bits_per_sample == 24
    then sink_of s dynamic "L24"
    else sink_of s dynamic "L8"

-- `AudioStreamServer`: whether the library made an RTSP server, and the thread of its event loop.
pub record AudioStreamServer : Type 0 where
  pub rtsp_server : Bool
  pub event_loop_watch : Bool
  pub server_thread : Bool
  pub session : Option Subsession
  pub http_port : Option ℕ

-- The constructor, given whether the library makes a server on the port.
abbrev pub new_audio_server : Bool → AudioStreamServer
new_audio_server made = record {
  rtsp_server = made;
  event_loop_watch = false;
  server_thread = false;
  session = none;
  http_port = none;
}

-- The first port that can be used.
abbrev pub first_port : (ℕ → Bool) → List ℕ → Option ℕ
first_port free [] = none
first_port free (p ∷ ps) = let rest = first_port free ps in if free p then some p else rest

-- `start`, given whether a port can be used for tunnelling and whether it is configured.
unfoldable pub start_audio : (ℕ → Bool) → Bool → AudioStreamServer → AudioStreamServer
start_audio free tunneling a =
    let port = if tunneling then first_port free (80 ∷ 8000 ∷ 8080 ∷ []) else a.http_port in
    if a.rtsp_server
    then record a {
      session = some (new_subsession true);
      http_port = port;
      event_loop_watch = false;
      server_thread = true;
    }
    else a

-- `stop`: the join of a thread that was not started throws, and nothing catches it.
unfoldable pub stop_audio : AudioStreamServer → Outcome AudioStreamServer
stop_audio a =
    if a.server_thread
    then ok (record a { event_loop_watch = true; server_thread = false })
    else undefined
