-- ===== src/Audio/Runs.antt =====
-- The audio decoders at concrete inputs.
use asrcpp_gigam.Audio.Opus.Output.{
  Forward, reserved, Sound, decode_packet-Sound, decode_packet_order,
}
use asrcpp_gigam.Audio.Opus.Loss.{Bounded}
use asrcpp_gigam.Audio.Downmix.{mean, downmix}
use asrcpp_gigam.Base.Floats.{milli}
use asrcpp_gigam.Audio.Emitter.{new_emitter, unread, flush}
use asrcpp_gigam.Audio.Emitter.Stream.{push_all, stream_exact}
use asrcpp_gigam.Audio.Opus.{no_stats, OpusLibrary, D, decode_packet, auto}
use asrcpp_gigam.Audio.Rtp.Bounds.{Payload, try_parse_rtp_packet-Payload}
use asrcpp_gigam.Audio.Rtp.RoundTrip.{try_parse_rtp_packet-write}
use asrcpp_gigam.Audio.Rtp.Packet.{RtpPacket, write, IsPacket, parsed}
use asrcpp_gigam.Audio.Rtp.{try_parse_rtp_packet}
use asrcpp_gigam.Audio.{AudioError}
use asrcpp_gigam.Base.Int.{pos_part, ℤ, pos, negsuc}
use asrcpp_gigam.Base.{
  map, length, replicate, All, concat, length-replicate, ℕ, ◌+◌, ◌*◌, ◌≤◌, ◌<◌, min, max, ◌≡◌, refl,
  true, some, List, [], ◌∷◌, arith,
}
use asrcpp_gigam.Base.Bytes.{Bytes}
use asrcpp_gigam.Base.Result.{Result, Ensures, ok}
use asrcpp_gigam.Audio.Pcm.{pcm16_to_float32, pcm_bytes, pcm16_to_float32-pcm_bytes}
use asrcpp_gigam.Audio.Base64.{base64_decode}
use asrcpp_gigam.Audio.Base64.RoundTrip.{encode, base64_decode-encode}

abbrev two_bytes : Bytes
two_bytes = 200 ∷ 7 ∷ []

base64_decode-encode_example : base64_decode (encode two_bytes) ≡ ok two_bytes
base64_decode-encode_example = base64_decode-encode two_bytes (omega arith, (omega arith, tt))

abbrev quiet : List ℤ
quiet = pos 300 ∷ negsuc 299 ∷ []

-- One source, an extension of one word and two bytes of padding.
abbrev numbered : RtpPacket
numbered = record {
  marker = 111;
  sequence = 513;
  stamp = replicate 8 1;
  csrc_count = 1;
  csrcs = replicate 4 2;
  extension = some (190, 222, 1, replicate 4 3);
  payload = 4 ∷ 5 ∷ [];
  padding = some 1;
}

numbered-IsPacket : IsPacket numbered
numbered-IsPacket = record {
  numbered = omega arith;
  stamped = refl;
  sources = omega arith;
  listed = refl;
  extended = (omega arith, refl);
  filled = omega arith;
  padded = omega arith;
}

try_parse_rtp_packet-write_example : try_parse_rtp_packet (write numbered) ≡ some (parsed numbered)
try_parse_rtp_packet-write_example = try_parse_rtp_packet-write numbered numbered-IsPacket

try_parse_rtp_packet-Payload_example : Payload (write numbered) (parsed numbered)
try_parse_rtp_packet-Payload_example =
    try_parse_rtp_packet-Payload (write numbered) (parsed numbered)
      (try_parse_rtp_packet-write numbered numbered-IsPacket)

-- A library that decodes each packet to three samples at most, that tell how often it was called.
abbrev pub three_samples : OpusLibrary ℕ
three_samples = record {
  State = ℕ;
  create = λ rate. some 0;
  decode = λ d bytes frame_size fec. (ok (replicate (min frame_size 3) d), d + 1);
  reset = λ d. ok 0;
}

three_samples-Bounded : Bounded three_samples
three_samples-Bounded d bytes frame_size fec = omega (arith, length-replicate (min frame_size 3) d)

abbrev decoder : D three_samples
decoder = record {
  decoder = 1;
  sample_rate = 8000;
  max_frame_samples = 960;
  last_frame_samples = 3;
  max_plc_packets = 2;
  enable_fec = true;
  packet_mode = auto;
  have_last_seq = true;
  last_seq = 510;
  stats = record no_stats { decoded_packets = 1; decoded_samples = 3; rtp_packets = 1 };
  output = replicate 3 0;
}

-- Two packets are lost before `numbered`.
abbrev heard : D three_samples × Result AudioError (List ℕ)
heard = decode_packet three_samples decoder (write numbered)

decode_packet-Sound_example :
    Sound three_samples (heard.0)
    × Ensures (λ out. length out ≤ reserved three_samples decoder) (heard.1)
decode_packet-Sound_example =
    decode_packet-Sound three_samples three_samples-Bounded decoder (write numbered)
      (record { room = omega arith; conceals = omega arith; counted = omega arith })

decode_packet_order_example : Forward three_samples decoder (heard.0)
decode_packet_order_example =
    decode_packet_order three_samples three_samples-Bounded decoder (write numbered) (omega arith)

heard_test : heard.1 ≡ ok (1 ∷ 1 ∷ 1 ∷ 2 ∷ 2 ∷ 2 ∷ 3 ∷ 3 ∷ 3 ∷ [])
unfolding decode_packet try_parse_rtp_packet
heard_test = refl

-- Chunks of two, from pieces of three, none and four; the vector grows to twice the size.
abbrev pieces : List (List ℕ)
pieces = (1 ∷ 2 ∷ 3 ∷ []) ∷ [] ∷ (4 ∷ 5 ∷ 6 ∷ 7 ∷ []) ∷ []

abbrev twice : ℕ → ℕ → ℕ
twice capacity size = max capacity (2 * size)

stream_exact_example :
    All (λ c. length c ≡ max 1 2) (push_all twice (new_emitter twice 2) pieces).emitted
    × (length (unread (push_all twice (new_emitter twice 2) pieces)) < max 1 2)
    × (concat (flush (push_all twice (new_emitter twice 2) pieces)).emitted ≡ concat pieces)
stream_exact_example = stream_exact twice 2 pieces

abbrev stereo : List (List ℕ)
stereo = (100 ∷ 300 ∷ []) ∷ (0 ∷ 50 ∷ []) ∷ []

stereo_test : downmix milli (pos 2) (concat stereo) ≡ ok (200 ∷ 25 ∷ [])
unfolding downmix mean
stereo_test = refl

abbrev waves : List ℤ
waves = pos 5 ∷ negsuc 0 ∷ negsuc 32767 ∷ pos 32767 ∷ []

pcm16_to_float32-pcm_bytes_example :
    pcm16_to_float32 pos_part (pcm_bytes waves) ≡ ok (map pos_part waves)
pcm16_to_float32-pcm_bytes_example = pcm16_to_float32-pcm_bytes pos_part waves (
  (omega arith, omega arith),
  ((omega arith, omega arith), ((omega arith, omega arith), ((omega arith, omega arith), tt))),
)
