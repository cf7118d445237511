-- ===== src/Audio/Opus.antt =====
-- `RealtimeOpusDecoder` of src/audio/realtime_opus.cpp and include/asr/audio.h. The Opus library is
-- a parameter. A method that throws keeps what it has changed, so it returns the state in any case.
pub mod Loss
pub mod Output
use asrcpp_gigam.Base.{
  ltb, ◌==◌, if◌then◌else◌, length, is_empty, ℕ, zero, suc, ◌+◌, ◌-◌, ◌*◌, ◌/◌, ◌%◌, min, max, Bool,
  true, false, not, ◌&&◌, ◌||◌, Option, none, some, List, [], ◌++◌,
}
use asrcpp_gigam.Base.Bytes.{Bytes}
use asrcpp_gigam.Base.Result.{Result, ok, err}
use asrcpp_gigam.Audio.{
  AudioError, opus_failed, empty_packet, not_rtp, packet_too_large, bad_frame_size, bad_sample_rate,
  no_decoder,
}
use asrcpp_gigam.Audio.Rtp.{ParsedOpusPacket, try_parse_rtp_packet}

pub data OpusPacketMode : Type 0 where
  auto raw rtp : OpusPacketMode

pub record OpusDecodeStats : Type 0 where
  pub decoded_packets : ℕ
  pub decoded_samples : ℕ
  pub rtp_packets : ℕ
  pub lost_packets : ℕ
  pub plc_packets : ℕ
  pub fec_packets : ℕ
  pub duplicate_packets : ℕ
  pub out_of_order_packets : ℕ

abbrev pub no_stats : OpusDecodeStats
no_stats = record {
  decoded_packets = 0;
  decoded_samples = 0;
  rtp_packets = 0;
  lost_packets = 0;
  plc_packets = 0;
  fec_packets = 0;
  duplicate_packets = 0;
  out_of_order_packets = 0;
}

-- The Opus library: `decode state packet frame_size fec` is `opus_decode_float`, with `none` for
-- the null pointer of concealment. It returns the samples or an error code, and its next state.
pub record OpusLibrary (F : Type 0) : Type 1 where
  pub State : Type 0
  pub create : ℕ → Option State
  pub decode : State → Option Bytes → ℕ → Bool → Result ℕ (List F) × State
  pub reset : State → Result ℕ State

module _ {F : Type 0} (lib : OpusLibrary F) where
  pub record OpusDecoder : Type 0 where
    pub decoder : lib.State
    pub sample_rate : ℕ
    pub max_frame_samples : ℕ
    pub last_frame_samples : ℕ
    pub max_plc_packets : ℕ
    pub enable_fec : Bool
    pub packet_mode : OpusPacketMode
    pub have_last_seq : Bool
    pub last_seq : ℕ
    pub stats : OpusDecodeStats
    pub output : List F

module _ {F : Type 0} (lib : OpusLibrary F) where
  abbrev pub D : Type 0
  D = OpusDecoder lib

  unfoldable pub is_supported_opus_sample_rate : ℕ → Bool
  is_supported_opus_sample_rate r =
      r == 8000 || r == 12000 || r == 16000 || r == 24000 || r == 48000

  -- The constructor. At a supported rate no frame size is 0.
  unfoldable pub create_with :
      ℕ → ℕ → Bool → OpusPacketMode → Option lib.State → Result AudioError D
  create_with sample_rate plc fec mode none = err no_decoder
  create_with sample_rate plc fec mode (some d) = ok (record {
    decoder = d;
    sample_rate = sample_rate;
    max_frame_samples = sample_rate * 120 / 1000;
    last_frame_samples = sample_rate / 50;
    max_plc_packets = max 1 plc;
    enable_fec = fec;
    packet_mode = mode;
    have_last_seq = false;
    last_seq = 0;
    stats = no_stats;
    output = [];
  })

  unfoldable pub create : ℕ → ℕ → Bool → OpusPacketMode → Result AudioError D
  unfolding is_supported_opus_sample_rate create_with
  create sample_rate plc fec mode =
      if not (is_supported_opus_sample_rate sample_rate)
      then err bad_sample_rate
      else create_with sample_rate plc fec mode (lib.create sample_rate)

  -- `append_decoded`, after the test of the frame size.
  unfoldable pub store : D → Result ℕ (List F) × lib.State → D × Result AudioError ℕ
  store s (err code, d) = (record s { decoder = d }, err (opus_failed code))
  store s (ok samples, d) = (
    record s {
      decoder = d;
      output = s.output ++ samples;
      last_frame_samples = if ltb 0 (length samples) then length samples else s.last_frame_samples;
      stats = record (s.stats) { decoded_samples = s.stats.decoded_samples + length samples };
    },
    ok (length samples),
  )

  -- With `allow_failure` the caller reads the error as a value, without it the caller throws it.
  unfoldable pub append_decoded : D → Option Bytes → ℕ → Bool → D × Result AudioError ℕ
  unfolding store
  append_decoded s bytes frame_size fec =
      if frame_size == 0 || ltb s.max_frame_samples frame_size
      then (s, err bad_frame_size)
      else store s (lib.decode s.decoder bytes frame_size fec)

  count_plc : D × Result AudioError ℕ → D × Result AudioError (Unit {0})
  count_plc (s, err e) = (s, err e)
  count_plc (s, ok n) =
      (record s { stats = record (s.stats) { plc_packets = s.stats.plc_packets + 1 } }, ok tt)

  and_then :
      D × Result AudioError (Unit {0})
      → (D → D × Result AudioError (Unit {0}))
      → D × Result AudioError (Unit {0})
  and_then (s, err e) f = (s, err e)
  and_then (s, ok u) f = f s

  -- The loop over the packets to conceal.
  unfoldable pub conceal : ℕ → ℕ → D → D × Result AudioError (Unit {0})
  unfolding count_plc and_then
  conceal frame_size zero s = (s, ok tt)
  conceal frame_size (suc n) s =
      and_then (count_plc (append_decoded s none frame_size false)) (conceal frame_size n)

  -- After the attempt to decode the redundant copy of one lost packet.
  pub after_fec : ℕ → D × Result AudioError ℕ → D × Result AudioError (Unit {0})
  unfolding conceal
  after_fec frame_size (s, ok n) =
      (record s { stats = record (s.stats) { fec_packets = s.stats.fec_packets + 1 } }, ok tt)
  after_fec frame_size (s, err e) = conceal frame_size (min 1 s.max_plc_packets) s

  -- `lost` packets precede this one.
  unfoldable pub recover : D → Bytes → ℕ → D × Result AudioError (Unit {0})
  unfolding after_fec append_decoded
  recover s payload zero = (s, ok tt)
  recover s payload (suc n) =
      let t = record s {
        stats = record (s.stats) { lost_packets = s.stats.lost_packets + suc n };
      } in
      let frame_size = min (max t.last_frame_samples 1) t.max_frame_samples in
      if suc n == 1 && t.enable_fec
      then after_fec frame_size (append_decoded t (some payload) frame_size true)
      else conceal frame_size (min (suc n) t.max_plc_packets) t

  pub finish : ParsedOpusPacket → D × Result AudioError ℕ → D × Result AudioError (List F)
  finish p (s, err e) = (s, err e)
  finish p (s, ok n) =
      let t = record s {
        stats = record (s.stats) { decoded_packets = s.stats.decoded_packets + 1 };
        have_last_seq = if p.has_sequence then true else s.have_last_seq;
        last_seq = if p.has_sequence then p.sequence else s.last_seq;
      } in
      (t, ok t.output)

  pub play : ParsedOpusPacket → D × Result AudioError (Unit {0}) → D × Result AudioError (List F)
  unfolding finish append_decoded
  play p (s, err e) = (s, err e)
  play p (s, ok u) = finish p (append_decoded s (some p.payload) s.max_frame_samples false)

  -- `uint16_t` subtraction.
  abbrev pub forward_sequence_delta : ℕ → ℕ → ℕ
  forward_sequence_delta prev current = (current + 65536 - prev) % 65536

  -- A packet with a sequence number, after another one.
  unfoldable pub receive : D → ParsedOpusPacket → D × Result AudioError (List F)
  unfolding play recover
  receive s p =
      let delta = forward_sequence_delta s.last_seq p.sequence in
      if delta == 0
      then (
        record s { stats = record (s.stats) { duplicate_packets = s.stats.duplicate_packets + 1 } },
        ok [],
      )
      else if ltb 32768 delta
      then (
        record s {
          stats = record (s.stats) { out_of_order_packets = s.stats.out_of_order_packets + 1 };
        },
        ok [],
      )
      else play p (recover s p.payload (delta - 1))

  unfoldable pub decode_payload : D → ParsedOpusPacket → D × Result AudioError (List F)
  unfolding receive play
  decode_payload s p =
      let t = record s { output = [] } in
      if is_empty p.payload
      then (s, ok [])
      else if ltb 2147483647 (length p.payload)
      then (s, err packet_too_large)
      else if p.has_sequence && s.have_last_seq
      then receive t p
      else play p (t, ok tt)

  abbrev count_rtp : D → D
  count_rtp s = record s { stats = record (s.stats) { rtp_packets = s.stats.rtp_packets + 1 } }

  abbrev pub plain : Bytes → ParsedOpusPacket
  plain packet = record { payload = packet; has_sequence = false; sequence = 0; is_rtp = false }

  route : D → OpusPacketMode → Bytes → Option ParsedOpusPacket → D × Result AudioError (List F)
  unfolding decode_payload
  route s rtp packet none = (s, err not_rtp)
  route s rtp packet (some p) = decode_payload (count_rtp s) p
  route s auto packet none = decode_payload s (plain packet)
  route s auto packet (some p) = decode_payload (count_rtp s) p
  route s raw packet o = decode_payload s (plain packet)

  unfoldable pub decode_packet : D → Bytes → D × Result AudioError (List F)
  unfolding route
  decode_packet s packet =
      if is_empty packet
      then (s, err empty_packet)
      else route s s.packet_mode packet (try_parse_rtp_packet packet)

  cleared : D → Result ℕ lib.State → D × Result AudioError (Unit {0})
  cleared s (err code) = (s, err (opus_failed code))
  cleared s (ok d) = (
    record s {
      decoder = d;
      last_frame_samples = max 1 (s.sample_rate / 50);
      have_last_seq = false;
      last_seq = 0;
      stats = no_stats;
      output = [];
    },
    ok tt,
  )

  unfoldable pub reset : D → D × Result AudioError (Unit {0})
  unfolding cleared
  reset s = cleared s (lib.reset s.decoder)
