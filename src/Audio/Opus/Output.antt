-- ===== src/Audio/Opus/Output.antt =====
-- What a call of `decode_packet` (src/audio/realtime_opus.cpp) returns, counts and remembers.
use asrcpp_gigam.Audio.Rtp.{ParsedOpusPacket, try_parse_rtp_packet}
use asrcpp_gigam.Base.{
  ltb, ◌==◌, if◌then◌else◌, if_cases, length, is_empty, ℕ, zero, suc, ◌+◌, ◌-◌, ◌*◌, ◌≤◌, min, max,
  ◌≡◌, refl, sym, ◌∙◌, subst, ◌⊎◌, inl, inr, Bool, true, false, not, ◌&&◌, Option, none, some, List,
  [], arith,
}
use asrcpp_gigam.Base.Bytes.{Bytes}
use asrcpp_gigam.Base.Result.{Result, Ensures, ok, err}
use asrcpp_gigam.Audio.{AudioError, empty_packet, not_rtp, packet_too_large}
use asrcpp_gigam.Audio.Opus.{
  create, OpusPacketMode, OpusDecodeStats, OpusLibrary, D, is_supported_opus_sample_rate,
  create_with, append_decoded, recover, finish, play, forward_sequence_delta, receive,
  decode_payload, count_rtp, plain, route, decode_packet, auto, raw, rtp,
}
use asrcpp_gigam.Audio.Opus.Loss.{
  frames, Bounded, Grown, append_decoded-Grown, Grown-le, conceal-Grown, after_fec-Grown,
}
use native.Mathlib.Nat.{mul-add, mul-le-mul_left}

module _ {F : Type 0} (lib : OpusLibrary F) where
  -- `next` is at most 32768 sequence numbers after the last one, or the first.
  abbrev pub Follows : D lib → ℕ → Type 0
  Follows s next =
      (s.have_last_seq ≡ false)
      ⊎ ((1 ≤ forward_sequence_delta lib (s.last_seq) next)
          × (forward_sequence_delta lib (s.last_seq) next ≤ 32768))

  -- The last sequence number is kept, or replaced by one that follows it.
  abbrev pub Forward : D lib → D lib → Type 0
  Forward s t =
      ((t.have_last_seq ≡ s.have_last_seq) × (t.last_seq ≡ s.last_seq))
      ⊎ ((t.have_last_seq ≡ true) × Follows s (t.last_seq))

module _ {F : Type 0} (lib : OpusLibrary F) (bounded : Bounded lib) (m : ℕ) where
  -- `t` is ready to decode the packet itself, after the packets lost before it.
  record Ready (s t : D lib) : Type 0 where
    pub frame : t.max_frame_samples ≡ s.max_frame_samples
    pub plc : t.max_plc_packets ≡ s.max_plc_packets
    pub seq : t.last_seq ≡ s.last_seq
    pub have : t.have_last_seq ≡ s.have_last_seq
    pub room : length t.output ≤ m * s.max_plc_packets
    pub counted :
        t.stats.plc_packets + t.stats.fec_packets + s.stats.lost_packets
        ≤ s.stats.plc_packets + s.stats.fec_packets + t.stats.lost_packets

  record Outcome (s : D lib) (r : D lib × Result AudioError (List F)) : Type 0 where
    pub frame : r.0.max_frame_samples ≡ s.max_frame_samples
    pub plc : r.0.max_plc_packets ≡ s.max_plc_packets
    pub room :
        length s.output ≤ m * (s.max_plc_packets + 1)
        → length r.0.output ≤ m * (s.max_plc_packets + 1)
    pub returned : Ensures (λ out. length out ≤ m * (s.max_plc_packets + 1)) (r.1)
    pub counted :
        r.0.stats.plc_packets + r.0.stats.fec_packets + s.stats.lost_packets
        ≤ s.stats.plc_packets + s.stats.fec_packets + r.0.stats.lost_packets
    pub order : Forward lib s (r.0)

  Grown-Ready :
      {k c : ℕ} {s t : D lib}
      → k ≤ s.max_plc_packets
      → Grown lib bounded m k c
          (record s {
            output = [];
            stats = record (s.stats) { lost_packets = s.stats.lost_packets + c };
          })
          t
      → Ready s t
  Grown-Ready {k} h g = record {
    frame = g.frame;
    plc = g.plc;
    seq = g.seq;
    have = g.have;
    room = omega (arith, g.room, mul-le-mul_left m h);
    counted = omega (arith, g.counted, g.lost);
  }

  recover-Ready :
      (s : D lib) (payload : Bytes) (n : ℕ)
      → s.max_frame_samples ≡ m
      → 1 ≤ s.max_plc_packets
      → Ready s ((recover lib (record s { output = [] }) payload n).0)
  unfolding recover
  recover-Ready s payload zero h q = record {
    frame = refl;
    plc = refl;
    seq = refl;
    have = refl;
    room = omega arith;
    counted = omega arith;
  }
  recover-Ready s payload (suc n) h q =
      let t = record s {
        output = [];
        stats = record (s.stats) { lost_packets = s.stats.lost_packets + suc n };
      } in
      let frame_size = min (max (s.last_frame_samples) 1) (s.max_frame_samples) in
      if_cases (λ (r : D lib × Result AudioError (Unit {0})). Ready s (r.0))
        (suc n == 1 && s.enable_fec)
        (λ e. Grown-Ready {k = 1} q (
          Grown-le lib bounded m (omega arith) (omega arith) (
            after_fec-Grown lib bounded m frame_size t
              (append_decoded lib t (some payload) frame_size true) h
              (append_decoded-Grown lib bounded m t (some payload) frame_size true h))))
        (λ e. Grown-Ready {k = min (suc n) (s.max_plc_packets)} (omega arith) (
          Grown-le lib bounded m (omega arith) (omega arith)
            (conceal-Grown lib bounded m frame_size (min (suc n) (s.max_plc_packets)) t h)))

  Forward-if :
      (s : D lib) (b : Bool) (next last : ℕ) (have : Bool)
      → (b ≡ true → Follows lib s next)
      → have ≡ s.have_last_seq
      → last ≡ s.last_seq
      → (((if b then true else have) ≡ s.have_last_seq) × ((if b then next else last) ≡ s.last_seq))
        ⊎ (((if b then true else have) ≡ true) × Follows lib s (if b then next else last))
  Forward-if s true next last have f h l = inr (refl, f refl)
  Forward-if s false next last have f h l = inl (h, l)

  finish-Outcome :
      (s t : D lib) (p : ParsedOpusPacket) (r : D lib × Result AudioError ℕ)
      → (p.has_sequence ≡ true → Follows lib s (p.sequence))
      → Ready s t
      → 1 ≤ s.max_plc_packets
      → Grown lib bounded m (frames (r.1)) 0 t (r.0)
      → Outcome s (finish lib p r)
  unfolding finish
  finish-Outcome s t p (u, err e) f v q g = record {
    frame = g.frame ∙ v.frame;
    plc = g.plc ∙ v.plc;
    room = λ h. omega (arith, g.room, v.room, mul-add m (s.max_plc_packets) 1);
    returned = tt;
    counted = omega (arith, g.counted, v.counted, g.lost);
    order = inl (g.have ∙ v.have, g.seq ∙ v.seq);
  }
  finish-Outcome s t p (u, ok n) f v q g = record {
    frame = g.frame ∙ v.frame;
    plc = g.plc ∙ v.plc;
    room = λ h. omega (arith, g.room, v.room, mul-add m (s.max_plc_packets) 1);
    returned = omega (arith, g.room, v.room, mul-add m (s.max_plc_packets) 1);
    counted = omega (arith, g.counted, v.counted, g.lost);
    order =
        Forward-if s (p.has_sequence) (p.sequence) (u.last_seq) (u.have_last_seq) f
          (g.have ∙ v.have) (g.seq ∙ v.seq);
  }

  play-Outcome :
      (s : D lib) (p : ParsedOpusPacket) (r : D lib × Result AudioError (Unit {0}))
      → (p.has_sequence ≡ true → Follows lib s (p.sequence))
      → Ready s (r.0)
      → s.max_frame_samples ≡ m
      → 1 ≤ s.max_plc_packets
      → Outcome s (play lib p r)
  unfolding play
  play-Outcome s p (t, err e) f v h q = record {
    frame = v.frame;
    plc = v.plc;
    room = λ b. omega (arith, v.room, mul-add m (s.max_plc_packets) 1);
    returned = tt;
    counted = v.counted;
    order = inl (v.have, v.seq);
  }
  play-Outcome s p (t, ok u) f v h q =
      finish-Outcome s t p (append_decoded lib t (some (p.payload)) (t.max_frame_samples) false) f v
        q
        (append_decoded-Grown lib bounded m t (some (p.payload)) (t.max_frame_samples) false
          (v.frame ∙ h))

  -- Calls that change no more than counters keep the order and the bounds.
  ignored :
      (s : D lib) (stats : OpusDecodeStats)
      → stats.plc_packets + stats.fec_packets ≡ s.stats.plc_packets + s.stats.fec_packets
      → stats.lost_packets ≡ s.stats.lost_packets
      → Outcome s (record s { output = []; stats = stats }, ok [])
  ignored s stats h l = record {
    frame = refl;
    plc = refl;
    room = λ b. omega arith;
    returned = omega arith;
    counted = omega arith;
    order = inl (refl, refl);
  }

  receive-Outcome :
      (s : D lib) (p : ParsedOpusPacket)
      → s.max_frame_samples ≡ m
      → 1 ≤ s.max_plc_packets
      → Outcome s (receive lib (record s { output = [] }) p)
  unfolding receive
  receive-Outcome s p h q =
      let delta = forward_sequence_delta lib (s.last_seq) (p.sequence) in
      if_cases (Outcome s) (delta == 0)
        (λ e.
          ignored s (record (s.stats) { duplicate_packets = s.stats.duplicate_packets + 1 }) refl
            refl)
        (λ e.
          if_cases (Outcome s) (ltb 32768 delta)
            (λ e'.
              ignored s
                (record (s.stats) { out_of_order_packets = s.stats.out_of_order_packets + 1 }) refl
                refl)
            (λ e'.
              play-Outcome s p (recover lib (record s { output = [] }) (p.payload) (delta - 1))
                (λ _. inr (ground arith, ground arith))
                (recover-Ready s (p.payload) (delta - 1) h q) h q))

  kept :
      (s : D lib) (e : Result AudioError (List F))
      → Ensures (λ out. length out ≤ 0) e
      → Outcome s (s, e)
  kept s (ok out) h = record {
    frame = refl;
    plc = refl;
    room = λ b. b;
    returned = omega arith;
    counted = omega arith;
    order = inl (refl, refl);
  }
  kept s (err e) h = record {
    frame = refl;
    plc = refl;
    room = λ b. b;
    returned = tt;
    counted = omega arith;
    order = inl (refl, refl);
  }

  decode_payload-Outcome :
      (s : D lib) (p : ParsedOpusPacket)
      → s.max_frame_samples ≡ m
      → 1 ≤ s.max_plc_packets
      → Outcome s (decode_payload lib s p)
  unfolding decode_payload
  decode_payload-Outcome s p h q =
      if_cases (Outcome s) (is_empty (p.payload)) (λ e. kept s (ok []) (omega arith))
        (λ e.
          if_cases (Outcome s) (ltb 2147483647 (length (p.payload)))
            (λ e'. kept s (err packet_too_large) tt)
            (λ e'.
              if_cases (Outcome s) (p.has_sequence && s.have_last_seq)
                (λ c. receive-Outcome s p h q)
                (λ c.
                  play-Outcome s p (record s { output = [] }, ok tt) (λ t. inl ground arith)
                    (record {
                      frame = refl;
                      plc = refl;
                      seq = refl;
                      have = refl;
                      room = omega arith;
                      counted = omega arith;
                    })
                    h q)))

  counted_rtp :
      (s : D lib) (r : D lib × Result AudioError (List F))
      → Outcome (count_rtp lib s) r
      → Outcome s r
  counted_rtp s r o = record {
    frame = o.frame;
    plc = o.plc;
    room = o.room;
    returned = o.returned;
    counted = o.counted;
    order = o.order;
  }

  route-Outcome :
      (s : D lib) (mode : OpusPacketMode) (packet : Bytes) (o : Option ParsedOpusPacket)
      → s.max_frame_samples ≡ m
      → 1 ≤ s.max_plc_packets
      → Outcome s (route lib s mode packet o)
  unfolding route
  route-Outcome s rtp packet none h q = kept s (err not_rtp) tt
  route-Outcome s rtp packet (some p) h q =
      counted_rtp s (decode_payload lib (count_rtp lib s) p)
        (decode_payload-Outcome (count_rtp lib s) p h q)
  route-Outcome s auto packet none h q = decode_payload-Outcome s (plain lib packet) h q
  route-Outcome s auto packet (some p) h q =
      counted_rtp s (decode_payload lib (count_rtp lib s) p)
        (decode_payload-Outcome (count_rtp lib s) p h q)
  route-Outcome s raw packet o h q = decode_payload-Outcome s (plain lib packet) h q

  decode_packet-Outcome :
      (s : D lib) (packet : Bytes)
      → s.max_frame_samples ≡ m
      → 1 ≤ s.max_plc_packets
      → Outcome s (decode_packet lib s packet)
  unfolding decode_packet
  decode_packet-Outcome s packet h q =
      if_cases (Outcome s) (is_empty packet) (λ e. kept s (err empty_packet) tt)
        (λ e. route-Outcome s (s.packet_mode) packet (try_parse_rtp_packet packet) h q)

module _ {F : Type 0} (lib : OpusLibrary F) where
  -- The samples the constructor reserves room for.
  abbrev pub reserved : D lib → ℕ
  reserved s = s.max_frame_samples * (s.max_plc_packets + 1)

  reserved_eq :
      (s t : D lib)
      → t.max_frame_samples ≡ s.max_frame_samples
      → t.max_plc_packets ≡ s.max_plc_packets
      → reserved t ≡ reserved s
  reserved_eq s t h k = cc

  -- The output fits the reserved room, and each concealed packet was lost.
  pub record Sound (s : D lib) : Type 0 where
    pub room : length s.output ≤ reserved s
    pub conceals : 1 ≤ s.max_plc_packets
    pub counted : s.stats.plc_packets + s.stats.fec_packets ≤ s.stats.lost_packets

  create_with-Sound :
      (rate plc : ℕ) (fec : Bool) (mode : OpusPacketMode) (o : Option lib.State)
      → Ensures Sound (create_with lib rate plc fec mode o)
  unfolding create_with
  create_with-Sound rate plc fec mode none = tt
  create_with-Sound rate plc fec mode (some d) = record {
    room = omega arith;
    conceals = omega arith;
    counted = omega arith;
  }

  -- A decoder that the constructor returns is sound: its output fits the room that it reserves
  -- and no packet is counted as concealed that was not counted as lost.
  pub create-Sound :
      (rate plc : ℕ) (fec : Bool) (mode : OpusPacketMode)
      → Ensures Sound (create lib rate plc fec mode)
  unfolding create
  create-Sound rate plc fec mode =
      if_cases (Ensures Sound) (not (is_supported_opus_sample_rate lib rate)) (λ e. tt)
        (λ e. create_with-Sound rate plc fec mode (lib.create rate))

  module _ (bounded : Bounded lib) where
    -- If the library stores no more samples than the frame size it is given, then a call of
    -- `decode_packet` on a sound decoder, whether it throws or not, leaves the decoder sound, and
    -- the samples it returns fit the room that the constructor reserved.
    pub decode_packet-Sound :
        (s : D lib) (packet : Bytes)
        → Sound s
        → Sound ((decode_packet lib s packet).0)
          × Ensures (λ out. length out ≤ reserved s) ((decode_packet lib s packet).1)
    decode_packet-Sound s packet v =
        let o =
          decode_packet-Outcome lib bounded (s.max_frame_samples) s packet refl (v.conceals) in
        (
          record {
            room =
                subst (λ c. length ((decode_packet lib s packet).0.output) ≤ c)
                  (sym (reserved_eq s ((decode_packet lib s packet).0) (o.frame) (o.plc)))
                  (o.room (v.room));
            conceals = omega (arith, o.plc, v.conceals);
            counted = omega (arith, o.counted, v.counted);
          },
          o.returned,
        )

    -- A call of `decode_packet` keeps the last sequence number, or replaces it with one that is 1
    -- to 32768 steps after it modulo 2 ^ 16, or with the first: it never goes back.
    pub decode_packet_order :
        (s : D lib) (packet : Bytes)
        → 1 ≤ s.max_plc_packets
        → Forward lib s ((decode_packet lib s packet).0)
    decode_packet_order s packet h =
        (decode_packet-Outcome lib bounded (s.max_frame_samples) s packet refl h).order
