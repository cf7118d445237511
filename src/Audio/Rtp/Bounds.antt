-- ===== src/Audio/Rtp/Bounds.antt =====
-- What `try_parse_rtp_packet` returns for any bytes.
use asrcpp_gigam.Base.{
  ◌==◌, length, take, drop, take-append-drop, length-take, length-drop, ℕ, ◌+◌, ◌-◌, ◌*◌, ◌/◌, ◌%◌,
  ◌≤◌, ◌<◌, ◌≡◌, refl, sym, ap, ◌∙◌, subst, Bool, true, false, Option, none, some, ◌++◌, arith,
}
use asrcpp_gigam.Base.Bytes.{Bytes}
use asrcpp_gigam.Base.Slices.{Slice}
use asrcpp_gigam.Audio.Rtp.{
  ParsedOpusPacket, byte_at, subspan, extended_size, payload_end, payload_between, ◌>>=◌,
  parse_sections, try_parse_rtp_packet,
}

extended_size-le :
    (packet : Bytes) (x : Bool) (h : ℕ) {n : ℕ}
    → h ≤ length packet
    → extended_size packet x h ≡ some n
    → (h ≤ n) × (n ≤ length packet)
unfolding extended_size
extended_size-le packet true h l e = ground arith
extended_size-le packet false h l e = ground arith

payload_end-le :
    (packet : Bytes) (x : Bool) (h : ℕ) {n : ℕ}
    → payload_end packet x h ≡ some n
    → n ≤ length packet
unfolding payload_end
payload_end-le packet true h e = ground arith
payload_end-le packet false h e = ground arith

-- The payload is a piece of the packet, behind the fixed header, and not empty.
pub record Payload (packet : Bytes) (out : ParsedOpusPacket) : Type 0 where
  pub begin : ℕ
  pub end : ℕ
  pub piece : Slice packet out.payload begin end
  pub behind : 12 ≤ begin
  pub filled : 0 < length out.payload
  pub numbered : out.sequence ≡ byte_at packet 2 * 256 + byte_at packet 3

payload_between-Payload :
    (packet : Bytes) (h n : ℕ) (out : ParsedOpusPacket)
    → 12 ≤ h
    → n ≤ length packet
    → payload_between packet h n ≡ some out
    → Payload packet out
unfolding payload_between
payload_between-Payload packet h n out l m e =
    let lt : h < n = ground arith in
    let eq : record {
      payload = subspan packet h (n - h);
      has_sequence = true;
      sequence = byte_at packet 2 * 256 + byte_at packet 3;
      is_rtp = true;
    }
        ≡ out =
      ground arith in
    subst (Payload packet) eq (record {
      begin = h;
      end = n;
      piece = record {
        before = take h packet;
        after = drop (n - h) (drop h packet);
        cut =
            sym (take-append-drop h packet)
            ∙ ap (λ r. take h packet ++ r) (sym (take-append-drop (n - h) (drop h packet)));
        starts = omega (arith, length-take h packet);
        ends = omega (arith, length-take (n - h) (drop h packet), length-drop h packet);
      };
      behind = l;
      filled = omega (arith, length-take (n - h) (drop h packet), length-drop h packet);
      numbered = refl;
    })

bind_some {ℓ κ} :
    {A : Type ℓ} {B : Type κ} (o : Option A) (f : A → Option B) {b : B}
    → (o >>= f) ≡ some b
    → (a : A) × (o ≡ some a) × (f a ≡ some b)
bind_some none f e = cc
bind_some (some a) f e = (a, refl, e)

sections-Payload :
    (packet : Bytes) (flags : ℕ) (out : ParsedOpusPacket)
    → 12 + flags % 16 * 4 ≤ length packet
    → parse_sections packet flags ≡ some out
    → Payload packet out
unfolding parse_sections
sections-Payload packet flags out l e =
    let (h, e1, r1) =
      bind_some (extended_size packet (flags / 16 % 2 == 1) (12 + flags % 16 * 4)) _ e in
    let (n, e2, r2) = bind_some (payload_end packet (flags / 32 % 2 == 1) h) _ r1 in
    let (low, _) = extended_size-le packet (flags / 16 % 2 == 1) (12 + flags % 16 * 4) l e1 in
    payload_between-Payload packet h n out (omega (arith, low))
      (payload_end-le packet (flags / 32 % 2 == 1) h e2) r2

-- Whatever the bytes, a payload that the parser returns lies inside the packet, behind the 12
-- bytes of the fixed header, and is not empty; the sequence number is in bytes 2 and 3.
pub try_parse_rtp_packet-Payload :
    (packet : Bytes) (out : ParsedOpusPacket)
    → try_parse_rtp_packet packet ≡ some out
    → Payload packet out
unfolding try_parse_rtp_packet
try_parse_rtp_packet-Payload packet out e =
    sections-Payload packet (byte_at packet 0) out (ground arith) (ground arith)
