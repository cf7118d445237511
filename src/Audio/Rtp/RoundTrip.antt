-- ===== src/Audio/Rtp/RoundTrip.antt =====
-- `try_parse_rtp_packet` reads the packets of RFC 3550.
use asrcpp_gigam.Base.{
  ◌==◌, le→ltb, is_some, length, length-append, ℕ, ◌+◌, ◌*◌, ◌/◌, ◌%◌, ◌≡◌, sym, ap, ◌∙◌, true,
  Option, none, some, ◌++◌, append_assoc, arith,
}
use asrcpp_gigam.Base.Bytes.{Bytes}
use asrcpp_gigam.Audio.Rtp.{
  extended_size, payload_end, payload_between, parse_sections, try_parse_rtp_packet,
}
use asrcpp_gigam.Audio.Rtp.Packet.{
  RtpPacket, bit, flags, front, extension_bytes, padding_bytes, write, IsPacket, length-front,
  extended_size-write, payload_end-write, payload_between-write, parsed,
}

flags_bits :
    (r : RtpPacket)
    → IsPacket r
    → ((flags r / 16 % 2 == 1) ≡ is_some r.extension)
      × ((flags r / 32 % 2 == 1) ≡ is_some r.padding)
      × (flags r % 16 ≡ r.csrc_count)
      × (flags r / 64 ≡ 2)
flags_bits r v = (
  bits_extension r.extension r.padding,
  bits_padding r.extension r.padding,
  ground (arith, v.sources),
  ground (arith, v.sources),
)
  where
    bits_extension :
        (e : Option (ℕ × ℕ × ℕ × Bytes)) (p : Option ℕ)
        → ((128 + bit p * 32 + bit e * 16 + r.csrc_count) / 16 % 2 == 1) ≡ is_some e
    bits_extension none none = ground (arith, v.sources)
    bits_extension none (some n) = ground (arith, v.sources)
    bits_extension (some x) none = ground (arith, v.sources)
    bits_extension (some x) (some n) = ground (arith, v.sources)

    bits_padding :
        (e : Option (ℕ × ℕ × ℕ × Bytes)) (p : Option ℕ)
        → ((128 + bit p * 32 + bit e * 16 + r.csrc_count) / 32 % 2 == 1) ≡ is_some p
    bits_padding none none = ground (arith, v.sources)
    bits_padding none (some n) = ground (arith, v.sources)
    bits_padding (some x) none = ground (arith, v.sources)
    bits_padding (some x) (some n) = ground (arith, v.sources)

module _ (r : RtpPacket) (v : IsPacket r) where
  header_end : ℕ
  header_end = length (front r) + length (extension_bytes r.extension)

  extension_found :
      extended_size (write r) (flags r / 16 % 2 == 1) (12 + flags r % 16 * 4) ≡ some header_end
  unfolding header_end
  extension_found =
      let (e, _, c, _) = flags_bits r v in
      ap (λ b. extended_size (write r) b (12 + flags r % 16 * 4)) e
      ∙ ap (extended_size (write r) (is_some r.extension)) {x = 12 + flags r % 16 * 4}
          {y = length (front r)} (omega (arith, c, length-front r v))
      ∙ extended_size-write (front r) (r.payload ++ padding_bytes r.padding) r.extension v.extended

  before_padding : Bytes
  before_padding = front r ++ (extension_bytes r.extension ++ r.payload)

  length-before_padding : length before_padding ≡ header_end + length r.payload
  unfolding before_padding header_end
  length-before_padding = omega (
    arith,
    length-append (front r) (extension_bytes r.extension ++ r.payload),
    length-append (extension_bytes r.extension) r.payload,
  )

  padding_found :
      payload_end (write r) (flags r / 32 % 2 == 1) header_end
      ≡ some (header_end + length r.payload)
  unfolding before_padding
  padding_found =
      let (_, p, _, _) = flags_bits r v in
      ap (λ b. payload_end (write r) b header_end) p
      ∙ ap (λ w. payload_end w (is_some r.padding) header_end) {x = write r}
          {y = before_padding ++ padding_bytes r.padding} (simp append_assoc)
      ∙ payload_end-write before_padding r.padding header_end
          (omega (arith, length-before_padding, v.filled)) v.padded
      ∙ ap some length-before_padding

  payload_found :
      payload_between (write r) header_end (header_end + length r.payload) ≡ some (parsed r)
  unfolding header_end
  payload_found =
      ap (λ w. payload_between w header_end (header_end + length r.payload))
        (sym (append_assoc (front r) (extension_bytes r.extension) tail))
      ∙ ap (λ h. payload_between (pre ++ tail) h (h + length r.payload))
          (sym (length-append (front r) (extension_bytes r.extension)))
      ∙ payload_between-write pre r.payload (padding_bytes r.padding) v.filled
      ∙ ap
          (λ s.
            some (record { payload = r.payload; has_sequence = true; sequence = s; is_rtp = true }))
          {x = r.sequence / 256 * 256 + r.sequence % 256} (omega arith)
    where
      pre : Bytes
      pre = front r ++ extension_bytes r.extension

      tail : Bytes
      tail = r.payload ++ padding_bytes r.padding

  sections-write : parse_sections (write r) (flags r) ≡ some (parsed r)
  unfolding parse_sections
  sections-write = rw extension_found (rw padding_found payload_found)

-- Of every packet with up to 15 sources, with or without a header extension and padding, the
-- parser finds the payload and the sequence number.
pub try_parse_rtp_packet-write :
    (r : RtpPacket) → IsPacket r → try_parse_rtp_packet (write r) ≡ some (parsed r)
unfolding try_parse_rtp_packet
try_parse_rtp_packet-write r v =
    let (_, _, c, version) = flags_bits r v in
    let size =
      length-append (front r)
        (extension_bytes r.extension ++ (r.payload ++ padding_bytes r.padding)) in
    rw (le→ltb (length (write r)) 12 (omega (arith, size, length-front r v))) (
      rw version (
        rw
          (le→ltb (length (write r)) (12 + flags r % 16 * 4)
            (omega (arith, size, c, length-front r v)))
          (sections-write r v)))
