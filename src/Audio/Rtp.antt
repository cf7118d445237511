-- ===== src/Audio/Rtp.antt =====
-- `try_parse_rtp_packet` of src/audio/realtime_opus.cpp. A packet is the list of its bytes; the
-- masks on the first byte are written as quotients and remainders.
pub mod Packet
pub mod RoundTrip
pub mod Bounds
use asrcpp_gigam.Base.{
  ltb, leb, ◌==◌, if◌then◌else◌, length, take, drop, get_or, ℕ, ◌+◌, ◌-◌, ◌*◌, ◌/◌, ◌%◌, Bool, true,
  false, not, ◌||◌, Option, none, some,
}
use asrcpp_gigam.Base.Bytes.{Bytes}

pub record ParsedOpusPacket : Type 0 where
  pub payload : Bytes
  pub has_sequence : Bool
  pub sequence : ℕ
  pub is_rtp : Bool

abbrev pub byte_at : Bytes → ℕ → ℕ
byte_at packet i = get_or packet i 0

-- `{data_ + offset, count}`
abbrev pub subspan : Bytes → ℕ → ℕ → Bytes
subspan packet offset count = take count (drop offset packet)

-- The header with its extension, if that fits into the packet.
unfoldable pub extended_size : Bytes → Bool → ℕ → Option ℕ
extended_size packet false header_size = some header_size
extended_size packet true header_size =
    if ltb (length packet) (header_size + 4)
    then none
    else (let ext_words =
          byte_at packet (header_size + 2) * 256 + byte_at packet (header_size + 3) in
        let size = header_size + 4 + ext_words * 4 in
        if ltb (length packet) size then none else some size)

-- The end of the payload, from the last byte of a padded packet.
unfoldable pub payload_end : Bytes → Bool → ℕ → Option ℕ
payload_end packet false header_size = some (length packet)
payload_end packet true header_size =
    let pad = byte_at packet (length packet - 1) in
    if pad == 0 || ltb (length packet - header_size) pad then none else some (length packet - pad)

unfoldable pub payload_between : Bytes → ℕ → ℕ → Option ParsedOpusPacket
payload_between packet header_size end =
    if leb end header_size
    then none
    else some (record {
      payload = subspan packet header_size (end - header_size);
      has_sequence = true;
      sequence = byte_at packet 2 * 256 + byte_at packet 3;
      is_rtp = true;
    })

infixl 5 ◌>>=◌
abbrev ◌>>=◌ {ℓ κ} : {A : Type ℓ} {B : Type κ} → Option A → (A → Option B) → Option B
none >>= f = none
some a >>= f = f a

unfoldable pub parse_sections : Bytes → ℕ → Option ParsedOpusPacket
unfolding extended_size payload_end payload_between
parse_sections packet flags = do
  header_size ← extended_size packet (flags / 16 % 2 == 1) (12 + flags % 16 * 4)
  end ← payload_end packet (flags / 32 % 2 == 1) header_size
  payload_between packet header_size end

-- `none` is `false`.
unfoldable pub try_parse_rtp_packet : Bytes → Option ParsedOpusPacket
unfolding parse_sections
try_parse_rtp_packet packet =
    let flags = byte_at packet 0 in
    if ltb (length packet) 12
    then none
    else if not (flags / 64 == 2)
    then none
    else if ltb (length packet) (12 + flags % 16 * 4)
    then none
    else parse_sections packet flags
