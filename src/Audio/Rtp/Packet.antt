-- ===== src/Audio/Rtp/Packet.antt =====
-- The packets of RFC 3550, and how each step of `try_parse_rtp_packet` reads them.
use asrcpp_gigam.Base.{
  is_some, length, length-append, take, replicate, length-replicate, take-length, drop-length,
  get_or-append, ℕ, ◌+◌, ◌-◌, ◌*◌, ◌/◌, ◌%◌, ◌<◌, ◌≡◌, ap, ◌∙◌, true, Option, none, some, [], ◌∷◌,
  ◌++◌, append-nil, arith,
}
use asrcpp_gigam.Base.Bytes.{Bytes}
use asrcpp_gigam.Audio.Rtp.{
  ParsedOpusPacket, byte_at, subspan, extended_size, payload_end, payload_between,
}

-- A packet by its fields. `stamp` is the timestamp and the SSRC, an extension is its profile and
-- its words, and `some n` padding is n + 1 bytes.
pub record RtpPacket : Type 0 where
  pub marker : ℕ
  pub sequence : ℕ
  pub stamp : Bytes
  pub csrc_count : ℕ
  pub csrcs : Bytes
  pub extension : Option (ℕ × ℕ × ℕ × Bytes)
  pub payload : Bytes
  pub padding : Option ℕ

abbrev pub bit {ℓ} : {A : Type ℓ} → Option A → ℕ
bit none = 0
bit (some a) = 1

abbrev pub flags : RtpPacket → ℕ
flags r = 128 + bit r.padding * 32 + bit r.extension * 16 + r.csrc_count

abbrev pub front : RtpPacket → Bytes
front r = flags r ∷ r.marker ∷ (r.sequence / 256) ∷ (r.sequence % 256) ∷ (r.stamp ++ r.csrcs)

-- The profile, the number of words, the words.
abbrev pub extension_bytes : Option (ℕ × ℕ × ℕ × Bytes) → Bytes
extension_bytes none = []
extension_bytes (some (p, q, n, words)) = p ∷ q ∷ (n / 256) ∷ (n % 256) ∷ words

abbrev pub padding_bytes : Option ℕ → Bytes
padding_bytes none = []
padding_bytes (some n) = replicate n 0 ++ ((n + 1) ∷ [])

abbrev pub write : RtpPacket → Bytes
write r = front r ++ (extension_bytes r.extension ++ (r.payload ++ padding_bytes r.padding))

abbrev pub ExtensionFits : Option (ℕ × ℕ × ℕ × Bytes) → Type 0
ExtensionFits none = Unit
ExtensionFits (some (p, q, n, words)) = (n < 65536) × (length words ≡ 4 * n)

abbrev pub PaddingFits : Option ℕ → Type 0
PaddingFits none = Unit
PaddingFits (some n) = n < 255

pub record IsPacket (r : RtpPacket) : Type 0 where
  pub numbered : r.sequence < 65536
  pub stamped : length r.stamp ≡ 8
  pub sources : r.csrc_count < 16
  pub listed : length r.csrcs ≡ 4 * r.csrc_count
  pub extended : ExtensionFits r.extension
  pub filled : 0 < length r.payload
  pub padded : PaddingFits r.padding

pub length-front : (r : RtpPacket) → IsPacket r → length (front r) ≡ 12 + r.csrc_count * 4
length-front r v = omega (arith, length-append r.stamp r.csrcs, v.stamped, v.listed)

pub extended_size-write :
    (pre tail : Bytes) (e : Option (ℕ × ℕ × ℕ × Bytes))
    → ExtensionFits e
    → extended_size (pre ++ (extension_bytes e ++ tail)) (is_some e) (length pre)
      ≡ some (length pre + length (extension_bytes e))
unfolding extended_size
extended_size-write pre tail none h = ap some (omega arith)
extended_size-write pre tail (some (p, q, n, words)) h =
    let rest : Bytes = p ∷ q ∷ (n / 256) ∷ (n % 256) ∷ (words ++ tail) in
    ground (
      arith,
      get_or-append pre rest 2 0,
      get_or-append pre rest 3 0,
      length-append pre rest,
      length-append words tail,
    )

last_pad :
    (pre : Bytes) (n : ℕ)
    → byte_at (pre ++ (replicate n 0 ++ ((n + 1) ∷ []))) (length pre + n) ≡ n + 1
last_pad pre n =
    get_or-append pre (replicate n 0 ++ ((n + 1) ∷ [])) n 0
    ∙ ap (λ k. byte_at (replicate n 0 ++ ((n + 1) ∷ [])) k) {x = n} {y = length (replicate n 0) + 0}
        (omega (arith, length-replicate {A = ℕ} n 0))
    ∙ get_or-append (replicate n 0) ((n + 1) ∷ []) 0 0

pub payload_end-write :
    (pre : Bytes) (p : Option ℕ) (h : ℕ)
    → h < length pre
    → PaddingFits p
    → payload_end (pre ++ padding_bytes p) (is_some p) h ≡ some (length pre)
unfolding payload_end
payload_end-write pre none h lt f = ap (λ (l : Bytes). some (length l)) (append-nil pre)
payload_end-write pre (some n) h lt f =
    let all : Bytes = pre ++ (replicate n 0 ++ ((n + 1) ∷ [])) in
    let size : length all ≡ length pre + n + 1 = omega (
      arith,
      length-append pre (replicate n 0 ++ ((n + 1) ∷ [])),
      length-append (replicate n 0) ((n + 1) ∷ []),
      length-replicate {A = ℕ} n 0,
    ) in
    let pad : byte_at all (length all - 1) ≡ n + 1 =
      ap (λ k. byte_at all k) {x = length all - 1} {y = length pre + n} (omega (arith, size))
      ∙ last_pad pre n in
    ground (arith, size, pad)

pub payload_between-write :
    (pre payload post : Bytes)
    → 0 < length payload
    → payload_between (pre ++ (payload ++ post)) (length pre) (length pre + length payload)
      ≡ some (record {
        payload = payload;
        has_sequence = true;
        sequence =
            byte_at (pre ++ (payload ++ post)) 2 * 256 + byte_at (pre ++ (payload ++ post)) 3;
        is_rtp = true;
      })
unfolding payload_between
payload_between-write pre payload post h =
    let cut : subspan (pre ++ (payload ++ post)) (length pre)
          (length pre + length payload - length pre)
        ≡ payload =
      ap (λ d. take (length pre + length payload - length pre) d)
        (drop-length pre (payload ++ post))
      ∙ ap (λ k. take k (payload ++ post)) {x = length pre + length payload - length pre}
          (omega arith)
      ∙ take-length payload post in
    ground (arith, cut)

-- The parsed form of a packet.
abbrev pub parsed : RtpPacket → ParsedOpusPacket
parsed r = record { payload = r.payload; has_sequence = true; sequence = r.sequence; is_rtp = true }
