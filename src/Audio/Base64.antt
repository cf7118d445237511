-- ===== src/Audio/Base64.antt =====
-- src/audio/base64.cpp.
pub mod Size
pub mod RoundTrip
use asrcpp_gigam.Base.{
  leb, ◌==◌, if◌then◌else◌, ℕ, ◌+◌, ◌-◌, ◌*◌, ◌/◌, ◌%◌, ◌^◌, Bool, true, false, ◌&&◌, ◌||◌, Option,
  none, some, [], ◌∷◌, ◌++◌,
}
use asrcpp_gigam.Base.Bytes.{Bytes, isspace}
use asrcpp_gigam.Base.Result.{Result, ◌>>=◌, ◌>>◌, throw_if, ok, err}
use asrcpp_gigam.Audio.{AudioError, invalid_base64, text_after_padding, dangling_bits}

-- `none` is -1.
unfoldable pub decode_base64_char : ℕ → Option ℕ
decode_base64_char c =
    if leb b'A' c && leb c b'Z'
    then some (c - b'A')
    else if leb b'a' c && leb c b'z'
    then some (c - b'a' + 26)
    else if leb b'0' c && leb c b'9'
    then some (c - b'0' + 52)
    else if c == b'+' || c == b'-'
    then some 62
    else if c == b'/' || c == b'_'
    then some 63
    else none

-- The variables of the loop. `accum` is a `uint32_t`.
pub record Accum : Type 0 where
  pub accum : ℕ
  pub accum_bits : ℕ
  pub seen_pad : Bool
  pub out : Bytes

-- `accum << 6` has six zero bits, so the `|` with a value below 64 is a sum.
unfoldable pub take_bits : Accum → ℕ → Accum
take_bits s v =
    let accum = s.accum * 64 % 2 ^ 32 + v in
    let bits = s.accum_bits + 6 in
    if leb 8 bits
    then record s {
      accum = accum;
      accum_bits = bits - 8;
      out = s.out ++ (accum / 2 ^ (bits - 8) % 256 ∷ []);
    }
    else record s { accum = accum; accum_bits = bits }

-- The value of a character that is neither a space nor `=`.
unfoldable pub take_value : Accum → Option ℕ → Result AudioError Accum
unfolding take_bits
take_value s none = err invalid_base64
take_value s (some v) = ok (take_bits s v)

unfoldable pub take_char : Accum → ℕ → Result AudioError Accum
unfolding take_value decode_base64_char isspace
take_char s c =
    if isspace c
    then ok s
    else if c == b'='
    then ok (record s { seen_pad = true })
    else if s.seen_pad
    then err text_after_padding
    else take_value s (decode_base64_char c)

unfoldable pub take_chars : Accum → Bytes → Result AudioError Accum
take_chars s [] = ok s
take_chars s (c ∷ cs) = take_char s c >>= λ s'. take_chars s' cs

unfoldable pub base64_decode : Bytes → Result AudioError Bytes
unfolding take_chars
base64_decode input = do
  s ← take_chars (record { accum = 0; accum_bits = 0; seen_pad = false; out = [] }) input
  throw_if (leb 6 s.accum_bits) dangling_bits
  ok s.out
