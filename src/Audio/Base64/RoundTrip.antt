-- ===== src/Audio/Base64/RoundTrip.antt =====
-- `base64_decode` reads what an encoder writes: RFC 4648, section 4, with its padding.
use asrcpp_gigam.Base.{
  ltb, leb, ◌==◌, if◌then◌else◌, All, ℕ, ◌+◌, ◌-◌, ◌*◌, ◌/◌, ◌%◌, ◌^◌, ◌<◌, ◌≡◌, refl, sym, ap, ◌∙◌,
  true, false, [], ◌∷◌, ◌++◌, append_assoc, append-nil, arith,
}
use asrcpp_gigam.Base.Bytes.{Bytes, isspace}
use asrcpp_gigam.Base.Result.{ok}
use asrcpp_gigam.Audio.Base64.{
  decode_base64_char, Accum, take_bits, take_value, take_char, take_chars, base64_decode,
}

-- The character of a six-bit value.
abbrev pub char_of : ℕ → ℕ
char_of v =
    if ltb v 26
    then v + b'A'
    else if ltb v 52
    then v - 26 + b'a'
    else if ltb v 62
    then v - 52 + b'0'
    else if v == 62
    then b'+'
    else b'/'

-- The characters after the first: the low bits of a byte above the high bits `w` of the next.
abbrev pub second : ℕ → ℕ → ℕ
second a w = char_of (a % 4 * 16 + w)

abbrev pub third : ℕ → ℕ → ℕ
third b w = char_of (b % 16 * 4 + w)

abbrev pub encode : Bytes → Bytes
encode [] = []
encode (a ∷ []) = char_of (a / 4) ∷ second a 0 ∷ b'=' ∷ b'=' ∷ []
encode (a ∷ b ∷ []) = char_of (a / 4) ∷ second a (b / 16) ∷ third b 0 ∷ b'=' ∷ []
encode (a ∷ b ∷ c ∷ rest) =
    char_of (a / 4) ∷ second a (b / 16) ∷ third b (c / 64) ∷ char_of (c % 64) ∷ encode rest

-- A character of the alphabet adds its six bits.
take_char-char_of :
    (s : Accum) (v : ℕ) → v < 64 → s.seen_pad ≡ false → take_char s (char_of v) ≡ ok (take_bits s v)
unfolding take_char take_value decode_base64_char isspace
take_char-char_of s v h p = ground arith

take_pad : (s : Accum) → take_char s b'=' ≡ ok (record s { seen_pad = true })
unfolding take_char isspace
take_pad s = refl

abbrev with_bits : ℕ → ℕ → Bytes → Accum
with_bits accum bits out = record { accum = accum; accum_bits = bits; seen_pad = false; out = out }

-- Three characters later a byte has been written and four bits are left, and so on.
bits0 :
    (x v : ℕ) (out : Bytes)
    → take_bits (with_bits x 0 out) v ≡ with_bits (x * 64 % 2 ^ 32 + v) 6 out
unfolding take_bits
bits0 x v out = refl

bits6 :
    (x v : ℕ) (out : Bytes)
    → take_bits (with_bits x 6 out) v
      ≡ (let y = x * 64 % 2 ^ 32 + v in with_bits y 4 (out ++ (y / 16 % 256 ∷ [])))
unfolding take_bits
bits6 x v out = refl

bits4 :
    (x v : ℕ) (out : Bytes)
    → take_bits (with_bits x 4 out) v
      ≡ (let y = x * 64 % 2 ^ 32 + v in with_bits y 2 (out ++ (y / 4 % 256 ∷ [])))
unfolding take_bits
bits4 x v out = refl

bits2 :
    (x v : ℕ) (out : Bytes)
    → take_bits (with_bits x 2 out) v
      ≡ (let y = x * 64 % 2 ^ 32 + v in with_bits y 0 (out ++ (y / 1 % 256 ∷ [])))
unfolding take_bits
bits2 x v out = refl

eat :
    (s s' : Accum) (v : ℕ) (cs : Bytes)
    → v < 64
    → s.seen_pad ≡ false
    → take_bits s v ≡ s'
    → take_chars s (char_of v ∷ cs) ≡ take_chars s' cs
unfolding take_chars
eat s s' v cs h p e = rw (take_char-char_of s v h p) (ap (λ r. take_chars r cs) e)

-- The accumulator after the characters with the values `vs`.
abbrev shifted : ℕ → ℕ → ℕ
shifted x v = x * 64 % 2 ^ 32 + v

eat2 :
    (x a w : ℕ) (out cs : Bytes)
    → a < 256
    → w < 16
    → take_chars (with_bits x 0 out) (char_of (a / 4) ∷ char_of (a % 4 * 16 + w) ∷ cs)
      ≡ take_chars (with_bits (shifted (shifted x (a / 4)) (a % 4 * 16 + w)) 4 (out ++ (a ∷ []))) cs
eat2 x a w out cs h k =
    eat _ _ (a / 4) (char_of (a % 4 * 16 + w) ∷ cs) (omega arith) refl (bits0 x (a / 4) out)
    ∙ eat _ _ (a % 4 * 16 + w) cs (omega arith) refl (
        bits6 (shifted x (a / 4)) (a % 4 * 16 + w) out
        ∙ ap (λ b. with_bits (shifted (shifted x (a / 4)) (a % 4 * 16 + w)) 4 (out ++ (b ∷ [])))
            (omega arith))

eat3 :
    (x a b w : ℕ) (out cs : Bytes)
    → b < 256
    → w < 4
    → take_chars (with_bits (shifted x (a % 4 * 16 + b / 16)) 4 out) (char_of (b % 16 * 4 + w) ∷ cs)
      ≡ take_chars
          (with_bits
            (shifted (shifted x (a % 4 * 16 + b / 16)) (b % 16 * 4 + w))
            2
            (out ++ (b ∷ [])))
          cs
eat3 x a b w out cs h k = eat _ _ (b % 16 * 4 + w) cs (omega arith) refl (
    bits4 (shifted x (a % 4 * 16 + b / 16)) (b % 16 * 4 + w) out
    ∙ ap
        (λ c.
          with_bits (shifted (shifted x (a % 4 * 16 + b / 16)) (b % 16 * 4 + w)) 2
            (out ++ (c ∷ [])))
        (omega arith))

eat4 :
    (x b c : ℕ) (out cs : Bytes)
    → c < 256
    → take_chars (with_bits (shifted x (b % 16 * 4 + c / 64)) 2 out) (char_of (c % 64) ∷ cs)
      ≡ take_chars
          (with_bits (shifted (shifted x (b % 16 * 4 + c / 64)) (c % 64)) 0 (out ++ (c ∷ [])))
          cs
eat4 x b c out cs h = eat _ _ (c % 64) cs (omega arith) refl (
    bits2 (shifted x (b % 16 * 4 + c / 64)) (c % 64) out
    ∙ ap (λ d. with_bits (shifted (shifted x (b % 16 * 4 + c / 64)) (c % 64)) 0 (out ++ (d ∷ [])))
        (omega arith))

eat_pads : (s : Accum) → take_chars s (b'=' ∷ b'=' ∷ []) ≡ ok (record s { seen_pad = true })
unfolding take_chars
eat_pads s = rw (take_pad s, take_pad (record s { seen_pad = true }))

eat_pad : (s : Accum) → take_chars s (b'=' ∷ []) ≡ ok (record s { seen_pad = true })
unfolding take_chars
eat_pad s = rw (take_pad s)

-- The loop over a whole encoding writes the bytes, and leaves fewer than six bits.
take_chars-encode :
    (bytes : Bytes) (x : ℕ) (out : Bytes)
    → All (λ b. b < 256) bytes
    → (s : Accum) × (take_chars (with_bits x 0 out) (encode bytes) ≡ ok s)
      × (s.out ≡ out ++ bytes)
      × (s.accum_bits < 6)
take_chars-encode [] x out h =
    (with_bits x 0 out, unfold take_chars in refl, sym (append-nil out), omega arith)
take_chars-encode (a ∷ []) x out h =
    (_, eat2 x a 0 out _ h.0 (omega arith) ∙ eat_pads _, refl, omega arith)
take_chars-encode (a ∷ b ∷ []) x out h = (
  _,
  eat2 x a (b / 16) out _ h.0 (omega arith) ∙ eat3 _ a b 0 _ _ h.1.0 (omega arith) ∙ eat_pad _,
  append_assoc out (a ∷ []) (b ∷ []),
  omega arith,
)
take_chars-encode (a ∷ b ∷ c ∷ rest) x out h =
    let (s, e, o, k) =
      take_chars-encode rest _ (((out ++ (a ∷ [])) ++ (b ∷ [])) ++ (c ∷ [])) h.1.1.1 in
    (
      s,
      eat2 x a (b / 16) out _ h.0 (omega arith)
          ∙ eat3 _ a b (c / 64) _ _ h.1.0 (omega arith)
          ∙ eat4 _ b c _ _ h.1.1.0
          ∙ e,
      o ∙ simp append_assoc,
      k,
    )

-- Decoding gives back every byte sequence that was encoded, of any length.
pub base64_decode-encode :
    (bytes : Bytes) → All (λ b. b < 256) bytes → base64_decode (encode bytes) ≡ ok bytes
unfolding base64_decode
base64_decode-encode bytes h =
    let (s, e, o, k) = take_chars-encode bytes 0 [] h in
    rw e (rw (leb_false s.accum_bits k) (ap ok o))
  where
    leb_false : (n : ℕ) → n < 6 → leb 6 n ≡ false
    leb_false n h = ground arith
