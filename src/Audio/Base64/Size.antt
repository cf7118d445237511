-- ===== src/Audio/Base64/Size.antt =====
-- How much `base64_decode` writes.
use asrcpp_gigam.Base.{
  leb, ◌==◌, if_cases, length, length-append, All, All-append, ℕ, suc, ◌+◌, ◌-◌, ◌*◌, ◌/◌, ◌%◌, ◌^◌,
  ◌≤◌, ◌<◌, ◌≡◌, refl, subst, Bool, true, false, Option, none, some, [], ◌∷◌, arith,
}
use asrcpp_gigam.Base.Result.{◌>>◌, throw_if, Ensures, Ensures-ok, Ensures->>=, ok}
use asrcpp_gigam.Base.Bytes.{Bytes, isspace}
use asrcpp_gigam.Audio.{dangling_bits}
use asrcpp_gigam.Audio.Base64.{
  decode_base64_char, Accum, take_bits, take_value, take_char, take_chars, base64_decode,
}

-- `n` characters gave six bits each at most, and the bits that are no byte yet are 0, 2, 4 or 6.
record Fills (n : ℕ) (s : Accum) : Type 0 where
  bits : 8 * length s.out + s.accum_bits ≤ 6 * n
  few : s.accum_bits < 8
  word : s.accum < 2 ^ 32
  bytes : All (λ b. b < 256) s.out

take_bits-Fills : (n v : ℕ) (s : Accum) → v < 64 → Fills n s → Fills (suc n) (take_bits s v)
unfolding take_bits
take_bits-Fills n v s h f =
    let b : ℕ = (s.accum * 64 % 2 ^ 32 + v) / 2 ^ (s.accum_bits + 6 - 8) % 256 in
    if_cases (Fills (suc n)) (leb 8 (s.accum_bits + 6))
      (λ e. record {
        bits = ground (arith, length-append s.out (b ∷ []), f.bits);
        few = ground (arith, f.few);
        word = omega arith;
        bytes = All-append (λ x. x < 256) s.out (b ∷ []) f.bytes (omega arith, tt);
      })
      (λ e. record {
        bits = ground (arith, f.bits);
        few = ground arith;
        word = omega arith;
        bytes = f.bytes;
      })

decode_base64_char-lt : (c v : ℕ) → decode_base64_char c ≡ some v → v < 64
unfolding decode_base64_char
decode_base64_char-lt c v h = ground arith

more : (n : ℕ) (s : Accum) → Fills n s → Fills (suc n) s
more n s f = record { bits = omega (arith, f.bits); few = f.few; word = f.word; bytes = f.bytes }

take_value-Fills :
    (n : ℕ) (s : Accum) (o : Option ℕ)
    → ((v : ℕ) → o ≡ some v → v < 64)
    → Fills n s
    → Ensures (Fills (suc n)) (take_value s o)
unfolding take_value
take_value-Fills n s none small f = tt
take_value-Fills n s (some v) small f = take_bits-Fills n v s (small v refl) f

take_char-Fills : (n c : ℕ) (s : Accum) → Fills n s → Ensures (Fills (suc n)) (take_char s c)
unfolding take_char
take_char-Fills n c s f =
    if_cases (Ensures (Fills (suc n))) (isspace c) (λ _. more n s f)
      λ _.
        if_cases (Ensures (Fills (suc n))) (c == b'=')
          (λ _. record {
            bits = omega (arith, f.bits);
            few = f.few;
            word = f.word;
            bytes = f.bytes;
          })
          λ _.
            if_cases (Ensures (Fills (suc n))) s.seen_pad (λ _. tt)
              (λ _. take_value-Fills n s (decode_base64_char c) (decode_base64_char-lt c) f)

take_chars-Fills :
    (n : ℕ) (s : Accum) (cs : Bytes) → Fills n s → Ensures (Fills (n + length cs)) (take_chars s cs)
unfolding take_chars
take_chars-Fills n s [] f = subst (λ k. Fills k s) (omega arith) f
take_chars-Fills n s (c ∷ cs) f =
    Ensures->>= (Fills (suc n)) (Fills (n + suc (length cs))) (take_char s c) _
      (take_char-Fills n c s f)
      (λ s' f'.
        subst (λ k. Ensures (Fills k) (take_chars s' cs)) (omega arith)
          (take_chars-Fills (suc n) s' cs f'))

-- Whatever `base64_decode` accepts, it writes bytes, and at most three for each four characters:
-- within the (3 n) / 4 + 3 bytes that it reserves.
base64_decode_size :
    (input out : Bytes)
    → base64_decode input ≡ ok out
    → All (λ b. b < 256) out × (4 * length out ≤ 3 * length input)
unfolding base64_decode
base64_decode_size input out h =
    Ensures-ok (λ o. All (λ b. b < 256) o × (4 * length o ≤ 3 * length input)) (base64_decode input)
      h
      (Ensures->>= (Fills (length input))
        (λ o. All (λ b. b < 256) o × (4 * length o ≤ 3 * length input)) (take_chars start input) _
        (subst (λ k. Ensures (Fills k) (take_chars start input)) (omega arith)
          (take_chars-Fills 0 start input empty))
        (λ s f. finish s f (leb 6 s.accum_bits)))
  where
    start : Accum
    start = record { accum = 0; accum_bits = 0; seen_pad = false; out = [] }

    empty : Fills 0 start
    empty = omega arith

    finish :
        (s : Accum)
        → Fills (length input) s
        → (c : Bool)
        → Ensures
            (λ o. All (λ b. b < 256) o × (4 * length o ≤ 3 * length input))
            (throw_if c dangling_bits >> ok s.out)
    finish s f true = tt
    finish s f false = (f.bytes, omega (arith, f.bits))
