-- ===== src/Whisper/Times.antt =====
-- `format_timestamp` of src/whisper_api.cpp.

use asrcpp_gigam.Base.{
  leb, ◌==◌, if◌then◌else◌, length, length-append, replicate, All, length-replicate, All-append, ℕ,
  zero, suc, ◌+◌, ◌-◌, ◌*◌, ◌/◌, ◌%◌, ◌^◌, ◌≤◌, ◌<◌, max, ◌≡◌, refl, ap, ◌∙◌, Bool, true, false,
  ◌&&◌, ◌||◌, Option, none, some, List, [], ◌∷◌, ◌++◌, arith,
}
use asrcpp_gigam.Base.Int.{ℤ, pos, negsuc}
use asrcpp_gigam.Base.Bytes.{Bytes}
use asrcpp_gigam.Base.Decimal.{
  decimal, read_decimal, read_decimal-decimal, read_decimal-zeros, decimal_digits, decimal_three,
  decimal_two,
}
use asrcpp_gigam.Json.Library.{to_int, to_int-small}
use asrcpp_gigam.Whisper.{Doubles}
use asrcpp_gigam.Whisper.Fields.{split, split-at, split-whole}

-- `out << n` for an `int`.
abbrev pub written : ℤ → Bytes
written (pos n) = decimal n
written (negsuc n) = b'-' ∷ decimal (suc n)

-- `std::setw(width)` with the fill `0`.
unfoldable pub set_width : ℕ → Bytes → Bytes
set_width width shown = replicate (width - length shown) b'0' ++ shown

-- The text of a number of milliseconds; the hours are cast to `int`.
unfoldable pub format_ms : ℕ → ℕ → Bytes
format_ms total_ms decimal_separator =
    let total_s = total_ms / 1000 in
    let total_m = total_s / 60 in
    set_width 2 (written (to_int (pos (total_m / 60))))
    ++ (b':'
        ∷ (set_width 2 (decimal (total_m % 60))
            ++ (b':'
                ∷ (set_width 2 (decimal (total_s % 60))
                    ++ (decimal_separator ∷ set_width 3 (decimal (total_ms % 1000)))))))

module _ (ds : Doubles) where
  open ds use {floats, milliseconds}

  unfoldable pub format_timestamp : floats.Float → ℕ → Bytes
  unfolding format_ms
  format_timestamp seconds decimal_separator =
      let clamped_seconds =
        if floats.lt (floats.lit 0 1) seconds then seconds else floats.lit 0 1 in
      format_ms (milliseconds clamped_seconds) decimal_separator

-- The separators of the two subtitle formats.
abbrev pub is_separator : ℕ → Bool
is_separator c = c == b',' || c == b'.'

abbrev digit : ℕ → Bool
digit c = leb b'0' c && leb c b'9'

abbrev pub all_digits : Bytes → Bool
all_digits [] = true
all_digits (c ∷ cs) = digit c && all_digits cs

-- A number of as many digits.
abbrev pub number : ℕ → Bytes → Option ℕ
number width shown =
    if length shown == width && all_digits shown then some (read_decimal shown) else none

-- Hours are two digits at least.
abbrev pub hours : Bytes → Option ℕ
hours shown = if leb 2 (length shown) && all_digits shown then some (read_decimal shown) else none

abbrev pub total : Option ℕ → Option ℕ → Option ℕ → Option ℕ → Option ℕ
total (some h) (some m) (some s) (some ms) = some (((h * 60 + m) * 60 + s) * 1000 + ms)
total _ _ _ _ = none

abbrev pub with_seconds : Bytes → Bytes → List Bytes → Option ℕ
with_seconds h m (s ∷ (ms ∷ [])) = total (hours h) (number 2 m) (number 2 s) (number 3 ms)
with_seconds h m _ = none

abbrev pub with_parts : ℕ → List Bytes → Option ℕ
with_parts separator (h ∷ (m ∷ (rest ∷ []))) = with_seconds h m (split (λ c. c == separator) rest)
with_parts separator _ = none

-- The milliseconds that a timestamp says: hours of two digits or more, a colon, minutes of two digits,
-- a colon, seconds of two digits, the separator and three digits of milliseconds.
pub read_timestamp : ℕ → Bytes → Option ℕ
read_timestamp separator shown = with_parts separator (split (λ c. c == b':') shown)

Digits : Bytes → Type 0
Digits = All (λ c. (leb b'0' c && leb c b'9') ≡ true)

set_width-Digits : (width : ℕ) (shown : Bytes) → Digits shown → Digits (set_width width shown)
unfolding Digits set_width
set_width-Digits width shown k =
    All-append _ (replicate (width - length shown) b'0') shown (zeros (width - length shown)) k
  where
    zeros : (n : ℕ) → All (λ c. (leb b'0' c && leb c b'9') ≡ true) (replicate n b'0')
    zeros zero = tt
    zeros (suc n) = (refl, zeros n)

part-Digits : (width n : ℕ) → Digits (set_width width (decimal n))
unfolding Digits
part-Digits width n = set_width-Digits width (decimal n) (decimal_digits n)

Digits-all_digits : (cs : Bytes) → Digits cs → all_digits cs ≡ true
unfolding Digits
Digits-all_digits [] k = refl
Digits-all_digits (c ∷ cs) k = rw (k.0, Digits-all_digits cs k.1) refl

read_decimal-set_width : (width n : ℕ) → read_decimal (set_width width (decimal n)) ≡ n
unfolding set_width
read_decimal-set_width width n =
    read_decimal-zeros (width - length (decimal n)) (decimal n) ∙ read_decimal-decimal n

length-set_width :
    (width : ℕ) (shown : Bytes) → length (set_width width shown) ≡ max width (length shown)
unfolding set_width
length-set_width width shown = omega (
  arith,
  length-append (replicate (width - length shown) b'0') shown,
  length-replicate {A = ℕ} (width - length shown) b'0',
)

-- A number that fits into its width is read back.
number-set_width :
    (width n : ℕ) → length (decimal n) ≤ width → number width (set_width width (decimal n)) ≡ some n
number-set_width width n h =
    rw
      (
        same (length (set_width width (decimal n))) width
            (omega (arith, length-set_width width (decimal n))),
        Digits-all_digits (set_width width (decimal n)) (part-Digits width n),
        read_decimal-set_width width n,
      )
      refl
  where
    same : (a b : ℕ) → a ≡ b → (a == b) ≡ true
    same a b h = ground arith

hours-set_width : (n : ℕ) → hours (set_width 2 (decimal n)) ≡ some n
hours-set_width n =
    rw
      (
        enough (length (set_width 2 (decimal n))) (omega (arith, length-set_width 2 (decimal n))),
        Digits-all_digits (set_width 2 (decimal n)) (part-Digits 2 n),
        read_decimal-set_width 2 n,
      )
      refl
  where
    enough : (a : ℕ) → 2 ≤ a → leb 2 a ≡ true
    enough a h = ground arith

free_of : (c : ℕ) (cs : Bytes) → digit c ≡ false → Digits cs → All (λ d. (d == c) ≡ false) cs
unfolding Digits
free_of c [] h k = tt
free_of c (d ∷ cs) h k = (ground arith, free_of c cs h k.1)

not_digit : (separator : ℕ) → is_separator separator ≡ true → digit separator ≡ false
not_digit separator e = ground arith

not_colon : (separator : ℕ) → is_separator separator ≡ true → (separator == b':') ≡ false
not_colon separator e = ground arith

itself : (c : ℕ) → (c == c) ≡ true
itself c = ground arith

-- Two pieces of digits.
split-two :
    (c : ℕ) (s ms : Bytes)
    → digit c ≡ false
    → Digits s
    → Digits ms
    → split (λ d. d == c) (s ++ (c ∷ ms)) ≡ s ∷ ms ∷ []
split-two c s ms h ds dms =
    split-at (λ d. d == c) s ms c (free_of c s h ds) (itself c)
    ∙ ap (λ t. s ∷ t) (split-whole (λ d. d == c) ms (free_of c ms h dms))

-- Two pieces of digits before the last one.
split-three :
    (c : ℕ) (h m rest : Bytes)
    → digit c ≡ false
    → Digits h
    → Digits m
    → All (λ d. (d == c) ≡ false) rest
    → split (λ d. d == c) (h ++ (c ∷ (m ++ (c ∷ rest)))) ≡ h ∷ m ∷ rest ∷ []
split-three c h m rest e dh dm k =
    split-at (λ d. d == c) h _ c (free_of c h e dh) (itself c)
    ∙ ap (λ t. h ∷ t)
        (split-at (λ d. d == c) m rest c (free_of c m e dm) (itself c)
          ∙ ap (λ t. m ∷ t) (split-whole (λ d. d == c) rest k))

-- A timestamp of less than 2 ^ 31 hours is written with two digits or more for the hours, two for the
-- minutes and the seconds and three for the milliseconds, with a colon between hours, minutes and
-- seconds and the separator of its format, a comma or a dot, before the milliseconds; and the numbers
-- say the milliseconds that it was made from.
pub read_timestamp-format_ms :
    (total_ms separator : ℕ)
    → is_separator separator ≡ true
    → total_ms / 1000 / 60 / 60 < 2 ^ 31
    → read_timestamp separator (format_ms total_ms separator) ≡ some total_ms
unfolding read_timestamp format_ms
read_timestamp-format_ms total_ms separator e h =
    let total_s = total_ms / 1000 in
    let total_m = total_s / 60 in
    rw (to_int-small (total_m / 60) h) (
      ap (with_parts separator) (
        split-three b':' (set_width 2 (decimal (total_m / 60)))
          (set_width 2 (decimal (total_m % 60))) _ refl (part-Digits 2 (total_m / 60))
          (part-Digits 2 (total_m % 60))
          (All-append _ (set_width 2 (decimal (total_s % 60))) _
            (free_of b':' _ refl (part-Digits 2 (total_s % 60)))
            (not_colon separator e, free_of b':' _ refl (part-Digits 3 (total_ms % 1000)))))
      ∙ (ap
            (with_seconds (set_width 2 (decimal (total_m / 60)))
              (set_width 2 (decimal (total_m % 60))))
            (split-two separator (set_width 2 (decimal (total_s % 60)))
              (set_width 3 (decimal (total_ms % 1000))) (not_digit separator e)
              (part-Digits 2 (total_s % 60)) (part-Digits 3 (total_ms % 1000)))
          ∙ rw
              (
                hours-set_width (total_m / 60),
                number-set_width 2 (total_m % 60) (decimal_two (total_m % 60) (omega arith)),
                number-set_width 2 (total_s % 60) (decimal_two (total_s % 60) (omega arith)),
                number-set_width 3 (total_ms % 1000)
                    (decimal_three (total_ms % 1000) (omega arith)),
              )
              (ap some (omega arith))))
