-- ===== src/Base/Decimal.antt =====
-- Decimal numbers, as `std::to_string` and `std::to_chars` write them.
use asrcpp_gigam.Base.{
  ltb, leb, if◌then◌else◌, if_cases, length, length-append, replicate, All, All-append, ℕ, zero,
  suc, ◌+◌, ◌-◌, ◌*◌, ◌/◌, ◌%◌, ◌≤◌, ◌<◌, ◌≡◌, refl, sym, ap, ◌∙◌, true, false, ◌&&◌, [], ◌∷◌, ◌++◌,
  arith,
}
use asrcpp_gigam.Base.Bytes.{Bytes}

-- The last digit first divides; the fuel bounds the number of digits.
digits : ℕ → ℕ → Bytes
digits zero n = []
digits (suc fuel) n =
    let rest = digits fuel (n / 10) in
    if ltb n 10 then (b'0' + n) ∷ [] else rest ++ ((b'0' + n % 10) ∷ [])

unfoldable pub decimal : ℕ → Bytes
unfolding digits
decimal n = digits (suc n) n

-- The number that a string of digits writes.
read_from : ℕ → Bytes → ℕ
read_from acc [] = acc
read_from acc (c ∷ cs) = read_from (acc * 10 + (c - b'0')) cs

pub read_decimal : Bytes → ℕ
unfolding read_from
read_decimal cs = read_from 0 cs

read_from-append :
    (acc : ℕ) (xs ys : Bytes) → read_from acc (xs ++ ys) ≡ read_from (read_from acc xs) ys
unfolding read_from
read_from-append acc [] ys = refl
read_from-append acc (x ∷ xs) ys = read_from-append (acc * 10 + (x - b'0')) xs ys

read_from-digits : (fuel n : ℕ) → n < fuel → read_from 0 (digits fuel n) ≡ n
unfolding digits read_from
read_from-digits zero n h = absurd (omega arith)
read_from-digits (suc fuel) n h =
    if_cases (λ t. read_from 0 t ≡ n) (ltb n 10) (λ e. omega arith)
      λ e.
        read_from-append 0 (digits fuel (n / 10)) ((b'0' + n % 10) ∷ [])
        ∙ (ap (λ k. k * 10 + (b'0' + n % 10 - b'0'))
              (read_from-digits fuel (n / 10) (less n fuel e h))
            ∙ omega arith)
  where
    less : (n fuel : ℕ) → ltb n 10 ≡ false → n < suc fuel → n / 10 < fuel
    less n fuel e h = ground arith

pub read_decimal-decimal : (n : ℕ) → read_decimal (decimal n) ≡ n
unfolding read_decimal decimal
read_decimal-decimal n = read_from-digits (suc n) n (omega arith)

pub decimal_injective : (m n : ℕ) → decimal m ≡ decimal n → m ≡ n
decimal_injective m n h =
    sym (read_decimal-decimal m) ∙ (ap read_decimal h ∙ read_decimal-decimal n)

-- Zeros in front change nothing.
pub read_decimal-zeros :
    (k : ℕ) (ds : Bytes) → read_decimal (replicate k b'0' ++ ds) ≡ read_decimal ds
unfolding read_decimal read_from
read_decimal-zeros zero ds = refl
read_decimal-zeros (suc k) ds = read_decimal-zeros k ds

digits-All : (fuel n : ℕ) → All (λ c. (leb b'0' c && leb c b'9') ≡ true) (digits fuel n)
unfolding digits
digits-All zero n = tt
digits-All (suc fuel) n =
    if_cases (All (λ c. (leb b'0' c && leb c b'9') ≡ true)) (ltb n 10) (λ e. (ground arith, tt))
      λ e.
        All-append _ (digits fuel (n / 10)) ((b'0' + n % 10) ∷ []) (digits-All fuel (n / 10))
          (ground arith, tt)

pub decimal_digits : (n : ℕ) → All (λ c. (leb b'0' c && leb c b'9') ≡ true) (decimal n)
unfolding decimal
decimal_digits n = digits-All (suc n) n

short_one : (fuel n : ℕ) → n < 10 → length (digits fuel n) ≤ 1
unfolding digits
short_one zero n h = omega arith
short_one (suc fuel) n h = ground arith

short_two : (fuel n : ℕ) → n < 100 → length (digits fuel n) ≤ 2
unfolding digits
short_two zero n h = omega arith
short_two (suc fuel) n h =
    if_cases (λ (t : Bytes). length t ≤ 2) (ltb n 10) {x = (b'0' + n) ∷ []} (λ e. omega arith)
      λ e. omega (
        arith,
        length-append (digits fuel (n / 10)) ((b'0' + n % 10) ∷ []),
        short_one fuel (n / 10) (omega arith),
      )

-- A number below 1000 has three digits at most, one below 100 two.
pub decimal_three : (n : ℕ) → n < 1000 → length (decimal n) ≤ 3
unfolding decimal digits
decimal_three n h =
    if_cases (λ (t : Bytes). length t ≤ 3) (ltb n 10) {x = (b'0' + n) ∷ []} (λ e. omega arith)
      λ e. omega (
        arith,
        length-append (digits n (n / 10)) ((b'0' + n % 10) ∷ []),
        short_two n (n / 10) (omega arith),
      )

pub decimal_two : (n : ℕ) → n < 100 → length (decimal n) ≤ 2
unfolding decimal
decimal_two n h = short_two (suc n) n h
