-- ===== src/Base/Bytes.antt =====
-- Byte strings: a `std::string` is the list of its bytes. Equality, `std::isspace` and
-- `std::tolower` of the C locale.
use Prim.Native.Char.{code}
use Prim.Native.String.{String}
use asrcpp_gigam.Base.{
  ℕ, ◌+◌, ◌≡◌, refl, map, Bool, true, false, ◌&&◌, ◌||◌, List, [], ◌∷◌, arith, leb, ◌==◌,
  if◌then◌else◌,
}

abbrev pub Bytes : Type 0
Bytes = List ℕ

-- The bytes of an ASCII literal.
abbrev pub codes : String → Bytes
codes String.[] = []
codes (String.◌∷◌ c s) = code c ∷ codes s

unfoldable pub bytes_eq : Bytes → Bytes → Bool
bytes_eq [] [] = true
bytes_eq [] (b ∷ bs) = false
bytes_eq (a ∷ s) [] = false
bytes_eq (a ∷ s) (b ∷ bs) = a == b && bytes_eq s bs

pub bytes_eq→eq : (s t : Bytes) → bytes_eq s t ≡ true → s ≡ t
unfolding bytes_eq
bytes_eq→eq [] [] h = refl
bytes_eq→eq [] (b ∷ bs) h = ground arith
bytes_eq→eq (a ∷ s) [] h = ground arith
bytes_eq→eq (a ∷ s) (b ∷ bs) h = ground (arith, bytes_eq→eq s bs)

pub bytes_eq_refl : (s : Bytes) → bytes_eq s s ≡ true
unfolding bytes_eq
bytes_eq_refl [] = refl
bytes_eq_refl (a ∷ s) = ground (arith, bytes_eq_refl s)

-- `std::isspace` in the C locale: space, and \t \n \v \f \r.
unfoldable pub isspace : ℕ → Bool
isspace c = c == 32 || (leb 9 c && leb c 13)

-- `std::tolower` in the C locale.
unfoldable pub tolower : ℕ → ℕ
tolower c = if leb b'A' c && leb c b'Z' then c + 32 else c

pub tolower_idem : (c : ℕ) → tolower (tolower c) ≡ tolower c
unfolding tolower
tolower_idem c = ground arith

-- `to_lower_ascii` of include/asr/string_utils.h.
abbrev pub to_lower_ascii : Bytes → Bytes
to_lower_ascii input = map tolower input
