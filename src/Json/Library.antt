-- ===== src/Json/Library.antt =====
-- The JSON library (nlohmann), which the program only calls: a parameter.
use asrcpp_gigam.Base.{
  ltb, if◌then◌else◌, ℕ, ◌-◌, ◌%◌, ◌^◌, ◌<◌, ◌≡◌, Bool, Option, none, some, List, arith,
}
use asrcpp_gigam.Base.Int.{ℤ, pos, negsuc}
use asrcpp_gigam.Base.Bytes.{Bytes}

-- `find` is `contains` and `operator[]`; it is called on objects only. `get_int64` is the stored
-- integer, before a cast; `get_float` is `get<float>`. `parse` is `none` where the library throws.
-- The last fields build values; `dump` is the text of a value. `dumps` is whether there is one: the
-- library throws where a string is not UTF-8. The texts of the realtime protocol were parsed or are the
-- program's own, so that code takes `dump` as it is.
pub record JsonLibrary (F : Type 0) : Type 1 where
  pub Value : Type 0
  pub is_object : Value → Bool
  pub is_string : Value → Bool
  pub is_null : Value → Bool
  pub is_number : Value → Bool
  pub is_number_integer : Value → Bool
  pub find : Value → Bytes → Option Value
  pub get_string : Value → Bytes
  pub get_int64 : Value → ℤ
  pub get_float : Value → F
  pub parse : Bytes → Option Value
  pub null : Value
  pub string : Bytes → Value
  pub integer : ℤ → Value
  pub number : F → Value
  pub object : List (Bytes × Value) → Value
  pub array : List Value → Value
  pub dump : Value → Bytes
  pub dumps : Value → Bool

abbrev pub try_dump : {F : Type 0} (js : JsonLibrary F) → js.Value → Option Bytes
try_dump js v = if js.dumps v then some (js.dump v) else none

-- The cast to a 32-bit `int`.
unfoldable pub low_int : ℕ → ℤ
low_int n = let r = n % 2 ^ 32 in if ltb r (2 ^ 31) then pos r else negsuc (2 ^ 32 - 1 - r)

unfoldable pub to_int : ℤ → ℤ
unfolding low_int
to_int (pos n) = low_int n
to_int (negsuc n) = low_int (2 ^ 32 - 1 - n % 2 ^ 32)

-- A number that an `int` holds is kept.
pub to_int-small : (n : ℕ) → n < 2 ^ 31 → to_int (pos n) ≡ pos n
unfolding to_int low_int
to_int-small n h = ground arith
