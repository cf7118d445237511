-- ===== src/Json.antt =====
-- `append_json_escaped` of include/asr/json_utils.h, which writes every text into the JSON that the
-- server sends.
pub mod Reader
pub mod Library
pub mod Sample
mod Runs
use asrcpp_gigam.Base.{ltb, ◌==◌, if◌then◌else◌, ℕ, ◌+◌, ◌-◌, ◌/◌, ◌%◌, [], ◌∷◌, ◌++◌}
use asrcpp_gigam.Base.Bytes.{Bytes}

-- A digit of `%04x`.
unfoldable pub hex_digit : ℕ → ℕ
hex_digit d = if ltb d 10 then b'0' + d else b'a' + (d - 10)

unfoldable pub escape_char : ℕ → Bytes
unfolding hex_digit
escape_char c =
    if c == b'"'
    then b'\\' ∷ b'"' ∷ []
    else if c == b'\\'
    then b'\\' ∷ b'\\' ∷ []
    else if c == 8
    then b'\\' ∷ b'b' ∷ []
    else if c == 12
    then b'\\' ∷ b'f' ∷ []
    else if c == 10
    then b'\\' ∷ b'n' ∷ []
    else if c == 13
    then b'\\' ∷ b'r' ∷ []
    else if c == 9
    then b'\\' ∷ b't' ∷ []
    else if ltb c 32
    then b'\\' ∷ b'u' ∷ b'0' ∷ b'0' ∷ hex_digit (c / 16) ∷ hex_digit (c % 16) ∷ []
    else c ∷ []

unfoldable pub append_json_escaped : Bytes → Bytes → Bytes
unfolding escape_char
append_json_escaped out [] = out
append_json_escaped out (c ∷ cs) = append_json_escaped (out ++ escape_char c) cs
