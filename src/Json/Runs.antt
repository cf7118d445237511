-- ===== src/Json/Runs.antt =====
-- A text with a quote, a line feed and the control character 27.
use asrcpp_gigam.Base.{◌≡◌, refl, some, [], ◌∷◌}
use asrcpp_gigam.Base.Bytes.{Bytes}
use asrcpp_gigam.Json.{append_json_escaped}
use asrcpp_gigam.Json.Reader.{read_string, read_string-append_json_escaped}

abbrev spoken : Bytes
spoken = b'a' ∷ b'"' ∷ 10 ∷ 27 ∷ 200 ∷ []

escaped_test :
    append_json_escaped [] spoken
    ≡ b'a' ∷ b'\\' ∷ b'"' ∷ b'\\' ∷ b'n' ∷ b'\\' ∷ b'u' ∷ b'0' ∷ b'0' ∷ b'1' ∷ b'b' ∷ 200 ∷ []
unfolding append_json_escaped
escaped_test = refl

read_string-append_json_escaped_example : read_string (append_json_escaped [] spoken) ≡ some spoken
read_string-append_json_escaped_example = read_string-append_json_escaped spoken
