-- ===== src/Json/Reader.antt =====
-- A reader of JSON strings (RFC 8259), and that it reads back what `append_json_escaped`
-- (include/asr/json_utils.h) writes.
use asrcpp_gigam.Base.{
  leb, ◌==◌, if◌then◌else◌, ℕ, ◌+◌, ◌-◌, ◌*◌, ◌/◌, ◌%◌, ◌<◌, ◌≡◌, refl, sym, ap, ◌∙◌, ◌&&◌, ◌||◌,
  Option, none, some, [], ◌∷◌, ◌++◌, append_assoc, append-nil, arith,
}
use asrcpp_gigam.Base.Bytes.{Bytes}
use asrcpp_gigam.Json.{hex_digit, escape_char, append_json_escaped}

-- Outside an escape, behind a backslash, or with so many hexadecimal digits to come.
pub data Mode : Type 0 where
  plain escape : Mode
  hex : ℕ → ℕ → Mode

hex_value : ℕ → Option ℕ
hex_value c =
    if leb b'0' c && leb c b'9'
    then some (c - b'0')
    else if leb b'a' c && leb c b'f'
    then some (c - b'a' + 10)
    else none

hex_next : ℕ → ℕ → Bytes → Option ℕ → Option (Mode × Bytes)
hex_next left value out none = none
hex_next left value out (some d) =
    if left == 1
    then some (plain, out ++ ((value * 16 + d) ∷ []))
    else some (hex (left - 1) (value * 16 + d), out)

read_plain : Bytes → ℕ → Option (Mode × Bytes)
read_plain out c =
    if c == b'\\'
    then some (escape, out)
    else if c == b'"' || leb c 31
    then none
    else some (plain, out ++ (c ∷ []))

read_escape : Bytes → ℕ → Option (Mode × Bytes)
read_escape out c =
    if c == b'"' || c == b'\\' || c == b'/'
    then some (plain, out ++ (c ∷ []))
    else if c == b'b'
    then some (plain, out ++ (8 ∷ []))
    else if c == b'f'
    then some (plain, out ++ (12 ∷ []))
    else if c == b'n'
    then some (plain, out ++ (10 ∷ []))
    else if c == b'r'
    then some (plain, out ++ (13 ∷ []))
    else if c == b't'
    then some (plain, out ++ (9 ∷ []))
    else if c == b'u'
    then some (hex 4 0, out)
    else none

read_char : Mode × Bytes → ℕ → Option (Mode × Bytes)
unfolding read_plain read_escape hex_next hex_value
read_char (plain, out) c = read_plain out c
read_char (escape, out) c = read_escape out c
read_char (hex left value, out) c = hex_next left value out (hex_value c)

reads : Option (Mode × Bytes) → Bytes → Option (Mode × Bytes)
unfolding read_char
reads none cs = none
reads (some t) [] = some t
reads (some t) (c ∷ cs) = reads (read_char t c) cs

whole : Option (Mode × Bytes) → Option Bytes
whole (some (plain, out)) = some out
whole _ = none

-- The text of what stands between the quotes, if that is well formed.
pub read_string : Bytes → Option Bytes
unfolding reads whole
read_string cs = whole (reads (some (plain, [])) cs)

reads-append :
    (t : Option (Mode × Bytes)) (xs ys : Bytes) → reads t (xs ++ ys) ≡ reads (reads t xs) ys
unfolding reads
reads-append none xs ys = refl
reads-append (some t) [] ys = refl
reads-append (some t) (x ∷ xs) ys = reads-append (read_char t x) xs ys

reads-control :
    (out : Bytes) (c : ℕ)
    → c < 32
    → reads
        (some (plain, out))
        (b'\\' ∷ b'u' ∷ b'0' ∷ b'0' ∷ hex_digit (c / 16) ∷ hex_digit (c % 16) ∷ [])
      ≡ some (plain, out ++ (c ∷ []))
unfolding reads read_char read_plain read_escape hex_next hex_value hex_digit
reads-control out c h = ground arith

reads-escape_char :
    (out : Bytes) (c : ℕ)
    → reads (some (plain, out)) (escape_char c) ≡ some (plain, out ++ (c ∷ []))
unfolding escape_char reads read_char read_plain read_escape
reads-escape_char out c = ground arith

reads-append_json_escaped :
    (out text done : Bytes)
    → reads (some (plain, [])) out ≡ some (plain, done)
    → reads (some (plain, [])) (append_json_escaped out text) ≡ some (plain, done ++ text)
unfolding append_json_escaped
reads-append_json_escaped out [] done h = h ∙ ap (λ t. some (plain, t)) (sym (append-nil done))
reads-append_json_escaped out (c ∷ cs) done h =
    reads-append_json_escaped (out ++ escape_char c) cs (done ++ (c ∷ [])) (
      reads-append (some (plain, [])) out (escape_char c)
      ∙ ap (λ t. reads t (escape_char c)) h
      ∙ reads-escape_char done c)
    ∙ ap (λ t. some (plain, t)) (append_assoc done (c ∷ []) cs)

-- Every text, with quotes, backslashes and control characters in it, is escaped to a well-formed JSON
-- string that a reader of JSON reads back as the text.
pub read_string-append_json_escaped :
    (text : Bytes) → read_string (append_json_escaped [] text) ≡ some text
unfolding read_string whole reads
read_string-append_json_escaped text = ap whole (reads-append_json_escaped [] text [] refl)
