-- ===== src/Offline/Trim.antt =====
-- What `trim_ascii` (include/asr/string_utils.h) leaves of a text.
use asrcpp_gigam.Base.{
  if_cases, is_empty, All, ℕ, ◌≡◌, refl, ap, ◌∙◌, true, false, ◌&&◌, [], ◌∷◌, ◌++◌,
}
use asrcpp_gigam.Base.Bytes.{Bytes}
use asrcpp_gigam.Offline.{is_whitespace, trim_front, trim_back, trim_ascii}

-- Neither end of a text is whitespace.
abbrev pub StartsWord : Bytes → Type 0
StartsWord [] = Unit
StartsWord (c ∷ cs) = is_whitespace c ≡ false

abbrev pub EndsWord : Bytes → Type 0
EndsWord [] = Unit
EndsWord (c ∷ []) = is_whitespace c ≡ false
EndsWord (c ∷ d ∷ cs) = EndsWord (d ∷ cs)

-- `text` is `inside` between whitespace.
pub record Between (text inside : Bytes) : Type 0 where
  pub front : Bytes
  pub back : Bytes
  pub whole : text ≡ front ++ (inside ++ back)
  pub front_blank : All (λ c. is_whitespace c ≡ true) front
  pub back_blank : All (λ c. is_whitespace c ≡ true) back

trim_front-StartsWord : (text : Bytes) → StartsWord (trim_front text)
unfolding trim_front
trim_front-StartsWord [] = tt
trim_front-StartsWord (c ∷ cs) =
    if_cases StartsWord (is_whitespace c) (λ _. trim_front-StartsWord cs) (λ e. e)

trim_front_blank :
    (text : Bytes)
    → (front : Bytes) × (text ≡ front ++ trim_front text) × All (λ c. is_whitespace c ≡ true) front
unfolding trim_front
trim_front_blank [] = ([], refl, tt)
trim_front_blank (c ∷ cs) =
    if_cases
      (λ r. (front : Bytes) × (c ∷ cs ≡ front ++ r) × All (λ c. is_whitespace c ≡ true) front)
      (is_whitespace c)
      (λ e. let (front, h, b) = trim_front_blank cs in (c ∷ front, ap (λ t. c ∷ t) h, (e, b)))
      (λ e. ([], refl, tt))

-- Taking blanks off the end keeps the start, unless nothing is left.
trim_back-StartsWord : (text : Bytes) → StartsWord text → StartsWord (trim_back text)
unfolding trim_back
trim_back-StartsWord [] h = tt
trim_back-StartsWord (c ∷ cs) h =
    if_cases StartsWord (is_empty (trim_back cs) && is_whitespace c) (λ _. tt) (λ _. h)

last_word :
    (c : ℕ) (rest : Bytes)
    → (is_empty rest && is_whitespace c) ≡ false
    → EndsWord rest
    → EndsWord (c ∷ rest)
last_word c [] e h = e
last_word c (d ∷ rest) e h = h

trim_back-EndsWord : (text : Bytes) → EndsWord (trim_back text)
unfolding trim_back
trim_back-EndsWord [] = tt
trim_back-EndsWord (c ∷ cs) =
    if_cases EndsWord (is_empty (trim_back cs) && is_whitespace c) (λ _. tt)
      (λ e. last_word c (trim_back cs) e (trim_back-EndsWord cs))

nothing_left :
    (c : ℕ) (cs rest back : Bytes)
    → (is_empty rest && is_whitespace c) ≡ true
    → cs ≡ rest ++ back
    → All (λ c. is_whitespace c ≡ true) back
    → (cs ≡ back) × (is_whitespace c ≡ true)
nothing_left c cs [] back e h b = (h, e)
nothing_left c cs (d ∷ rest) back e h b = cc

trim_back_blank :
    (text : Bytes)
    → (back : Bytes) × (text ≡ trim_back text ++ back) × All (λ c. is_whitespace c ≡ true) back
unfolding trim_back
trim_back_blank [] = ([], refl, tt)
trim_back_blank (c ∷ cs) =
    let (back, h, b) = trim_back_blank cs in
    if_cases (λ r. (back : Bytes) × (c ∷ cs ≡ r ++ back) × All (λ c. is_whitespace c ≡ true) back)
      (is_empty (trim_back cs) && is_whitespace c)
      (λ e.
        let (q, s) = nothing_left c cs (trim_back cs) back e h b in
        (c ∷ back, ap (λ t. c ∷ t) q, (s, b)))
      (λ e. (back, ap (λ t. c ∷ t) h, b))

-- The trimmed text is the text without whitespace in front and behind, and neither its first nor its
-- last byte is whitespace.
trim_ascii-Between :
    (text : Bytes)
    → Between text (trim_ascii text) × StartsWord (trim_ascii text) × EndsWord (trim_ascii text)
unfolding trim_ascii
trim_ascii-Between text =
    let (front, h, f) = trim_front_blank text in
    let (back, k, b) = trim_back_blank (trim_front text) in
    (
      record {
        front = front;
        back = back;
        whole = h ∙ ap (λ t. front ++ t) k;
        front_blank = f;
        back_blank = b;
      },
      trim_back-StartsWord (trim_front text) (trim_front-StartsWord text),
      trim_back-EndsWord (trim_front text),
    )
