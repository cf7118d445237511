-- ===== src/Whisper/Fields.antt =====
-- `parse_multi_value_field` of src/whisper_api.cpp: the values of a field that holds several.
use asrcpp_gigam.Offline.{is_whitespace, trim_front, trim_back, trim_ascii}
use mathlib.Core.List.{map-append}
use asrcpp_gigam.Base.{
  ◌==◌, if◌then◌else◌, is_empty, All, ℕ, ◌≡◌, refl, ap, ◌∙◌, Bool, true, false, not, ◌&&◌, ◌||◌,
  List, [], ◌∷◌, ◌++◌, map, append-nil, arith,
}
use asrcpp_gigam.Base.Bytes.{Bytes, isspace}

-- Brackets and quotes are spaces.
abbrev pub normalize_char : ℕ → ℕ
normalize_char c = if c == b'[' || c == b']' || c == b'"' || c == b'\'' then b' ' else c

abbrev pub cons_part : ℕ → List Bytes → List Bytes
cons_part c [] = (c ∷ []) ∷ []
cons_part c (p ∷ ps) = (c ∷ p) ∷ ps

-- The pieces of a text between the bytes that the test holds of.
unfoldable pub split : (ℕ → Bool) → Bytes → List Bytes
split test [] = [] ∷ []
split test (c ∷ cs) = let rest = split test cs in if test c then [] ∷ rest else cons_part c rest

abbrev pub non_empty : List Bytes → List Bytes
non_empty [] = []
non_empty (p ∷ ps) = let rest = non_empty ps in if is_empty p then rest else p ∷ rest

-- `stream >> token` until it fails.
abbrev pub words : Bytes → List Bytes
words text = non_empty (split isspace text)

-- The words of a part, that is skipped if nothing is left of it.
abbrev pub part_words : Bytes → List Bytes
part_words part = let trimmed = trim_ascii part in if is_empty trimmed then [] else words trimmed

abbrev pub all_words : List Bytes → List Bytes
all_words [] = []
all_words (p ∷ ps) = part_words p ++ all_words ps

abbrev pub is_comma : ℕ → Bool
is_comma c = c == b','

-- `std::getline` gives no empty part at the end; `split` may, and it is skipped.
unfoldable pub parse_multi_value_field : Bytes → List Bytes
unfolding split trim_ascii
parse_multi_value_field raw =
    let values = all_words (split is_comma (map normalize_char raw)) in
    if is_empty values then non_empty (trim_ascii raw ∷ []) else values

-- Values separated by commas.
abbrev pub join : List Bytes → Bytes
join [] = []
join (w ∷ []) = w
join (w ∷ (v ∷ ws)) = w ++ (b',' ∷ join (v ∷ ws))

-- A byte that no value is split at.
abbrev pub is_plain : ℕ → Bool
is_plain c = not (isspace c || c == b',' || c == b'[' || c == b']' || c == b'"' || c == b'\'')

pub record IsValue (w : Bytes) : Type 0 where
  pub some_byte : is_empty w ≡ false
  pub plain : All (λ c. is_plain c ≡ true) w

-- A text without separators goes into the first piece of what follows it.
pub split-free :
    (test : ℕ → Bool) (w rest p : Bytes) (ps : List Bytes)
    → All (λ c. test c ≡ false) w
    → split test rest ≡ p ∷ ps
    → split test (w ++ rest) ≡ (w ++ p) ∷ ps
unfolding split
split-free test [] rest p ps k e = e
split-free test (c ∷ cs) rest p ps k e = rw (k.0, split-free test cs rest p ps k.1 e) refl

-- Up to a separator.
pub split-at :
    (test : ℕ → Bool) (w rest : Bytes) (c : ℕ)
    → All (λ d. test d ≡ false) w
    → test c ≡ true
    → split test (w ++ (c ∷ rest)) ≡ w ∷ split test rest
unfolding split
split-at test w rest c k e =
    split-free test w (c ∷ rest) [] (split test rest) k (rw e refl)
    ∙ ap (λ t. t ∷ split test rest) (append-nil w)

pub split-whole :
    (test : ℕ → Bool) (w : Bytes) → All (λ c. test c ≡ false) w → split test w ≡ w ∷ []
unfolding split
split-whole test [] k = refl
split-whole test (c ∷ cs) k = rw (k.0, split-whole test cs k.1) refl

pub All-map : (P Q : ℕ → Type 0) → ((c : ℕ) → P c → Q c) → (w : Bytes) → All P w → All Q w
All-map P Q f [] k = tt
All-map P Q f (c ∷ cs) k = (f c k.0, All-map P Q f cs k.1)

plain_not-isspace : (c : ℕ) → is_plain c ≡ true → isspace c ≡ false
plain_not-isspace c h = ground arith

plain_not-comma : (c : ℕ) → is_plain c ≡ true → is_comma c ≡ false
unfolding isspace
plain_not-comma c h = ground arith

plain_not-whitespace : (c : ℕ) → is_plain c ≡ true → is_whitespace c ≡ false
unfolding isspace
plain_not-whitespace c h = ground arith

normalize_char-plain : (c : ℕ) → is_plain c ≡ true → normalize_char c ≡ c
unfolding isspace
normalize_char-plain c h = ground arith

not-spaces : (w : Bytes) → All (λ c. is_plain c ≡ true) w → All (λ c. isspace c ≡ false) w
not-spaces = All-map _ _ plain_not-isspace

not-commas : (w : Bytes) → All (λ c. is_plain c ≡ true) w → All (λ c. is_comma c ≡ false) w
not-commas = All-map _ _ plain_not-comma

words-value : (w : Bytes) → IsValue w → words w ≡ w ∷ []
words-value w v = rw (split-whole isspace w (not-spaces w v.plain), v.some_byte) refl

trim_front-value : (w : Bytes) → All (λ c. is_plain c ≡ true) w → trim_front w ≡ w
unfolding trim_front
trim_front-value [] k = refl
trim_front-value (c ∷ cs) k = rw (plain_not-whitespace c k.0) refl

trim_back-value : (w : Bytes) → All (λ c. is_plain c ≡ true) w → trim_back w ≡ w
unfolding trim_back
trim_back-value [] k = refl
trim_back-value (c ∷ cs) k =
    rw (trim_back-value cs k.1, plain_not-whitespace c k.0) (and_false (is_empty cs))
  where
    and_false : (b : Bool) → (if b && false then [] else c ∷ cs) ≡ c ∷ cs
    and_false true = refl
    and_false false = refl

trim_ascii-value : (w : Bytes) → All (λ c. is_plain c ≡ true) w → trim_ascii w ≡ w
unfolding trim_ascii
trim_ascii-value w k = rw (trim_front-value w k) (trim_back-value w k)

part_words-value : (w : Bytes) → IsValue w → part_words w ≡ w ∷ []
part_words-value w v = rw (trim_ascii-value w v.plain, v.some_byte) (words-value w v)

normalize_char-value : (w : Bytes) → All (λ c. is_plain c ≡ true) w → map normalize_char w ≡ w
normalize_char-value [] k = refl
normalize_char-value (c ∷ cs) k = rw (normalize_char-plain c k.0, normalize_char-value cs k.1) refl

normalize_char-join : (ws : List Bytes) → All IsValue ws → map normalize_char (join ws) ≡ join ws
normalize_char-join [] k = refl
normalize_char-join (w ∷ []) k = normalize_char-value w k.0.plain
normalize_char-join (w ∷ (v ∷ ws)) k =
    map-append normalize_char w (b',' ∷ join (v ∷ ws))
    ∙ rw (normalize_char-value w k.0.plain, normalize_char-join (v ∷ ws) k.1) refl

split-join :
    (w : Bytes) (ws : List Bytes) → All IsValue (w ∷ ws) → split is_comma (join (w ∷ ws)) ≡ w ∷ ws
unfolding split
split-join w [] k = split-whole is_comma w (not-commas w k.0.plain)
split-join w (v ∷ ws) k =
    split-at is_comma w (join (v ∷ ws)) b',' (not-commas w k.0.plain) refl
    ∙ ap (λ t. w ∷ t) (split-join v ws k.1)

all_words-values : (ws : List Bytes) → All IsValue ws → all_words ws ≡ ws
all_words-values [] k = refl
all_words-values (w ∷ ws) k = rw (part_words-value w k.0, all_words-values ws k.1) refl

-- Values without space, comma, bracket or quote that are joined by commas are read back.
pub parse_multi_value_field-join :
    (w : Bytes) (ws : List Bytes)
    → All IsValue (w ∷ ws)
    → parse_multi_value_field (join (w ∷ ws)) ≡ w ∷ ws
unfolding parse_multi_value_field
parse_multi_value_field-join w ws k =
    rw (normalize_char-join (w ∷ ws) k, split-join w ws k, all_words-values (w ∷ ws) k) refl
