-- ===== src/Json/Sample.antt =====
-- A small JSON library, to run the code that takes one.
use asrcpp_gigam.Base.{
  ◌==◌, if◌then◌else◌, ℕ, ◌*◌, Bool, true, false, not, ◌&&◌, ◌||◌, Option, none, some, List, [],
  ◌∷◌,
}
use asrcpp_gigam.Base.Int.{ℤ, pos_part, pos}
use asrcpp_gigam.Base.Bytes.{Bytes, codes, bytes_eq}
use asrcpp_gigam.Json.Library.{JsonLibrary}

-- An object is its fields, one after the other.
pub data Sample : Type 0 where
  null_value fields : Sample
  text : Bytes → Sample
  whole : ℤ → Sample
  fraction : ℕ → Sample
  field : Bytes → Sample → Sample → Sample

abbrev pub is_fields : Sample → Bool
is_fields fields = true
is_fields (field key value rest) = true
is_fields _ = false

abbrev pub is_text : Sample → Bool
is_text (text t) = true
is_text _ = false

abbrev pub is_null_value : Sample → Bool
is_null_value null_value = true
is_null_value _ = false

abbrev pub is_whole : Sample → Bool
is_whole (whole n) = true
is_whole _ = false

abbrev pub is_fraction : Sample → Bool
is_fraction (fraction n) = true
is_fraction _ = false

abbrev pub find_field : Sample → Bytes → Option Sample
find_field (field key value rest) wanted =
    let later = find_field rest wanted in if bytes_eq key wanted then some value else later
find_field _ wanted = none

abbrev pub text_of : Sample → Bytes
text_of (text t) = t
text_of _ = []

abbrev pub whole_of : Sample → ℤ
whole_of (whole n) = n
whole_of _ = pos 0

abbrev pub fraction_of : Sample → ℕ
fraction_of (fraction n) = n
fraction_of (whole n) = pos_part n * 1000
fraction_of _ = 0

abbrev pub of_fields : List (Bytes × Sample) → Sample
of_fields [] = fields
of_fields ((key, value) ∷ rest) = field key value (of_fields rest)

-- A text with the byte 255 is not UTF-8.
abbrev pub has_255 : Bytes → Bool
has_255 [] = false
has_255 (c ∷ cs) = c == 255 || has_255 cs

abbrev pub is_utf8 : Sample → Bool
is_utf8 (text t) = not (has_255 t)
is_utf8 (field key value rest) = is_utf8 value && is_utf8 rest
is_utf8 _ = true

-- A text that it parses is the type of an event; arrays and the texts that it writes are left out.
abbrev pub sample_json : JsonLibrary ℕ
sample_json = record {
  Value = Sample;
  is_object = is_fields;
  is_string = is_text;
  is_null = is_null_value;
  is_number = λ v. is_whole v || is_fraction v;
  is_number_integer = is_whole;
  find = find_field;
  get_string = text_of;
  get_int64 = whole_of;
  get_float = fraction_of;
  parse = λ bytes. some (field (codes "type") (text bytes) fields);
  null = null_value;
  string = text;
  integer = whole;
  number = fraction;
  object = of_fields;
  array = λ vs. null_value;
  dump = λ v. [];
  dumps = is_utf8;
}
