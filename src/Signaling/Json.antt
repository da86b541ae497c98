-- ===== src/Signaling/Json.antt =====
-- jansson (third_party/libjansson), which the repository holds as a binary: the calls that the session
-- makes are parameters, with what its manual says of them. A missing value is a null pointer.
use text.Mathlib.Text.{◌==◌ as str_eq}
use aone_webrtc_stt.Base.{
  ℤ, pos, IsInt32, ℕ, ◌%◌, String, ◌≡◌, Bool, Option, none, some, List, ltb, if◌then◌else◌,
}

-- The bit JSON_DECODE_INT_AS_REAL, 0x8, of the flags.
abbrev pub int_as_real : ℕ → Bool
int_as_real flags = ltb 7 (flags % 16)

pub record JsonApi : Type 1 where
  pub Json : Type 0
  -- The text of a message, as it goes over the web socket.
  pub Text : Type 0
  pub json_object : Json
  pub json_object_set_new : Json → String → Json → Json
  pub json_string : String → Json
  pub json_integer : ℤ → Json
  pub json_dumps : Json → Text
  pub strlen : Text → ℕ
  -- The second argument is the flags.
  pub json_loads : Text → ℕ → Option Json
  pub json_object_get : Json → String → Option Json
  pub json_string_value : Json → Option String
  pub json_integer_value : Json → ℤ
  -- The elements, where the value is an array.
  pub json_array : Json → Option (List Json)
  -- The objects that are built from json_object by json_object_set_new.
  pub IsObject : Json → Type 0
  pub object-IsObject : IsObject json_object
  pub set_new-IsObject :
      (o : Json) (k : String) (v : Json) → IsObject o → IsObject (json_object_set_new o k v)
  pub get-set_new :
      (o : Json) (k j : String) (v : Json)
      → IsObject o
      → json_object_get (json_object_set_new o k v) j
        ≡ (if str_eq k j then some v else json_object_get o j)
  pub string_value-string : (s : String) → json_string_value (json_string s) ≡ some s
  pub integer_value-integer : (i : ℤ) → IsInt32 i → json_integer_value (json_integer i) ≡ i
  -- The value with its integers as reals, which JSON_DECODE_INT_AS_REAL makes of its text.
  pub reals : Json → Json
  pub loads-dumps :
      (o : Json) (flags : ℕ)
      → IsObject o
      → json_loads (json_dumps o) flags ≡ some (if int_as_real flags then reals o else o)
  pub get-reals :
      (o : Json) (k : String)
      → IsObject o
      → json_object_get (reals o) k
        ≡ (elim (json_object_get o k) [ some v ↦ some (reals v) | none ↦ none ])
  pub string_value-reals : (v : Json) → json_string_value (reals v) ≡ json_string_value v
  -- json_integer_value of what is no integer is 0.
  pub integer_value-reals : (v : Json) → json_integer_value (reals v) ≡ pos 0
