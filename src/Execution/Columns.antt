-- ===== src/Execution/Columns.antt =====
-- database/migrations/versions/20260728_0009_execution_queue_foundation.py and 20260729_0010: which
-- values the columns of a result take, by their types. INTEGER has 32 bits, VARCHAR(100) at most 100
-- characters, neither TEXT nor JSONB the character NUL, and JSONB no float that is not finite.
use Prim.Native.String.{find as text_find, len, count}
use leetcode_platform.Prelude.{
  ℕ, String, Bool, true, Option, none, some, ◌&&◌, ◌^◌, ◌/◌, ◌%◌, ◌==◌, not, leb, ltb,
}
use leetcode_platform.Json.{
  Json, ℤ, Items, Fields, pos, negsuc, null, bool, int, float, str, arr, obj, nil, cons, end, field,
}

-- INTEGER
abbrev pub is_integer : ℤ → Bool
is_integer (pos n) = leb n 2147483647
is_integer (negsuc n) = leb n 2147483647

-- TEXT: a text that is not found is found one after the end.
abbrev pub is_text_value : String → Bool
is_text_value s = ltb (len s) (text_find s "\0")

-- VARCHAR(100)
abbrev pub is_varchar : Option String → Bool
is_varchar none = true
is_varchar (some s) = leb (count s) 100 && is_text_value s

-- The exponent of a double that is no number or infinite has all bits set.
abbrev pub is_finite : ℕ → Bool
is_finite bits = not ((bits / 2 ^ 52) % 2048 == 2047)

-- JSONB
unfoldable mutual
  pub is_jsonb : Json → Bool
  is_jsonb null = true
  is_jsonb (bool _) = true
  is_jsonb (int _) = true
  is_jsonb (float bits) = is_finite bits
  is_jsonb (str s) = is_text_value s
  is_jsonb (arr items) = are_jsonb items
  is_jsonb (obj fields) = fields_jsonb fields

  pub are_jsonb : Items → Bool
  are_jsonb nil = true
  are_jsonb (cons v rest) = is_jsonb v && are_jsonb rest

  pub fields_jsonb : Fields → Bool
  fields_jsonb end = true
  fields_jsonb (field k v rest) = is_text_value k && (is_jsonb v && fields_jsonb rest)
