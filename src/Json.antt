-- ===== src/Json.antt =====
-- JSON values as `json.loads` and a JSONB column give them to the Python code. An integer is
-- unbounded; a float is the 64-bit pattern of the double that Python holds.
use leetcode_platform.Prelude.{ℕ, String, Bool, Option, none, some, str_eq, if◌then◌else◌}

-- `negsuc n` is -(n + 1).
pub data ℤ : Type 0 where
  pos : ℕ → ℤ
  negsuc : ℕ → ℤ

mutual
  pub data Json : Type 0 where
    null : Json
    bool : Bool → Json
    int : ℤ → Json
    float : ℕ → Json
    str : String → Json
    arr : Items → Json
    obj : Fields → Json

  pub data Items : Type 0 where
    nil : Items
    cons : Json → Items → Items

  pub data Fields : Type 0 where
    end : Fields
    field : String → Json → Fields → Fields

-- `mapping.get(key)`, where a missing key is told apart from a null.
abbrev pub get : String → Fields → Option Json
get k end = none
get k (field j v rest) = if str_eq j k then some v else get k rest
