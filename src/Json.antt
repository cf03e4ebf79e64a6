-- ===== src/Json.antt =====
-- JSON values as the program reads and writes them (`serde_json::Value`): numbers keep the three
-- cases of that crate, and an object keeps its keys in the order in which they were written.
use text.Mathlib.Text.{◌==◌ as str_eq}
use metaflux_client_rust.Base.{
  ℕ, String, Bool, true, false, List, [], ◌∷◌, Option, none, some, if◌then◌else◌,
}

mutual
  pub data Value : Type 0 where
    null : Value
    bool : Bool → Value
    -- an unsigned number, a negative one (`-(n + 1)`), and the bits of a float
    number : ℕ → Value
    negative : ℕ → Value
    float : ℕ → Value
    string : String → Value
    array : Items → Value
    object : Fields → Value

  pub data Items : Type 0 where
    nil : Items
    cons : Value → Items → Items

  pub data Fields : Type 0 where
    end : Fields
    field : String → Value → Fields → Fields

abbrev pub find_field : String → Fields → Option Value
find_field k end = none
find_field k (field j v fs) = if str_eq j k then some v else find_field k fs

-- `v.get(key)`.
abbrev pub get : String → Value → Option Value
get k (object fs) = find_field k fs
get k null = none
get k (bool b) = none
get k (number n) = none
get k (negative n) = none
get k (float n) = none
get k (string s) = none
get k (array xs) = none

abbrev pub to_list : Items → List Value
to_list nil = []
to_list (cons v vs) = v ∷ to_list vs

abbrev pub of_list : List Value → Items
of_list [] = nil
of_list (v ∷ vs) = cons v (of_list vs)

abbrev pub as_array : Value → Option (List Value)
as_array (array xs) = some (to_list xs)
as_array _ = none

abbrev pub as_str : Value → Option String
as_str (string s) = some s
as_str _ = none

abbrev pub as_u64 : Value → Option ℕ
as_u64 (number n) = some n
as_u64 _ = none

abbrev pub as_bool : Value → Option Bool
as_bool (bool b) = some b
as_bool _ = none

abbrev pub is_null : Value → Bool
is_null null = true
is_null _ = false
