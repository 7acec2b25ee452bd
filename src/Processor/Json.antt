-- ===== src/Processor/Json.antt =====
-- JSON values as Python reads them.
use razor_trust.Common.{
  ℕ, String, Bool, true, false, not, List, [], ◌∷◌, str_eq, ◌==◌, if◌then◌else◌,
}

-- An integer is `integer n` or `negative n`, which is -1 - n. A `real` is a float: whether it is zero,
-- and its text.
mutual
  pub data Json : Type 0 where
    null : Json
    boolean : Bool → Json
    integer : ℕ → Json
    negative : ℕ → Json
    real : Bool → String → Json
    string : String → Json
    array : Items → Json
    object : Fields → Json

  pub data Items : Type 0 where
    nil : Items
    item : Json → Items → Items

  pub data Fields : Type 0 where
    end : Fields
    field : String → Json → Fields → Fields

-- `d.get(k, default)`: the keys of a `dict` differ, so the first is the only one.
unfoldable pub get_or : Json → String → Fields → Json
get_or default k end = default
get_or default k (field j v d) = if str_eq j k then v else get_or default k d

-- `d.get(k)`
abbrev pub get : String → Fields → Json
get k d = get_or null k d

-- `{key: d.get(key) for key in keys}`
unfoldable pub pick : List String → Fields → Fields
pick [] d = end
pick (k ∷ ks) d = field k (get k d) (pick ks d)

-- `bool(value)`
abbrev pub truth : Json → Bool
truth null = false
truth (boolean b) = b
truth (integer n) = not (n == 0)
truth (negative n) = true
truth (real is_zero text) = not is_zero
truth (string s) = not (str_eq s "")
truth (array nil) = false
truth (array (item x xs)) = true
truth (object end) = false
truth (object (field k x xs)) = true
