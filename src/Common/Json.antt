-- ===== src/Common/Json.antt =====
-- The values that a JSON or YAML document is read into. The keys of an object are texts, and each
-- occurs once unless a document is read with a hook that sees the pairs.
use Prim.Native.String.{String}
use mathlib.Core.Bool.{Bool, false}
use mathlib.Core.Option.{Option, none, some}
use mathlib.Core.List.{List, [], ◌∷◌, ◌++◌}
use telconet_sentinel.Common.Dict.{Dict}
use telconet_sentinel.Common.Int.{ℤ}

mutual
  -- A number that is not an integer is kept as its text; so is one of the constants `NaN` and
  -- `Infinity`.
  pub data Json : Type 0 where
    null : Json
    boolean : Bool → Json
    integer : ℤ → Json
    float constant text : String → Json
    array : Items → Json
    object : Members → Json

  pub data Items : Type 0 where
    no_items : Items
    item : Json → Items → Items

  pub data Members : Type 0 where
    no_members : Members
    member : String → Json → Members → Members

unfoldable pub items : Items → List Json
items no_items = []
items (item x xs) = x ∷ items xs

unfoldable pub members : Members → Dict Json
members no_members = []
members (member k x xs) = (k, x) ∷ members xs

-- `isinstance(value, str)` with the value
abbrev pub as_text : Option Json → Option String
as_text (some (text s)) = some s
as_text _ = none

-- `value is True`
abbrev pub is_true : Option Json → Bool
is_true (some (boolean b)) = b
is_true _ = false

-- Every object inside a value, the value first.
unfoldable mutual
  pub walk : Json → List (Dict Json)
  walk (array xs) = walk_items xs
  walk (object xs) = members xs ∷ walk_members xs
  walk null = []
  walk (boolean b) = []
  walk (integer n) = []
  walk (float s) = []
  walk (constant s) = []
  walk (text s) = []

  pub walk_items : Items → List (Dict Json)
  walk_items no_items = []
  walk_items (item x xs) = walk x ++ walk_items xs

  pub walk_members : Members → List (Dict Json)
  walk_members no_members = []
  walk_members (member k x xs) = walk x ++ walk_members xs
