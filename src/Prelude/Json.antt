-- ===== src/Prelude/Json.antt =====
-- The values of a dynamic program: what `json.loads` returns. Numbers are integers; a dict holds its
-- pairs in order.
use Prim.Native.String.{String}
use mathlib.Core.Bool.{Bool, true, false, not}
use mathlib.Core.List.{[], ◌∷◌}
use package.text.Mathlib.Text.{◌==◌}
use codex_test.Prelude.Int.{ℤ, pos, negsuc}
use codex_test.Prelude.Tests.{nat_eq}
use codex_test.Prelude.Dict.{Dict}

mutual
  pub data Value : Type 0 where
    null : Value
    boolean : Bool → Value
    number : ℤ → Value
    text : String → Value
    array : Items → Value
    object : Fields → Value

  pub data Items : Type 0 where
    nil : Items
    cons : Value → Items → Items

  pub data Fields : Type 0 where
    end : Fields
    field : String → Value → Fields → Fields

-- The pairs of a dict.
abbrev pub entries : Fields → Dict Value
entries end = []
entries (field k v fs) = (k, v) ∷ entries fs

-- `str(value)`, where `repr` gives the text of a value that is no text.
abbrev pub to_str : (Value → String) → Value → String
to_str repr (text s) = s
to_str repr v = repr v

-- `bool(value)`
unfoldable pub truthy : Value → Bool
truthy null = false
truthy (boolean b) = b
truthy (number (pos n)) = not (nat_eq n 0)
truthy (number (negsuc n)) = true
truthy (text s) = not (s == "")
truthy (array nil) = false
truthy (array (cons v vs)) = true
truthy (object end) = false
truthy (object (field k v fs)) = true
