-- ===== src/Ledger/Json.antt =====
-- The JSON values that a ledger fact carries in `extra`, and the readers that the reducers use:
-- `integer` of offchain/app-core/src/pnl.ts and the property accesses.
use Prim.Native.Char.{code}
use cpredict.Prelude.{
  ℕ, ◌+◌, ◌-◌, ◌*◌, Bool, true, false, ◌&&◌, Option, none, some, List, [], ◌∷◌, String, leb,
  if◌then◌else◌, str_eq,
}

-- A number keeps its text: the reducers never look at it.
mutual
  pub data Json : Type 0 where
    null : Json
    bool : Bool → Json
    number : String → Json
    text : String → Json
    array : Items → Json
    object : Fields → Json

  pub data Items : Type 0 where
    nil : Items
    cons : Json → Items → Items

  pub data Fields : Type 0 where
    end : Fields
    field : String → Json → Fields → Fields

unfoldable pub to_list : Items → List Json
to_list nil = []
to_list (cons x xs) = x ∷ to_list xs

-- `value.name`, where `none` is `undefined`.
unfoldable pub get_field : String → Fields → Option Json
get_field name end = none
get_field name (field n v fs) = if str_eq n name then some v else get_field name fs

digits_from : ℕ → String → Option ℕ
digits_from n String.[] = some n
digits_from n (String.◌∷◌ c s) =
    let c' = code c in
    let rest = digits_from (n * 10 + (c' - b'0')) s in
    if leb b'0' c' && leb c' b'9' then rest else none

-- `/^\d+$/` and `BigInt`
unfoldable pub decimal : String → Option ℕ
unfolding digits_from
decimal String.[] = none
decimal (String.◌∷◌ c s) = digits_from 0 (String.◌∷◌ c s)

unfoldable pub integer : Option Json → Option ℕ
unfolding decimal
integer (some (text s)) = decimal s
integer _ = none

abbrev pub is_false : Option Json → Bool
is_false (some (bool false)) = true
is_false _ = false
