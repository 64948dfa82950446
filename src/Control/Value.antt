-- ===== src/Control/Value.antt =====
-- The values of a twin dictionary, and what Python's operators do on them.
use Prim.Native.Nat.{Ordering}
use Prim.Native.String.{compare}
use centralized_hvac_system.Prelude.{
  String, Bool, true, false, Option, none, some, ◌==◌, if◌then◌else◌,
}
use centralized_hvac_system.Prelude.Result.{Result, ok, raised, key_error, value_error, type_error}
use centralized_hvac_system.Float.{Float}
use centralized_hvac_system.Dict.{Dict, lookup}

pub data Value (F : Type 0) : Type 0 where
  null : Value F
  flag : Bool → Value F
  num : F → Value F
  text : String → Value F

-- A twin as the control service sees it.
abbrev pub Twin : Type 0 → Type 0
Twin F = Dict (Value F)

module _ {F : Type 0} where
  -- `twin[key]`
  unfoldable pub item : Twin F → String → Result (Value F)
  item twin key = elim (lookup key twin) [ none ↦ raised key_error | some v ↦ ok v ]

  -- `v == t` and `v != t` at a text t
  unfoldable pub is_text : Option (Value F) → String → Bool
  is_text (some (text s)) t = s == t
  is_text v t = false

module _ {F : Type 0} ⦃fl : Float F⦄ where
  -- a number, or a `bool`, which Python counts as one
  abbrev pub as_number : Value F → Option F
  as_number (num x) = some x
  as_number (flag b) = some (if b then fl.dec 1 0 else fl.dec 0 0)
  as_number v = none

  abbrev parsed : Option F → Result F
  parsed none = raised value_error
  parsed (some x) = ok x

  -- `float(v)`
  unfoldable pub to_float : Value F → Result F
  to_float null = raised type_error
  to_float (flag b) = ok (if b then fl.dec 1 0 else fl.dec 0 0)
  to_float (num x) = ok x
  to_float (text s) = parsed (fl.parse s)

  -- `v >= bound` at a float bound: only numbers compare with one
  unfoldable pub at_least : Value F → F → Result Bool
  at_least v bound = elim (as_number v) [ none ↦ raised type_error | some x ↦ ok (fl.le bound x) ]

  -- `total + v`
  unfoldable pub plus : F → Value F → Result F
  plus total v = elim (as_number v) [ none ↦ raised type_error | some x ↦ ok (fl.add total x) ]

  abbrev less_number : Option F → Option F → Result Bool
  less_number (some x) (some y) = ok (fl.lt x y)
  less_number x y = raised type_error

  -- `v < w`: numbers among themselves, texts among themselves
  unfoldable pub less : Value F → Value F → Result Bool
  less (text s) (text t) = ok (elim (compare s t) [ Ordering.lt ↦ true | _ ↦ false ])
  less v w = less_number (as_number v) (as_number w)

  -- `f"{v}"` of `twin.get(key)`
  unfoldable pub shown : Option (Value F) → String
  shown none = "None"
  shown (some null) = "None"
  shown (some (flag b)) = if b then "True" else "False"
  shown (some (num x)) = fl.to_str x
  shown (some (text s)) = s
