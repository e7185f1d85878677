-- ===== src/Json.antt =====
-- The values that `encoding/json` decodes into `interface{}`, and the type assertions and small
-- helpers of pkg/adapter/gemini.go on them. A decoded number is a finite float64.
use aadapter.Base.{
  ℕ, ◌*◌, ◌/◌, ◌^◌, String, Bool, true, false, not, ◌&&◌, ◌||◌, Option, none, some, List, [], ◌∷◌,
  leb, ◌==◌, if◌then◌else◌, str_eq, ◌≡◌, refl, ap,
}
use aadapter.Base.Maps.{Map, get, put}
use aadapter.Base.Outcome.{Outcome, ok, fail}

-- ± mantissa * 2 ^ scale / 2 ^ shrink, as every finite float64 can be written.
pub record Float : Type 0 where
  pub negative : Bool
  pub mantissa : ℕ
  pub scale : ℕ
  pub shrink : ℕ

mutual
  pub data Value : Type 0 where
    null : Value
    bool : Bool → Value
    num : Float → Value
    str : String → Value
    obj : Fields → Value
    arr : Items → Value

  pub data Fields : Type 0 where
    no_fields : Fields
    field : String → Value → Fields → Fields

  pub data Items : Type 0 where
    no_items : Items
    item : Value → Items → Items

-- `map[string]interface{}`
abbrev pub Object : Type 0
Object = Map Value

abbrev pub list_of : Items → List Value
list_of no_items = []
list_of (item v vs) = v ∷ list_of vs

abbrev pub items_of : List Value → Items
items_of [] = no_items
items_of (v ∷ vs) = item v (items_of vs)

abbrev pub map_of : Fields → Object
map_of no_fields = []
map_of (field k v fs) = (k, v) ∷ map_of fs

abbrev pub fields_of : Object → Fields
fields_of [] = no_fields
fields_of ((k, v) ∷ m) = field k v (fields_of m)

abbrev pub object : Object → Value
object m = obj (fields_of m)

abbrev pub array : List Value → Value
array vs = arr (items_of vs)

pub map_of-fields_of : (m : Object) → map_of (fields_of m) ≡ m
map_of-fields_of [] = refl
map_of-fields_of ((k, v) ∷ m) = ap (◌∷◌ (k, v)) (map_of-fields_of m)

pub list_of-items_of : (vs : List Value) → list_of (items_of vs) ≡ vs
list_of-items_of [] = refl
list_of-items_of (v ∷ vs) = ap (◌∷◌ v) (list_of-items_of vs)

-- `v.(T)` with its flag, on a value that may be missing (a missing key reads as nil).
abbrev pub as_string : Option Value → Option String
as_string (some (str s)) = some s
as_string _ = none

abbrev pub as_bool : Option Value → Option Bool
as_bool (some (bool b)) = some b
as_bool _ = none

abbrev pub as_object : Option Value → Option Object
as_object (some (obj fs)) = some (map_of fs)
as_object _ = none

abbrev pub as_array : Option Value → Option (List Value)
as_array (some (arr vs)) = some (list_of vs)
as_array _ = none

abbrev pub or_empty : Option String → String
or_empty (some s) = s
or_empty none = ""

abbrev pub or_none {ℓ} : {A : Type ℓ} → Option (List A) → List A
or_none (some l) = l
or_none none = []

abbrev pub objects : List Object → List Value
objects [] = []
objects (m ∷ ms) = object m ∷ objects ms

-- `value == nil`
abbrev pub is_nil : Option Value → Bool
is_nil none = true
is_nil (some null) = true
is_nil _ = false

unfoldable pub string_or_empty : Option Value → String
string_or_empty v = or_empty (as_string v)

unfoldable pub object_or_empty : Option Value → Value
object_or_empty v = if is_nil v then object [] else (elim v [ some w ↦ w | none ↦ null ])

unfoldable pub object_map_or_empty : Option Value → Outcome Object
object_map_or_empty v =
    if is_nil v
    then ok []
    else elim (as_object v) [ some m ↦ ok m | none ↦ fail "must be an object" ]

unfoldable pub copy_field : Object → Object → String → String → Object
copy_field src dst from to = elim (get from src) [ some v ↦ put to v dst | none ↦ dst ]

unfoldable pub thought_signature : Object → String
thought_signature value =
    let signature = string_or_empty (get "thoughtSignature" value) in
    if str_eq signature "" then string_or_empty (get "thought_signature" value) else signature

-- `v > 0`, `v <= n` and the whole part of a float64
unfoldable pub is_positive : Float → Bool
is_positive f = not f.negative && not (f.mantissa == 0)

unfoldable pub at_most : Float → ℕ → Bool
at_most f n = f.negative || leb (f.mantissa * 2 ^ f.scale) (n * 2 ^ f.shrink)

unfoldable pub whole_part : Float → ℕ
whole_part f = f.mantissa * 2 ^ f.scale / 2 ^ f.shrink
