-- ===== src/Json.antt =====
-- JSON values and Python's dicts of them, as the columns `details` and `payload` hold them. Numbers
-- are the natural ones: prices, mileages and counts.
pub mod Lookup
use Prim.Native.String.{compare}
use Prim.Native.Nat.{Ordering}
use searchcar_desktop.Base.{
  ℕ, ◌+◌, String, is_some, Bool, true, false, ◌&&◌, ◌||◌, not, Option, none, some, List, [], ◌∷◌,
  if◌then◌else◌, ◌==◌, str_eq,
}

mutual
  pub data Json : Type 0 where
    null : Json
    boolean : Bool → Json
    number : ℕ → Json
    string : String → Json
    array : Items → Json
    dict : Fields → Json

  pub data Items : Type 0 where
    end : Items
    item : Json → Items → Items

  pub data Fields : Type 0 where
    empty : Fields
    field : String → Json → Fields → Fields

-- d.get(key), where None says that the key is missing
abbrev pub lookup : String → Fields → Option Json
lookup key empty = none
lookup key (field k v rest) = let r = lookup key rest in if str_eq k key then some v else r

abbrev pub or_null : Option Json → Json
or_null none = null
or_null (some v) = v

-- d.get(key)
abbrev pub get : String → Fields → Json
get key d = or_null (lookup key d)

abbrev pub truthy : Json → Bool
truthy null = false
truthy (boolean b) = b
truthy (number n) = not (n == 0)
truthy (string s) = not (str_eq s "")
truthy (array end) = false
truthy (array (item _ _)) = true
truthy (dict empty) = false
truthy (dict (field _ _ _)) = true

-- a or b
abbrev pub or_json : Json → Json → Json
or_json a b = if truthy a then a else b

-- `value or {}`, for the values that the writers store there: a dict or nothing
abbrev pub as_dict : Json → Fields
as_dict (dict d) = d
as_dict _ = empty

-- d[key] = value
unfoldable pub put : String → Json → Fields → Fields
put key v empty = field key v empty
put key v (field k w rest) =
    let r = put key v rest in if str_eq k key then field k v rest else field k w r

abbrev pub or_value : Option Json → Json → Json
or_value none v = v
or_value (some w) v = w

-- the fields of `a` with the values that `b` has for them
unfoldable pub override : Fields → Fields → Fields
override empty b = empty
override (field k v rest) b = field k (or_value (lookup k b) v) (override rest b)

-- the fields of `b` that `a` lacks
unfoldable pub extra : Fields → Fields → Fields
extra a empty = empty
extra a (field k v rest) = let r = extra a rest in if is_some (lookup k a) then r else field k v r

abbrev pub append : Fields → Fields → Fields
append empty b = b
append (field k v rest) b = field k v (append rest b)

-- {**a, **b}
unfoldable pub merge : Fields → Fields → Fields
unfolding override extra
merge a b = append (override a b) (extra a b)

-- a dict display
abbrev pub fields : List (String × Json) → Fields
fields [] = empty
fields ((k, v) ∷ rest) = field k v (fields rest)

-- list(d)
abbrev pub keys : Fields → List String
keys empty = []
keys (field k _ rest) = k ∷ keys rest

abbrev pub size : Fields → ℕ
size empty = 0
size (field _ _ rest) = 1 + size rest

abbrev pub texts : List String → Items
texts [] = end
texts (s ∷ ss) = item (string s) (texts ss)

-- sorted(set(...))
unfoldable pub insert_name : String → List String → List String
insert_name s [] = s ∷ []
insert_name s (t ∷ ts) =
    let rest = insert_name s ts in
    elim (compare s t) [ Ordering.lt ↦ s ∷ t ∷ ts | Ordering.eq ↦ t ∷ ts | Ordering.gt ↦ t ∷ rest ]

unfoldable pub sorted_names : List String → List String
unfolding insert_name
sorted_names [] = []
sorted_names (s ∷ ss) = insert_name s (sorted_names ss)

abbrev bit : Bool → ℕ
bit b = if b then 1 else 0

-- Python's == ; a boolean is the number 0 or 1, and the order of a dict's keys does not count
unfoldable mutual
  pub json_eq : Json → Json → Bool
  json_eq null null = true
  json_eq (boolean a) (boolean b) = bit a == bit b
  json_eq (boolean a) (number n) = bit a == n
  json_eq (number n) (boolean b) = n == bit b
  json_eq (number n) (number m) = n == m
  json_eq (string s) (string t) = str_eq s t
  json_eq (array xs) (array ys) = items_eq xs ys
  json_eq (dict a) (dict b) = size a == size b && fields_in a b
  json_eq _ _ = false

  pub items_eq : Items → Items → Bool
  items_eq end end = true
  items_eq (item x xs) (item y ys) = json_eq x y && items_eq xs ys
  items_eq _ _ = false

  pub fields_in : Fields → Fields → Bool
  fields_in empty b = true
  fields_in (field k v rest) b = is_some (lookup k b) && (json_eq v (get k b) && fields_in rest b)
