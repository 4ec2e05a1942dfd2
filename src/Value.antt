-- ===== src/Value.antt =====
-- Python values that come from YAML and JSON, as src/fabri/decide, src/fabri/memory and
-- src/fabri/orchestrator read them. A mapping is a list of fields in the order of the file, one to a
-- key. Floats are left out.
use fabri.Prelude.{
  ℕ, suc, String, Bool, true, false, ◌==◌, ◌&&◌, eqb, Option, none, some, List, [], ◌∷◌,
  if◌then◌else◌,
}

-- A key of a mapping: a text, a boolean, or another value by its `str()`.
pub data Key : Type 0 where
  text : String → Key
  boolean : Bool → Key
  other : String → Key

-- `num n` is the integer n and `neg n` the integer -(n + 1).
mutual
  pub data Value : Type 0 where
    null : Value
    bool : Bool → Value
    num neg : ℕ → Value
    str : String → Value
    seq : Items → Value
    mapping : Fields → Value

  pub data Items : Type 0 where
    nil : Items
    cons : Value → Items → Items

  pub data Fields : Type 0 where
    end : Fields
    field : Key → Value → Fields → Fields

-- `d.get(key)` at a text key, with `none` where the key is missing.
unfoldable pub find_field : String → Fields → Option Value
find_field k end = none
find_field k (field (text j) v fs) = if j == k then some v else find_field k fs
find_field k (field (boolean b) v fs) = find_field k fs
find_field k (field (other j) v fs) = find_field k fs

-- `d.get(key)`, which is `None` where the key is missing.
unfoldable pub get_field : String → Fields → Value
unfolding find_field
get_field k fs = elim (find_field k fs) [ none ↦ null | some v ↦ v ]

-- `d[key] = v` at a text key: a key that is there keeps its place.
unfoldable pub set_field : String → Value → Fields → Fields
set_field k v end = field (text k) v end
set_field k v (field (text j) w fs) =
    if j == k then field (text k) v fs else field (text j) w (set_field k v fs)
set_field k v (field j w fs) = field j w (set_field k v fs)

-- `list(xs)`.
unfoldable pub items : Items → List Value
items nil = []
items (cons v vs) = v ∷ items vs

-- `d.items()`.
unfoldable pub entries : Fields → List (Key × Value)
entries end = []
entries (field k v fs) = (k, v) ∷ entries fs

abbrev pub is_null : Value → Bool
is_null null = true
is_null _ = false

-- `isinstance(v, str)` with its text.
abbrev pub as_str : Value → Option String
as_str (str s) = some s
as_str _ = none

-- `isinstance(v, dict)` with its fields.
abbrev pub as_mapping : Value → Option Fields
as_mapping (mapping fs) = some fs
as_mapping _ = none

-- `isinstance(v, list)` with its elements.
abbrev pub as_seq : Value → Option Items
as_seq (seq vs) = some vs
as_seq _ = none

-- `isinstance(v, int) and not isinstance(v, bool)`.
abbrev pub is_int : Value → Bool
is_int (num n) = true
is_int (neg n) = true
is_int _ = false

abbrev is_key : Key → Key → Bool
is_key (text s) (text t) = s == t
is_key (boolean true) (boolean b) = b
is_key (boolean false) (boolean b) = if b then false else true
is_key (other s) (other t) = s == t
is_key _ _ = false

unfoldable pub find_key : Key → Fields → Option Value
find_key k end = none
find_key k (field j v fs) = if is_key j k then some v else find_key k fs

unfoldable pub size : Fields → ℕ
size end = 0
size (field k v fs) = suc (size fs)

-- `v == w`: `True` is 1 and `False` is 0, and the order of a mapping's keys does not count.
abbrev as_index : Value → Option ℕ
as_index (num n) = some n
as_index (bool b) = some (if b then 1 else 0)
as_index _ = none

abbrev is_index : ℕ → Value → Bool
is_index n v = elim (as_index v) [ none ↦ false | some m ↦ eqb n m ]

unfoldable mutual
  unfolding find_key size

  pub equal : Value → Value → Bool
  equal null w = is_null w
  equal (bool b) w = is_index (if b then 1 else 0) w
  equal (num n) w = is_index n w
  equal (neg n) (neg m) = eqb n m
  equal (neg n) w = false
  equal (str s) (str t) = s == t
  equal (str s) w = false
  equal (seq vs) (seq ws) = equal_items vs ws
  equal (seq vs) w = false
  equal (mapping fs) (mapping gs) = eqb (size fs) (size gs) && equal_fields fs gs
  equal (mapping fs) w = false

  pub equal_items : Items → Items → Bool
  equal_items nil nil = true
  equal_items nil (cons w ws) = false
  equal_items (cons v vs) nil = false
  equal_items (cons v vs) (cons w ws) = equal v w && equal_items vs ws

  pub equal_fields : Fields → Fields → Bool
  equal_fields end gs = true
  equal_fields (field k v fs) gs =
      elim (find_key k gs) [ none ↦ false | some w ↦ equal v w ] && equal_fields fs gs
