-- ===== src/DeadLetters/Values.antt =====
-- api/utils/serialization.py over the values that a task is called with: a list, a tuple and a set
-- are sequences, the keys of a mapping are given by their texts, which are distinct, and any other
-- object by its text. A number is an integer or a float.
use fastapi_asyncpg_template.Base.{ℕ, String, Bool, ◌≡◌, refl, ap}

mutual
  pub data Value : Type 0 where
    null : Value
    boolean : Bool → Value
    number : ℕ → Value
    text : String → Value
    list tuple set : Values → Value
    mapping : Fields → Value
    object : (str : String) → Value

  pub data Values : Type 0 where
    no_values : Values
    value_then : Value → Values → Values

  pub data Fields : Type 0 where
    no_fields : Fields
    field_then : String → Value → Fields → Fields

mutual
  pub json_serialize_safe : Value → Value
  json_serialize_safe null = null
  json_serialize_safe (boolean b) = boolean b
  json_serialize_safe (number n) = number n
  json_serialize_safe (text s) = text s
  json_serialize_safe (list vs) = list (serialize_all vs)
  json_serialize_safe (tuple vs) = list (serialize_all vs)
  json_serialize_safe (set vs) = list (serialize_all vs)
  json_serialize_safe (mapping fs) = mapping (serialize_fields fs)
  json_serialize_safe (object s) = text s

  pub serialize_all : Values → Values
  serialize_all no_values = no_values
  serialize_all (value_then v vs) = value_then (json_serialize_safe v) (serialize_all vs)

  pub serialize_fields : Fields → Fields
  serialize_fields no_fields = no_fields
  serialize_fields (field_then k v fs) = field_then k (json_serialize_safe v) (serialize_fields fs)

-- Values that `json.dumps` takes and that `json.loads` gives back as they are.
unfoldable mutual
  pub IsJson : Value → Type 0
  IsJson null = Unit {0}
  IsJson (boolean b) = Unit {0}
  IsJson (number n) = Unit {0}
  IsJson (text s) = Unit {0}
  IsJson (list vs) = AllJson vs
  IsJson (tuple vs) = ⊥
  IsJson (set vs) = ⊥
  IsJson (mapping fs) = FieldsJson fs
  IsJson (object s) = ⊥

  pub AllJson : Values → Type 0
  AllJson no_values = Unit {0}
  AllJson (value_then v vs) = IsJson v × AllJson vs

  pub FieldsJson : Fields → Type 0
  FieldsJson no_fields = Unit {0}
  FieldsJson (field_then k v fs) = IsJson v × FieldsJson fs

mutual
  unfolding json_serialize_safe serialize_all serialize_fields IsJson AllJson FieldsJson

  value-IsJson : (v : Value) → IsJson (json_serialize_safe v)
  value-IsJson null = tt
  value-IsJson (boolean b) = tt
  value-IsJson (number n) = tt
  value-IsJson (text s) = tt
  value-IsJson (list vs) = values-AllJson vs
  value-IsJson (tuple vs) = values-AllJson vs
  value-IsJson (set vs) = values-AllJson vs
  value-IsJson (mapping fs) = fields-FieldsJson fs
  value-IsJson (object s) = tt

  values-AllJson : (vs : Values) → AllJson (serialize_all vs)
  values-AllJson no_values = tt
  values-AllJson (value_then v vs) = (value-IsJson v, values-AllJson vs)

  fields-FieldsJson : (fs : Fields) → FieldsJson (serialize_fields fs)
  fields-FieldsJson no_fields = tt
  fields-FieldsJson (field_then k v fs) = (value-IsJson v, fields-FieldsJson fs)

mutual
  unfolding json_serialize_safe serialize_all serialize_fields IsJson AllJson FieldsJson

  value_same : (v : Value) → IsJson v → json_serialize_safe v ≡ v
  value_same null h = refl
  value_same (boolean b) h = refl
  value_same (number n) h = refl
  value_same (text s) h = refl
  value_same (list vs) h = ap list (values_same vs h)
  value_same (tuple vs) h = elim h [ ]
  value_same (set vs) h = elim h [ ]
  value_same (mapping fs) h = ap mapping (fields_same fs h)
  value_same (object s) h = elim h [ ]

  values_same : (vs : Values) → AllJson vs → serialize_all vs ≡ vs
  values_same no_values h = refl
  values_same (value_then v vs) (a, b) = λ i. value_then (value_same v a i) (values_same vs b i)

  fields_same : (fs : Fields) → FieldsJson fs → serialize_fields fs ≡ fs
  fields_same no_fields h = refl
  fields_same (field_then k v fs) (a, b) = λ i. field_then k (value_same v a i) (fields_same fs b i)

-- What json_serialize_safe makes of any value is JSON, and a value that is JSON stays as it is.
pub json_serialize_safe-IsJson :
    (v w : Value) → IsJson w → IsJson (json_serialize_safe v) × (json_serialize_safe w ≡ w)
json_serialize_safe-IsJson v w j = (value-IsJson v, value_same w j)
