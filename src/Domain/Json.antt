-- ===== src/Domain/Json.antt =====
-- JSON payloads and `freeze_bounded_payload` of domain/events.py.
use oscillink_agent.Base.{
  ℕ, suc, String, Bool, true, false, ◌&&◌, Option, none, some, length, leb, ◌==◌, string_eq,
  if◌then◌else◌,
}
use oscillink_agent.Domain.Identifiers.{codes}
use oscillink_agent.Domain.Vocabulary.{max_integer}

-- A value of a payload. An integer is a sign and a magnitude; a float is its text, with whether it
-- is finite and at most `MAX_INTEROPERABLE_JSON_INTEGER` in magnitude. Fields keep their order.
mutual
  pub data Json : Type 0 where
    null : Json
    flag : Bool → Json
    integer : Bool → ℕ → Json
    float : Bool → String → Json
    text : String → Json
    array : Items → Json
    object : Fields → Json

  pub data Items : Type 0 where
    no_items : Items
    item : Json → Items → Items

  pub data Fields : Type 0 where
    no_fields : Fields
    field : String → Json → Fields → Fields

-- `value.get(key)`
unfoldable pub get_field : String → Fields → Option Json
get_field key no_fields = none
get_field key (field k v rest) = if k == key then some v else get_field key rest

-- `payload.get(key) == s` for a text s
unfoldable pub field_is : String → String → Fields → Bool
unfolding get_field
field_is key s fs = elim (get_field key fs) [
  | none ↦ false
  | some v ↦ elim v [ text t ↦ t == s | _ ↦ false ]
]

unfoldable pub count_items : Items → ℕ
count_items no_items = 0
count_items (item v rest) = suc (count_items rest)

unfoldable pub count_fields : Fields → ℕ
count_fields no_fields = 0
count_fields (field k v rest) = suc (count_fields rest)

-- Whether `freeze_bounded_payload(value, depth)` returns: its limits on nesting, on the number and
-- the names of properties, on items, texts and numbers.
unfoldable mutual
  unfolding count_items count_fields

  pub is_bounded : Json → ℕ → Bool
  is_bounded null depth = true
  is_bounded (flag b) depth = true
  is_bounded (integer s n) depth = leb n max_integer
  is_bounded (float safe t) depth = safe
  is_bounded (text s) depth = leb (length (codes s)) 16384
  is_bounded (array xs) depth =
      leb depth 2 && leb (count_items xs) 64 && bounded_items xs (suc depth)
  is_bounded (object fs) depth =
      leb depth 2 && leb (count_fields fs) 64 && bounded_fields fs (suc depth)

  pub bounded_items : Items → ℕ → Bool
  bounded_items no_items depth = true
  bounded_items (item v rest) depth = is_bounded v depth && bounded_items rest depth

  pub bounded_fields : Fields → ℕ → Bool
  bounded_fields no_fields depth = true
  bounded_fields (field k v rest) depth =
      leb (length (codes k)) 128 && is_bounded v depth && bounded_fields rest depth
