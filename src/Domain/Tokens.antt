-- ===== src/Domain/Tokens.antt =====
-- The Crockford tokens of `_new_record_id` (memory/repository.py) and of `_derived_id`
-- (integrations/mcp/server.py, capabilities/service.py), and `_request_time`, which reads one.
pub mod Codec
use Prim.Native.Char.{Char, code}
use Prim.Native.String.{◌++◌}
use oscillink_agent.Base.{
  ℕ, zero, suc, ◌+◌, ◌*◌, ◌/◌, ◌%◌, ◌^◌, String, Option, none, some, List, [], ◌∷◌, ◌==◌, nat_eq,
  if◌then◌else◌,
}

-- `_CROCKFORD`
unfoldable pub crockford : List Char
crockford =
    "0" ∷ "1" ∷ "2" ∷ "3" ∷ "4" ∷ "5" ∷ "6" ∷ "7" ∷ "8" ∷ "9" ∷ "A" ∷ "B" ∷ "C" ∷ "D" ∷ "E" ∷ "F"
    ∷ "G" ∷ "H" ∷ "J" ∷ "K" ∷ "M" ∷ "N" ∷ "P" ∷ "Q" ∷ "R" ∷ "S" ∷ "T" ∷ "V" ∷ "W" ∷ "X" ∷ "Y" ∷ "Z"
    ∷ []

symbol_in : List Char → ℕ → Char
symbol_in [] i = "0"
symbol_in (c ∷ cs) zero = c
symbol_in (c ∷ cs) (suc i) = symbol_in cs i

-- `_CROCKFORD[i]`, at an index below 32
unfoldable pub symbol : ℕ → Char
unfolding crockford symbol_in
symbol i = symbol_in crockford i

position_in : List Char → Char → Option ℕ
position_in [] c = none
position_in (d ∷ ds) c =
    let rest = position_in ds c in
    if code d == code c then some 0 else elim rest [ none ↦ none | some i ↦ some (suc i) ]

-- `_CROCKFORD.index(c)`; `none` stands for the ValueError
unfoldable pub index : Char → Option ℕ
unfolding crockford position_in
index c = position_in crockford c

-- The loop `token = _CROCKFORD[value & 31] + token; value >>= 5`, n rounds. On the non-negative
-- integers `& 31` is `% 32`, and `>> 5` is `/ 32`.
unfoldable pub encode : ℕ → ℕ → String → String
encode zero value token = token
encode (suc n) value token = encode n (value / 32) (String.◌∷◌ (symbol (value % 32)) token)

-- `f"{prefix}_{token}"` from `int.from_bytes(digest[:17], "big") >> 6`
unfoldable pub token_id : String → ℕ → String
unfolding encode
token_id prefix bytes = prefix ++ encode 26 (bytes / 2 ^ 6) String.[]

unfoldable pub new_record_id : ℕ → String
unfolding token_id
new_record_id bytes = token_id "mem_" bytes

-- `timestamp = timestamp * 32 + _CROCKFORD.index(character)` over the first n characters;
-- `_request_time` reads ten
unfoldable pub decode : ℕ → ℕ → String → Option ℕ
decode zero acc s = some acc
decode (suc n) acc String.[] = some acc
decode (suc n) acc (String.◌∷◌ c s) = elim (index c) [
  | none ↦ none
  | some i ↦ decode n (acc * 32 + i) s
]
