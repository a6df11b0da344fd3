-- ===== src/Domain/Identifiers.antt =====
-- The identifier patterns of domain/events.py, domain/context.py, memory/repository.py and
-- storage/sqlite.py, as tests on the code points of a text.
use Prim.Native.Char.{code}
use oscillink_agent.Base.{
  ℕ, String, Bool, true, false, ◌&&◌, ◌||◌, Option, none, some, List, [], ◌∷◌, length, leb, ◌==◌,
  nat_eq, if◌then◌else◌,
}

abbrev pub codes : String → List ℕ
codes String.[] = []
codes (String.◌∷◌ c s) = code c ∷ codes s

unfoldable pub all_codes : (ℕ → Bool) → List ℕ → Bool
all_codes p [] = true
all_codes p (c ∷ cs) = p c && all_codes p cs

-- The rest of the text after a prefix.
unfoldable pub strip_prefix : List ℕ → List ℕ → Option (List ℕ)
strip_prefix [] s = some s
strip_prefix (p ∷ ps) [] = none
strip_prefix (p ∷ ps) (c ∷ s) = let rest = strip_prefix ps s in if p == c then rest else none

abbrev between : ℕ → ℕ → ℕ → Bool
between a b c = leb a c && leb c b

-- [0-9A-HJKMNP-TV-Z]
unfoldable pub is_crockford : ℕ → Bool
is_crockford c =
    between b'0' b'9' c
    || between b'A' b'H' c
    || c == b'J'
    || c == b'K'
    || c == b'M'
    || c == b'N'
    || between b'P' b'T' c
    || between b'V' b'Z' c

-- [0-9a-f]
unfoldable pub is_hex : ℕ → Bool
is_hex c = between b'0' b'9' c || between b'a' b'f' c

-- [a-z0-9]
unfoldable pub is_term_code : ℕ → Bool
is_term_code c = between b'a' b'z' c || between b'0' b'9' c

-- [A-Za-z0-9]
is_alnum : ℕ → Bool
unfolding is_term_code
is_alnum c = is_term_code c || between b'A' b'Z' c

-- `^<prefix>[0-9A-HJKMNP-TV-Z]{26}$`
unfoldable pub has_token : List ℕ → String → Bool
unfolding all_codes strip_prefix is_crockford
has_token prefix s = elim (strip_prefix prefix (codes s)) [
  | none ↦ false
  | some rest ↦ length rest == 26 && all_codes is_crockford rest
]

unfoldable pub is_memory_record_id : String → Bool
unfolding has_token
is_memory_record_id = has_token (codes "mem_")

unfoldable pub is_event_id : String → Bool
unfolding has_token
is_event_id = has_token (codes "evt_")

unfoldable pub is_context_id : String → Bool
unfolding has_token
is_context_id = has_token (codes "ctx_")

unfoldable pub is_task_id : String → Bool
unfolding has_token
is_task_id = has_token (codes "tsk_")

unfoldable pub is_grant_id : String → Bool
unfolding has_token
is_grant_id = has_token (codes "grt_")

-- `^(evt|clm|doc|mem|prc)_[0-9A-HJKMNP-TV-Z]{26}$`
unfoldable pub is_record_id : String → Bool
unfolding has_token
is_record_id s =
    has_token (codes "evt_") s
    || has_token (codes "clm_") s
    || has_token (codes "doc_") s
    || has_token (codes "mem_") s
    || has_token (codes "prc_") s

-- `^sha256:[0-9a-f]{64}$`
unfoldable pub is_digest : String → Bool
unfolding all_codes strip_prefix is_hex
is_digest s = elim (strip_prefix (codes "sha256:") (codes s)) [
  | none ↦ false
  | some rest ↦ length rest == 64 && all_codes is_hex rest
]

-- `[a-z0-9][a-z0-9_-]{1,62}`
is_actor_name : List ℕ → Bool
unfolding all_codes is_term_code
is_actor_name [] = false
is_actor_name (c ∷ cs) =
    is_term_code c
    && leb 1 (length cs)
    && leb (length cs) 62
    && all_codes (λ d. is_term_code d || d == b'_' || d == b'-') cs

named_after : List ℕ → String → Bool
unfolding strip_prefix is_actor_name
named_after prefix s = elim (strip_prefix prefix (codes s)) [
  | none ↦ false
  | some rest ↦ is_actor_name rest
]

-- `^(human|model|tool|system)_[a-z0-9][a-z0-9_-]{1,62}$`
unfoldable pub is_actor_id : String → Bool
unfolding named_after
is_actor_id s =
    named_after (codes "human_") s
    || named_after (codes "model_") s
    || named_after (codes "tool_") s
    || named_after (codes "system_") s

is_key_tail : ℕ → Bool
unfolding is_alnum
is_key_tail c = is_alnum c || c == b'.' || c == b'_' || c == b':' || c == b'-'

key_codes : List ℕ → Bool
unfolding all_codes is_alnum is_key_tail
key_codes [] = false
key_codes (c ∷ cs) = is_alnum c && leb (length cs) 127 && all_codes is_key_tail cs

-- `[A-Za-z0-9][A-Za-z0-9._:-]{0,127}`, by `fullmatch`
unfoldable pub is_idempotency_key : String → Bool
unfolding key_codes
is_idempotency_key s = key_codes (codes s)

-- `str.startswith`
unfoldable pub has_prefix : List ℕ → String → Bool
unfolding strip_prefix
has_prefix p s = elim (strip_prefix p (codes s)) [ none ↦ false | some _ ↦ true ]
