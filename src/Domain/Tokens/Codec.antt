-- ===== src/Domain/Tokens/Codec.antt =====
-- Tokens stand for numbers: reading a token back gives its number, and an identity made from one
-- matches its pattern.
use Prim.Native.Char.{code}
use Prim.Native.String.{◌++◌}
use mathlib.Core.Path.{ap₂}
use native.Mathlib.Nat.{pow-suc}
use mathlib.Core.List.{◌++◌ as ◌++ᴸ◌}
use Prim.Native.String.append
use oscillink_agent.Base.{
  ℕ, zero, suc, ◌+◌, ◌*◌, ◌/◌, ◌%◌, ◌^◌, ◌<◌, ◌≡◌, ◌∙◌, sym, ap, refl, String, Bool, true, false,
  if◌then◌else◌, some, List, [], ◌∷◌, arith, ◌==◌, nat_eq, ℕ_discrete, option_eq, option_discrete,
  length,
}
use oscillink_agent.Domain.Tokens.{encode, decode, symbol, index, new_record_id}
use oscillink_agent.Domain.Identifiers.{
  codes, is_crockford, all_codes, is_memory_record_id, has_token, strip_prefix,
}

-- A test of the thirty-two symbols, by evaluation.
passes : (ℕ → Bool) → ℕ → Bool
passes test zero = true
passes test (suc count) = if passes test count then test count else false

passes-at : (test : ℕ → Bool) (count i : ℕ) → i < count → passes test count ≡ true → test i ≡ true
unfolding passes
passes-at test zero i below h = absurd (omega arith)
passes-at test (suc count) i below h = ground (arith, passes-at test count i)

index_table : passes (λ i. index (symbol i) == some i) 32 ≡ true
unfolding passes symbol index ℕ_discrete option_discrete
index_table = refl

symbol_table : passes (λ i. is_crockford (code (symbol i))) 32 ≡ true
unfolding passes symbol is_crockford ℕ_discrete
symbol_table = refl

index-symbol : (i : ℕ) → i < 32 → index (symbol i) ≡ some i
index-symbol i h =
    let e = passes-at (λ j. index (symbol j) == some j) 32 i h index_table in ground arith

shift_bound : (n value : ℕ) → value < 32 ^ suc n → value / 32 < 32 ^ n
shift_bound n value h = let e = pow-suc 32 n in omega arith

shift_sum :
    (n value acc : ℕ) → (acc * 32 ^ n + value / 32) * 32 + value % 32 ≡ acc * 32 ^ suc n + value
shift_sum n value acc = let e = ap (λ x. acc * x) (pow-suc 32 n) in omega arith

decode_symbol :
    (m i acc : ℕ) (token : String)
    → i < 32
    → decode (suc m) acc (String.◌∷◌ (symbol i) token) ≡ decode m (acc * 32 + i) token
unfolding decode
decode_symbol m i acc token h = ground (arith, index-symbol i h)

-- Reading on through a token: its digits are taken after those read before.
decode-encode_from :
    (n m value acc : ℕ) (token : String)
    → value < 32 ^ n
    → decode (n + m) acc (encode n value token) ≡ decode m (acc * 32 ^ n + value) token
unfolding decode encode
decode-encode_from zero m value acc token h =
    let e : acc ≡ acc * 32 ^ 0 + value = omega arith in
    let k : 0 + m ≡ m = omega arith in ap₂ (λ a b. decode a b token) k e
decode-encode_from (suc n) m value acc token h =
    let k : suc n + m ≡ n + suc m = omega arith in
    let rest = String.◌∷◌ (symbol (value % 32)) token in
    ap (λ j. decode j acc (encode n (value / 32) rest)) k
    ∙ decode-encode_from n (suc m) (value / 32) acc rest (shift_bound n value h)
    ∙ decode_symbol m (value % 32) (acc * 32 ^ n + value / 32) token (omega arith)
    ∙ ap (λ t. decode m t token) (shift_sum n value acc)

-- The low digits of a number are the end of its token: what is before them is the token of the rest.
encode_high :
    (n m high low : ℕ) (token : String)
    → low < 32 ^ n
    → (t : String) × (encode (n + m) (high * 32 ^ n + low) token ≡ encode m high t)
unfolding encode
encode_high zero m high low token h =
    let e : high * 32 ^ 0 + low ≡ high = omega arith in
    let k : 0 + m ≡ m = omega arith in (token, ap₂ (λ a b. encode a b token) k e)
encode_high (suc n) m high low token h =
    let value = high * 32 ^ suc n + low in
    let e : value / 32 ≡ high * 32 ^ n + low / 32 =
      let p = ap (λ x. high * x) (pow-suc 32 n) in omega arith in
    let k : suc n + m ≡ suc (n + m) = omega arith in
    let next = String.◌∷◌ (symbol (value % 32)) token in
    let (t, rest) = encode_high n m high (low / 32) next (shift_bound n low h) in
    (t, ap (λ j. encode j value token) k ∙ ap (λ v. encode (n + m) v next) e ∙ rest)

-- The first ten symbols of a token are the number without its low eighty bits.
pub decode_high :
    (high low : ℕ)
    → high < 2 ^ 50
    → low < 2 ^ 80
    → decode 10 0 (encode 26 (high * 2 ^ 80 + low) String.[]) ≡ some high
unfolding decode
decode_high high low small fits =
    let (t, e) = encode_high 16 10 high low String.[] fits in
    ap (decode 10 0) e ∙ decode-encode_from 10 0 high 0 t small ∙ ap some (omega arith)

-- Reading back the token of a number below 2^130 gives the number.
pub decode-encode :
    (value : ℕ) → value < 2 ^ 130 → decode 26 0 (encode 26 value String.[]) ≡ some value
unfolding decode
decode-encode value h = decode-encode_from 26 0 value 0 String.[] h ∙ ap some (omega arith)

-- Different numbers have different tokens.
pub encode-injective :
    (a b : ℕ) → a < 2 ^ 130 → b < 2 ^ 130 → encode 26 a String.[] ≡ encode 26 b String.[] → a ≡ b
encode-injective a b ha hb e =
    let both : some a ≡ some b =
      sym (decode-encode a ha) ∙ ap (decode 26 0) e ∙ decode-encode b hb in
    ground arith

-- The codes of a token are Crockford symbols.
encode-crockford :
    (n value : ℕ) (token : String)
    → all_codes is_crockford (codes token) ≡ true
    → all_codes is_crockford (codes (encode n value token)) ≡ true
unfolding encode all_codes
encode-crockford zero value token h = h
encode-crockford (suc n) value token h =
    encode-crockford n (value / 32) (String.◌∷◌ (symbol (value % 32)) token) (
      let e =
        passes-at (λ i. is_crockford (code (symbol i))) 32 (value % 32) (omega arith)
          symbol_table in
      ground arith)

length-encode :
    (n value : ℕ) (token : String)
    → length (codes (encode n value token)) ≡ n + length (codes token)
unfolding encode
length-encode zero value token = omega arith
length-encode (suc n) value token =
    omega (arith, length-encode n (value / 32) (String.◌∷◌ (symbol (value % 32)) token))

codes-append : (s t : String) → codes (s ++ t) ≡ codes s ++ᴸ codes t
codes-append String.[] t = ap codes (append.nil t)
codes-append (String.◌∷◌ c s) t =
    ap codes (append.cons c s t) ∙ ap (λ r. code c ∷ r) (codes-append s t)

strip_prefix-append : (p r : List ℕ) → strip_prefix p (p ++ᴸ r) ≡ some r
unfolding strip_prefix
strip_prefix-append [] r = refl
strip_prefix-append (c ∷ p) r = ground (arith, strip_prefix-append p r)

has_token_of_parts :
    (p r : List ℕ) (s : String)
    → strip_prefix p (codes s) ≡ some r
    → length r ≡ 26
    → all_codes is_crockford r ≡ true
    → has_token p s ≡ true
unfolding has_token
has_token_of_parts p r s e n h = ground arith

has_token-append :
    (t : String)
    → length (codes t) ≡ 26
    → all_codes is_crockford (codes t) ≡ true
    → is_memory_record_id ("mem_" ++ t) ≡ true
unfolding is_memory_record_id
has_token-append t n h =
    has_token_of_parts (codes "mem_") (codes t) ("mem_" ++ t)
      (ap (strip_prefix (codes "mem_")) (codes-append "mem_" t)
        ∙ strip_prefix-append (codes "mem_") (codes t))
      n h

-- Every identity that `_new_record_id` makes, from any random bytes, matches `MemoryRecordId`.
pub new_record_id-valid : (bytes : ℕ) → is_memory_record_id (new_record_id bytes) ≡ true
unfolding new_record_id all_codes
new_record_id-valid bytes =
    has_token-append (encode 26 (bytes / 2 ^ 6) String.[])
      (length-encode 26 (bytes / 2 ^ 6) String.[] ∙ refl)
      (encode-crockford 26 (bytes / 2 ^ 6) String.[] refl)
