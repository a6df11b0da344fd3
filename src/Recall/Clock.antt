-- ===== src/Recall/Clock.antt =====
-- The time that a request identity carries (`_request_time` of integrations/mcp/server.py).
use Prim.Native.Char.{Char}
use Prim.Native.String.{◌++◌}
use Prim.Native.String.append
use oscillink_agent.Base.{ℕ, suc, ◌+◌, ◌*◌, ◌^◌, ◌<◌, ◌≡◌, ◌∙◌, refl, ap, String, some}
use oscillink_agent.Domain.Tokens.{encode, decode}
use oscillink_agent.Domain.Tokens.Codec.{decode_high}
use oscillink_agent.Recall.{Runtime, drop_codes, request_time}

drop_one :
    (n : ℕ) (c : Char) (s t : String)
    → drop_codes (suc n) (String.◌∷◌ c s ++ t) ≡ drop_codes n (s ++ t)
unfolding drop_codes
drop_one n c s t = ap (drop_codes (suc n)) (append.cons c s t)

drop_prefix : (t : String) → drop_codes 4 ("evt_" ++ t) ≡ t
unfolding drop_codes
drop_prefix t =
    drop_one 3 "e" "vt_" t
    ∙ drop_one 2 "v" "t_" t
    ∙ drop_one 1 "t" "_" t
    ∙ drop_one 0 "_" "" t
    ∙ append.nil t

timed_by :
    (runtime : Runtime) (id : String) (ms : ℕ)
    → decode 10 0 (drop_codes 4 id) ≡ some ms
    → request_time runtime id ≡ runtime.from_timestamp ms
unfolding request_time
timed_by runtime id ms e = rw (request_time, e) refl

-- The time of a request is the number in the high bits of its identity: an event identity whose
-- token stands for some milliseconds in its first fifty bits, and for any other number in its last
-- eighty, is a request at the time of those milliseconds.
pub request_time-encode :
    (runtime : Runtime) (ms other : ℕ)
    → ms < 2 ^ 50
    → other < 2 ^ 80
    → request_time runtime ("evt_" ++ encode 26 (ms * 2 ^ 80 + other) String.[])
      ≡ runtime.from_timestamp ms
request_time-encode runtime ms other small fits =
    let token = encode 26 (ms * 2 ^ 80 + other) String.[] in
    timed_by runtime ("evt_" ++ token) ms
      (ap (decode 10 0) (drop_prefix token) ∙ decode_high ms other small fits)
