-- ===== src/Tests/Tokens.antt =====
-- The theorems about identity tokens, applied.
use oscillink_agent.Base.{◌≡◌, ◌^◌, true}
use oscillink_agent.Domain.Identifiers.{is_memory_record_id}
use oscillink_agent.Domain.Tokens.{new_record_id}
use oscillink_agent.Domain.Tokens.Codec.{new_record_id-valid}

new_record_id-valid_example : is_memory_record_id (new_record_id (2 ^ 135)) ≡ true
new_record_id-valid_example = new_record_id-valid (2 ^ 135)
