-- ===== src/Capabilities/Reads.antt =====
-- `execute_file_read` of capabilities/broker.py: a claim, and then a bounded read whose file did not
-- change meanwhile.
pub mod Outcome
use oscillink_agent.Base.{
  ℕ, ◌+◌, ◌≤◌, ◌≡◌, ◌≢◌, ◌⊎◌, inl, inr, refl, String, Bool, true, false, not, ◌&&◌, Option, none,
  some, List, [], ◌∷◌, ◌++◌, arith, length, ltb, ◌==◌, nat_eq, ok, err, Result, pure, raise,
  raise_if, or_raise, ◌>>=◌, ◌>>◌, if◌then◌else◌, Option-cases, bind-ok, ◌∙◌, sym,
}
use oscillink_agent.Capabilities.Claims.{Claimed, claim_grant-Claimed}
use oscillink_agent.Capabilities.{
  Grant, GrantRow, Denial, scope_unavailable, file_unavailable, scope_escape, size_exceeded,
  file_changed, encoding_denied, Broker, Call, claim_grant,
}

-- What identifies the content of a file: `(st_dev, st_ino, st_size, st_mtime_ns)`.
pub record Stat : Type 0 where
  pub device : ℕ
  pub inode : ℕ
  pub size : ℕ
  pub modified : ℕ

unfoldable pub is_same_file : Stat → Stat → Bool
is_same_file a b =
    a.device == b.device && a.inode == b.inode && a.size == b.size && a.modified == b.modified

-- The file system as one call finds it, `none` where the call raises OSError: the root of a scope
-- and the target below it resolved, the path's `stat` before the read, the first bytes with the
-- descriptor's `fstat`, and the path's `stat` after it; and UTF-8 and SHA-256.
pub record Files : Type 0 where
  pub resolve_root : String → Option String
  pub is_dir : String → Bool
  pub resolve_target : String → String → Option String
  pub is_relative_to : String → String → Bool
  pub is_file : String → Bool
  pub stat : String → Option Stat
  pub read : String → ℕ → Option (List ℕ × Stat)
  pub stat_again : String → Option Stat
  pub decode_text : List ℕ → Option String
  pub digest : List ℕ → String

-- `FileReadObservation`; its trust class is the constant "external_untrusted".
pub record Observation : Type 0 where
  pub grant_id : String
  pub scope_id : String
  pub target : String
  pub byte_count : ℕ
  pub content_hash : String
  pub content : String

module _ (files : Files) where
  -- The path of the grant's file, resolved in the root of its scope.
  unfoldable pub resolve : Grant → Call String
  resolve g = do
    root ← or_raise (files.resolve_root g.scope_id) scope_unavailable
    raise_if (not (files.is_dir root)) scope_unavailable
    path ← or_raise (files.resolve_target root g.target) file_unavailable
    raise_if (not (files.is_relative_to path root)) scope_escape
    raise_if (not (files.is_file path)) file_unavailable
    pure path

  unfoldable pub read_path : Grant → String → Call Observation
  read_path g path = do
    before ← or_raise (files.stat path) file_unavailable
    raise_if (ltb g.max_bytes before.size) size_exceeded
    (bytes, descriptor) ← or_raise (files.read path (g.max_bytes + 1)) file_unavailable
    after ← or_raise (files.stat_again path) file_unavailable
    raise_if (ltb g.max_bytes (length bytes)) size_exceeded
    raise_if (not (is_same_file before descriptor && is_same_file descriptor after)) file_changed
    content ← or_raise (files.decode_text bytes) encoding_denied
    pure (record {
      grant_id = g.id;
      scope_id = g.scope_id;
      target = g.target;
      byte_count = length bytes;
      content_hash = files.digest bytes;
      content = content;
    })

  -- What `execute_file_read` does once it holds the grant.
  unfoldable pub read_granted : Grant → Call Observation
  read_granted g = do path ← resolve g; read_path g path

  -- `execute_file_read`
  unfoldable pub execute_file_read : Broker → String → String → ℕ → Call Observation
  execute_file_read broker grant_id subject now = do
    g ← claim_grant broker grant_id subject now
    read_granted g
