-- ===== src/Artifacts.antt =====
-- The content-addressed store of artifacts: storage/artifacts.py.
pub mod Publication
pub mod Endings
pub mod Copying
pub mod Streams
use oscillink_agent.Base.{
  ℕ, zero, suc, ◌+◌, ◌-◌, String, Bool, true, false, not, Option, none, some, List, [], ◌∷◌, ◌++◌,
  length, ltb, ◌==◌, string_eq, nat_eq, select_one, Result, ok, err, Action, if◌then◌else◌,
}
use oscillink_agent.Domain.Identifiers.{codes, is_digest}
use oscillink_agent.Recall.{drop_codes}

abbrev pub Bytes : Type 0
Bytes = List ℕ

-- A file under the root, at the path that its address gives.
pub record Stored : Type 0 where
  pub hexadecimal : String
  pub content : Bytes

-- The root: the artifacts, and how many temporary files there are.
pub record Disk : Type 0 where
  pub files : List Stored
  pub temporaries : ℕ

pub data ArtifactError : Type 0 where
  corruption not_found invalid_reference limit_exceeded invalid_stream : ArtifactError
  length_mismatch path_escape value_error out_of_fuel : ArtifactError

abbrev pub Call : Type 0 → Type 0
Call A = Action Disk ArtifactError A

-- The library's part: `hashlib.sha256(…).hexdigest()`; whether the directory or the file of an
-- address is a link or lies outside the root; and what other processes do to the files before
-- `os.link`.
pub record System : Type 0 where
  pub digest : Bytes → String
  pub directory_escapes : String → Bool
  pub file_escapes : String → Bool
  pub meanwhile : List Stored → List Stored

-- `ArtifactPublication`
pub record ArtifactPublication : Type 0 where
  pub reference : String
  pub byte_count : ℕ
  pub deduplicated : Bool

-- `f"sha256:{hexadecimal}"`
abbrev pub reference_of : String → String
reference_of h = String.◌∷◌ "s" (
    String.◌∷◌ "h"
      (String.◌∷◌ "a" (String.◌∷◌ "2" (String.◌∷◌ "5" (String.◌∷◌ "6" (String.◌∷◌ ":" h))))))

-- `_parse_reference`; `none` stands for the InvalidArtifactReferenceError
unfoldable pub parse_reference : String → Option String
unfolding drop_codes
parse_reference reference = if is_digest reference then some (drop_codes 7 reference) else none

abbrev pub find_file : String → Disk → Option Stored
find_file h d = select_one (λ f. f.hexadecimal == h) d.files

-- `mkstemp`, and `finally: temporary.unlink(…)`
abbrev pub make_temporary : Disk → Disk
make_temporary d = record d { temporaries = d.temporaries + 1 }

abbrev pub finally_unlink :
    {A : Type 0} → Result ArtifactError A × Disk → Result ArtifactError A × Disk
finally_unlink (r, d) = (r, record d { temporaries = d.temporaries - 1 })

module _ (system : System) where
  -- `_reject_path_escape` of the directory and of the file
  unfoldable pub is_escaping : String → Bool
  is_escaping h = if system.directory_escapes h then true else system.file_escapes h

  -- The bytes that were read, against their address.
  unfoldable pub check_content : String → Option Stored → Result ArtifactError Bytes
  check_content h none = err not_found
  check_content h (some f) = if system.digest f.content == h then ok f.content else err corruption

  unfoldable pub get_parsed : Option String → Disk → Result ArtifactError Bytes
  unfolding is_escaping check_content
  get_parsed none d = err invalid_reference
  get_parsed (some h) d = if is_escaping h then err path_escape else check_content h (find_file h d)

  -- `get`
  unfoldable pub get : String → Disk → Result ArtifactError Bytes
  unfolding parse_reference get_parsed
  get reference d = get_parsed (parse_reference reference) d

  -- `self.get(reference)`, and then the publication of what is there
  unfoldable pub published :
      ArtifactPublication → Result ArtifactError Bytes → Result ArtifactError ArtifactPublication
  published p (ok content) = ok p
  published p (err x) = err x

  -- `os.link`, or the FileExistsError of a file that came in between.
  unfoldable pub link_file : String → Bytes → ℕ → Option Stored → Call ArtifactPublication
  unfolding get published
  link_file h content n none d = (
    ok (record { reference = reference_of h; byte_count = n; deduplicated = false }),
    record d { files = d.files ++ record { hexadecimal = h; content = content } ∷ [] },
  )
  link_file h content n (some f) d = (
    published (record { reference = reference_of h; byte_count = n; deduplicated = true })
        (get (reference_of h) d),
    d,
  )

  abbrev pub interfered : Disk → Disk
  interfered d = record d { files = system.meanwhile d.files }

  -- From `target.exists()` on.
  unfoldable pub publish_at : String → Bytes → ℕ → Option Stored → Call ArtifactPublication
  unfolding link_file
  publish_at h content n (some f) d = (
    published (record { reference = reference_of h; byte_count = n; deduplicated = true })
        (get (reference_of h) d),
    d,
  )
  publish_at h content n none d = link_file h content n (find_file h (interfered d)) (interfered d)

  unfoldable pub publish : Bytes → ℕ → Call ArtifactPublication
  unfolding is_escaping publish_at
  publish content n d =
      let h = system.digest content in
      if is_escaping h then (err path_escape, d) else publish_at h content n (find_file h d) d

  -- `put`; the link of a file that is not there yet is made from a temporary one.
  unfoldable pub put_at : String → Bytes → Option Stored → Call ArtifactPublication
  unfolding link_file
  put_at h content (some f) d = (
    published
        (record { reference = reference_of h; byte_count = length content; deduplicated = true })
        (get (reference_of h) d),
    d,
  )
  put_at h content none d =
      let d' = interfered (make_temporary d) in
      finally_unlink (link_file h content (length content) (find_file h d') d')

  -- `put`, which returns the reference of this publication.
  unfoldable pub put : Bytes → Call ArtifactPublication
  unfolding is_escaping put_at
  put content d =
      let h = system.digest content in
      if is_escaping h then (err path_escape, d) else put_at h content (find_file h d) d

-- What `stream.read(chunk_bytes)` came to: bytes, or `other`, which is another value or a raise. Both
-- end the loop at once and raise, the second with the stream's own error.
pub data Chunk : Type 0 where
  bytes : Bytes → Chunk
  other : Chunk

-- A stream is a state and its `read`.
pub record Stream : Type 1 where
  pub State : Type 0
  pub read : ℕ → State → Chunk × State

-- The loop of `put_stream`: the bytes that were written to the temporary file, and their number.
abbrev pub Copied : Type 0
Copied = Result ArtifactError (Bytes × ℕ)

-- What one round decides: the end of the loop, or what is written and counted for the next.
pub data Round : Type 0 where
  finished : Copied → Round
  continued : Bytes → ℕ → Round

abbrev pub copy_round : ℕ → Chunk → Bytes → ℕ → Round
copy_round max_bytes other written count = finished (err invalid_stream)
copy_round max_bytes (bytes []) written count = finished (ok (written, count))
copy_round max_bytes (bytes (b ∷ bs)) written count =
    if ltb max_bytes (count + length (b ∷ bs))
    then finished (err limit_exceeded)
    else continued (written ++ b ∷ bs) (count + length (b ∷ bs))

abbrev pub mismatches : Option ℕ → ℕ → Bool
mismatches none n = false
mismatches (some expected) n = not (n == expected)

module _ (stream : Stream) (max_bytes chunk_bytes : ℕ) where
  -- The fuel counts the reads.
  unfoldable pub copy : ℕ → stream.State → Bytes → ℕ → Copied
  copy zero state written count = err out_of_fuel
  copy (suc fuel) state written count =
      let chunk = stream.read chunk_bytes state in
      elim (copy_round max_bytes chunk.0 written count) [
        | finished r ↦ r
        | continued more n ↦ copy fuel chunk.1 more n
      ]

  module _ (system : System) where
    unfoldable pub publish_copied : Option ℕ → Copied → Call ArtifactPublication
    publish_copied expected (err x) d = (err x, d)
    publish_copied expected (ok (content, n)) d =
        if mismatches expected n then (err length_mismatch, d) else publish system content n d

    -- `put_stream`; of the reads, `max_bytes` can return new bytes, one more exceeds the limit, and
    -- one ends the stream.
    unfoldable pub put_stream : stream.State → Option ℕ → Call ArtifactPublication
    unfolding copy publish_copied
    put_stream state expected d =
        if chunk_bytes == 0
        then (err value_error, d)
        else finally_unlink
            (publish_copied expected (copy (max_bytes + 2) state [] 0) (make_temporary d))
