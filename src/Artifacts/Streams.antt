-- ===== src/Artifacts/Streams.antt =====
-- `put_stream` of storage/artifacts.py: it ends, and stores the bytes that the stream returned.
use oscillink_agent.Base.{
  ℕ, ◌+◌, ◌-◌, ◌≤◌, ◌≡◌, ◌≢◌, inl, inr, refl, ap, Bool, true, false, Option, [], arith, Result, ok,
  err, Bool-cases, length, ◌==◌, nat_eq, if◌then◌else◌,
}
use oscillink_agent.Artifacts.{
  Bytes, Disk, ArtifactError, out_of_fuel, value_error, System, ArtifactPublication, Stream, Copied,
  copy, mismatches, make_temporary, finally_unlink, publish, publish_copied, put_stream,
}
use oscillink_agent.Artifacts.Publication.{
  IsHexDigest, IsStored, publish-IsStored, IsStored-others, unlinked_ok,
}
use oscillink_agent.Artifacts.Endings.{publish-temporaries, publish-InFuel}
use oscillink_agent.Artifacts.Copying.{Reads, copy-InFuel, copy-CopiedFrom}

module _ (stream : Stream) (max_bytes chunk_bytes : ℕ) where
  module _ (system : System) where
    publish_copied-InFuel :
        (expected : Option ℕ) (c : Copied) (d : Disk)
        → c ≢ err out_of_fuel
        → (publish_copied stream max_bytes chunk_bytes system expected c d).0 ≢ err out_of_fuel
    unfolding publish_copied
    publish_copied-InFuel expected (err x) d ne e = ne (ground arith)
    publish_copied-InFuel expected (ok (content, n)) d ne e =
        elim (Bool-cases (mismatches expected n)) [
          | inl differs ↦ absurd (ground (arith, differs))
          | inr same ↦ publish-InFuel system content n d (rw same at e)
        ]

    publish_copied-temporaries :
        (expected : Option ℕ) (c : Copied) (d : Disk)
        → (publish_copied stream max_bytes chunk_bytes system expected c d).1.temporaries
          ≡ d.temporaries
    unfolding publish_copied
    publish_copied-temporaries expected (err x) d = refl
    publish_copied-temporaries expected (ok (content, n)) d =
        ground (arith, publish-temporaries system content n d)

    started_step :
        (b : Bool) (d : Disk) (x : Result ArtifactError ArtifactPublication × Disk)
        → x.0 ≢ err out_of_fuel
        → x.1.temporaries ≡ (make_temporary d).temporaries
        → ((if b then (err value_error, d) else finally_unlink x).0 ≢ err out_of_fuel)
          × ((if b then (err value_error, d) else finally_unlink x).1.temporaries ≡ d.temporaries)
    started_step true d x ne clean = (λ e. absurd (ground arith), refl)
    started_step false d x ne clean = (ne, omega (arith, clean))

    -- Whatever the stream returns, and if it never ends, `put_stream` is done within two reads more
    -- than the limit of bytes, and leaves no temporary file, also when it raises.
    pub put_stream-Terminates :
        (s : stream.State) (expected : Option ℕ) (d : Disk)
        → ((put_stream stream max_bytes chunk_bytes system s expected d).0 ≢ err out_of_fuel)
          × ((put_stream stream max_bytes chunk_bytes system s expected d).1.temporaries
              ≡ d.temporaries)
    unfolding put_stream
    put_stream-Terminates s expected d =
        let copied = copy stream max_bytes chunk_bytes (max_bytes + 2) s [] 0 in
        let in_fuel = publish_copied-InFuel expected copied (make_temporary d) (
          copy-InFuel stream max_bytes chunk_bytes (max_bytes + 2) s [] 0 (omega arith)
            (omega arith)) in
        let clean = publish_copied-temporaries expected copied (make_temporary d) in
        started_step (chunk_bytes == 0) d
          (publish_copied stream max_bytes chunk_bytes system expected copied (make_temporary d))
          in_fuel clean

    started_ok :
        (b : Bool) (d d' : Disk) (x : Result ArtifactError ArtifactPublication × Disk)
        (p : ArtifactPublication)
        → (if b then (err value_error, d) else finally_unlink x) ≡ (ok p, d')
        → (at : Disk) × (x ≡ (ok p, at)) × (d' ≡ record at { temporaries = at.temporaries - 1 })
    started_ok true d d' x p h = absurd (ground arith)
    started_ok false d d' x p h = unlinked_ok x p d' h

    copied_ok :
        (expected : Option ℕ) (c : Copied) (d at : Disk) (p : ArtifactPublication)
        → publish_copied stream max_bytes chunk_bytes system expected c d ≡ (ok p, at)
        → (content : Bytes) × (n : ℕ) × (c ≡ ok (content, n))
          × (publish system content n d ≡ (ok p, at))
    unfolding publish_copied
    copied_ok expected (err x) d at p h = absurd (ground arith)
    copied_ok expected (ok (content, n)) d at p h = (content, n, refl, ground arith)

    put_stream-ok :
        (s : stream.State) (expected : Option ℕ) (d d' : Disk) (p : ArtifactPublication)
        → put_stream stream max_bytes chunk_bytes system s expected d ≡ (ok p, d')
        → (content : Bytes) × (n : ℕ) × (at : Disk) × (copy stream max_bytes chunk_bytes
              (max_bytes + 2)
              s
              []
              0
            ≡ ok (content, n))
          × (publish system content n (make_temporary d) ≡ (ok p, at))
          × (d' ≡ record at { temporaries = at.temporaries - 1 })
    unfolding put_stream
    put_stream-ok s expected d d' p h =
        let (at, done, unlinked) = started_ok (chunk_bytes == 0) d d' _ p h in
        let (content, n, copied, placed) =
          copied_ok expected (copy stream max_bytes chunk_bytes (max_bytes + 2) s [] 0)
            (make_temporary d) at p done in
        (content, n, at, copied, placed, unlinked)

    -- What `put_stream` publishes are the bytes that the stream returned to its end, as many as it
    -- reports and within the limit, and the reference reads back bytes of their digest, where
    -- `hexdigest` gives sixty-four hexadecimal digits.
    pub put_stream-IsStored :
        IsHexDigest system
        → (s : stream.State) (expected : Option ℕ) (d d' : Disk) (p : ArtifactPublication)
        → put_stream stream max_bytes chunk_bytes system s expected d ≡ (ok p, d')
        → (content : Bytes) × Reads stream chunk_bytes s content
          × (p.byte_count ≡ length content)
          × (length content ≤ max_bytes)
          × IsStored system content p.reference d'
    put_stream-IsStored hex s expected d d' p h =
        let (content, n, at, copied, done, same) = put_stream-ok s expected d d' p h in
        let from =
          copy-CopiedFrom stream max_bytes chunk_bytes (max_bytes + 2) s [] content 0 n
            (omega arith) copied in
        let (stored, counted, still) =
          publish-IsStored system hex content n (make_temporary d) at p done in
        let whole : content ≡ from.rest = from.whole in
        let same_length : length content ≡ length from.rest = ap length whole in
        (
          content,
          rw whole from.reads,
          omega (arith, counted, from.counted, same_length),
          omega (arith, from.counted, from.bounded, same_length),
          rw same (IsStored-others system at (at.temporaries - 1) content p.reference stored),
        )
