-- ===== src/Tests/Artifacts.antt =====
-- The theorems about the artifact store, applied to five bytes in two chunks.
use oscillink_agent.Base.{
  ℕ, ◌≡◌, ◌≢◌, ◌≤◌, refl, String, true, false, none, some, List, [], ◌∷◌, ok, err, length,
}
use oscillink_agent.Artifacts.{
  Bytes, Disk, out_of_fuel, System, ArtifactPublication, reference_of, Chunk, bytes, Stream, put,
  put_stream,
}
use oscillink_agent.Artifacts.Publication.{IsHexDigest, IsStored, put-IsStored}
use oscillink_agent.Artifacts.Copying.{Reads}
use oscillink_agent.Artifacts.Streams.{put_stream-Terminates, put_stream-IsStored}

abbrev empty_hash : String
empty_hash = "aaaaaaaaaaaaaaaaaaaaaaaaaaaaaaaaaaaaaaaaaaaaaaaaaaaaaaaaaaaaaaaa"

abbrev other_hash : String
other_hash = "bbbbbbbbbbbbbbbbbbbbbbbbbbbbbbbbbbbbbbbbbbbbbbbbbbbbbbbbbbbbbbbb"

abbrev digest : Bytes → String
digest [] = empty_hash
digest (b ∷ bs) = other_hash

abbrev system : System
system = record {
  digest = digest;
  directory_escapes = λ h. false;
  file_escapes = λ h. false;
  meanwhile = λ files. files;
}

system-IsHexDigest : IsHexDigest system
unfolding oscillink_agent.Domain.Identifiers.is_digest oscillink_agent.Base.ℕ_discrete
system-IsHexDigest [] = refl
system-IsHexDigest (b ∷ bs) = refl

-- A stream of a list of chunks.
abbrev read_next : ℕ → List Bytes → Chunk × List Bytes
read_next n [] = (bytes [], [])
read_next n (c ∷ cs) = (bytes c, cs)

abbrev chunks : Stream
chunks = record { State = List Bytes; read = read_next }

abbrev two_chunks : List Bytes
two_chunks = (1 ∷ 2 ∷ 3 ∷ []) ∷ (4 ∷ 5 ∷ []) ∷ []

abbrev no_files : Disk
no_files = record { files = []; temporaries = 0 }

abbrev five : Bytes
five = 1 ∷ 2 ∷ 3 ∷ 4 ∷ 5 ∷ []

abbrev one_file : Disk
one_file = record {
  files = record { hexadecimal = other_hash; content = five } ∷ [];
  temporaries = 0;
}

abbrev publication : ArtifactPublication
publication = record { reference = reference_of other_hash; byte_count = 5; deduplicated = false }

stream_returns :
    put_stream chunks 8 3 system two_chunks (some 5) no_files ≡ (ok publication, one_file)
unfolding put_stream oscillink_agent.Base.ℕ_discrete oscillink_agent.Artifacts.publish
    oscillink_agent.Base.select_one
stream_returns = refl

put_stream-Terminates_example :
    ((put_stream chunks 8 3 system two_chunks (some 5) no_files).0 ≢ err out_of_fuel)
    × ((put_stream chunks 8 3 system two_chunks (some 5) no_files).1.temporaries ≡ 0)
put_stream-Terminates_example = put_stream-Terminates chunks 8 3 system two_chunks (some 5) no_files

put_stream-IsStored_example :
    (content : Bytes) × Reads chunks 3 two_chunks content
    × (5 ≡ length content)
    × (length content ≤ 8)
    × IsStored system content (reference_of other_hash) one_file
put_stream-IsStored_example =
    put_stream-IsStored chunks 8 3 system system-IsHexDigest two_chunks (some 5) no_files one_file
      publication stream_returns

put_returns : put system five no_files ≡ (ok publication, one_file)
unfolding put oscillink_agent.Base.select_one
put_returns = refl

put-IsStored_example :
    IsStored system five (reference_of other_hash) one_file
    × (5 ≡ length five)
    × (one_file.temporaries ≡ no_files.temporaries)
put-IsStored_example =
    put-IsStored system system-IsHexDigest five no_files one_file publication put_returns
