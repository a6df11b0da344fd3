-- ===== src/Artifacts/Copying.antt =====
-- The loop of `put_stream` (storage/artifacts.py): it ends, and copies what the stream returned.
use oscillink_agent.Base.{
  ℕ, zero, suc, ◌+◌, ◌≤◌, ◌<◌, ◌≡◌, ◌≢◌, ◌⊎◌, inl, inr, refl, sym, ap, ◌∙◌, [], ◌∷◌, ◌++◌, arith,
  ok, err, append-nil, append_assoc, length, length-append, nat_eq,
}
use oscillink_agent.Artifacts.{
  Bytes, out_of_fuel, Chunk, bytes, other, Stream, Copied, Round, finished, continued, copy_round,
  copy,
}

-- The bytes that a stream returns from a state to its end.
pub data Reads (stream : Stream) (n : ℕ) : stream.State → Bytes → Type 0 where
  ended : (s : stream.State) → (stream.read n s).0 ≡ bytes [] → Reads stream n s []
  more :
      (s : stream.State) (b : ℕ) (bs rest : Bytes)
      → (stream.read n s).0 ≡ bytes (b ∷ bs)
      → Reads stream n (stream.read n s).1 rest
      → Reads stream n s ((b ∷ bs) ++ rest)

module _ (stream : Stream) (max_bytes chunk_bytes : ℕ) where
  -- A round that goes on has read at least one byte, within the limit.
  continued-Bounded :
      (chunk : Chunk) (written w : Bytes) (count n : ℕ)
      → copy_round max_bytes chunk written count ≡ continued w n
      → (b : ℕ) × (bs : Bytes) × (chunk ≡ bytes (b ∷ bs))
        × (w ≡ written ++ b ∷ bs)
        × (n ≡ count + length (b ∷ bs))
        × (n ≤ max_bytes)
  continued-Bounded other written w count n h = absurd (ground arith)
  continued-Bounded (bytes []) written w count n h = absurd (ground arith)
  continued-Bounded (bytes (b ∷ bs)) written w count n h =
      (b, bs, refl, ground arith, ground arith, ground arith)

  finished-InFuel :
      (chunk : Chunk) (written : Bytes) (count : ℕ) (r : Copied)
      → copy_round max_bytes chunk written count ≡ finished r
      → r ≢ err out_of_fuel
  finished-InFuel other written count r h e = absurd (ground arith)
  finished-InFuel (bytes []) written count r h e = absurd (ground arith)
  finished-InFuel (bytes (b ∷ bs)) written count r h e = absurd (ground arith)

  round-cases :
      (r : Round)
      → ((c : Copied) × (r ≡ finished c)) ⊎ ((w : Bytes) × (n : ℕ) × (r ≡ continued w n))
  round-cases (finished c) = inl (c, refl)
  round-cases (continued w n) = inr (w, n, refl)

  module _ (fuel : ℕ) (s : stream.State) (written : Bytes) (count : ℕ) where
    round_at : Round
    round_at = copy_round max_bytes (stream.read chunk_bytes s).0 written count

    copy-finished :
        (r : Copied)
        → round_at ≡ finished r
        → copy stream max_bytes chunk_bytes (suc fuel) s written count ≡ r
    unfolding copy round_at
    copy-finished r e = rw (copy, e) refl

    copy-continued :
        (w : Bytes) (n : ℕ)
        → round_at ≡ continued w n
        → copy stream max_bytes chunk_bytes (suc fuel) s written count
          ≡ copy stream max_bytes chunk_bytes fuel (stream.read chunk_bytes s).1 w n
    unfolding copy round_at
    copy-continued w n e = rw (copy, e) refl

  pub copy-InFuel :
      (fuel : ℕ) (s : stream.State) (written : Bytes) (count : ℕ)
      → count ≤ max_bytes
      → max_bytes + 1 < fuel + count
      → copy stream max_bytes chunk_bytes fuel s written count ≢ err out_of_fuel
  unfolding round_at
  copy-InFuel zero s written count bound enough e = absurd (omega arith)
  copy-InFuel (suc fuel) s written count bound enough e =
      let chunk = stream.read chunk_bytes s in
      elim (round-cases (round_at fuel s written count)) [
        | inl (c, done) ↦
            finished-InFuel chunk.0 written count c done
              (sym (copy-finished fuel s written count c done) ∙ e)
        | inr (w, n, goes_on) ↦
            let (b, bs, read, wrote, counted, within) =
              continued-Bounded chunk.0 written w count n goes_on in
            copy-InFuel fuel chunk.1 w n within (omega (arith, counted))
              (sym (copy-continued fuel s written count w n goes_on) ∙ e)
      ]

  finished-End :
      (chunk : Chunk) (written content : Bytes) (count n : ℕ)
      → copy_round max_bytes chunk written count ≡ finished (ok (content, n))
      → (chunk ≡ bytes []) × (content ≡ written) × (n ≡ count)
  finished-End other written content count n h = absurd (ground arith)
  finished-End (bytes []) written content count n h = (refl, ground arith, ground arith)
  finished-End (bytes (b ∷ bs)) written content count n h = absurd (ground arith)

  -- What the loop has copied is what the stream returns, counted.
  pub record CopiedFrom (s : stream.State) (written content : Bytes) (count n : ℕ) : Type 0 where
    pub rest : Bytes
    pub reads : Reads stream chunk_bytes s rest
    pub whole : content ≡ written ++ rest
    pub counted : n ≡ count + length rest
    pub bounded : n ≤ max_bytes

  pub copy-CopiedFrom :
      (fuel : ℕ) (s : stream.State) (written content : Bytes) (count n : ℕ)
      → count ≤ max_bytes
      → copy stream max_bytes chunk_bytes fuel s written count ≡ ok (content, n)
      → CopiedFrom s written content count n
  unfolding copy round_at
  copy-CopiedFrom zero s written content count n bound h = absurd (ground arith)
  copy-CopiedFrom (suc fuel) s written content count n bound h =
      let chunk = stream.read chunk_bytes s in
      elim (round-cases (round_at fuel s written count)) [
        | inl (c, done) ↦
            let same : c ≡ ok (content, n) = sym (copy-finished fuel s written count c done) ∙ h in
            let (read, whole, counted) =
              finished-End chunk.0 written content count n (done ∙ ap finished same) in
            record {
              rest = [];
              reads = Reads.ended s read;
              whole = whole ∙ sym (append-nil written);
              counted = omega (arith, counted);
              bounded = omega (arith, counted);
            }
        | inr (w, k, goes_on) ↦
            let (b, bs, read, wrote, counted, within) =
              continued-Bounded chunk.0 written w count k goes_on in
            let after =
              copy-CopiedFrom fuel chunk.1 w content k n within
                (sym (copy-continued fuel s written count w k goes_on) ∙ h) in
            record {
              rest = (b ∷ bs) ++ after.rest;
              reads = Reads.more s b bs after.rest read after.reads;
              whole =
                  after.whole
                  ∙ ap (λ x. x ++ after.rest) wrote
                  ∙ append_assoc written (b ∷ bs) after.rest;
              counted = omega (arith, counted, after.counted, length-append (b ∷ bs) after.rest);
              bounded = after.bounded;
            }
      ]
