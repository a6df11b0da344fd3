-- ===== src/Capabilities/Reads/Outcome.antt =====
-- What a file read that returns has established (capabilities/broker.py).
use oscillink_agent.Base.{
  ℕ, ◌+◌, ◌≤◌, ◌≡◌, ◌≢◌, ◌⊎◌, inl, inr, String, true, none, some, List, arith, length, nat_eq,
  Result, ok, err, Option-cases, outcome-cases, bind-ok, ◌∙◌, sym, ap,
}
use oscillink_agent.Capabilities.Claims.{Claimed, claim_grant-Claimed, claim_grant-err}
use oscillink_agent.Capabilities.{Grant, GrantRow, Denial, Broker, claim_grant}
use oscillink_agent.Capabilities.Reads.{
  Stat, is_same_file, Files, Observation, resolve, read_path, read_granted, execute_file_read,
}

module _ (files : Files) where
  -- A file that was read for a grant: in the root of the scope, in the bound of bytes, unchanged.
  pub record WasRead (g : Grant) (o : Observation) : Type 0 where
    pub root : String
    pub path : String
    pub bytes : List ℕ
    pub before : Stat
    pub descriptor : Stat
    pub after : Stat
    pub rooted : files.resolve_root g.scope_id ≡ some root
    pub resolved : files.resolve_target root g.target ≡ some path
    pub directory : files.is_dir root ≡ true
    pub inside : files.is_relative_to path root ≡ true
    pub regular : files.is_file path ≡ true
    pub bounded : length bytes ≤ g.max_bytes
    pub read_from : files.read path (g.max_bytes + 1) ≡ some (bytes, descriptor)
    pub found : files.stat path ≡ some before
    pub found_again : files.stat_again path ≡ some after
    pub same_before : descriptor ≡ before
    pub same_after : descriptor ≡ after
    pub decoded : files.decode_text bytes ≡ some o.content
    pub hashed : o.content_hash ≡ files.digest bytes
    pub counted : o.byte_count ≡ length bytes
    pub granted : o.grant_id ≡ g.id

  resolve-ok :
      (g : Grant) (path : String) (rows rows' : List GrantRow)
      → resolve files g rows ≡ (ok path, rows')
      → (root : String) × (files.resolve_root g.scope_id ≡ some root)
        × (files.resolve_target root g.target ≡ some path)
        × (files.is_dir root ≡ true)
        × (files.is_relative_to path root ≡ true)
        × (files.is_file path ≡ true)
        × (rows' ≡ rows)
  unfolding resolve
  resolve-ok g path rows rows' h = elim (Option-cases (files.resolve_root g.scope_id)) [
    | inl e ↦ absurd (ground arith)
    | inr (root, e) ↦ elim (Option-cases (files.resolve_target root g.target)) [
      | inl t ↦ absurd (ground arith)
      | inr (path', t) ↦
          (root, e, ground arith, ground arith, ground arith, ground arith, ground arith)
    ]
  ]

  -- What a read that returned has seen of the file.
  record Seen (g : Grant) (path : String) (o : Observation) (rows rows' : List GrantRow)
      : Type 0 where
    bytes : List ℕ
    before : Stat
    descriptor : Stat
    after : Stat
    read_from : files.read path (g.max_bytes + 1) ≡ some (bytes, descriptor)
    found : files.stat path ≡ some before
    found_again : files.stat_again path ≡ some after
    bounded : length bytes ≤ g.max_bytes
    same_before : descriptor ≡ before
    same_after : descriptor ≡ after
    decoded : files.decode_text bytes ≡ some o.content
    hashed : o.content_hash ≡ files.digest bytes
    counted : o.byte_count ≡ length bytes
    granted : o.grant_id ≡ g.id
    unchanged : rows' ≡ rows

  same_stat : (a b : Stat) → is_same_file a b ≡ true → a ≡ b
  unfolding is_same_file
  same_stat a b h = ground arith

  read_path-unread :
      (g : Grant) (path : String) (o : Observation) (rows rows' : List GrantRow)
      → read_path files g path rows ≡ (ok o, rows')
      → (files.stat path ≢ none)
        × (files.read path (g.max_bytes + 1) ≢ none)
        × (files.stat_again path ≢ none)
  unfolding read_path
  read_path-unread g path o rows rows' h = (ground arith, ground arith, ground arith)

  read_path-Seen_from :
      (g : Grant) (path : String) (o : Observation) (rows rows' : List GrantRow)
      (before descriptor after : Stat) (bytes : List ℕ)
      → files.stat path ≡ some before
      → files.read path (g.max_bytes + 1) ≡ some (bytes, descriptor)
      → files.stat_again path ≡ some after
      → read_path files g path rows ≡ (ok o, rows')
      → Seen g path o rows rows'
  unfolding read_path
  read_path-Seen_from g path o rows rows' before descriptor after bytes a b c h = record {
    bytes = bytes;
    before = before;
    descriptor = descriptor;
    after = after;
    read_from = b;
    found = a;
    found_again = c;
    bounded = ground arith;
    same_before = sym (same_stat before descriptor (ground arith));
    same_after = same_stat descriptor after (ground arith);
    decoded = ground arith;
    hashed = ground arith;
    counted = ground arith;
    granted = ground arith;
    unchanged = ground arith;
  }

  read_path-Seen :
      (g : Grant) (path : String) (o : Observation) (rows rows' : List GrantRow)
      → read_path files g path rows ≡ (ok o, rows')
      → Seen g path o rows rows'
  read_path-Seen g path o rows rows' h =
      let some_of = read_path-unread g path o rows rows' h in
      elim (Option-cases (files.stat path)) [
        | inl a ↦ absurd (some_of.0 a)
        | inr (before, a) ↦ elim (Option-cases (files.read path (g.max_bytes + 1))) [
          | inl b ↦ absurd (some_of.1 b)
          | inr ((bytes, descriptor), b) ↦ elim (Option-cases (files.stat_again path)) [
            | inl c ↦ absurd (some_of.2 c)
            | inr (after, c) ↦
                read_path-Seen_from g path o rows rows' before descriptor after bytes a b c h
          ]
        ]
      ]

  read_granted-WasRead :
      (g : Grant) (o : Observation) (rows rows' : List GrantRow)
      → read_granted files g rows ≡ (ok o, rows')
      → WasRead g o × (rows' ≡ rows)
  unfolding read_granted
  read_granted-WasRead g o rows rows' h =
      let (path, first, second) = bind-ok (resolve files g) (read_path files g) rows o rows' h in
      let mid = (resolve files g rows).1 in
      let (root, rooted, resolved, directory, inside, regular, still) =
        resolve-ok g path rows mid (λ i. (first i, mid)) in
      let s = read_path-Seen g path o mid rows' second in
      (
        record {
          root = root;
          path = path;
          bytes = s.bytes;
          before = s.before;
          descriptor = s.descriptor;
          after = s.after;
          rooted = rooted;
          resolved = resolved;
          directory = directory;
          inside = inside;
          regular = regular;
          bounded = s.bounded;
          read_from = s.read_from;
          found = s.found;
          found_again = s.found_again;
          same_before = s.same_before;
          same_after = s.same_after;
          decoded = s.decoded;
          hashed = s.hashed;
          counted = s.counted;
          granted = s.granted;
        },
        s.unchanged ∙ still,
      )

  -- Reading leaves the grants as they are, also where it raises.
  resolve-rows : (g : Grant) (rows : List GrantRow) → (resolve files g rows).1 ≡ rows
  unfolding resolve
  resolve-rows g rows = ground arith

  read_path-rows :
      (g : Grant) (path : String) (rows : List GrantRow) → (read_path files g path rows).1 ≡ rows
  unfolding read_path
  read_path-rows g path rows = ground arith

  read_granted-rows : (g : Grant) (rows : List GrantRow) → (read_granted files g rows).1 ≡ rows
  unfolding read_granted
  read_granted-rows g rows = elim (outcome-cases (resolve files g rows)) [
    | inl (path, e) ↦
        ground (arith, e, read_path-rows g path (resolve files g rows).1, resolve-rows g rows)
    | inr (d, e) ↦ ground (arith, e, resolve-rows g rows)
  ]

  claimed_read :
      (broker : Broker) (id subject : String) (now : ℕ) (g : Grant) (rows mid : List GrantRow)
      → claim_grant broker id subject now rows ≡ (ok g, mid)
      → execute_file_read files broker id subject now rows ≡ read_granted files g mid
  unfolding execute_file_read
  claimed_read broker id subject now g rows mid h = ground arith

  denied_read :
      (broker : Broker) (id subject : String) (now : ℕ) (d : Denial) (rows mid : List GrantRow)
      → claim_grant broker id subject now rows ≡ (err d, mid)
      → execute_file_read files broker id subject now rows ≡ (err d, mid)
  unfolding execute_file_read
  denied_read broker id subject now d rows mid h = ground arith

  -- A file read whose claim is denied raises that denial and leaves the grants as they are. Any
  -- other has claimed the grant, with all that a claim requires and consumes, also where the read
  -- then raises; and where it returns, it has read a regular file in the root of the grant's scope,
  -- within the grant's bound of bytes, whose device, inode, size and time of modification were the
  -- same before, during and after the read, and the observation reports its size, its digest and
  -- its text.
  pub execute_file_read-cases :
      (broker : Broker) (id subject : String) (now : ℕ) (x : Result Denial Observation)
      (rows rows' : List GrantRow)
      → execute_file_read files broker id subject now rows ≡ (x, rows')
      → ((d : Denial) × (x ≡ err d)
          × ((claim_grant broker id subject now rows).0 ≡ err d)
          × (rows' ≡ rows))
        ⊎ ((g : Grant) × Claimed broker id subject now g rows rows'
            × ((o : Observation) → x ≡ ok o → WasRead g o))
  execute_file_read-cases broker id subject now x rows rows' h =
      elim (outcome-cases (claim_grant broker id subject now rows)) [
        | inl (g, e) ↦
            let mid = (claim_grant broker id subject now rows).1 in
            let read : read_granted files g mid ≡ (x, rows') =
              sym (claimed_read broker id subject now g rows mid e) ∙ h in
            let still : rows' ≡ mid = sym (ap (λ p. p.1) read) ∙ read_granted-rows g mid in
            inr (
              g,
              rw still (claim_grant-Claimed broker id subject now g rows mid e),
              λ o k. (read_granted-WasRead g o mid rows' (read ∙ λ i. (k i, rows'))).0,
            )
        | inr (d, e) ↦
            let mid = (claim_grant broker id subject now rows).1 in
            let same = claim_grant-err broker id subject now d rows mid e in
            let raised = sym h ∙ denied_read broker id subject now d rows mid e in
            inl (d, ap (λ p. p.0) raised, ap (λ p. p.0) e, ap (λ p. p.1) raised ∙ same)
      ]
