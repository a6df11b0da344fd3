-- ===== src/Artifacts/Publication.antt =====
-- What is read back of an artifact that was published (storage/artifacts.py).
use oscillink_agent.Base.{
  ℕ, ◌-◌, String, ◌≡◌, refl, sym, ◌∙◌, true, false, Option, none, some, [], ◌∷◌, ◌++◌, arith, ◌==◌,
  string_eq, Result, ok, err, select_one-append, length,
}
use oscillink_agent.Domain.Identifiers.{is_digest}
use oscillink_agent.Recall.{drop_codes}
use oscillink_agent.Artifacts.{
  Bytes, Stored, Disk, ArtifactError, System, ArtifactPublication, reference_of, parse_reference,
  find_file, is_escaping, check_content, get_parsed, get, published, link_file, interfered,
  publish_at, publish, put_at, put, make_temporary, finally_unlink,
}

-- `hexdigest` gives sixty-four hexadecimal digits.
abbrev pub IsHexDigest : System → Type 0
IsHexDigest system = (content : Bytes) → is_digest (reference_of (system.digest content)) ≡ true

-- The reference is that of the content, and reading it gives bytes of the same digest.
pub record IsStored (system : System) (content : Bytes) (reference : String) (d : Disk)
    : Type 0 where
  pub named : reference ≡ reference_of (system.digest content)
  pub found : Bytes
  pub reads : get system reference d ≡ ok found
  pub same : system.digest found ≡ system.digest content

parse-reference_of :
    (h : String) → is_digest (reference_of h) ≡ true → parse_reference (reference_of h) ≡ some h
unfolding parse_reference drop_codes
parse-reference_of h e = rw e refl

module _ (system : System) (hex : IsHexDigest system) (content : Bytes) where
  abbrev address : String
  address = system.digest content

  get-address :
      (d : Disk)
      → is_escaping system address ≡ false
      → get system (reference_of address) d ≡ check_content system address (find_file address d)
  unfolding get get_parsed
  get-address d inside = rw (parse-reference_of address (hex content), inside) refl

  check_content-same :
      (f : Option Stored) (c : Bytes)
      → check_content system address f ≡ ok c
      → system.digest c ≡ address
  unfolding check_content
  check_content-same none c h = absurd (ground arith)
  check_content-same (some f) c h = ground arith

  published-ok :
      (x p : ArtifactPublication) (r : Result ArtifactError Bytes)
      → published system x r ≡ ok p
      → (p ≡ x) × (c : Bytes) × (r ≡ ok c)
  unfolding published
  published-ok x p (ok c) h = (ground arith, c, refl)
  published-ok x p (err e) h = absurd (ground arith)

  -- A file that is there already.
  there-IsStored :
      (d : Disk) (n : ℕ) (p : ArtifactPublication)
      → is_escaping system address ≡ false
      → published system
          (record { reference = reference_of address; byte_count = n; deduplicated = true })
          (get system (reference_of address) d)
        ≡ ok p
      → IsStored system content p.reference d × (p.byte_count ≡ n)
  there-IsStored d n p inside h =
      let (same, c, reads) = published-ok _ p (get system (reference_of address) d) h in
      rw same (
        record {
          named = refl;
          found = c;
          reads = reads;
          same = check_content-same (find_file address d) c (sym (get-address d inside) ∙ reads);
        },
        refl,
      )

  new_file : Disk → Disk
  new_file d = record d {
    files = d.files ++ record { hexadecimal = address; content = content } ∷ [];
  }

  check_new :
      (d : Disk)
      → find_file address d ≡ none
      → check_content system address (find_file address (new_file d)) ≡ ok content
  unfolding check_content new_file
  check_new d unfound = ground (
    arith,
    select_one-append (λ f. f.hexadecimal == address) d.files
        (record { hexadecimal = address; content = content }),
  )

  new-IsStored :
      (d : Disk)
      → is_escaping system address ≡ false
      → find_file address d ≡ none
      → IsStored system content (reference_of address) (new_file d)
  new-IsStored d inside unfound = record {
    named = refl;
    found = content;
    reads = get-address (new_file d) inside ∙ check_new d unfound;
    same = refl;
  }

  module _ (n : ℕ) (p : ArtifactPublication) (d' : Disk)
      (inside : is_escaping system address ≡ false) where
    link_file-IsStored :
        (f : Option Stored) (d : Disk)
        → find_file address d ≡ f
        → link_file system address content n f d ≡ (ok p, d')
        → IsStored system content p.reference d'
          × (p.byte_count ≡ n)
          × (d'.temporaries ≡ d.temporaries)
    unfolding link_file
    link_file-IsStored none d unfound h =
        let fresh : ArtifactPublication = record {
          reference = reference_of address;
          byte_count = n;
          deduplicated = false;
        } in
        let same_p : fresh ≡ p = ground arith in
        let same_d : new_file d ≡ d' = unfold new_file in ground arith in
        rw (sym same_p, sym same_d) (new-IsStored d inside unfound, refl, unfold new_file in refl)
    link_file-IsStored (some f) d there h =
        let same_d : d ≡ d' = ground arith in
        let (stored, counted) = there-IsStored d n p inside (ground arith) in
        rw (sym same_d) (stored, counted, refl)

    publish_at-IsStored :
        (f : Option Stored) (d : Disk)
        → find_file address d ≡ f
        → publish_at system address content n f d ≡ (ok p, d')
        → IsStored system content p.reference d'
          × (p.byte_count ≡ n)
          × (d'.temporaries ≡ d.temporaries)
    unfolding publish_at
    publish_at-IsStored none d unfound h =
        link_file-IsStored (find_file address (interfered system d)) (interfered system d) refl h
    publish_at-IsStored (some f) d there h =
        let same_d : d ≡ d' = ground arith in
        let (stored, counted) = there-IsStored d n p inside (ground arith) in
        rw (sym same_d) (stored, counted, refl)

  publish-inside :
      (n : ℕ) (d d' : Disk) (p : ArtifactPublication)
      → publish system content n d ≡ (ok p, d')
      → (is_escaping system address ≡ false)
        × (publish_at system address content n (find_file address d) d ≡ (ok p, d'))
  unfolding publish
  publish-inside n d d' p h = ground arith

  pub publish-IsStored :
      (n : ℕ) (d d' : Disk) (p : ArtifactPublication)
      → publish system content n d ≡ (ok p, d')
      → IsStored system content p.reference d'
        × (p.byte_count ≡ n)
        × (d'.temporaries ≡ d.temporaries)
  publish-IsStored n d d' p h =
      let (inside, at) = publish-inside n d d' p h in
      publish_at-IsStored n p d' inside (find_file address d) d refl at

-- Reading an artifact is not affected by temporary files.
module _ (system : System) (d : Disk) (k : ℕ) where
  abbrev others : Disk
  others = record d { temporaries = k }

  get_parsed-others : (h : Option String) → get_parsed system h others ≡ get_parsed system h d
  unfolding get_parsed
  get_parsed-others none = refl
  get_parsed-others (some h) = refl

  get-others : (reference : String) → get system reference others ≡ get system reference d
  unfolding get
  get-others reference = get_parsed-others (parse_reference reference)

  pub IsStored-others :
      (content : Bytes) (reference : String)
      → IsStored system content reference d
      → IsStored system content reference (record d { temporaries = k })
  IsStored-others content reference s = record {
    named = s.named;
    found = s.found;
    reads = get-others reference ∙ s.reads;
    same = s.same;
  }

pub unlinked_ok :
    (x : Result ArtifactError ArtifactPublication × Disk) (p : ArtifactPublication) (d' : Disk)
    → finally_unlink x ≡ (ok p, d')
    → (at : Disk) × (x ≡ (ok p, at)) × (d' ≡ record at { temporaries = at.temporaries - 1 })
unlinked_ok (r, at) p d' h = (at, ground arith, ground arith)

-- `put`
module _ (system : System) (hex : IsHexDigest system) (content : Bytes) where
  put-inside :
      (d d' : Disk) (p : ArtifactPublication)
      → put system content d ≡ (ok p, d')
      → (is_escaping system (system.digest content) ≡ false)
        × (put_at system (system.digest content) content (find_file (system.digest content) d) d
            ≡ (ok p, d'))
  unfolding put
  put-inside d d' p h = ground arith

  put_at-IsStored :
      (f : Option Stored) (d d' : Disk) (p : ArtifactPublication)
      → is_escaping system (system.digest content) ≡ false
      → find_file (system.digest content) d ≡ f
      → put_at system (system.digest content) content f d ≡ (ok p, d')
      → IsStored system content p.reference d'
        × (p.byte_count ≡ length content)
        × (d'.temporaries ≡ d.temporaries)
  unfolding put_at
  put_at-IsStored none d d' p inside there h =
      let started = interfered system (make_temporary d) in
      let (at, linked, unlinked) =
        unlinked_ok
          (link_file system (system.digest content) content (length content)
            (find_file (system.digest content) started) started)
          p d' h in
      let (stored, counted, still) =
        link_file-IsStored system hex content (length content) p at inside
          (find_file (system.digest content) started) started refl linked in
      rw unlinked (
        IsStored-others system at (at.temporaries - 1) content p.reference stored,
        counted,
        omega (arith, still),
      )
  put_at-IsStored (some f) d d' p inside there h =
      let same_d : d ≡ d' = ground arith in
      let (stored, counted) =
        there-IsStored system hex content d (length content) p inside (ground arith) in
      rw (sym same_d) (stored, counted, refl)

  -- Content that was put can be read back under the reference that was returned, as bytes of its
  -- digest, and no temporary file is left, where `hexdigest` gives sixty-four hexadecimal digits.
  pub put-IsStored :
      (d d' : Disk) (p : ArtifactPublication)
      → put system content d ≡ (ok p, d')
      → IsStored system content p.reference d'
        × (p.byte_count ≡ length content)
        × (d'.temporaries ≡ d.temporaries)
  put-IsStored d d' p h =
      let (inside, at) = put-inside d d' p h in
      put_at-IsStored (find_file (system.digest content) d) d d' p inside refl at
