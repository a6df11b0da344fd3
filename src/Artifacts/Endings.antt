-- ===== src/Artifacts/Endings.antt =====
-- How a publication ends, errors included (storage/artifacts.py).
use oscillink_agent.Base.{
  ℕ, String, ◌≡◌, ◌≢◌, Bool, true, false, Option, none, some, arith, string_eq, Result, ok, err,
  if◌then◌else◌,
}
use oscillink_agent.Artifacts.{
  Bytes, Stored, Disk, ArtifactError, out_of_fuel, path_escape, System, ArtifactPublication,
  reference_of, parse_reference, find_file, is_escaping, check_content, get_parsed, get, published,
  link_file, interfered, publish_at, publish,
}

-- A publication that raises leaves no file of its own.
pub publish-temporaries :
    (system : System) (content : Bytes) (n : ℕ) (d : Disk)
    → (publish system content n d).1.temporaries ≡ d.temporaries
unfolding publish publish_at link_file
publish-temporaries system content n d = ground arith

-- The fuel is the loop's: a publication never reports that it ran out.
module _ (system : System) where
  get_parsed-InFuel : (h : Option String) (d : Disk) → get_parsed system h d ≢ err out_of_fuel
  unfolding get_parsed check_content
  get_parsed-InFuel none d x = absurd (ground arith)
  get_parsed-InFuel (some h) d x = absurd (ground arith)

  get-InFuel : (reference : String) (d : Disk) → get system reference d ≢ err out_of_fuel
  unfolding get
  get-InFuel reference d = get_parsed-InFuel (parse_reference reference) d

  published-InFuel :
      (p : ArtifactPublication) (r : Result ArtifactError Bytes)
      → r ≢ err out_of_fuel
      → published system p r ≢ err out_of_fuel
  unfolding published
  published-InFuel p (ok c) ne e = absurd (ground arith)
  published-InFuel p (err x) ne e = ne (ground arith)

  module _ (h : String) (content : Bytes) (n : ℕ) where
    link_file-InFuel :
        (f : Option Stored) (d : Disk) → (link_file system h content n f d).0 ≢ err out_of_fuel
    unfolding link_file
    link_file-InFuel none d e = absurd (ground arith)
    link_file-InFuel (some f) d e =
        published-InFuel _ (get system (reference_of h) d) (get-InFuel (reference_of h) d) e

    publish_at-InFuel :
        (f : Option Stored) (d : Disk) → (publish_at system h content n f d).0 ≢ err out_of_fuel
    unfolding publish_at
    publish_at-InFuel none d e =
        link_file-InFuel (find_file h (interfered system d)) (interfered system d) e
    publish_at-InFuel (some f) d e =
        published-InFuel _ (get system (reference_of h) d) (get-InFuel (reference_of h) d) e

  if-InFuel :
      (b : Bool) (d : Disk) (x : Result ArtifactError ArtifactPublication × Disk)
      → x.0 ≢ err out_of_fuel
      → (if b then (err path_escape, d) else x).0 ≢ err out_of_fuel
  if-InFuel true d x ne e = absurd (ground arith)
  if-InFuel false d x ne e = ne e

  pub publish-InFuel :
      (content : Bytes) (n : ℕ) (d : Disk) → (publish system content n d).0 ≢ err out_of_fuel
  unfolding publish
  publish-InFuel content n d =
      let h = system.digest content in
      if-InFuel (is_escaping system h) d (publish_at system h content n (find_file h d) d)
        (publish_at-InFuel h content n (find_file h d) d)
