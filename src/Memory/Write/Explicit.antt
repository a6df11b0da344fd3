-- ===== src/Memory/Write/Explicit.antt =====
-- Creation under an explicit identity.
use oscillink_agent.Base.{
  ℕ, String, ◌≡◌, ◌≢◌, true, some, arith, ok, err, select_one-append, ◌==◌, string_eq,
}
use oscillink_agent.Memory.Types.{MemoryRecord, record_eq}
use oscillink_agent.Memory.Store.{Store, create_conflict, is_valid, stored}
use oscillink_agent.Memory.Write.{
  Native, native_record, insert_explicit_record, insert_or_compare, create_as, create_native,
}

-- A call that returned stored exactly the record that it built.
module _ (n : Native) (id : String) (named : n.record_id ≡ some id) where
  pub create_native-stored :
      (bytes : ℕ) (s s' : Store) (r : MemoryRecord)
      → create_native bytes n s ≡ (ok r, s')
      → (stored s' id ≡ some (native_record id n))
        × (r ≡ native_record id n)
        × (is_valid (native_record id n) ≡ true)
  unfolding create_native create_as insert_explicit_record insert_or_compare stored native_record
  create_native-stored bytes s s' r h =
      ground (arith, named, select_one-append (λ x. x.id == id) s.records (native_record id n))

  create_native-repeat :
      (bytes : ℕ) (s : Store)
      → stored s id ≡ some (native_record id n)
      → is_valid (native_record id n) ≡ true
      → create_native bytes n s ≡ (ok (native_record id n), s)
  unfolding create_native create_as insert_explicit_record insert_or_compare native_record
  create_native-repeat bytes s e v = ground (arith, named)

  -- An identity that holds other content is refused, and nothing is changed.
  pub create_native-conflict :
      (bytes : ℕ) (s : Store) (x : MemoryRecord)
      → stored s id ≡ some x
      → x ≢ native_record id n
      → is_valid (native_record id n) ≡ true
      → create_native bytes n s ≡ (err (create_conflict id), s)
  unfolding create_native create_as insert_explicit_record insert_or_compare native_record
  create_native-conflict bytes s x e ne v = ground (arith, named)

  -- Repeating a creation under an explicit identity that returned, with any randomness, returns the
  -- same record and changes nothing.
  pub create_native_idem :
      (bytes again : ℕ) (s s' : Store) (r : MemoryRecord)
      → create_native bytes n s ≡ (ok r, s')
      → create_native again n s' ≡ (ok r, s')
  create_native_idem bytes again s s' r h =
      let made = create_native-stored bytes s s' r h in
      rw made.1 (create_native-repeat again s' made.0 made.2)
