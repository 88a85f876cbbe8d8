-- ===== src/HashDb/Regions.antt =====
-- Verifying a memory region of src/core/memory_monitor/hash_database.c against its stored hash.
use ps.Base.{
  ℕ, ◌≤◌, ◌≡◌, refl, ap, ◌∙◌, Bool, true, ◌&&◌, some, List, ◌∷◌, arith, ◌==◌, length, success,
  CString, max_name, str_eq, str_eq_refl,
}
use ps.Hash.{Algorithm, Hash, hash_compute}
use ps.Hash.Compare.{is_supported, digest_of, hash_compute_outcome, hash_compare-compute}
use ps.HashDb.{
  HashDbEntry, hash_db_find_entry, hash_db_add_entry, verify_entry, hash_db_verify_region,
}
use ps.HashDb.Dictionary.{IsKeyed, entry_of, hash_db_find-add}

verify-entry_of :
    (name : CString) (address size address' size' x y : ℕ) (d e : List ℕ) (a : Algorithm)
    (junk junk' : Hash)
    → is_supported a ≡ true
    → verify_entry
        (some (entry_of name address size (hash_compute a (some (x ∷ d)) junk).1 a))
        address'
        size'
        (some (y ∷ e))
        junk'
      ≡ ((address == address')
          && (size == size')
          && str_eq (digest_of a (y ∷ e)) (digest_of a (x ∷ d)))
unfolding verify_entry
verify-entry_of name address size address' size' x y d e a junk junk' s =
    ground (
      arith,
      hash_compute_outcome a (some (y ∷ e)) junk',
      hash_compare-compute a y x e d junk' junk,
    )

-- After a successful registration of a name that fits its buffer, with a supported algorithm and bytes
-- x ∷ d, the verification of a region whose contents are y ∷ e answers yes exactly if address and size
-- are the registered ones and the contents have the digest of the registered bytes. So unchanged
-- contents pass, and changed contents pass only with an equal digest.
pub hash_db_verify-add :
    (name : CString) (address size address' size' x y : ℕ) (d e : List ℕ) (a : Algorithm)
    (junk junk' : Hash) (alloc : Bool) (db : List HashDbEntry)
    → length name ≤ max_name
    → IsKeyed db
    → is_supported a ≡ true
    → (hash_db_add_entry (some name) address size (some (x ∷ d)) a junk alloc db).0 ≡ success
    → let s = hash_db_add_entry (some name) address size (some (x ∷ d)) a junk alloc db in
      hash_db_verify_region (some name) address' size' (some (y ∷ e)) junk' s.1 ≡ (
        (address == address')
        && (size == size')
        && str_eq (digest_of a (y ∷ e)) (digest_of a (x ∷ d)))
unfolding hash_db_verify_region
hash_db_verify-add name address size address' size' x y d e a junk junk' alloc db h k s q =
    ap (λ o. verify_entry o address' size' (some (y ∷ e)) junk') found
    ∙ verify-entry_of name address size address' size' x y d e a junk junk' s
  where
    found :
        hash_db_find_entry
          (some name)
          (hash_db_add_entry (some name) address size (some (x ∷ d)) a junk alloc db).1
        ≡ some (entry_of name address size (hash_compute a (some (x ∷ d)) junk).1 a)
    found =
        (hash_db_find-add name name address size (some (x ∷ d)) a junk alloc db h k).1
        ∙ rw (q, str_eq_refl name) refl
