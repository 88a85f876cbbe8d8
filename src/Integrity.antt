-- ===== src/Integrity.antt =====
-- src/core/integrity_check/checksum_db.c: the array of 1024 slots of known file hashes. The loops go
-- over all slots, so the array is the list of its slots. `loaded` is what the load of the database
-- file makes of the empty slots (the file ends inside that function), and `file` what
-- ps14_hash_compute_file gives for the path, `none` on a failure; neither is defined in the sources.
pub mod Verification
pub mod Signature
pub mod Saving
pub mod Files
use ps.Base.{
  ℕ, Bool, true, false, ◌&&◌, Option, none, some, List, [], ◌∷◌, if◌then◌else◌, replicate, Status,
  success, invalid_argument, already_initialized, resource_exhaustion, CString, max_path, strncpy,
  str_eq,
}
use ps.Chain.{find_first, update_first}
use ps.Hash.{Hash, crc32, hash_compare}

pub record ChecksumEntry : Type 0 where
  pub path : CString
  pub hash : Hash
  pub timestamp : ℕ
  pub valid : Bool

pub record ChecksumDb : Type 0 where
  pub entries : List ChecksumEntry
  pub initialized : Bool
  pub db_path : CString

-- A slot after the memset.
abbrev pub no_checksum : ChecksumEntry
no_checksum = record {
  path = [];
  hash = record { algorithm = crc32; digest = replicate 64 0 };
  timestamp = 0;
  valid = false;
}

module _ (loaded : CString → List ChecksumEntry → List ChecksumEntry) where
  unfoldable pub checksum_db_init : Option CString → ChecksumDb → Status × ChecksumDb
  checksum_db_init path db =
      if db.initialized
      then (already_initialized, db)
      else let file : CString = elim path [ none ↦ db.db_path | some p ↦ strncpy max_path p ] in
        (
          success,
          record {
            entries = loaded file (replicate 1024 no_checksum);
            initialized = true;
            db_path = file;
          },
        )

  -- The call of init that add and verify begin with.
  unfoldable pub ready_db : ChecksumDb → ChecksumDb
  unfolding checksum_db_init
  ready_db db = if db.initialized then db else (checksum_db_init none db).1

abbrev pub has_path : CString → ChecksumEntry → Bool
has_path path e = str_eq e.path path

-- path[0] == '\0'.
abbrev pub is_free : ChecksumEntry → Bool
is_free e = elim e.path [ [] ↦ true | x ∷ xs ↦ false ]

abbrev pub known : CString → ChecksumEntry → Bool
known path e = has_path path e && e.valid

-- The first loop of ps14_checksum_db_add, and the second one if it finds nothing.
add_checksum :
    Option ChecksumEntry
    → Option ChecksumEntry
    → CString
    → Hash
    → List ChecksumEntry
    → Status × List ChecksumEntry
unfolding update_first
add_checksum (some e) free path hash l =
    (success, update_first (has_path path) (λ x. record x { hash = hash; valid = true }) l)
add_checksum none (some e) path hash l = (
  success,
  update_first is_free
      (λ x. record { path = strncpy max_path path; hash = hash; timestamp = 0; valid = true }) l,
)
add_checksum none none path hash l = (resource_exhaustion, l)

unfoldable pub checksum_db_add :
    (CString → List ChecksumEntry → List ChecksumEntry)
    → Option CString
    → Option Hash
    → ChecksumDb
    → Status × ChecksumDb
unfolding ready_db add_checksum find_first
checksum_db_add loaded none hash db = (invalid_argument, db)
checksum_db_add loaded (some path) none db = (invalid_argument, db)
checksum_db_add loaded (some path) (some hash) db =
    let ready = ready_db loaded db in
    let (status, entries) =
      add_checksum (find_first (has_path path) ready.entries) (find_first is_free ready.entries)
        path hash ready.entries in
    (status, record ready { entries = entries })

-- After the entry was found.
verify_checksum : Option ChecksumEntry → Option Hash → Bool
unfolding hash_compare
verify_checksum none file = false
verify_checksum (some e) none = false
verify_checksum (some e) (some current) = hash_compare current e.hash

unfoldable pub checksum_db_verify :
    (CString → List ChecksumEntry → List ChecksumEntry)
    → Option CString
    → Option Hash
    → ChecksumDb
    → Bool × ChecksumDb
unfolding ready_db verify_checksum find_first
checksum_db_verify loaded none file db = (false, db)
checksum_db_verify loaded (some path) file db =
    let ready = ready_db loaded db in
    (verify_checksum (find_first (known path) ready.entries) file, ready)
