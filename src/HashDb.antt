-- ===== src/HashDb.antt =====
-- src/core/memory_monitor/hash_database.c: the list of named hashes, from g_hash_db on. The bytes
-- behind a data pointer are an argument, `none` for NULL; `junk` is what an uninitialised hash holds;
-- `alloc` tells whether malloc gave memory. Saving is the text file, which changes nothing here:
-- loading reads it without effect (the source calls it a placeholder).
pub mod Dictionary
pub mod Names
pub mod Saving
pub mod Regions
use ps.Base.{
  ℕ, Bool, true, false, not, ◌||◌, Option, none, some, List, [], ◌∷◌, ◌==◌, if◌then◌else◌, Status,
  success, unknown, out_of_memory, invalid_argument, is_success, CString, max_name, strncpy, str_eq,
}
use ps.Chain.{find_first, update_first, remove_first}
use ps.Hash.{Algorithm, Hash, hash_compute, hash_compare}

pub record HashDbEntry : Type 0 where
  pub name : CString
  pub base_address : ℕ
  pub size : ℕ
  pub hash : Hash
  pub algorithm : Algorithm

abbrev pub named : CString → HashDbEntry → Bool
named name e = str_eq e.name name

unfoldable pub hash_db_find_entry : Option CString → List HashDbEntry → Option HashDbEntry
unfolding find_first
hash_db_find_entry none db = none
hash_db_find_entry (some name) db = find_first (named name) db

-- The entry found is updated in place; otherwise a new one is put in front, if there is memory.
hash_db_store :
    Option HashDbEntry
    → CString
    → ℕ
    → ℕ
    → Hash
    → Algorithm
    → Bool
    → List HashDbEntry
    → Status × List HashDbEntry
unfolding update_first
hash_db_store (some found) name address size hash a alloc db = (
  success,
  update_first (named name)
      (λ e. record e { base_address = address; size = size; hash = hash; algorithm = a }) db,
)
hash_db_store none name address size hash a false db = (out_of_memory, db)
hash_db_store none name address size hash a true db = (
  success,
  record {
    name = strncpy max_name name;
    base_address = address;
    size = size;
    hash = hash;
    algorithm = a;
  }
      ∷ db,
)

-- After the arguments were checked.
hash_db_hashed :
    Status × Hash
    → CString
    → ℕ
    → ℕ
    → Algorithm
    → Bool
    → List HashDbEntry
    → Status × List HashDbEntry
unfolding hash_db_store hash_db_find_entry
hash_db_hashed (status, hash) name address size a alloc db =
    if is_success status
    then hash_db_store (hash_db_find_entry (some name) db) name address size hash a alloc db
    else (unknown, db)

unfoldable pub hash_db_add_entry :
    Option CString
    → ℕ
    → ℕ
    → Option (List ℕ)
    → Algorithm
    → Hash
    → Bool
    → List HashDbEntry
    → Status × List HashDbEntry
unfolding hash_db_hashed hash_compute
hash_db_add_entry none address size bytes a junk alloc db = (invalid_argument, db)
hash_db_add_entry (some name) address size bytes a junk alloc db =
    if size == 0
    then (invalid_argument, db)
    else hash_db_hashed (hash_compute a bytes junk) name address size a alloc db

unfoldable pub hash_db_remove_entry : Option CString → List HashDbEntry → List HashDbEntry
unfolding remove_first
hash_db_remove_entry none db = db
hash_db_remove_entry (some name) db = remove_first (named name) db

-- The branches of ps14_hash_db_verify_region after the search; `bytes` is what the region holds now.
verify_entry : Option HashDbEntry → ℕ → ℕ → Option (List ℕ) → Hash → Bool
unfolding hash_compute hash_compare
verify_entry none address size bytes junk = false
verify_entry (some e) address size bytes junk =
    if not (e.base_address == address) || not (e.size == size)
    then false
    else let (status, current) = hash_compute e.algorithm bytes junk in
      if is_success status then hash_compare current e.hash else false

unfoldable pub hash_db_verify_region :
    Option CString → ℕ → ℕ → Option (List ℕ) → Hash → List HashDbEntry → Bool
unfolding verify_entry hash_db_find_entry
hash_db_verify_region name address size bytes junk db =
    verify_entry (hash_db_find_entry name db) address size bytes junk

unfoldable pub hash_db_shutdown : List HashDbEntry → List HashDbEntry
hash_db_shutdown db = []
