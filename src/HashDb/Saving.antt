-- ===== src/HashDb/Saving.antt =====
-- The text file of src/core/memory_monitor/hash_database.c. `to_string` is ps14_hash_to_string, which is
-- not defined in the sources; `may_open` is whether fopen gives the file for writing.
use ps.Base.{
  ℕ, ◌≡◌, refl, Bool, true, Option, none, some, List, [], ◌∷◌, ◌++◌, if◌then◌else◌, Status, success,
  unknown, invalid_argument, CString,
}
use ps.Hash.{Algorithm, Hash, crc32, md5, sha1, sha256, sha512, hash_max}
use ps.Files.{FileSystem, write_file}
use ps.Files.Restorer.{decimal}
use ps.HashDb.{HashDbEntry, hash_db_find_entry, hash_db_shutdown}

-- The number of an algorithm in its enumeration.
unfoldable pub algorithm_number : Algorithm → ℕ
algorithm_number crc32 = 0
algorithm_number md5 = 1
algorithm_number sha1 = 2
algorithm_number sha256 = 3
algorithm_number sha512 = 4
algorithm_number hash_max = 5

module _ (to_string : Hash → CString) where
  -- "%s|%llu|%zu|%s|%u\n"
  unfoldable pub entry_line : HashDbEntry → CString
  unfolding algorithm_number decimal
  entry_line e =
      e.name
      ++ b'|'
        ∷ (decimal e.base_address
            ++ b'|'
              ∷ (decimal e.size
                  ++ b'|'
                    ∷ (to_string e.hash
                        ++ b'|' ∷ (decimal (algorithm_number e.algorithm) ++ 10 ∷ []))))

  -- The loop over the list.
  unfoldable pub entry_lines : List HashDbEntry → CString
  unfolding entry_line
  entry_lines [] = []
  entry_lines (e ∷ db) = entry_line e ++ entry_lines db

  unfoldable pub hash_db_save :
      Bool → Option CString → List HashDbEntry → FileSystem → Status × FileSystem
  unfolding entry_lines write_file
  hash_db_save may_open none db files = (invalid_argument, files)
  hash_db_save may_open (some filepath) db files =
      if may_open then (success, write_file filepath (entry_lines db) files) else (unknown, files)

-- The lines are read and taken apart, and what they hold is dropped.
unfoldable pub hash_db_load :
    Option CString → List HashDbEntry → FileSystem → Status × List HashDbEntry
hash_db_load none db files = (invalid_argument, db)
hash_db_load (some filepath) db files = (success, db)

-- A database that is saved, shut down and loaded again reports a success each time and is empty: no
-- search finds an entry.
pub hash_db_load-save :
    (to_string : Hash → CString) (filepath name : CString) (db : List HashDbEntry)
    (files : FileSystem)
    → let saved = hash_db_save to_string true (some filepath) db files in
      let loaded = hash_db_load (some filepath) (hash_db_shutdown db) saved.1 in
      (saved.0 ≡ success) × (loaded.0 ≡ success) × (hash_db_find_entry (some name) loaded.1 ≡ none)
unfolding hash_db_save hash_db_load hash_db_shutdown hash_db_find_entry
hash_db_load-save to_string filepath name db files = (refl, refl, refl)
