-- ===== src/Integrity/Saving.antt =====
-- Saving and shutting down src/core/integrity_check/checksum_db.c. `to_string` is ps14_hash_to_string,
-- which is not defined in the sources; `may_open` is whether fopen gives the file for writing.
use ps.Base.{
  Bool, false, not, ◌&&◌, List, [], ◌∷◌, ◌++◌, if◌then◌else◌, Status, success, unknown, CString,
}
use ps.Hash.{Hash}
use ps.Files.{FileSystem, write_file}
use ps.Integrity.{ChecksumEntry, ChecksumDb, is_free}

module _ (to_string : Hash → CString) where
  -- "%s|%s\n" for each slot that is in use and valid.
  unfoldable pub checksum_lines : List ChecksumEntry → CString
  checksum_lines [] = []
  checksum_lines (e ∷ entries) =
      let rest = checksum_lines entries in
      if not (is_free e) && e.valid then e.path ++ b'|' ∷ (to_string e.hash ++ 10 ∷ rest) else rest

  unfoldable pub checksum_db_save : Bool → ChecksumDb → FileSystem → Status × FileSystem
  unfolding checksum_lines write_file
  checksum_db_save may_open db files =
      if may_open
      then (success, write_file db.db_path (checksum_lines db.entries) files)
      else (unknown, files)

  -- Whether it could be saved is not looked at.
  unfoldable pub checksum_db_shutdown : Bool → ChecksumDb → FileSystem → ChecksumDb × FileSystem
  unfolding checksum_db_save
  checksum_db_shutdown may_open db files =
      if not db.initialized
      then (db, files)
      else (record db { initialized = false }, (checksum_db_save may_open db files).1)
