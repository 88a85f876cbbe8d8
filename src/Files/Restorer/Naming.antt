-- ===== src/Files/Restorer/Naming.antt =====
-- The names that the listing of src/core/repair_system/backup_manager.c finds, and what a restore does with
-- the best backup.
use ps.Files.Listing.{contains_behind, contains_middle}
use ps.Base.{Option, Bool, chars, ℕ, ◌≡◌, true, some, List, [], ◌∷◌, ◌++◌, take, CString, max_path}
use ps.Files.Restorer.{copy_file, restore_file, Grants, decimal, backup_name}
use ps.Checkpoints.{repaired}
use ps.Files.{
  backup_get_best, backup_list, FileSystem, list_loop, BackupInfo, Backups, extract_filename,
}
use ps.Advanced.Debugger.{contains}

-- What the listing writes of one name.
abbrev pub info_of : CString → CString → BackupInfo
info_of dir name = record {
  path = take max_path (dir ++ b'/' ∷ name);
  timestamp = 0;
  file_size = 0;
  is_valid = true;
}

-- The name of a backup contains the file's name and the ending.
backup_name-contains :
    (filepath : CString) (tick : ℕ)
    → (contains (chars ".bak") (backup_name filepath tick) ≡ true)
      × (contains (extract_filename 260 filepath) (backup_name filepath tick) ≡ true)
unfolding backup_name
backup_name-contains filepath tick =
    let ending = chars ".bak" in
    let file = extract_filename 260 filepath in
    (
      contains_behind ending file (b'.' ∷ (decimal tick ++ ending))
          (contains_behind ending (b'.' ∷ decimal tick) ending (contains_middle [] ending [])),
      contains_middle [] file (b'.' ∷ (decimal tick ++ ending)),
    )

pub list_loop_own :
    (dir filepath : CString) (tick : ℕ)
    → list_loop true dir (extract_filename 260 filepath) (backup_name filepath tick ∷ [])
      ≡ info_of dir (backup_name filepath tick) ∷ []
unfolding list_loop
list_loop_own dir filepath tick =
    rw ((backup_name-contains filepath tick).0, (backup_name-contains filepath tick).1, list_loop)

pub best_of :
    (alloc : Bool) (filepath : Option CString) (b : Backups) (info : BackupInfo)
    (infos : List BackupInfo)
    → backup_list alloc filepath b ≡ info ∷ infos
    → backup_get_best alloc filepath b ≡ some info
unfolding backup_get_best
best_of alloc filepath b info infos e = rw (e, backup_get_best)

pub restore_best :
    (g : Grants) (f : CString) (b : Backups) (files : FileSystem) (info : BackupInfo)
    → backup_get_best g.has_memory (some f) b ≡ some info
    → copy_file g info.path f b.files ≡ some files
    → restore_file g (some f) b ≡ (repaired, record b { files = files })
unfolding restore_file
restore_best g f b files info best copied = rw (best, copied, restore_file)
