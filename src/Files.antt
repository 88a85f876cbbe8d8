-- ===== src/Files.antt =====
-- src/core/repair_system/backup_manager.c and file_restorer.c as built outside of Windows: backups of
-- files, on a file system that is the list of its paths with their bytes. What the system and malloc
-- refuse is an argument.
pub mod Listing
pub mod Restorer
use ps.Base.{
  chars, ℕ, suc, ◌+◌, ◌-◌, ◌/◌, Bool, true, false, not, ◌&&◌, Option, none, some, List, [], ◌∷◌,
  ◌++◌, ltb, ◌==◌, if◌then◌else◌, length, take, Status, success, already_initialized, CString,
  max_path, strncpy, str_eq,
}
use ps.Advanced.Debugger.{contains}
use ps.Hash.{Hash}

-- A file by its path; the directory's order is the list's.
abbrev pub FileSystem : Type 0
FileSystem = List (CString × List ℕ)

unfoldable pub read_file : CString → FileSystem → Option (List ℕ)
read_file path [] = none
read_file path ((p, bytes) ∷ files) = if str_eq p path then some bytes else read_file path files

-- fopen(path, "wb") and writes up to fclose: the file has the bytes, at its old place or a new one.
unfoldable pub write_file : CString → List ℕ → FileSystem → FileSystem
write_file path bytes [] = (path, bytes) ∷ []
write_file path bytes ((p, old) ∷ files) =
    if str_eq p path then (p, bytes) ∷ files else (p, old) ∷ write_file path bytes files

-- The part of s behind the last `c`, where there is one.
unfoldable pub behind_last : ℕ → CString → Option CString
behind_last c [] = none
behind_last c (d ∷ s) = elim (behind_last c s) [
  | some rest ↦ some rest
  | none ↦ if d == c then some s else none
]

-- The later of two positions in one string: the shorter rest behind it.
later : Option CString → Option CString → Option CString
later none b = b
later (some a) none = some a
later (some a) (some b) = if ltb (length a) (length b) then some a else some b

-- The name behind the last '/' or '\' of a path, cut to its buffer of `size` characters. The source
-- compares with NULL the pointers that strrchr gives; NULL counts as the lowest address.
unfoldable pub extract_filename : ℕ → CString → CString
unfolding behind_last later
extract_filename size path = elim (later (behind_last b'/' path) (behind_last 92 path)) [
  | some name ↦ take (size - 1) name
  | none ↦ take (size - 1) path
]

pub record ChecksumEntry : Type 0 where
  pub filepath : CString
  pub hash : Hash

-- Both source files have a directory of their own.
pub record Backups : Type 0 where
  pub manager_dir : CString
  pub manager_ready : Bool
  pub restorer_dir : CString
  pub restorer_ready : Bool
  pub checksums : List ChecksumEntry
  pub files : FileSystem

unfoldable pub init_backup_manager : Backups → Status × Backups
init_backup_manager b =
    if b.manager_ready
    then (already_initialized, b)
    else (success, record b { manager_ready = true })

unfoldable pub shutdown_backup_manager : Backups → Backups
shutdown_backup_manager b = if not b.manager_ready then b else record b { manager_ready = false }

unfoldable pub backup_init : Option CString → Backups → Status × Backups
unfolding init_backup_manager
backup_init dir b =
    let b' : Backups = elim dir [
      | none ↦ b
      | some d ↦ record b { manager_dir = strncpy max_path d }
    ] in
    (success, if not b'.manager_ready then (init_backup_manager b').1 else b')

unfoldable pub backup_shutdown : Backups → Backups
unfolding shutdown_backup_manager
backup_shutdown b = shutdown_backup_manager b

pub record BackupInfo : Type 0 where
  pub path : CString
  pub timestamp : ℕ
  pub file_size : ℕ
  pub is_valid : Bool

-- The rest of a path behind a directory and its slash.
unfoldable pub is_in : CString → CString → Option CString
is_in [] (c ∷ path) = if c == b'/' then some path else none
is_in [] [] = none
is_in (d ∷ dir) [] = none
is_in (d ∷ dir) (c ∷ path) = if d == c then is_in dir path else none

-- A name that stands in the directory itself.
unfoldable pub own_name : Option CString → Option CString
unfolding behind_last
own_name none = none
own_name (some name) = elim (behind_last b'/' name) [ none ↦ some name | some rest ↦ none ]

-- The names that readdir gives, in the order of the list.
unfoldable pub entries : CString → FileSystem → List CString
unfolding is_in own_name
entries dir [] = []
entries dir ((p, bytes) ∷ files) =
    let rest = entries dir files in
    elim (own_name (is_in dir p)) [ none ↦ rest | some name ↦ name ∷ rest ]

-- `alloc` is malloc's answer; paths are cut to `PS14_MAX_PATH - 1` characters.
unfoldable pub list_loop : Bool → CString → CString → List CString → List BackupInfo
unfolding contains
list_loop alloc dir filename [] = []
list_loop alloc dir filename (name ∷ names) =
    let rest = list_loop alloc dir filename names in
    if contains (chars ".bak") name && (contains filename name && alloc)
    then record {
      path = take max_path (dir ++ b'/' ∷ name);
      timestamp = 0;
      file_size = 0;
      is_valid = true;
    }
      ∷ rest
    else rest

unfoldable pub backup_list : Bool → Option CString → Backups → List BackupInfo
unfolding list_loop entries extract_filename
backup_list alloc none b = []
backup_list alloc (some filepath) b =
    list_loop alloc b.manager_dir (extract_filename 260 filepath) (entries b.manager_dir b.files)

unfoldable pub backup_get_best : Bool → Option CString → Backups → Option BackupInfo
unfolding backup_list
backup_get_best alloc filepath b = elim (backup_list alloc filepath b) [
  | [] ↦ none
  | info ∷ backups ↦ some info
]

unfoldable pub backup_clean_old : ℕ → ℕ → Backups → Status × Backups
backup_clean_old max_age_seconds max_count b = (success, b)

unfoldable pub backup_get_directory : Backups → CString
backup_get_directory b = b.manager_dir

unfoldable pub init_file_restoration : Backups → Status × Backups
init_file_restoration b =
    if b.restorer_ready
    then (already_initialized, b)
    else (success, record b { restorer_ready = true })

unfoldable pub shutdown_file_restoration : Backups → Backups
shutdown_file_restoration b =
    if not b.restorer_ready then b else record b { checksums = []; restorer_ready = false }

unfoldable pub backup_set_directory : Option CString → Backups → Backups
backup_set_directory none b = b
backup_set_directory (some dir) b = record b { restorer_dir = strncpy max_path dir }
