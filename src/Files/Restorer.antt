-- ===== src/Files/Restorer.antt =====
-- src/core/repair_system/file_restorer.c: the copies themselves.
pub mod Copying
pub mod Naming
pub mod RoundTrip
use ps.Base.{
  chars, ℕ, zero, suc, ◌+◌, ◌/◌, ◌%◌, Bool, false, not, Option, none, some, List, [], ◌∷◌, ◌++◌,
  ltb, if◌then◌else◌, length, take, drop, Status, success, unknown, invalid_argument, not_found,
  CString, max_path, strncpy,
}
use ps.Checkpoints.{RepairResult, repaired, failed}
use ps.Hash.{Algorithm, Hash, hash_compute}
use ps.Files.{
  FileSystem, read_file, write_file, extract_filename, Backups, ChecksumEntry, backup_get_best,
  init_file_restoration,
}

-- The digits of a number before those of `s`; each round gives one.
unfoldable pub decimal_onto : ℕ → ℕ → CString → CString
decimal_onto zero n s = s
decimal_onto (suc fuel) n s =
    let d = 48 + n % 10 in
    let rest = decimal_onto fuel (n / 10) (d ∷ s) in if ltb n 10 then d ∷ s else rest

-- %llu of a 64-bit number, which has 20 digits at most.
unfoldable pub decimal : ℕ → CString
unfolding decimal_onto
decimal n = decimal_onto 20 n []

-- The name of a backup in its directory.
unfoldable pub backup_name : CString → ℕ → CString
unfolding decimal extract_filename
backup_name filepath tick = extract_filename 260 filepath ++ b'.' ∷ (decimal tick ++ chars ".bak")

-- snprintf into 512 characters.
unfoldable pub generate_backup_path : CString → CString → ℕ → CString
unfolding backup_name
generate_backup_path dir filepath tick = take 511 (dir ++ b'/' ∷ backup_name filepath tick)

-- while ((n = fread(buffer, 1, 4096, src)) > 0) fwrite(buffer, 1, n, dst); `none` means that the fuel ran
-- out.
unfoldable pub copy_loop : ℕ → List ℕ → List ℕ → Option (List ℕ)
copy_loop zero rest out = none
copy_loop (suc fuel) rest out =
    let buffer = take 4096 rest in
    let more = copy_loop fuel (drop 4096 rest) (out ++ buffer) in
    if ltb 0 (length buffer) then more else some out

-- What the system grants: writing to a path (access), opening it for reading, creating it; and malloc's
-- answer.
pub record Grants : Type 0 where
  pub may_write : CString → Bool
  pub may_read : CString → Bool
  pub may_create : CString → Bool
  pub has_memory : Bool

unfoldable pub file_exists : Grants → CString → FileSystem → Bool
unfolding read_file
file_exists g path files = elim (read_file path files) [
  | none ↦ false
  | some bytes ↦ g.may_write path
]

-- Both files are open: the second one was emptied when it was opened.
copy_open : CString → CString → FileSystem → Option FileSystem
unfolding read_file write_file copy_loop
copy_open src dst files = elim (read_file src files) [
  | none ↦ none
  | some bytes ↦ elim (copy_loop (suc (length bytes)) bytes []) [
    | none ↦ none
    | some copy ↦ some (write_file dst copy files)
  ]
]

-- The copy of one file to another, from fopen to fclose; `none` if a file cannot be opened.
unfoldable pub copy_file : Grants → CString → CString → FileSystem → Option FileSystem
unfolding copy_open read_file write_file
copy_file g src dst files = elim (read_file src files) [
  | none ↦ none
  | some bytes ↦
      if not (g.may_read src)
      then none
      else (if not (g.may_create dst) then none else copy_open src dst (write_file dst [] files))
]

-- From the check of the file on.
unfoldable pub backup_existing : Grants → ℕ → CString → Backups → Status × Backups
unfolding file_exists generate_backup_path copy_file
backup_existing g tick filepath b =
    if not (file_exists g filepath b.files)
    then (not_found, b)
    else elim (copy_file g filepath (generate_backup_path b.restorer_dir filepath tick) b.files) [
      | none ↦ (unknown, b)
      | some files ↦ (success, record b { files = files })
    ]

unfoldable pub backup_file : Grants → ℕ → Option CString → Backups → Status × Backups
unfolding backup_existing init_file_restoration
backup_file g tick none b = (invalid_argument, b)
backup_file g tick (some filepath) b =
    backup_existing g tick filepath
      (if not b.restorer_ready then (init_file_restoration b).1 else b)

unfoldable pub restore_file : Grants → Option CString → Backups → RepairResult × Backups
unfolding backup_get_best copy_file
restore_file g none b = (failed, b)
restore_file g (some filepath) b = elim (backup_get_best g.has_memory (some filepath) b) [
  | none ↦ (failed, b)
  | some best ↦ elim (copy_file g best.path filepath b.files) [
    | none ↦ (failed, b)
    | some files ↦ (repaired, record b { files = files })
  ]
]

unfoldable pub add_checksum_entry : Bool → CString → Hash → Backups → Backups
add_checksum_entry alloc filepath hash b =
    if not alloc
    then b
    else (let entry : ChecksumEntry = record {
      filepath = strncpy max_path filepath;
      hash = hash;
    } in
        record b { checksums = entry ∷ b.checksums })

-- `a` is the configured algorithm, `junk` an uninitialised hash; the hash is computed and not used.
unfoldable pub verify_and_fix_file :
    Algorithm → Hash → Grants → ℕ → Option CString → Backups → RepairResult × Hash × Backups
unfolding file_exists hash_compute backup_file
verify_and_fix_file a junk g tick none b = (failed, junk, b)
verify_and_fix_file a junk g tick (some filepath) b =
    if not (file_exists g filepath b.files)
    then (failed, junk, b)
    else (if not (g.may_read filepath)
        then (failed, junk, b)
        else (if not g.has_memory then (failed, junk, b) else (
          repaired,
          (hash_compute a (read_file filepath b.files) junk).1,
          (backup_file g tick (some filepath) b).1,
        )))
