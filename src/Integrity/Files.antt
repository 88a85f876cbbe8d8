-- ===== src/Integrity/Files.antt =====
-- src/core/integrity_check/file_verifier.c: the list of files to verify. g_files starts as NULL, which is
-- `none`, and no code allocates it; the slots are PS14_MAX_REGIONS many, which no header defines, so an
-- array is the list of its slots. `file` is what ps14_hash_compute_file gives for a path, `none` on a
-- failure; it is not defined in the sources.
pub mod Unallocated
use ps.Base.{
  ℕ, zero, suc, Bool, true, false, not, ◌&&◌, Option, none, some, List, [], ◌∷◌, if◌then◌else◌,
  Status, success, unknown, invalid_argument, resource_exhaustion, CString, max_path, strncpy,
  str_eq,
}
use ps.Chain.{Walk, done, fault, more, find_first, update_first, count_all}
use ps.Hash.{Hash, hash_compare}

pub record FileInfo : Type 0 where
  pub path : CString
  pub hash : Hash
  pub last_modified : ℕ
  pub is_valid : Bool

-- g_files.
abbrev pub FileList : Type 0
FileList = Option (List FileInfo)

unfoldable pub integrity_init : FileList → Status × FileList
integrity_init files = (success, files)

-- while (curr) { next = curr; curr = next; }
shutdown_loop : ℕ → FileList → Walk FileList
shutdown_loop fuel none = done none
shutdown_loop zero (some files) = more
shutdown_loop (suc fuel) (some files) = shutdown_loop fuel (some files)

unfoldable pub integrity_shutdown : ℕ → FileList → Walk FileList
unfolding shutdown_loop
integrity_shutdown fuel files = shutdown_loop fuel files

abbrev pub is_file : CString → FileInfo → Bool
is_file path f = str_eq f.path path

-- path[0] == '\0'.
abbrev pub is_empty : FileInfo → Bool
is_empty f = elim f.path [ [] ↦ true | x ∷ xs ↦ false ]

unfoldable pub find_file : CString → FileList → Option FileInfo
unfolding find_first
find_file path none = none
find_file path (some files) = find_first (is_file path) files

-- The loop that looks for an empty slot; it reads through g_files.
fill_slot : CString → Hash → FileList → Walk (Status × FileList)
unfolding find_first update_first
fill_slot path hash none = fault
fill_slot path hash (some files) = elim (find_first is_empty files) [
  | none ↦ done (resource_exhaustion, some files)
  | some f ↦ done (
    success,
    some (
        update_first is_empty
          (λ x. record {
            path = strncpy max_path path;
            hash = hash;
            last_modified = 0;
            is_valid = true;
          })
          files),
  )
]

unfoldable pub integrity_add_file :
    Option CString → Option Hash → FileList → Walk (Status × FileList)
unfolding find_file fill_slot
integrity_add_file none file files = done (invalid_argument, files)
integrity_add_file (some path) file files = elim (find_file path files) [
  | some f ↦ done (success, files)
  | none ↦ elim file [ none ↦ done (unknown, files) | some hash ↦ fill_slot path hash files ]
]

unfoldable pub integrity_remove_file : Option CString → FileList → FileList
unfolding update_first
integrity_remove_file none files = files
integrity_remove_file (some path) none = none
integrity_remove_file (some path) (some files) =
    some (update_first (is_file path) (λ f. record f { path = []; is_valid = false }) files)

unfoldable pub integrity_verify_file : Option CString → Option Hash → FileList → Bool
unfolding find_file hash_compare
integrity_verify_file none file files = false
integrity_verify_file (some path) none files = false
integrity_verify_file (some path) (some current) files = elim (find_file path files) [
  | none ↦ false
  | some f ↦ hash_compare current f.hash
]

-- The condition of the scan's loop.
abbrev pub is_checked : FileInfo → Bool
is_checked f = not (is_empty f) && f.is_valid

-- The scan verifies under the lock that the verification takes too: `none` is a thread that waits for
-- itself, where a mutex is not recursive. `contents` is `file` for each path.
unfoldable pub integrity_scan_all : Bool → (CString → Option Hash) → FileList → Option ℕ
unfolding count_all find_first integrity_verify_file
integrity_scan_all recursive contents none = some 0
integrity_scan_all recursive contents (some files) = elim (find_first is_checked files) [
  | none ↦ some 0
  | some f ↦
      if not recursive
      then none
      else some (
          count_all
            (λ x.
              is_checked x
              && not (integrity_verify_file (some x.path) (contents x.path) (some files)))
            files)
]

-- The answer of WinVerifyTrust for the file, `none` outside of Windows.
unfoldable pub integrity_verify_code_signature : Option CString → Option ℕ → Bool
integrity_verify_code_signature none answer = false
integrity_verify_code_signature (some path) none = false
integrity_verify_code_signature (some path) (some zero) = true
integrity_verify_code_signature (some path) (some (suc error)) = false
