-- ===== src/Examples/Backing.antt =====
-- Runs of the file backups, src/core/repair_system, and of src/core/integrity_check/code_signature.c.
use ps.Base.{
  ℕ, List, chars, ◌≡◌, refl, true, false, some, [], ◌∷◌, arith, success, CString, str_eq, replicate,
  set, inr, ◌++◌,
}
use ps.Files.{backup_list, own_name, Backups, read_file, write_file}
use ps.Files.Restorer.{generate_backup_path, backup_name, Grants, backup_file, restore_file}
use ps.Integrity.Signature.{Layout, nt_position, code_signature_verify_pe}
use ps.Integrity.Signature.Untouched.{code_signature_verify_pe-set}
use ps.Checkpoints.{repaired}
use ps.Files.Restorer.RoundTrip.{restore_file-backup}

abbrev game_path : CString
game_path = chars "game/core.bin"

abbrev all_granted : Grants
all_granted = record {
  may_write = λ p. true;
  may_read = λ p. true;
  may_create = λ p. true;
  has_memory = true;
}

abbrev disk : Backups
disk = record {
  manager_dir = chars "backups";
  manager_ready = true;
  restorer_dir = chars "backups";
  restorer_ready = false;
  checksums = [];
  files = (game_path, 1 ∷ 2 ∷ 3 ∷ []) ∷ [];
}

restore_file-backup_example :
    let backup = backup_file all_granted 120 (some game_path) disk in
    let after = record backup.1 { files = write_file game_path (9 ∷ []) backup.1.files } in
    (backup.0 ≡ success)
    × ((restore_file all_granted (some game_path) after).0 ≡ repaired)
    × (read_file game_path (restore_file all_granted (some game_path) after).1.files
        ≡ some (1 ∷ 2 ∷ 3 ∷ []))
unfolding read_file str_eq own_name backup_name generate_backup_path backup_list
restore_file-backup_example =
    restore_file-backup all_granted 120 game_path (1 ∷ 2 ∷ 3 ∷ []) disk refl refl refl refl refl
      refl refl (omega arith) (9 ∷ []) refl refl refl refl

-- A file of two headers with an entry for certificates, and 16 bytes of code.
abbrev exe : List ℕ
exe =
    0x4D
    ∷ 0x5A
    ∷ (replicate 58 0
        ++ (64
            ∷ 0
            ∷ 0
            ∷ 0
            ∷ 0x50
            ∷ 0x45
            ∷ 0
            ∷ 0
            ∷ (replicate 164 0
                ++ (0 ∷ 16 ∷ 0 ∷ 0 ∷ 8 ∷ 0 ∷ 0 ∷ 0 ∷ (replicate 88 0 ++ replicate 16 7)))))

abbrev win64 : Layout
win64 = record { size = 264; directory = 168 }

exe_verified : code_signature_verify_pe win64 (some exe) ≡ true
unfolding code_signature_verify_pe
exe_verified = refl

code_signature_verify_pe-set_example :
    code_signature_verify_pe win64 (some (set exe 330 9))
    ≡ code_signature_verify_pe win64 (some exe)
unfolding nt_position
code_signature_verify_pe-set_example =
    code_signature_verify_pe-set win64 exe 330 9 (omega arith) (inr (omega arith))
