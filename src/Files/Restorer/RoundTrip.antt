-- ===== src/Files/Restorer/RoundTrip.antt =====
-- Backing a file up and restoring it, src/core/repair_system/file_restorer.c with backup_manager.c.
use ps.Files.Listing.{
  entries-write_elsewhere, entries-write_old, is_in_own, entries-write_new, list_loop-append,
}
use ps.Base.{
  Bool, refl, str_eq_iff, inl, inr, Bool-cases, ℕ, ◌≤◌, ◌≡◌, sym, ap, ◌∙◌, true, false, none, some,
  List, [], ◌∷◌, ◌++◌, arith, length, take, take-eq_self, success, CString, max_path, str_eq,
}
use ps.Files.Restorer.Copying.{read-write_self, read-write_other, copy_file-eq}
use ps.Files.Restorer.{
  copy_file, restore_file, Grants, backup_name, generate_backup_path, file_exists, backup_existing,
  backup_file,
}
use ps.Checkpoints.{repaired}
use ps.Files.{
  backup_get_best, backup_list, FileSystem, read_file, write_file, is_in, own_name, entries,
  list_loop, BackupInfo, Backups, extract_filename,
}
use ps.Files.Restorer.Naming.{info_of, list_loop_own, best_of, restore_best}

module _ (g : Grants) (tick : ℕ) (f : CString) (bytes : List ℕ) (b : Backups) where
  abbrev name : CString
  name = backup_name f tick

  abbrev target : CString
  target = generate_backup_path b.restorer_dir f tick

  -- The state after a backup that was made.
  abbrev backed_up : Backups
  backed_up = record b { restorer_ready = true; files = write_file target bytes b.files }

  module _ (exists : read_file f b.files ≡ some bytes) (new : str_eq target f ≡ false)
      (writes : g.may_write f ≡ true) (reads : g.may_read f ≡ true)
      (creates : g.may_create target ≡ true) where
    backup_file-eq : backup_file g tick (some f) b ≡ (success, backed_up)
    unfolding backup_file backup_existing file_exists
    backup_file-eq = ground (arith, copy_file-eq g f target bytes b.files exists new reads creates)

  module _ (same : b.restorer_dir ≡ b.manager_dir) (own : own_name (some name) ≡ some name)
      (new : read_file target b.files ≡ none)
      (fits : length (b.restorer_dir ++ b'/' ∷ name) ≤ max_path) where
    target-eq : target ≡ b.manager_dir ++ b'/' ∷ name
    unfolding generate_backup_path
    target-eq =
        take-eq_self 511 (b.restorer_dir ++ b'/' ∷ name) (omega (arith, fits))
        ∙ ap (λ d. d ++ b'/' ∷ name) same

    path-eq : take max_path (b.manager_dir ++ b'/' ∷ name) ≡ target
    path-eq =
        take-eq_self max_path (b.manager_dir ++ b'/' ∷ name) (rw (← same) fits) ∙ sym target-eq

    target_in : own_name (is_in b.manager_dir target) ≡ some name
    target_in = rw target-eq (rw (is_in_own b.manager_dir name) own)

    -- The backup comes last in the list of the file's backups.
    listed :
        (files : FileSystem)
        → entries b.manager_dir files ≡ entries b.manager_dir (write_file target bytes b.files)
        → list_loop true b.manager_dir (extract_filename 260 f) (entries b.manager_dir files)
          ≡ list_loop true b.manager_dir (extract_filename 260 f) (entries b.manager_dir b.files)
            ++ info_of b.manager_dir name ∷ []
    listed files e =
        rw (e, entries-write_new b.manager_dir target bytes b.files name new target_in)
          (list_loop-append true b.manager_dir (extract_filename 260 f)
              (entries b.manager_dir b.files) name
            ∙ ap
                (λ l.
                  list_loop true b.manager_dir (extract_filename 260 f)
                    (entries b.manager_dir b.files)
                  ++ l)
                (list_loop_own b.manager_dir f tick))

  path_differs :
      read_file f b.files ≡ some bytes → read_file target b.files ≡ none → str_eq target f ≡ false
  path_differs exists new = elim (Bool-cases (str_eq target f)) [
    | inr e ↦ e
    | inl e ↦ absurd (ground (arith, str_eq_iff target f, exists, new))
  ]

  -- The names that a backup must find in its directory and the grants that it needs.
  module _ (exists : read_file f b.files ≡ some bytes) (writes : g.may_write f ≡ true)
      (reads : g.may_read f ≡ true) (creates : g.may_create target ≡ true)
      (same : b.restorer_dir ≡ b.manager_dir) (own : own_name (some name) ≡ some name)
      (new : read_file target b.files ≡ none)
      (fits : length (b.restorer_dir ++ b'/' ∷ name) ≤ max_path) where
    backup_first :
        (files : FileSystem)
        → backup_list true (some f) b ≡ []
        → entries b.manager_dir files ≡ entries b.manager_dir (write_file target bytes b.files)
        → backup_list true (some f) (record backed_up { files = files })
          ≡ info_of b.manager_dir name ∷ []
    unfolding backup_list
    backup_first files none_yet e =
        listed same own new fits files e ∙ ap (λ l. l ++ info_of b.manager_dir name ∷ []) none_yet

    restore_file-eq :
        (files : FileSystem) (info : BackupInfo)
        → backup_list true (some f) (record backed_up { files = files }) ≡ info ∷ []
        → info.path ≡ target
        → read_file target files ≡ some bytes
        → str_eq f target ≡ false
        → g.may_read target ≡ true
        → g.may_create f ≡ true
        → g.has_memory ≡ true
        → restore_file g (some f) (record backed_up { files = files })
          ≡ (repaired, record backed_up { files = write_file f bytes files })
    restore_file-eq files info best at_path source other reads' creates' memory =
        let copied : copy_file g info.path f files ≡ some (write_file f bytes files) =
          rw at_path (copy_file-eq g target f bytes files source other reads' creates') in
        restore_best g f (record backed_up { files = files }) (write_file f bytes files) info
          (rw memory (best_of true (some f) _ info [] best)) copied

    -- A file that is backed up, overwritten by anything, and restored, has its old bytes again: both calls
    -- report a success. (The two source files use one directory, there was no backup of the file and no
    -- file under the backup's path, the name of the backup has no slash, the path fits its buffer, and the
    -- system grants the access and the memory.)
    pub restore_file-backup :
        (tampered : List ℕ)
        → g.may_read target ≡ true
        → g.may_create f ≡ true
        → g.has_memory ≡ true
        → backup_list true (some f) b ≡ []
        → let backup = backup_file g tick (some f) b in
          let after = record backup.1 { files = write_file f tampered backup.1.files } in
          (backup.0 ≡ success)
          × ((restore_file g (some f) after).0 ≡ repaired)
          × (read_file f (restore_file g (some f) after).1.files ≡ some bytes)
    restore_file-backup tampered reads' creates' memory none_yet =
        let stored = write_file target bytes b.files in
        let files = write_file f tampered stored in
        let other : str_eq f target ≡ false =
          ground (arith, str_eq_iff f target, str_eq_iff target f, (path_differs exists new)) in
        let still : read_file f stored ≡ some bytes =
          read-write_other target f bytes b.files (path_differs exists new) ∙ exists in
        let source : read_file target files ≡ some bytes =
          read-write_other f target tampered stored other
          ∙ read-write_self target f bytes b.files in
        rw
          (
            backup_file-eq exists (path_differs exists new) writes reads creates,
            restore_file-eq files (info_of b.manager_dir name)
                (backup_first files none_yet
                  (entries-write_old b.manager_dir f tampered stored bytes still))
                (path-eq same own new fits) source other reads' creates' memory,
          )
          (refl, refl, read-write_self f f bytes files)

  module _ (exists : read_file f b.files ≡ some bytes) (writes : g.may_write f ≡ true)
      (reads : g.may_read f ≡ true) (creates : g.may_create target ≡ true)
      (new : read_file target b.files ≡ none) where
    -- A backup in another directory than the one that is searched is never found: the call succeeds and
    -- the bytes lie under its path, but the list of the file's backups is what it was before.
    pub backup_list-backup_elsewhere :
        (alloc : Bool)
        → is_in b.manager_dir target ≡ none
        → let backup = backup_file g tick (some f) b in
          (backup.0 ≡ success)
          × (read_file target backup.1.files ≡ some bytes)
          × (backup_list alloc (some f) backup.1 ≡ backup_list alloc (some f) b)
    unfolding backup_list
    backup_list-backup_elsewhere alloc elsewhere =
        rw (backup_file-eq exists (path_differs exists new) writes reads creates) (
          refl,
          read-write_self target f bytes b.files,
          ap (list_loop alloc b.manager_dir (extract_filename 260 f)) (
              entries-write_elsewhere b.manager_dir target bytes b.files new
                (unfold own_name in rw elsewhere)),
        )

    -- Where a file has a backup, a newer one is never chosen: the best backup stays the first of the
    -- directory.
    pub backup_get_best-backup :
        (info : BackupInfo) (infos : List BackupInfo)
        → b.restorer_dir ≡ b.manager_dir
        → own_name (some name) ≡ some name
        → length (b.restorer_dir ++ b'/' ∷ name) ≤ max_path
        → backup_list true (some f) b ≡ info ∷ infos
        → let backup = backup_file g tick (some f) b in
          (backup.0 ≡ success)
          × (backup_list true (some f) backup.1 ≡ (info ∷ infos) ++ info_of b.manager_dir name ∷ [])
          × (backup_get_best true (some f) backup.1 ≡ some info)
    unfolding backup_list
    backup_get_best-backup info infos same own fits some_yet =
        let all : backup_list true (some f) backed_up
            ≡ (info ∷ infos) ++ info_of b.manager_dir name ∷ [] =
          listed same own new fits (write_file target bytes b.files) refl
          ∙ ap (λ l. l ++ info_of b.manager_dir name ∷ []) some_yet in
        rw (backup_file-eq exists (path_differs exists new) writes reads creates) (
          refl,
          all,
          best_of true (some f) backed_up info (infos ++ info_of b.manager_dir name ∷ []) all,
        )
