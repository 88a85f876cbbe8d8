-- ===== src/Integrity/Files/Unallocated.antt =====
-- What a program can do with the list of src/core/integrity_check/file_verifier.c, which is NULL when it
-- starts.
use ps.Base.{
  arith, ℕ, ◌≡◌, refl, sym, ◌∙◌, Bool, true, false, Option, none, some, List, [], ◌∷◌, CString,
  if◌then◌else◌,
}
use ps.Chain.{Walk, done, fault, more}
use ps.Hash.{Hash}
use ps.Integrity.Files.{
  FileList, integrity_init, integrity_shutdown, integrity_add_file, integrity_remove_file,
  integrity_verify_file, integrity_scan_all, find_file, fill_slot, shutdown_loop,
}

-- The calls that can change the list; `add` has what the hashing of the file gives.
pub data Change : Type 0 where
  start : Change
  add : Option CString → Option Hash → Change
  remove : Option CString → Change
  stop : ℕ → Change

unfoldable pub change : Change → FileList → Walk FileList
unfolding integrity_init integrity_add_file integrity_remove_file integrity_shutdown
change start files = done (integrity_init files).1
change (add path file) files = elim (integrity_add_file path file files) [
  | done r ↦ done r.1
  | fault ↦ fault
  | more ↦ more
]
change (remove path) files = done (integrity_remove_file path files)
change (stop fuel) files = integrity_shutdown fuel files

-- One call after the other, up to the first that does not return.
unfoldable pub changes : List Change → FileList → Walk FileList
unfolding change
changes [] files = done files
changes (c ∷ cs) files = elim (change c files) [
  | done files' ↦ changes cs files'
  | fault ↦ fault
  | more ↦ more
]

-- Whether the calls add a file that can be hashed.
abbrev pub adds_file : List Change → Bool
adds_file [] = false
adds_file (add (some path) (some hash) ∷ cs) = true
adds_file (_ ∷ cs) = adds_file cs

-- From the start of the program, a sequence of calls faults exactly if one of them adds a file that can
-- be hashed; otherwise all return, and the list is NULL as before.
pub changes-eq : (cs : List Change) → changes cs none ≡ (if adds_file cs then fault else done none)
unfolding changes change integrity_init integrity_add_file integrity_remove_file integrity_shutdown
    find_file fill_slot shutdown_loop
changes-eq [] = refl
changes-eq (start ∷ cs) = changes-eq cs
changes-eq (add none file ∷ cs) = changes-eq cs
changes-eq (add (some path) none ∷ cs) = changes-eq cs
changes-eq (add (some path) (some hash) ∷ cs) = refl
changes-eq (remove none ∷ cs) = changes-eq cs
changes-eq (remove (some path) ∷ cs) = changes-eq cs
changes-eq (stop fuel ∷ cs) = changes-eq cs

done_if :
    (b : Bool) (files : FileList) → (if b then fault else done none) ≡ done files → files ≡ none
done_if true files h = ground arith
done_if false files h = ground arith

verify_none :
    (path : Option CString) (file : Option Hash) → integrity_verify_file path file none ≡ false
unfolding integrity_verify_file find_file
verify_none none file = refl
verify_none (some path) none = refl
verify_none (some path) (some current) = refl

-- No file is ever verified, and no scan finds a changed one: after every sequence of calls from the start
-- that returns, a verification of any file answers no, and a scan counts no file.
pub changes_verify_nothing :
    (cs : List Change) (files : FileList)
    → changes cs none ≡ done files
    → ((path : Option CString) (file : Option Hash) → integrity_verify_file path file files ≡ false)
      × ((recursive : Bool) (contents : CString → Option Hash)
          → integrity_scan_all recursive contents files ≡ some 0)
unfolding integrity_verify_file integrity_scan_all find_file
changes_verify_nothing cs files h =
    let e : files ≡ none = done_if (adds_file cs) files (sym (changes-eq cs) ∙ h) in
    rw e (verify_none, λ recursive contents. refl)
