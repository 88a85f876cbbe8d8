-- ===== src/Files/Listing.antt =====
-- The lists of backups that src/core/repair_system/backup_manager.c makes, when files are written.

use ps.Base.{ℕ, ◌≡◌, refl, Bool, true, none, some, List, [], ◌∷◌, ◌++◌, arith, CString}
use ps.Advanced.Debugger.{is_prefix, contains}
use ps.Files.{FileSystem, read_file, write_file, is_in, own_name, entries, list_loop}

is_prefix_self : (n s : CString) → is_prefix n (n ++ s) ≡ true
unfolding is_prefix
is_prefix_self [] s = refl
is_prefix_self (c ∷ n) s = ground (arith, is_prefix_self n s)

contains_prefix : (n s : CString) → is_prefix n s ≡ true → contains n s ≡ true
unfolding contains
contains_prefix n [] h = h
contains_prefix n (c ∷ s) h = rw h

-- What a text contains, every text with more in front of it contains.
pub contains_behind : (n a s : CString) → contains n s ≡ true → contains n (a ++ s) ≡ true
unfolding contains
contains_behind n [] s h = h
contains_behind n (c ∷ a) s h = ground (arith, contains_behind n a s)

pub contains_middle : (a n s : CString) → contains n (a ++ (n ++ s)) ≡ true
contains_middle a n s =
    contains_behind n a (n ++ s) (contains_prefix n (n ++ s) (is_prefix_self n s))

pub is_in_own : (dir name : CString) → is_in dir (dir ++ b'/' ∷ name) ≡ some name
unfolding is_in
is_in_own [] name = refl
is_in_own (d ∷ dir) name = ground (arith, is_in_own dir name)

module _ (dir p : CString) (bytes : List ℕ) where
  -- Writing a file that is there changes no directory.
  pub entries-write_old :
      (files : FileSystem) (old : List ℕ)
      → read_file p files ≡ some old
      → entries dir (write_file p bytes files) ≡ entries dir files
  unfolding read_file write_file entries
  entries-write_old [] old e = cc
  entries-write_old ((x, y) ∷ files) old e = ground (arith, entries-write_old files old)

  -- A new file comes last in its directory.
  pub entries-write_new :
      (files : FileSystem) (name : CString)
      → read_file p files ≡ none
      → own_name (is_in dir p) ≡ some name
      → entries dir (write_file p bytes files) ≡ entries dir files ++ name ∷ []
  unfolding read_file write_file entries
  entries-write_new [] name e k = rw (k, entries)
  entries-write_new ((x, y) ∷ files) name e k = ground (arith, entries-write_new files name)

  -- And shows in no other.
  pub entries-write_elsewhere :
      (files : FileSystem)
      → read_file p files ≡ none
      → own_name (is_in dir p) ≡ none
      → entries dir (write_file p bytes files) ≡ entries dir files
  unfolding read_file write_file entries
  entries-write_elsewhere [] e k = rw (k, entries)
  entries-write_elsewhere ((x, y) ∷ files) e k = ground (arith, entries-write_elsewhere files)

pub list_loop-append :
    (alloc : Bool) (dir filename : CString) (xs : List CString) (name : CString)
    → list_loop alloc dir filename (xs ++ name ∷ [])
      ≡ list_loop alloc dir filename xs ++ list_loop alloc dir filename (name ∷ [])
unfolding list_loop
list_loop-append alloc dir filename [] name = refl
list_loop-append alloc dir filename (x ∷ xs) name =
    ground (arith, list_loop-append alloc dir filename xs name)
