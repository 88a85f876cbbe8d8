-- ===== src/HashDb/Dictionary.antt =====
-- The hash database as a dictionary by name.
use mathlib.Core.Option
use ps.Base.{
  ℕ, ◌≤◌, ◌≡◌, refl, sym, inl, inr, Bool, true, false, Option, none, some, List, [], ◌∷◌, arith,
  if◌then◌else◌, Bool-cases, length, take-eq_self, success, CString, max_name, str_eq, str_eq_iff,
  ap, Status, ◌≢◌, ◌==◌, is_success, ◌⊎◌, ◌&&◌, is_success-cases, ◌∙◌,
}
use ps.Chain.{find_first, update_first, remove_first}
use ps.Chain.Search.{find_first_test}
use ps.Hash.{Algorithm, Hash, hash_compute}
use ps.HashDb.{
  HashDbEntry, named, hash_db_store, hash_db_hashed, hash_db_add_entry, hash_db_remove_entry,
  hash_db_find_entry,
}

-- Every name fits its buffer and stands once.
abbrev Absent : CString → List HashDbEntry → Type 0
Absent n [] = Unit
Absent n (e ∷ db) = (str_eq e.name n ≡ false) × Absent n db

abbrev pub IsKeyed : List HashDbEntry → Type 0
IsKeyed [] = Unit
IsKeyed (e ∷ db) = (length e.name ≤ max_name) × Absent e.name db × IsKeyed db

find-Absent : (n : CString) (db : List HashDbEntry) → find_first (named n) db ≡ none → Absent n db
unfolding find_first
find-Absent n [] h = tt
find-Absent n (e ∷ db) h = (ground arith, find-Absent n db (ground arith))

Absent-find : (n : CString) (db : List HashDbEntry) → Absent n db → find_first (named n) db ≡ none
unfolding find_first
Absent-find n [] h = refl
Absent-find n (e ∷ db) h = rw h.0 (Absent-find n db h.1)

-- An update in place leaves the names.
module _ (f : HashDbEntry → HashDbEntry) (keeps : (e : HashDbEntry) → (f e).name ≡ e.name) where
  update-Absent :
      (m n : CString) (db : List HashDbEntry) → Absent n db → Absent n (update_first (named m) f db)
  unfolding update_first
  update-Absent m n [] h = tt
  update-Absent m n (e ∷ db) h = elim (Bool-cases (named m e)) [
    | inl k ↦ rw (k, keeps e) (h.0, h.1)
    | inr k ↦ rw k (h.0, update-Absent m n db h.1)
  ]

  update-IsKeyed :
      (m : CString) (db : List HashDbEntry) → IsKeyed db → IsKeyed (update_first (named m) f db)
  unfolding update_first
  update-IsKeyed m [] h = tt
  update-IsKeyed m (e ∷ db) h = elim (Bool-cases (named m e)) [
    | inl k ↦ rw (k, keeps e) (h.0, h.1, h.2)
    | inr k ↦ rw k (h.0, update-Absent m e.name db h.1, update-IsKeyed m db h.2)
  ]

  find-update :
      (m n : CString) (db : List HashDbEntry)
      → find_first (named n) (update_first (named m) f db)
        ≡ (if str_eq m n then Option.map f (find_first (named n) db) else find_first (named n) db)
  unfolding update_first find_first
  find-update m n [] = ground arith
  find-update m n (e ∷ db) =
      ground (
        arith,
        keeps e,
        str_eq_iff e.name m,
        str_eq_iff e.name n,
        str_eq_iff m n,
        find-update m n db,
      )

remove-Absent :
    (m n : CString) (db : List HashDbEntry) → Absent n db → Absent n (remove_first (named m) db)
unfolding remove_first
remove-Absent m n [] h = tt
remove-Absent m n (e ∷ db) h = elim (Bool-cases (named m e)) [
  | inl k ↦ rw k h.1
  | inr k ↦ rw k (h.0, remove-Absent m n db h.1)
]

remove-IsKeyed :
    (m : CString) (db : List HashDbEntry) → IsKeyed db → IsKeyed (remove_first (named m) db)
unfolding remove_first
remove-IsKeyed m [] h = tt
remove-IsKeyed m (e ∷ db) h = elim (Bool-cases (named m e)) [
  | inl k ↦ rw k h.2
  | inr k ↦ rw k (h.0, remove-Absent m e.name db h.1, remove-IsKeyed m db h.2)
]

-- Removing a name from a keyed database forgets that name and no other.
find-remove :
    (m n : CString) (db : List HashDbEntry)
    → IsKeyed db
    → find_first (named n) (remove_first (named m) db)
      ≡ (if str_eq m n then none else find_first (named n) db)
unfolding remove_first find_first
find-remove m n [] h = ground arith
find-remove m n (e ∷ db) h = ground (
  arith,
  str_eq_iff e.name m,
  str_eq_iff e.name n,
  str_eq_iff m n,
  Absent-find e.name db h.1,
  find-remove m n db h.2,
)

-- What a successful call stores.
abbrev pub entry_of : CString → ℕ → ℕ → Hash → Algorithm → HashDbEntry
entry_of name address size hash a = record {
  name = name;
  base_address = address;
  size = size;
  hash = hash;
  algorithm = a;
}

store-Keyed :
    (o : Option HashDbEntry) (name : CString) (address size : ℕ) (hash : Hash) (a : Algorithm)
    (alloc : Bool) (db : List HashDbEntry)
    → o ≡ find_first (named name) db
    → length name ≤ max_name
    → IsKeyed db
    → IsKeyed (hash_db_store o name address size hash a alloc db).1
unfolding hash_db_store
store-Keyed (some e) name address size hash a alloc db q s k =
    update-IsKeyed
      (λ e. record e { base_address = address; size = size; hash = hash; algorithm = a })
      (λ e. refl) name db k
store-Keyed none name address size hash a false db q s k = k
store-Keyed none name address size hash a true db q s k =
    rw (take-eq_self max_name name s) (s, find-Absent name db (sym q), k)

find-store :
    (o : Option HashDbEntry) (name n : CString) (address size : ℕ) (hash : Hash) (a : Algorithm)
    (alloc : Bool) (db : List HashDbEntry)
    → o ≡ find_first (named name) db
    → length name ≤ max_name
    → (hash_db_store o name address size hash a alloc db).0 ≡ success
    → find_first (named n) (hash_db_store o name address size hash a alloc db).1 ≡ (
        if str_eq name n then some (entry_of name address size hash a) else find_first (named n) db)
unfolding hash_db_store
find-store (some e) name n address size hash a alloc db q s h = ground (
  arith,
  find-update (λ e. record e { base_address = address; size = size; hash = hash; algorithm = a })
      (λ e. refl) name n db,
  str_eq_iff name n,
  str_eq_iff e.name name,
  find_first_test (named name) db {x = e} (sym q),
)
find-store none name n address size hash a false db q s h = cc
find-store none name n address size hash a true db q s h =
    rw (take-eq_self max_name name s) (unfold find_first in refl)

-- The status of the hash that was computed does not matter to what a failed call leaves.
hashed-lookup :
    (r : Status × Hash) (name n : CString) (address size : ℕ) (a : Algorithm) (alloc : Bool)
    (db : List HashDbEntry)
    → length name ≤ max_name
    → IsKeyed db
    → let s = hash_db_hashed r name address size a alloc db in
      IsKeyed s.1
      × (s.0 ≡ success
          → hash_db_find_entry (some n) s.1 ≡ (
              if str_eq name n
              then some (entry_of name address size r.1 a)
              else hash_db_find_entry (some n) db))
      × (s.0 ≢ success → s.1 ≡ db)
unfolding hash_db_hashed hash_db_find_entry
hashed-lookup (success, hash) name n address size a alloc db s k = (
  store-Keyed (find_first (named name) db) name address size hash a alloc db refl s k,
  find-store (find_first (named name) db) name n address size hash a alloc db refl s,
  failed (find_first (named name) db),
)
  where
    failed :
        (o : Option HashDbEntry)
        → (hash_db_store o name address size hash a alloc db).0 ≢ success
        → (hash_db_store o name address size hash a alloc db).1 ≡ db
    failed o h = unfold hash_db_store in ground arith
hashed-lookup (_, hash) name n address size a alloc db s k = (k, λ h. cc, λ h. refl)

add-lookup :
    (name n : CString) (address size : ℕ) (bytes : Option (List ℕ)) (a : Algorithm) (junk : Hash)
    (alloc : Bool) (db : List HashDbEntry)
    → length name ≤ max_name
    → IsKeyed db
    → let s = hash_db_add_entry (some name) address size bytes a junk alloc db in
      IsKeyed s.1
      × (s.0 ≡ success
          → hash_db_find_entry (some n) s.1 ≡ (
              if str_eq name n
              then some (entry_of name address size (hash_compute a bytes junk).1 a)
              else hash_db_find_entry (some n) db))
      × (s.0 ≢ success → s.1 ≡ db)
unfolding hash_db_add_entry
add-lookup name n address size bytes a junk alloc db s k = elim (Bool-cases (size == 0)) [
  | inl e ↦ rw e (k, λ h. cc, λ h. refl)
  | inr e ↦ rw e (hashed-lookup (hash_compute a bytes junk) name n address size a alloc db s k)
]

-- For a name that fits its buffer, a database whose names fit and stand once keeps this property. If
-- the call succeeds, a search for the name gives the stored address, size, algorithm and hash of the
-- given bytes, and a search for any other name gives what it gave before. If it fails, the database is
-- unchanged.
pub hash_db_find-add :
    (name n : CString) (address size : ℕ) (bytes : Option (List ℕ)) (a : Algorithm) (junk : Hash)
    (alloc : Bool) (db : List HashDbEntry)
    → length name ≤ max_name
    → IsKeyed db
    → let s = hash_db_add_entry (some name) address size bytes a junk alloc db in
      IsKeyed s.1
      × (hash_db_find_entry (some n) s.1 ≡ (
          if is_success s.0 && str_eq name n
          then some (entry_of name address size (hash_compute a bytes junk).1 a)
          else hash_db_find_entry (some n) db))
      × ((s.0 ≡ success) ⊎ (s.1 ≡ db))
hash_db_find-add name n address size bytes a junk alloc db s k =
    let l = add-lookup name n address size bytes a junk alloc db s k in
    elim (is_success-cases (hash_db_add_entry (some name) address size bytes a junk alloc db).0) [
      | inl e ↦ (l.0, l.1 e ∙ rw e refl, inl e)
      | inr (e, f) ↦ (l.0, ap (hash_db_find_entry (some n)) (l.2 f) ∙ rw e refl, inr (l.2 f))
    ]

-- From a database whose names fit and stand once, a removal keeps this property; afterwards the removed
-- name is not found, and every other name gives what it gave before.
pub hash_db_find-remove :
    (name n : CString) (db : List HashDbEntry)
    → IsKeyed db
    → IsKeyed (hash_db_remove_entry (some name) db)
      × (hash_db_find_entry (some n) (hash_db_remove_entry (some name) db)
          ≡ (if str_eq name n then none else hash_db_find_entry (some n) db))
unfolding hash_db_remove_entry hash_db_find_entry
hash_db_find-remove name n db k = (remove-IsKeyed name db k, find-remove name n db k)
