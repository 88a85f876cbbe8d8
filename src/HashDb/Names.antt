-- ===== src/HashDb/Names.antt =====
-- Names that are longer than the buffer of src/core/memory_monitor/hash_database.c.
use ps.Base.{
  ℕ, ◌≤◌, ◌≡◌, refl, inl, inr, Bool, true, false, Option, none, some, List, [], arith,
  if◌then◌else◌, Bool-cases, length, success, CString, max_name, str_eq, str_eq_iff, ◌<◌, ap, sym,
  ◌∷◌, take, Status, length-take, ◌==◌, is_success,
}
use mathlib.Core.Path.{subst}
use ps.Chain.{find_first}
use ps.Hash.{Algorithm, Hash, hash_compute}
use ps.HashDb.{
  HashDbEntry, named, hash_db_store, hash_db_hashed, hash_db_add_entry, hash_db_find_entry,
}

-- Every stored name fits its buffer.
abbrev pub AllFit : List HashDbEntry → Type 0
AllFit [] = Unit
AllFit (e ∷ db) = (length e.name ≤ max_name) × AllFit db

fit-find_none :
    (name : CString) (db : List HashDbEntry)
    → max_name < length name
    → AllFit db
    → find_first (named name) db ≡ none
unfolding find_first
fit-find_none name [] h k = refl
fit-find_none name (e ∷ db) h k = elim (Bool-cases (str_eq e.name name)) [
  | inl q ↦ absurd (omega (arith, ap length ((str_eq_iff e.name name).0 q)))
  | inr q ↦ rw q (fit-find_none name db h k.1)
]

-- The entry of a name that is cut, from a hash that was computed.
abbrev pub cut_entry : CString → ℕ → ℕ → Hash → Algorithm → HashDbEntry
cut_entry name address size hash a = record {
  name = take 63 name;
  base_address = address;
  size = size;
  hash = hash;
  algorithm = a;
}

store-long :
    (o : Option HashDbEntry) (name : CString) (address size : ℕ) (hash : Hash) (a : Algorithm)
    (alloc : Bool) (db : List HashDbEntry)
    → o ≡ none
    → let s = hash_db_store o name address size hash a alloc db in
      s.1 ≡ (if is_success s.0 then cut_entry name address size hash a ∷ db else db)
unfolding hash_db_store
store-long (some e) name address size hash a alloc db q = cc
store-long none name address size hash a false db q = refl
store-long none name address size hash a true db q = refl

hashed-long :
    (r : Status × Hash) (name : CString) (address size : ℕ) (a : Algorithm) (alloc : Bool)
    (db : List HashDbEntry)
    → max_name < length name
    → AllFit db
    → let s = hash_db_hashed r name address size a alloc db in
      s.1 ≡ (if is_success s.0 then cut_entry name address size r.1 a ∷ db else db)
unfolding hash_db_hashed
hashed-long (success, hash) name address size a alloc db h k =
    store-long (hash_db_find_entry (some name) db) name address size hash a alloc db
      (unfold hash_db_find_entry in fit-find_none name db h k)
hashed-long (_, hash) name address size a alloc db h k = refl

add-long :
    (name : CString) (address size : ℕ) (bytes : Option (List ℕ)) (a : Algorithm) (junk : Hash)
    (alloc : Bool) (db : List HashDbEntry)
    → max_name < length name
    → AllFit db
    → let s = hash_db_add_entry (some name) address size bytes a junk alloc db in
      s.1 ≡ (
        if is_success s.0
        then cut_entry name address size (hash_compute a bytes junk).1 a ∷ db
        else db)
unfolding hash_db_add_entry
add-long name address size bytes a junk alloc db h k = elim (Bool-cases (size == 0)) [
  | inl e ↦ rw e refl
  | inr e ↦ rw e (hashed-long (hash_compute a bytes junk) name address size a alloc db h k)
]

AllFit-cut :
    (success' : Bool) (name : CString) (address size : ℕ) (hash : Hash) (a : Algorithm)
    (db : List HashDbEntry)
    → AllFit db
    → AllFit (if success' then cut_entry name address size hash a ∷ db else db)
AllFit-cut true name address size hash a db k = (omega (arith, length-take 63 name), k)
AllFit-cut false name address size hash a db k = k

-- A name longer than its buffer is lost: where all stored names fit, a successful call with such a name
-- puts one more entry in front of the list, under the first 63 characters of the name and with the
-- address, the size, the algorithm and the hash of the call; a failed one changes nothing. No search for
-- the name finds an entry, neither before nor after the call, and all stored names fit afterwards.
pub hash_db_add_long :
    (name : CString) (address size : ℕ) (bytes : Option (List ℕ)) (a : Algorithm) (junk : Hash)
    (alloc : Bool) (db : List HashDbEntry)
    → max_name < length name
    → AllFit db
    → let s = hash_db_add_entry (some name) address size bytes a junk alloc db in
      (hash_db_find_entry (some name) db ≡ none)
      × (hash_db_find_entry (some name) s.1 ≡ none)
      × (s.1 ≡ (
          if is_success s.0
          then cut_entry name address size (hash_compute a bytes junk).1 a ∷ db
          else db))
      × AllFit s.1
unfolding hash_db_find_entry
hash_db_add_long name address size bytes a junk alloc db h k =
    let s = hash_db_add_entry (some name) address size bytes a junk alloc db in
    let added = add-long name address size bytes a junk alloc db h k in
    let fit : AllFit s.1 =
      subst AllFit (sym added)
        (AllFit-cut (is_success s.0) name address size (hash_compute a bytes junk).1 a db k) in
    (fit-find_none name db h k, fit-find_none name s.1 h fit, added, fit)
