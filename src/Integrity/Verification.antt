-- ===== src/Integrity/Verification.antt =====
-- Adding a hash to the database of src/core/integrity_check/checksum_db.c and verifying files.
use ps.Base.{
  ℕ, ◌≤◌, ◌≡◌, refl, sym, ap, ◌∙◌, ◌⊎◌, inl, inr, Bool, true, false, ◌&&◌, Option, none, some, List,
  [], ◌∷◌, arith, if◌then◌else◌, Bool-cases, length, take-eq_self, success, is_success, CString,
  max_path, strncpy, str_eq, str_eq_iff,
}
use ps.Chain.{find_first, update_first}
use ps.Hash.{Hash, hash_compare}
use ps.Integrity.{
  ChecksumEntry, ChecksumDb, has_path, is_free, known, add_checksum, checksum_db_add,
  checksum_db_verify, verify_checksum, ready_db,
}

-- The hash that is known for a path.
abbrev pub stored : CString → List ChecksumEntry → Option Hash
stored q [] = none
stored q (x ∷ l) = let rest = stored q l in if known q x then some x.hash else rest

-- Whether the hash of a file is the known one.
abbrev pub agrees : Option Hash → Option Hash → Bool
agrees none file = false
agrees (some known_hash) none = false
agrees (some known_hash) (some current) = hash_compare current known_hash

verify_checksum-stored :
    (q : CString) (file : Option Hash) (l : List ChecksumEntry)
    → verify_checksum (find_first (known q) l) file ≡ agrees (stored q l) file
unfolding find_first verify_checksum
verify_checksum-stored q file [] = refl
verify_checksum-stored q file (x ∷ l) = elim (Bool-cases (known q x)) [
  | inl e ↦ rw e (verified file)
  | inr e ↦ rw e (verify_checksum-stored q file l)
]
  where
    verified : (f : Option Hash) → verify_checksum (some x) f ≡ agrees (some x.hash) f
    verified none = refl
    verified (some h) = refl

other_path :
    (path q : CString) (x : ChecksumEntry)
    → has_path path x ≡ false
    → str_eq path q ≡ true
    → has_path q x ≡ false
other_path path q x k s = ap (str_eq x.path) (sym ((str_eq_iff path q).0 s)) ∙ k

-- The entry of the path is changed.
stored-update :
    (path q : CString) (hash : Hash) (l : List ChecksumEntry) {e : ChecksumEntry}
    → find_first (has_path path) l ≡ some e
    → stored q (update_first (has_path path) (λ x. record x { hash = hash; valid = true }) l)
      ≡ (if str_eq path q then some hash else stored q l)
unfolding find_first update_first
stored-update path q hash [] h = cc
stored-update path q hash (x ∷ l) {e} h = elim (Bool-cases (has_path path x)) [
  | inl k ↦ rw (k, (str_eq_iff x.path path).0 k) (ground arith)
  | inr k ↦
      rw (k, stored-update path q hash l {e = e} (ground (arith, k)))
        (ground (arith, other_path path q x k))
]

free_path : (x : ChecksumEntry) → is_free x ≡ true → x.path ≡ []
free_path x h = path_nil x.path h
  where
    path_nil : (p : CString) → (elim p [ [] ↦ true | c ∷ cs ↦ false ]) ≡ true → p ≡ []
    path_nil [] h = refl
    path_nil (c ∷ cs) h = cc

-- A free slot takes the path, which no slot has.
stored-fill :
    (path : CString) (c : ℕ) (cs : CString) (hash : Hash) (l : List ChecksumEntry)
    {e : ChecksumEntry}
    → length path ≤ max_path
    → find_first (has_path path) l ≡ none
    → find_first is_free l ≡ some e
    → stored (c ∷ cs) (
        update_first is_free
          (λ x. record { path = strncpy max_path path; hash = hash; timestamp = 0; valid = true })
          l)
      ≡ (if str_eq path (c ∷ cs) then some hash else stored (c ∷ cs) l)
unfolding find_first update_first
stored-fill path c cs hash [] s n h = cc
stored-fill path c cs hash (x ∷ l) {e} s n h = elim (Bool-cases (is_free x)) [
  | inl k ↦ rw (k, free_path x k, take-eq_self max_path path s) (unfold str_eq in ground arith)
  | inr k ↦
      let none_has : has_path path x ≡ false = ground (arith, n) in
      rw (k, stored-fill path c cs hash l {e = e} s (ground (arith, n)) (ground (arith, k, h)))
        (ground (arith, other_path path (c ∷ cs) x none_has))
]

-- What a verification answers where the known hashes are `f`.
agrees-if :
    (b : Bool) (hash : Hash) (o : Option Hash) (file : Option Hash)
    → agrees (if b then some hash else o) file
      ≡ (if b then agrees (some hash) file else agrees o file)
agrees-if true hash o file = refl
agrees-if false hash o file = refl

add_checksum-verify :
    (o p : Option ChecksumEntry) (path : CString) (c : ℕ) (cs : CString) (hash : Hash)
    (file : Option Hash) (l : List ChecksumEntry)
    → length path ≤ max_path
    → find_first (has_path path) l ≡ o
    → find_first is_free l ≡ p
    → let r = add_checksum o p path hash l in
      (agrees (stored (c ∷ cs) r.1) file ≡ (
        if is_success r.0 && str_eq path (c ∷ cs)
        then agrees (some hash) file
        else agrees (stored (c ∷ cs) l) file))
      × ((r.0 ≡ success) ⊎ ((o ≡ none) × (p ≡ none)))
unfolding add_checksum
add_checksum-verify (some e) p path c cs hash file l s f g = (
  ap (λ k. agrees k file) (stored-update path (c ∷ cs) hash l {e = e} f)
      ∙ agrees-if (str_eq path (c ∷ cs)) hash (stored (c ∷ cs) l) file,
  inl refl,
)
add_checksum-verify none (some e) path c cs hash file l s f g = (
  ap (λ k. agrees k file) (stored-fill path c cs hash l {e = e} s f g)
      ∙ agrees-if (str_eq path (c ∷ cs)) hash (stored (c ∷ cs) l) file,
  inl refl,
)
add_checksum-verify none none path c cs hash file l s f g = (refl, inr (refl, refl))

ready_db-eq :
    (loaded : CString → List ChecksumEntry → List ChecksumEntry) (db : ChecksumDb)
    → db.initialized ≡ true
    → ready_db loaded db ≡ db
unfolding ready_db
ready_db-eq loaded db i = ground (arith, i)

-- Adding the hash of a path (of 1 to 259 characters) to an initialised database. If it succeeds, the
-- verification of this path compares the file with the added hash, and the verification of another path
-- that is not empty answers what it would have answered before. It fails only if all slots are taken by
-- other paths, and then changes no verification.
pub checksum_db_verify-add :
    (loaded : CString → List ChecksumEntry → List ChecksumEntry) (path : CString) (c : ℕ)
    (cs : CString) (hash : Hash) (file : Option Hash) (db : ChecksumDb)
    → db.initialized ≡ true
    → length path ≤ max_path
    → let r = checksum_db_add loaded (some path) (some hash) db in
      ((checksum_db_verify loaded (some (c ∷ cs)) file r.1).0 ≡ (
        if is_success r.0 && str_eq path (c ∷ cs)
        then agrees (some hash) file
        else (checksum_db_verify loaded (some (c ∷ cs)) file db).0))
      × ((r.0 ≡ success)
          ⊎ ((find_first (has_path path) db.entries ≡ none)
              × (find_first is_free db.entries ≡ none)))
unfolding checksum_db_add checksum_db_verify
checksum_db_verify-add loaded path c cs hash file db i s =
    let a =
      add_checksum-verify (find_first (has_path path) db.entries) (find_first is_free db.entries)
        path c cs hash file db.entries s refl refl in
    let after =
      (add_checksum (find_first (has_path path) db.entries) (find_first is_free db.entries) path
        hash db.entries).1 in
    rw
      (
        ready_db-eq loaded db i,
        ready_db-eq loaded (record db { entries = after }) i,
        verify_checksum-stored (c ∷ cs) file after,
        verify_checksum-stored (c ∷ cs) file db.entries,
      )
      a
