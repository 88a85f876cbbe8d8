-- ===== src/Files/Restorer/Copying.antt =====
-- The copy loop of src/core/repair_system/file_restorer.c, and what it does to a file system.
use mathlib.Core.List.{append_assoc, append-nil}
use ps.Base.{
  ℕ, zero, suc, ◌-◌, ◌<◌, ◌≡◌, refl, sym, ap, ◌∙◌, inl, inr, true, false, some, List, [], ◌∷◌, ◌++◌,
  arith, ltb, ltb→lt, Bool-cases, length, take, drop, length-take, CString, str_eq, str_eq_refl,
  str_eq_iff,
}
use ps.Files.{FileSystem, read_file, write_file}
use ps.Files.Restorer.{Grants, copy_loop, copy_open, copy_file}

take-drop : {A : Type 0} (n : ℕ) (xs : List A) → take n xs ++ drop n xs ≡ xs
take-drop zero xs = refl
take-drop (suc n) [] = refl
take-drop (suc n) (x ∷ xs) = ap (◌∷◌ x) (take-drop n xs)

length-drop : {A : Type 0} (n : ℕ) (xs : List A) → length (drop n xs) ≡ length xs - n
length-drop zero xs = omega arith
length-drop (suc n) [] = omega arith
length-drop (suc n) (x ∷ xs) = omega (arith, length-drop n xs)

not_pos : (n : ℕ) → ltb 0 n ≡ false → n ≡ 0
not_pos n h = ground arith

append_empty : (out rest : List ℕ) → length rest ≡ 0 → out ≡ out ++ rest
append_empty out [] h = sym (append-nil out)
append_empty out (x ∷ rest) h = absurd (omega arith)

-- With a round for each byte and one to end, the loop copies everything.
pub copy_loop-eq :
    (fuel : ℕ) (rest out : List ℕ)
    → length rest < fuel
    → copy_loop fuel rest out ≡ some (out ++ rest)
unfolding copy_loop
copy_loop-eq zero rest out h = absurd (omega arith)
copy_loop-eq (suc fuel) rest out h = elim (Bool-cases (ltb 0 (length (take 4096 rest)))) [
  | inl e ↦ rw e (
      copy_loop-eq fuel (drop 4096 rest) (out ++ take 4096 rest) (
        omega (
          arith,
          ltb→lt 0 (length (take 4096 rest)) e,
          length-take 4096 rest,
          length-drop 4096 rest,
        ))
      ∙ ap some (
          append_assoc out (take 4096 rest) (drop 4096 rest)
          ∙ ap (λ x. out ++ x) (take-drop 4096 rest)))
  | inr e ↦ rw e (
      ap some (
        append_empty out rest
          (omega (arith, not_pos (length (take 4096 rest)) e, length-take 4096 rest))))
]

module _ (p q : CString) (bytes : List ℕ) where
  pub read-write_self : (files : FileSystem) → read_file p (write_file p bytes files) ≡ some bytes
  unfolding read_file write_file
  read-write_self [] = rw (str_eq_refl p)
  read-write_self ((x, old) ∷ files) = ground (arith, str_eq_refl p, read-write_self files)

  pub read-write_other :
      (files : FileSystem)
      → str_eq p q ≡ false
      → read_file q (write_file p bytes files) ≡ read_file q files
  unfolding read_file write_file
  read-write_other [] h = rw h
  read-write_other ((x, old) ∷ files) h =
      ground (arith, str_eq_iff x p, str_eq_iff x q, str_eq_iff p q, read-write_other files)

  -- A later write to the same path takes the place of the first.
  pub write-write_self :
      (old : List ℕ) (files : FileSystem)
      → write_file p bytes (write_file p old files) ≡ write_file p bytes files
  unfolding write_file
  write-write_self old [] = rw (str_eq_refl p)
  write-write_self old ((x, y) ∷ files) = ground (arith, str_eq_refl p, write-write_self old files)

module _ (g : Grants) (src dst : CString) (bytes : List ℕ) where
  copy_open-eq :
      (files : FileSystem)
      → read_file src files ≡ some bytes
      → copy_open src dst files ≡ some (write_file dst bytes files)
  unfolding copy_open
  copy_open-eq files e = rw (e, copy_loop-eq (suc (length bytes)) bytes [] (omega arith), copy_open)

  -- A copy to another file that may be made gives it the bytes.
  pub copy_file-eq :
      (files : FileSystem)
      → read_file src files ≡ some bytes
      → str_eq dst src ≡ false
      → g.may_read src ≡ true
      → g.may_create dst ≡ true
      → copy_file g src dst files ≡ some (write_file dst bytes files)
  unfolding copy_file
  copy_file-eq files e other r c =
      let emptied = write_file dst [] files in
      let source : read_file src emptied ≡ some bytes =
        read-write_other dst src [] files other ∙ e in
      let copied : copy_open src dst emptied ≡ some (write_file dst bytes files) =
        copy_open-eq emptied source ∙ ap some (write-write_self dst src bytes [] files) in
      rw (e, r, c, copied, copy_file)
