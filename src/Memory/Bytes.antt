-- ===== src/Memory/Bytes.antt =====
-- Reading and writing runs of bytes.
use mathlib.Core.Path.{ap₂}
use ps.Base.{
  ℕ, zero, suc, ◌+◌, ◌≤◌, ◌<◌, ◌≡◌, refl, ap, ◌∙◌, ◌⊎◌, true, List, [], ◌∷◌, arith, ltb, leb,
  length, get_or,
}
use ps.Memory.{Mem, read_bytes, write_bytes}

pub length-read_bytes : (mem : Mem) (a n : ℕ) → length (read_bytes mem a n) ≡ n
unfolding read_bytes
length-read_bytes mem a zero = refl
length-read_bytes mem a (suc n) = ap suc (length-read_bytes mem (a + 1) n)

read_bytes-of :
    (mem : Mem) (a : ℕ) (bytes : List ℕ)
    → ((i : ℕ) → i < length bytes → mem (a + i) ≡ get_or bytes i 0)
    → read_bytes mem a (length bytes) ≡ bytes
unfolding read_bytes
read_bytes-of mem a [] h = refl
read_bytes-of mem a (x ∷ bytes) h =
    ap₂ ◌∷◌ (ap mem (let p : a ≡ a + 0 = omega arith in p) ∙ h 0 (omega arith)) (
      read_bytes-of mem (a + 1) bytes (λ i lt.
        ap mem (let p : a + 1 + i ≡ a + suc i = omega arith in p) ∙ h (suc i) (omega arith)))

write_bytes-at :
    (mem : Mem) (a : ℕ) (bytes : List ℕ) (i : ℕ)
    → i < length bytes
    → write_bytes mem a bytes (a + i) ≡ get_or bytes i 0
unfolding write_bytes
write_bytes-at mem a bytes i lt =
    rw
      (
        let p : leb a (a + i) ≡ true = ground arith in p,
        let q : ltb (a + i) (a + length bytes) ≡ true = ground arith in q,
      )
      (ap (λ k. get_or bytes k 0) (omega arith))

-- What was written is read back.
pub read_bytes-write :
    (mem : Mem) (a n : ℕ) (bytes : List ℕ)
    → length bytes ≡ n
    → read_bytes (write_bytes mem a bytes) a n ≡ bytes
read_bytes-write mem a n bytes e =
    rw (← e) (read_bytes-of (write_bytes mem a bytes) a bytes (write_bytes-at mem a bytes))

-- Bytes outside the run are left alone.
pub write_bytes-outside :
    (mem : Mem) (a : ℕ) (bytes : List ℕ) (x : ℕ)
    → (x < a) ⊎ (a + length bytes ≤ x)
    → write_bytes mem a bytes x ≡ mem x
unfolding write_bytes
write_bytes-outside mem a bytes x h = ground arith
