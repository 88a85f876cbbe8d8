-- ===== src/Advanced/Tamper/Sleds.antt =====
-- What the byte loops of src/core/advanced/tamper_detector.c find.
use ps.Base.{
  inr, inl, ◌≢◌, leb, Bool-cases, replicate, ◌↔◌, ◌+◌, ℕ, zero, suc, ◌≤◌, ◌≡◌, refl, Bool, true,
  false, ◌&&◌, ◌||◌, List, [], ◌∷◌, arith, ◌==◌,
}
use ps.Advanced.Tamper.{tamper_check_range, tamper_check_nop_sled, differs, nop_loop}
use ps.Memory.{Mem, read_bytes}

-- Whether the first k bytes are NOPs.

unfoldable pub starts : ℕ → List ℕ → Bool
starts zero bytes = true
starts (suc k) [] = false
starts (suc k) (b ∷ bytes) = (b == 0x90) && starts k bytes

-- Whether five NOPs follow one another.
has_run : List ℕ → Bool
has_run [] = false
has_run (b ∷ bytes) = starts 5 (b ∷ bytes) || has_run bytes

starts_more : (k j : ℕ) (bytes : List ℕ) → k ≤ j → starts j bytes ≡ true → starts k bytes ≡ true
unfolding starts
starts_more zero j bytes h s = refl
starts_more (suc k) zero bytes h s = absurd (omega arith)
starts_more (suc k) (suc j) [] h s = cc
starts_more (suc k) (suc j) (b ∷ bytes) h s = ground (arith, starts_more k j bytes)

starts-has_run : (bytes : List ℕ) → starts 5 bytes ≡ true → has_run bytes ≡ true
unfolding starts has_run
starts-has_run [] h = cc
starts-has_run (b ∷ bytes) h = ground arith

module _ (b : ℕ) (bytes : List ℕ) where
  module _ (other : (b == 0x90) ≡ false) where
    nop_loop_other : (k : ℕ) → nop_loop k (b ∷ bytes) ≡ nop_loop 0 bytes
    unfolding nop_loop
    nop_loop_other k = rw other

    starts_other : (k : ℕ) → starts (suc k) (b ∷ bytes) ≡ false
    unfolding starts
    starts_other k = rw other

    has_run_other : has_run (b ∷ bytes) ≡ has_run bytes
    unfolding has_run
    has_run_other = rw (starts_other 4)

  module _ (nop : (b == 0x90) ≡ true) where
    nop_loop_nop : (k : ℕ) → nop_loop k (b ∷ bytes) ≡ (leb 5 (suc k) || nop_loop (suc k) bytes)
    unfolding nop_loop
    nop_loop_nop k = ground arith

    starts_nop : (k : ℕ) → starts (suc k) (b ∷ bytes) ≡ starts k bytes
    unfolding starts
    starts_nop k = rw nop

    has_run_nop : has_run (b ∷ bytes) ≡ (starts 4 bytes || has_run bytes)
    unfolding has_run
    has_run_nop = rw (starts_nop 4)

-- The loop after a byte, from what it finds behind it: the rest of a run, or a run further on.
nop_loop_step :
    (b : ℕ) (bytes : List ℕ) (k m : ℕ)
    → k + suc m ≡ 5
    → nop_loop 0 bytes ≡ has_run bytes
    → (leb 5 (suc k) || nop_loop (suc k) bytes)
      ≡ (starts m bytes || (starts 4 bytes || has_run bytes))
    → nop_loop k (b ∷ bytes) ≡ (starts (suc m) (b ∷ bytes) || has_run (b ∷ bytes))
nop_loop_step b bytes k m h other nop = elim (Bool-cases (b == 0x90)) [
  | inl e ↦ rw (nop_loop_nop b bytes e k, starts_nop b bytes e m, has_run_nop b bytes e) nop
  | inr e ↦ rw (nop_loop_other b bytes e k, starts_other b bytes e m, has_run_other b bytes e) other
]

starts_zero : (bytes : List ℕ) → starts 0 bytes ≡ true
unfolding starts
starts_zero bytes = refl

nop_loop-eq :
    (bytes : List ℕ) (k m : ℕ)
    → k + suc m ≡ 5
    → nop_loop k bytes ≡ (starts (suc m) bytes || has_run bytes)
nop_loop-eq [] k m h = unfold nop_loop starts has_run in refl
nop_loop-eq (b ∷ bytes) k zero h =
    nop_loop_step b bytes k zero h (ground (arith, nop_loop-eq bytes 0 4, starts-has_run bytes))
      (ground (arith, starts_zero bytes))
nop_loop-eq (b ∷ bytes) k (suc m) h =
    nop_loop_step b bytes k (suc m) h (ground (arith, nop_loop-eq bytes 0 4, starts-has_run bytes))
      (ground (arith, nop_loop-eq bytes (suc k) m, starts_more (suc m) 4 bytes))

nop_loop-eq-has_run : (bytes : List ℕ) → nop_loop 0 bytes ≡ has_run bytes
nop_loop-eq-has_run bytes = ground (arith, nop_loop-eq bytes 0 4, starts-has_run bytes)

starts_iff :
    (mem : Mem) (k a n : ℕ)
    → (starts k (read_bytes mem a n) ≡ true) ↔ ((k ≤ n) × (read_bytes mem a k ≡ replicate k 0x90))
unfolding starts read_bytes
starts_iff mem zero a n = (λ h. (omega arith, refl), λ h. refl)
starts_iff mem (suc k) a zero = (λ h. cc, λ h. absurd (omega (arith, h.0)))
starts_iff mem (suc k) a (suc n) =
    let ih = starts_iff mem k (a + 1) n in
    (λ h. (ground (arith, ih.0), ground (arith, ih.0)), λ h. ground (arith, ih.1, h.0, h.1))

-- A run of five NOPs from the address a + i on, inside of n bytes.
abbrev pub HasSled : Mem → ℕ → ℕ → Type 0
HasSled mem a n = (i : ℕ) × (i + 5 ≤ n) × (read_bytes mem (a + i) 5 ≡ replicate 5 0x90)

has_run_cons :
    (mem : Mem) (a n : ℕ)
    → has_run (read_bytes mem a (suc n))
      ≡ (starts 5 (read_bytes mem a (suc n)) || has_run (read_bytes mem (a + 1) n))
unfolding has_run read_bytes
has_run_cons mem a n = refl

HasSled-of : (mem : Mem) (n a : ℕ) → has_run (read_bytes mem a n) ≡ true → HasSled mem a n
HasSled-of mem zero a h = unfold has_run read_bytes in cc
HasSled-of mem (suc n) a h = elim (Bool-cases (starts 5 (read_bytes mem a (suc n)))) [
  | inl e ↦
      let at_start = (starts_iff mem 5 a (suc n)).0 e in
      (0, at_start.0, rw (let p : a + 0 ≡ a = omega arith in p) at_start.1)
  | inr e ↦
      let later = HasSled-of mem n (a + 1) (ground (arith, has_run_cons mem a n)) in
      (
        suc later.0,
        omega (arith, later.1),
        rw (let p : a + suc later.0 ≡ a + 1 + later.0 = omega arith in p) later.2,
      )
]

has_run-of :
    (mem : Mem) (n a i : ℕ)
    → i + 5 ≤ n
    → read_bytes mem (a + i) 5 ≡ replicate 5 0x90
    → has_run (read_bytes mem a n) ≡ true
has_run-of mem zero a i h e = absurd (omega arith)
has_run-of mem (suc n) a zero h e =
    let e' : read_bytes mem a 5 ≡ replicate 5 0x90 = rw (let p : a ≡ a + 0 = omega arith in p) e in
    ground (arith, has_run_cons mem a n, (starts_iff mem 5 a (suc n)).1 (h, e'))
has_run-of mem (suc n) a (suc i) h e =
    let later =
      has_run-of mem n (a + 1) i (omega arith)
        (rw (let p : a + 1 + i ≡ a + suc i = omega arith in p) e) in
    ground (arith, has_run_cons mem a n, later)

-- The check for NOP sleds answers yes exactly if five NOPs stand one behind the other among the bytes of
-- the range, for a range that is not at NULL.
pub tamper_check_nop_sled-iff-HasSled :
    (mem : Mem) (a n : ℕ) → a ≢ 0 → (tamper_check_nop_sled mem a n ≡ true) ↔ HasSled mem a n
unfolding tamper_check_nop_sled
tamper_check_nop_sled-iff-HasSled mem a n h = (
  λ found. HasSled-of mem n a (ground (arith, nop_loop-eq-has_run (read_bytes mem a n))),
  λ sled. ground (
    arith,
    sled.1,
    nop_loop-eq-has_run (read_bytes mem a n),
    has_run-of mem n a sled.0 sled.1 sled.2,
  ),
)

differs_iff :
    (mem : Mem) (a b n : ℕ)
    → (differs mem a b n ≡ false) ↔ (read_bytes mem a n ≡ read_bytes mem b n)
unfolding differs read_bytes
differs_iff mem a b zero = (λ h. refl, λ h. refl)
differs_iff mem a b (suc n) =
    let ih = differs_iff mem (a + 1) (b + 1) n in
    (λ h. ground (arith, ih.0), λ h. ground (arith, ih.1))

-- The check of a range against a copy answers no exactly if the bytes are equal, for two buffers not at
-- NULL and a size that is not 0.
pub tamper_check_range_iff :
    (mem : Mem) (a size expected : ℕ)
    → a ≢ 0
    → expected ≢ 0
    → size ≢ 0
    → (tamper_check_range mem a size expected ≡ false)
      ↔ (read_bytes mem a size ≡ read_bytes mem expected size)
unfolding tamper_check_range
tamper_check_range_iff mem a size expected h k l =
    let d = differs_iff mem a expected size in (λ e. d.0 (ground arith), λ e. ground (arith, d.1 e))
