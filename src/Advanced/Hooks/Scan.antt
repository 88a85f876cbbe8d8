-- ===== src/Advanced/Hooks/Scan.antt =====
-- The scan loop of src/core/advanced/hook_detector.c: it ends, and what it counts.
use ps.Base.{
  leb, ℕ, zero, suc, ◌+◌, ◌-◌, ◌^◌, ◌≤◌, ◌<◌, ◌≡◌, refl, sym, ap, ◌∙◌, ◌≢◌, inl, inr, Bool, true,
  false, not, ◌&&◌, ◌||◌, some, arith, ltb, ◌==◌, if◌then◌else◌, Bool-cases, add32,
}
use ps.Memory.{read_bytes, Mem}
use mathlib.Core.Path.{ap₂}
use ps.Advanced.Tamper.Sleds.{starts}
use ps.Advanced.Hooks.{
  is_hook_opcode, nop_run, scan_next, scan_hit, hook_scan_loop, hook_scan_region,
}

nop_run_nop :
    (mem : Mem) (p n : ℕ)
    → (mem p == 0x90) ≡ true
    → nop_run mem p (suc n) ≡ suc (nop_run mem (p + 1) n)
unfolding nop_run
nop_run_nop mem p n e = rw e

nop_run_other : (mem : Mem) (p n : ℕ) → (mem p == 0x90) ≡ false → nop_run mem p n ≡ 0
unfolding nop_run
nop_run_other mem p zero e = refl
nop_run_other mem p (suc n) e = rw e

leb-nop_run : (mem : Mem) (k p n : ℕ) → leb k (nop_run mem p n) ≡ starts k (read_bytes mem p n)
unfolding nop_run starts read_bytes
leb-nop_run mem zero p n = ground arith
leb-nop_run mem (suc k) p zero = ground arith
leb-nop_run mem (suc k) p (suc n) = ground (arith, leb-nop_run mem k (p + 1) n)

hook_not_nop : (b : ℕ) → is_hook_opcode b ≡ true → (b == 0x90) ≡ false
unfolding is_hook_opcode
hook_not_nop b h = ground arith

module _ (mem : Mem) (a size i : ℕ) where
  scan_next_plain : (mem (a + i) == 0x90) ≡ false → scan_next mem a size i ≡ i + 1
  unfolding scan_next
  scan_next_plain e = ground arith

  scan_next_nop :
      (mem (a + i) == 0x90) ≡ true → scan_next mem a size i ≡ i + nop_run mem (a + i) (size - i) + 1
  unfolding scan_next
  scan_next_nop e = ground (arith, hook_not_nop (mem (a + i)))

  scan_next_run :
      (m : ℕ)
      → size - i ≡ suc m
      → (mem (a + i) == 0x90) ≡ true
      → scan_next mem a size i ≡ i + 1 + nop_run mem (a + (i + 1)) m + 1
  scan_next_run m e nop =
      scan_next_nop nop
      ∙ (ap (λ (t : ℕ). i + nop_run mem (a + i) t + 1) e
          ∙ (ap (λ (t : ℕ). i + t + 1) (nop_run_nop mem (a + i) m nop)
              ∙ (ap (λ (t : ℕ). i + suc (nop_run mem t m) + 1)
                    (let p : a + i + 1 ≡ a + (i + 1) = omega arith in p)
                  ∙ omega arith)))

  scan_next-gt : i < scan_next mem a size i
  scan_next-gt = elim (Bool-cases (mem (a + i) == 0x90)) [
    | inl e ↦ omega (arith, scan_next_nop e)
    | inr e ↦ omega (arith, scan_next_plain e)
  ]

module _ (mem : Mem) (a size : ℕ) where
  -- Whether a hook's opcode stands, or a run of five or more NOPs begins, at place i.
  unfoldable pub begins : ℕ → Bool
  begins i = is_hook_opcode (mem (a + i)) || starts 5 (read_bytes mem (a + i) (size - i))

  scan_hit-eq-begins : (i : ℕ) → scan_hit mem a size i ≡ begins i
  unfolding scan_hit begins
  scan_hit-eq-begins i =
      ground (arith, leb-nop_run mem 5 (a + i) (size - i), nop_run_other mem (a + i) (size - i))

  -- The number of places among the next `left`, from i on, at which a hook's opcode stands or a run of
  -- five or more NOPs begins, and which have no NOP before them; `after` is whether place i has one.
  unfoldable pub sightings : ℕ → ℕ → Bool → ℕ
  sightings zero i after = 0
  sightings (suc left) i after =
      (if not after && begins i then 1 else 0) + sightings left (i + 1) (mem (a + i) == 0x90)

  sightings_zero : (i : ℕ) (after : Bool) → sightings 0 i after ≡ 0
  unfolding sightings
  sightings_zero i after = refl

  sightings_after :
      (left j : ℕ) → sightings (suc left) j true ≡ sightings left (j + 1) (mem (a + j) == 0x90)
  unfolding sightings
  sightings_after left j = omega arith

  sightings_fresh :
      (left j : ℕ)
      → sightings (suc left) j false
        ≡ (if scan_hit mem a size j then 1 else 0) + sightings left (j + 1) (mem (a + j) == 0x90)
  unfolding sightings
  sightings_fresh left j = rw (scan_hit-eq-begins j) refl

  -- Inside a run of NOPs nothing is seen, and neither is the place behind it.
  skip_run :
      (left j n : ℕ)
      → left < n
      → sightings left j true
        ≡ sightings (left - nop_run mem (a + j) n - 1) (j + nop_run mem (a + j) n + 1) false
  skip_run zero j n l =
      rw (let p : 0 - nop_run mem (a + j) n - 1 ≡ 0 = omega arith in p)
        (sightings_zero j true ∙ sym (sightings_zero (j + nop_run mem (a + j) n + 1) false))
  skip_run (suc left) j zero l = absurd (omega arith)
  skip_run (suc left) j (suc n) l = elim (Bool-cases (mem (a + j) == 0x90)) [
    | inl nop ↦
        rw (sightings_after left j, nop, nop_run_nop mem (a + j) n nop)
          (skip_run left (j + 1) n (omega arith)
            ∙ (rw (let p : a + (j + 1) ≡ a + j + 1 = omega arith in p)
                (ap₂ (λ x y. sightings x y false) (omega arith) (omega arith))))
    | inr other ↦
        rw (sightings_after left j, other, nop_run_other mem (a + j) (suc n) other)
          (ap₂ (λ x y. sightings x y false) (omega arith) (omega arith))
  ]

  -- A round goes on at a place from which as much is seen as is left to see.
  scan_next-sightings :
      (left i : ℕ)
      → suc left + i + 5 ≡ size
      → sightings (suc left) i false
        ≡ (if scan_hit mem a size i then 1 else 0)
          + sightings (size - 5 - scan_next mem a size i) (scan_next mem a size i) false
  scan_next-sightings left i e = elim (Bool-cases (mem (a + i) == 0x90)) [
    | inl nop ↦
        let m : ℕ = size - i - 1 in
        rw
          (
            sightings_fresh left i,
            nop,
            scan_next_run mem a size i m (omega arith) nop,
            skip_run left (i + 1) m (omega arith),
          )
          (ap
            (λ (x : ℕ).
              (if scan_hit mem a size i then 1 else 0)
              + sightings x (i + 1 + nop_run mem (a + (i + 1)) m + 1) false)
            (omega arith))
    | inr other ↦
        rw (sightings_fresh left i, other, scan_next_plain mem a size i other)
          (ap (λ (x : ℕ). (if scan_hit mem a size i then 1 else 0) + sightings x (i + 1) false)
            (omega arith))
  ]

  hit_sum :
      (left i found : ℕ)
      → suc left + i + 5 ≡ size
      → found + suc left < 2 ^ 32
      → (if scan_hit mem a size i then add32 found 1 else found)
          + sightings (size - 5 - scan_next mem a size i) (scan_next mem a size i) false
        ≡ found + sightings (suc left) i false
  hit_sum left i found e w = ground (arith, scan_next-sightings left i e)

  hook_scan_loop-eq :
      (fuel left i found : ℕ)
      → left ≡ size - 5 - i
      → left < fuel
      → found + left < 2 ^ 32
      → hook_scan_loop fuel mem a size i found ≡ some (found + sightings left i false)
  unfolding hook_scan_loop
  hook_scan_loop-eq zero left i found e l w = absurd (omega arith)
  hook_scan_loop-eq (suc fuel) zero i found e l w =
      rw (let p : ltb i (size - 5) ≡ false = ground arith in p, sightings_zero i false)
        (ap some (omega arith))
  hook_scan_loop-eq (suc fuel) (suc left) i found e l w =
      let next : ℕ = scan_next mem a size i in
      rw (let p : ltb i (size - 5) ≡ true = ground arith in p) (
        hook_scan_loop-eq fuel (size - 5 - next) next
          (if scan_hit mem a size i then add32 found 1 else found) refl
          (omega (arith, scan_next-gt mem a size i)) (ground (arith, scan_next-gt mem a size i))
        ∙ ap some (hit_sum left i found (omega arith) w))

-- On a region of 5 to 2^32 - 1 bytes not at NULL the scan ends within its rounds. It counts the places
-- before the last five bytes at which a hook's opcode stands or a run of five or more NOPs begins, and
-- which have no NOP before them; so a hook right behind a NOP is not counted.
pub hook_scan_region-eq-sightings :
    (mem : Mem) (a size : ℕ)
    → a ≢ 0
    → 5 ≤ size
    → size < 2 ^ 32
    → hook_scan_region mem a size ≡ some (sightings mem a size (size - 5) 0 false)
unfolding hook_scan_region
hook_scan_region-eq-sightings mem a size h l w =
    rw (let p : (a == 0 || ltb size 5) ≡ false = ground arith in p) (
      hook_scan_loop-eq mem a size (size - 4) (size - 5) 0 0 (omega arith) (omega arith)
        (omega arith)
      ∙ ap some (omega arith))
