-- ===== src/Hash/Crc.antt =====
-- The table-driven CRC-32 of src/shared/hash.c against the bit-by-bit one, and its chaining.
use ps.Base.{
  ℕ, zero, suc, ◌+◌, ◌*◌, ◌/◌, ◌%◌, ◌^◌, ◌<◌, bit_xor, ◌≡◌, refl, sym, ap, ◌∙◌, List, [], ◌∷◌, ◌++◌,
  arith, get_or,
}
use ps.Bits.{
  xor-half, xor-parity, xor_comm, xor_self, xor_assoc, xor-lt, xor_fields, shr-xor, bit_xor-zero,
  shifted_further,
}
use ps.Hash.{crc_round, crc_rounds, crc_entries, crc_table, not32, crc_update, crc_loop, hash_crc32}

-- What the table stands for: eight rounds for each byte.
abbrev pub crc_bits : ℕ → List ℕ → ℕ
crc_bits c [] = c
crc_bits c (x ∷ d) = crc_bits (crc_rounds 8 (bit_xor c x)) d

abbrev pub AllBytes : List ℕ → Type 0
AllBytes [] = Unit
AllBytes (x ∷ d) = (x < 2 ^ 8) × AllBytes d

crc_entries-get_or : (n i j : ℕ) → j < n → get_or (crc_entries n i) j 0 ≡ crc_rounds 8 (i + j)
unfolding crc_entries
crc_entries-get_or zero i j h = elim h [ ]
crc_entries-get_or (suc n) i zero h = ap (crc_rounds 8) (omega arith)
crc_entries-get_or (suc n) i (suc j) h =
    crc_entries-get_or n (i + 1) j (omega arith) ∙ ap (crc_rounds 8) (omega arith)

-- A round is linear for exclusive or.
xor_swap : (a b p : ℕ) → bit_xor (bit_xor a b) p ≡ bit_xor (bit_xor a p) b
xor_swap a b p = xor_assoc a b p ∙ ap (bit_xor a) (xor_comm b p) ∙ sym (xor_assoc a p b)

xor_cancel : (a b p : ℕ) → bit_xor (bit_xor a p) (bit_xor b p) ≡ bit_xor a b
xor_cancel a b p =
    xor_assoc a p (bit_xor b p)
    ∙ ap (bit_xor a)
        (xor_comm p (bit_xor b p) ∙ xor_assoc b p p ∙ ap (bit_xor b) (xor_self p) ∙ bit_xor-zero b)

crc_round-xor : (a b : ℕ) → crc_round (bit_xor a b) ≡ bit_xor (crc_round a) (crc_round b)
unfolding crc_round
crc_round-xor a b = ground (
  arith,
  xor-parity a b,
  xor-half a b,
  xor_swap (a / 2) (b / 2) 0xEDB88320,
  xor_cancel (a / 2) (b / 2) 0xEDB88320,
  xor_assoc (a / 2) (b / 2) 0xEDB88320,
)

crc_rounds-xor :
    (n a b : ℕ) → crc_rounds n (bit_xor a b) ≡ bit_xor (crc_rounds n a) (crc_rounds n b)
unfolding crc_rounds
crc_rounds-xor zero a b = refl
crc_rounds-xor (suc n) a b =
    ap (crc_rounds n) (crc_round-xor a b) ∙ crc_rounds-xor n (crc_round a) (crc_round b)

-- Bits above the rounds are only shifted.
crc_rounds-shifted : (n q : ℕ) → crc_rounds n (q * 2 ^ n) ≡ q
unfolding crc_rounds
crc_rounds-shifted zero q = omega arith
crc_rounds-shifted (suc n) q = ap (crc_rounds n) even ∙ crc_rounds-shifted n q
  where
    even : crc_round (q * 2 ^ suc n) ≡ q * 2 ^ n
    even = unfold crc_round in ground (arith, shifted_further n q)

-- Eight rounds shift the high bits down and take the low byte through the table.
crc_rounds-split : (c : ℕ) → crc_rounds 8 c ≡ bit_xor (crc_rounds 8 (c % 2 ^ 8)) (c / 2 ^ 8)
crc_rounds-split c =
    ap (crc_rounds 8) split
    ∙ crc_rounds-xor 8 (c % 2 ^ 8) (c / 2 ^ 8 * 2 ^ 8)
    ∙ ap (bit_xor (crc_rounds 8 (c % 2 ^ 8))) (crc_rounds-shifted 8 (c / 2 ^ 8))
  where
    split : c ≡ bit_xor (c % 2 ^ 8) (c / 2 ^ 8 * 2 ^ 8)
    split = omega (arith, xor_fields 8 (c / 2 ^ 8) (c % 2 ^ 8) (omega arith))

crc_table-get_or : (i : ℕ) → i < 2 ^ 8 → get_or crc_table i 0 ≡ crc_rounds 8 i
unfolding crc_table
crc_table-get_or i h = crc_entries-get_or 256 0 i h ∙ ap (crc_rounds 8) (omega arith)

crc_update_lem : (c x : ℕ) → x < 2 ^ 8 → crc_update c x ≡ crc_rounds 8 (bit_xor c x)
unfolding crc_update
crc_update_lem c x h = rw (
  crc_table-get_or (bit_xor c x % 2 ^ 8) (omega arith),
  crc_rounds-split (bit_xor c x),
  shr-xor 8 c x h,
)

crc_loop-eq-crc_bits : (c : ℕ) (d : List ℕ) → AllBytes d → crc_loop c d ≡ crc_bits c d
unfolding crc_loop
crc_loop-eq-crc_bits c [] h = refl
crc_loop-eq-crc_bits c (x ∷ d) h =
    ap (λ t. crc_loop t d) (crc_update_lem c x h.0)
    ∙ crc_loop-eq-crc_bits (crc_rounds 8 (bit_xor c x)) d h.1

-- On bytes, ps14_hash_crc32 computes the CRC-32 of the polynomial 0xEDB88320 that complements the
-- start value, takes each byte through eight single-bit rounds and complements the result.
pub hash_crc32-eq-bits :
    (d : List ℕ) (ic : ℕ) → AllBytes d → hash_crc32 d ic ≡ not32 (crc_bits (not32 ic) d)
unfolding hash_crc32
hash_crc32-eq-bits d ic h = ap not32 (crc_loop-eq-crc_bits (not32 ic) d h)

crc_loop-append : (c : ℕ) (d e : List ℕ) → crc_loop c (d ++ e) ≡ crc_loop (crc_loop c d) e
unfolding crc_loop
crc_loop-append c [] e = refl
crc_loop-append c (x ∷ d) e = crc_loop-append (crc_update c x) d e

crc_round-lt : (c : ℕ) → c < 2 ^ 32 → crc_round c < 2 ^ 32
unfolding crc_round
crc_round-lt c h = ground (arith, xor-lt 32 (c / 2) 0xEDB88320)

crc_rounds-lt : (n c : ℕ) → c < 2 ^ 32 → crc_rounds n c < 2 ^ 32
unfolding crc_rounds
crc_rounds-lt zero c h = h
crc_rounds-lt (suc n) c h = crc_rounds-lt n (crc_round c) (crc_round-lt c h)

crc_update-lt : (c x : ℕ) → c < 2 ^ 32 → crc_update c x < 2 ^ 32
unfolding crc_update
crc_update-lt c x h =
    xor-lt 32 _ _
      (rw (crc_table-get_or (bit_xor c x % 2 ^ 8) (omega arith))
        (crc_rounds-lt 8 (bit_xor c x % 2 ^ 8) (omega arith)))
      (omega arith)

crc_loop-lt : (c : ℕ) (d : List ℕ) → c < 2 ^ 32 → crc_loop c d < 2 ^ 32
unfolding crc_loop
crc_loop-lt c [] h = h
crc_loop-lt c (x ∷ d) h = crc_loop-lt (crc_update c x) d (crc_update-lt c x h)

-- The start value chains calls: the CRC of two pieces is the CRC of the second piece started from
-- the CRC of the first, and every result is a 32-bit word.
pub hash_crc32-append :
    (d e : List ℕ) (ic : ℕ)
    → ic < 2 ^ 32
    → (hash_crc32 (d ++ e) ic ≡ hash_crc32 e (hash_crc32 d ic)) × (hash_crc32 d ic < 2 ^ 32)
unfolding hash_crc32
hash_crc32-append d e ic h =
    (ap not32 (crc_loop-append (not32 ic) d e ∙ ap (λ t. crc_loop t e) twice), omega arith)
  where
    twice : crc_loop (not32 ic) d ≡ not32 (not32 (crc_loop (not32 ic) d))
    twice = omega (arith, crc_loop-lt (not32 ic) d (omega arith))
