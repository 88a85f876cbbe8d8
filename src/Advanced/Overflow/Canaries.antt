-- ===== src/Advanced/Overflow/Canaries.antt =====
-- The heap canaries of src/core/advanced/buffer_overflow.c.
use ps.Base.{
  ℕ, zero, suc, ◌+◌, ◌-◌, ◌/◌, ◌^◌, ◌≤◌, ◌<◌, bit_xor, ◌≡◌, refl, sym, ap, ◌∙◌, ◌≢◌, inl, Bool,
  true, false, not, List, arith, ◌==◌, if◌then◌else◌, length, add64,
}
use native.Mathlib.Nat.{pow-suc}
use ps.Bits.{xor_assoc, xor_self, bit_xor-zero, xor-lt}
use ps.Memory.{Mem, read_bytes, write_bytes}
use ps.Memory.Bytes.{read_bytes-write, write_bytes-outside}
use ps.Advanced.Overflow.{
  Overflow, to_bytes, of_bytes, read_word, write_word, canary, bof_heap_alloc, bof_heap_check,
  ensure_bof,
}

length-to_bytes : (n w : ℕ) → length (to_bytes n w) ≡ n
unfolding to_bytes
length-to_bytes zero w = refl
length-to_bytes (suc n) w = ap suc (length-to_bytes n (w / 256))

-- The bytes of a word give the word back.
of_bytes-to_bytes : (n w : ℕ) → w < 256 ^ n → of_bytes (to_bytes n w) ≡ w
unfolding to_bytes of_bytes
of_bytes-to_bytes zero w h = ground arith
of_bytes-to_bytes (suc n) w h = ground (arith, pow-suc 256 n, of_bytes-to_bytes n (w / 256))

read_word-write_word : (mem : Mem) (p w : ℕ) → w < 2 ^ 64 → read_word (write_word mem p w) p ≡ w
unfolding read_word write_word
read_word-write_word mem p w h =
    ap of_bytes (read_bytes-write mem p 8 (to_bytes 8 w) (length-to_bytes 8 w))
    ∙ of_bytes-to_bytes 8 w h

-- Bytes written behind a range do not show in it.
read_bytes-below :
    (mem : Mem) (p n q : ℕ) (bytes : List ℕ)
    → p + n ≤ q
    → read_bytes (write_bytes mem q bytes) p n ≡ read_bytes mem p n
unfolding read_bytes
read_bytes-below mem p zero q bytes h = refl
read_bytes-below mem p (suc n) q bytes h = rw (
  write_bytes-outside mem q bytes p (inl (omega arith)),
  read_bytes-below mem (p + 1) n q bytes (omega arith),
)

read_word-below :
    (mem : Mem) (p q : ℕ) (bytes : List ℕ)
    → p + 8 ≤ q
    → read_word (write_bytes mem q bytes) p ≡ read_word mem p
unfolding read_word
read_word-below mem p q bytes h = ap of_bytes (read_bytes-below mem p 8 q bytes h)

read_word-below_word :
    (mem : Mem) (p q w : ℕ) → p + 8 ≤ q → read_word (write_word mem q w) p ≡ read_word mem p
unfolding write_word
read_word-below_word mem p q w h = read_word-below mem p q (to_bytes 8 w) h

xor_cancel : (a b k : ℕ) → bit_xor a k ≡ bit_xor b k → a ≡ b
xor_cancel a b k e = undo a ∙ (ap (λ (x : ℕ). bit_xor x k) e ∙ sym (undo b))
  where
    undo : (x : ℕ) → x ≡ bit_xor (bit_xor x k) k
    undo x = sym (xor_assoc x k k ∙ (ap (bit_xor x) (xor_self k) ∙ bit_xor-zero x))

canary-lt : (t key : ℕ) → t < 2 ^ 64 → key < 2 ^ 64 → canary t key < 2 ^ 64
unfolding canary
canary-lt t key h k = xor-lt 64 t key h k

not_else : (b : Bool) → (if not b then false else true) ≡ b
not_else true = refl
not_else false = refl

canary-eq : (t u key : ℕ) → (canary t key == canary u key) ≡ (t == u)
unfolding canary
canary-eq t u key = ground (arith, xor_cancel t u key)

module _ (key1 key2 : ℕ) where
  -- The block that an allocation hands out, in a memory that has its size and both canaries.
  bof_heap_alloc-eq :
      (malloc : ℕ → ℕ) (t0 t1 t2 size : ℕ) (mem : Mem) (o : Overflow)
      → size ≢ 0
      → malloc (add64 size 16) ≢ 0
      → let memory = malloc (add64 size 16) in
        bof_heap_alloc key1 key2 malloc t0 t1 t2 size (mem, o) ≡ (
          memory + 8,
          write_word
              (write_word mem memory (canary t1 key1))
              (add64 (memory + 8) size)
              (canary t2 key2),
          ensure_bof t0 o,
        )
  unfolding bof_heap_alloc
  bof_heap_alloc-eq malloc t0 t1 t2 size mem o sz mz = rw (
    let p : (size == 0) ≡ false = ground arith in p,
    let q : (malloc (add64 size 16) == 0) ≡ false = ground arith in q,
  )

  bof_heap_check-eq :
      (mem : Mem) (tick p v : ℕ)
      → read_word mem p ≡ v
      → bof_heap_check key1 key2 mem tick (p + 8) ≡ (v == canary tick key1)
  unfolding bof_heap_check
  bof_heap_check-eq mem tick p v e =
      rw
        (
          let q : (p + 8 == 0) ≡ false = ground arith in q,
          let r : p + 8 - 8 ≡ p = omega arith in r,
          e,
        )
        (not_else (v == canary tick key1))

  -- The check of a new block depends on the clock alone: whatever bytes the program writes from the
  -- block's start on, inside of it or beyond its end, the check answers yes exactly if the tick count is
  -- the one of the allocation. (A block of one or more bytes that malloc gave and that ends before the
  -- end of the address space, and ticks and constants of 64 bits.)
  pub bof_heap_check-alloc :
      (malloc : ℕ → ℕ) (t0 t1 t2 tick size : ℕ) (bytes : List ℕ) (mem : Mem) (o : Overflow)
      → size ≢ 0
      → malloc (add64 size 16) ≢ 0
      → malloc (add64 size 16) + 8 + size < 2 ^ 64
      → t1 < 2 ^ 64
      → key1 < 2 ^ 64
      → let block = bof_heap_alloc key1 key2 malloc t0 t1 t2 size (mem, o) in
        bof_heap_check key1 key2 (write_bytes block.1 block.0 bytes) tick block.0 ≡ (t1 == tick)
  bof_heap_check-alloc malloc t0 t1 t2 tick size bytes mem o sz mz fits w k =
      let memory = malloc (add64 size 16) in
      let first = write_word mem memory (canary t1 key1) in
      let second = write_word first (add64 (memory + 8) size) (canary t2 key2) in
      let kept : read_word (write_bytes second (memory + 8) bytes) memory ≡ canary t1 key1 =
        read_word-below second memory (memory + 8) bytes (omega arith)
        ∙ (read_word-below_word first memory (add64 (memory + 8) size) (canary t2 key2)
              (omega arith)
            ∙ read_word-write_word mem memory (canary t1 key1) (canary-lt t1 key1 w k)) in
      rw (bof_heap_alloc-eq malloc t0 t1 t2 size mem o sz mz) (
        bof_heap_check-eq (write_bytes second (memory + 8) bytes) tick memory (canary t1 key1) kept
        ∙ canary-eq t1 tick key1)
