-- ===== src/Advanced/Overflow.antt =====
-- src/core/advanced/buffer_overflow.c: heap blocks with a canary on either side, and the list of named
-- buffers. Ticks are arguments. The source writes the two constants of the heap canaries as 0xCANARY1 and
-- 0xCANARY2, which C does not read as numbers: they are arguments too. Its protected buffers are only
-- ever freed: nothing adds one.
pub mod Canaries
pub mod Buffers
use ps.Base.{
  ℕ, zero, suc, ◌+◌, ◌-◌, ◌*◌, ◌/◌, ◌%◌, bit_xor, Bool, true, false, not, ◌||◌, Option, none, some,
  List, [], ◌∷◌, leb, ◌==◌, if◌then◌else◌, Status, success, out_of_memory, invalid_argument,
  already_initialized, CString, max_name, strncpy, str_eq, add64,
}
use ps.Chain.{find_first}
use ps.Memory.{Mem, read_bytes, write_bytes}

pub record BoundsCheck : Type 0 where
  pub name : CString
  pub buffer : ℕ
  pub size : ℕ

pub record Overflow : Type 0 where
  pub initialized : Bool
  pub stack_canary : ℕ
  pub bounds_checks : List BoundsCheck

unfoldable pub bof_init : ℕ → Overflow → Status × Overflow
bof_init tick o =
    if o.initialized
    then (already_initialized, o)
    else (success, record o { initialized = true; stack_canary = bit_xor tick 0xDEADBEEFCAFEBABE })

unfoldable pub bof_shutdown : Overflow → Overflow
bof_shutdown o = if not o.initialized then o else record o { initialized = false }

unfoldable pub get_stack_canary : Overflow → ℕ
get_stack_canary o = bit_xor o.stack_canary 0x123456789ABCDEF0

-- What is logged.
unfoldable pub bof_stack_protect : Overflow → ℕ
unfolding get_stack_canary
bof_stack_protect o = get_stack_canary o

unfoldable pub bof_stack_check : Bool
bof_stack_check = true

-- The guard that most functions of the file start with.
unfoldable pub ensure_bof : ℕ → Overflow → Overflow
unfolding bof_init
ensure_bof tick o = if not o.initialized then (bof_init tick o).1 else o

-- A word of n bytes, the least significant one first.
unfoldable pub to_bytes : ℕ → ℕ → List ℕ
to_bytes zero w = []
to_bytes (suc n) w = w % 256 ∷ to_bytes n (w / 256)

unfoldable pub of_bytes : List ℕ → ℕ
of_bytes [] = 0
of_bytes (b ∷ bytes) = b + 256 * of_bytes bytes

-- *(u64*)p, read and written.
unfoldable pub read_word : Mem → ℕ → ℕ
unfolding read_bytes of_bytes
read_word mem p = of_bytes (read_bytes mem p 8)

unfoldable pub write_word : Mem → ℕ → ℕ → Mem
unfolding write_bytes to_bytes
write_word mem p w = write_bytes mem p (to_bytes 8 w)

-- A canary from the tick count.
unfoldable pub canary : ℕ → ℕ → ℕ
canary tick key = bit_xor tick key

module _ (key1 key2 : ℕ) where
  -- `malloc` answers for each size asked for, 0 for NULL; t1 and t2 are the ticks of the two canaries.
  unfoldable pub bof_heap_alloc : (ℕ → ℕ) → ℕ → ℕ → ℕ → ℕ → Mem × Overflow → ℕ × Mem × Overflow
  unfolding write_word canary ensure_bof
  bof_heap_alloc malloc t0 t1 t2 size (mem, o) =
      let o' = ensure_bof t0 o in
      if size == 0
      then (0, mem, o')
      else (let memory = malloc (add64 size 16) in
          if memory == 0 then (0, mem, o') else (
            memory + 8,
            write_word (write_word mem memory (canary t1 key1)) (add64 (memory + 8) size)
                (canary t2 key2),
            o',
          ))

  -- Whether free is called: the size is read from the eight bytes before the first canary.
  unfoldable pub bof_heap_free : Mem → ℕ → ℕ → ℕ → Bool
  unfolding read_word canary
  bof_heap_free mem t1 t2 ptr =
      if ptr == 0
      then false
      else (let memory = ptr - 8 in
          let canary1 = read_word mem memory in
          let canary2 = read_word mem (add64 (memory + 8) (read_word mem (memory - 8))) in
          if not (canary1 == canary t1 key1) || not (canary2 == canary t2 key2)
          then false
          else true)

  unfoldable pub bof_heap_check : Mem → ℕ → ℕ → Bool
  unfolding read_word canary
  bof_heap_check mem tick ptr =
      if ptr == 0
      then false
      else (if not (read_word mem (ptr - 8) == canary tick key1) then false else true)

-- The old list of checks is forgotten, not freed.
unfoldable pub bof_bounds_init : ℕ → Overflow → Status × Overflow
unfolding ensure_bof
bof_bounds_init tick o = (success, record (ensure_bof tick o) { bounds_checks = [] })

unfoldable pub bof_bounds_shutdown : Overflow → Overflow
bof_bounds_shutdown o = record o { bounds_checks = [] }

unfoldable pub bof_check_bounds : ℕ → ℕ → ℕ → Bool
bof_check_bounds array index max_size =
    if array == 0 || max_size == 0 then false else (if leb max_size index then false else true)

-- `alloc` tells whether malloc gives memory for the check.
unfoldable pub bof_register_buffer :
    ℕ → Bool → Option CString → ℕ → ℕ → Overflow → Status × Overflow
unfolding ensure_bof
bof_register_buffer tick alloc none buffer size o = (invalid_argument, o)
bof_register_buffer tick alloc (some name) buffer size o =
    if buffer == 0 || size == 0
    then (invalid_argument, o)
    else (let o' = ensure_bof tick o in
        if not alloc
        then (out_of_memory, o')
        else (let check : BoundsCheck = record {
          name = strncpy max_name name;
          buffer = buffer;
          size = size;
        } in
            (success, record o' { bounds_checks = check ∷ o'.bounds_checks })))

unfoldable pub bof_check_buffer : Option CString → Overflow → Bool
unfolding find_first
bof_check_buffer none o = false
bof_check_buffer (some name) o =
    elim (find_first (λ (c : BoundsCheck). str_eq c.name name) o.bounds_checks) [
      | none ↦ false
      | some c ↦ true
    ]
