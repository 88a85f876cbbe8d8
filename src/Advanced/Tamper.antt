-- ===== src/Advanced/Tamper.antt =====
-- src/core/advanced/tamper_detector.c over a memory with a byte for each address. The NULL address is 0;
-- what is logged is left out.
pub mod Sleds
use ps.Base.{
  ℕ, zero, suc, ◌+◌, ◌-◌, Bool, true, false, not, ◌&&◌, ◌||◌, some, List, [], ◌∷◌, ltb, leb, ◌==◌,
  if◌then◌else◌, Status, success, already_initialized, is_success,
}
use ps.Hash.{Algorithm, Hash, hash_compute}
use ps.Memory.{Mem, read_bytes}

-- On g_tamper_initialized.
unfoldable pub tamper_init : Bool → Status × Bool
tamper_init true = (already_initialized, true)
tamper_init false = (success, true)

unfoldable pub tamper_shutdown : Bool → Bool
tamper_shutdown initialized = false

-- `a` is the configured algorithm, `junk` what an uninitialised hash holds: the hash is computed and
-- thrown away.
unfoldable pub tamper_check_code_integrity : Algorithm → Hash → Mem → ℕ → ℕ → Bool
unfolding hash_compute read_bytes
tamper_check_code_integrity a junk mem address size =
    if address == 0 || size == 0
    then false
    else (let computed = hash_compute a (some (read_bytes mem address size)) junk in
        if not (is_success computed.0) then false else false)

-- The loop over the bytes, with consecutive_nops so far.
unfoldable pub nop_loop : ℕ → List ℕ → Bool
nop_loop nops [] = false
nop_loop nops (b ∷ bytes) =
    let rest = nop_loop (if b == 0x90 then suc nops else 0) bytes in
    if (b == 0x90) && leb 5 (suc nops) then true else rest

unfoldable pub tamper_check_nop_sled : Mem → ℕ → ℕ → Bool
unfolding nop_loop read_bytes
tamper_check_nop_sled mem address max_length =
    if address == 0 || ltb max_length 5
    then false
    else nop_loop 0 (read_bytes mem address max_length)

-- The opcodes that a loop reports; the conditional jumps 0x74 and 0x75 are passed over like all others.
unfoldable pub is_unexpected_jump : ℕ → Bool
is_unexpected_jump opcode =
    if opcode == 0xE8
    then true
    else (if opcode == 0xE9
        then true
        else (if opcode == 0xEB
            then true
            else (if (opcode == 0x74) || (opcode == 0x75) then false else opcode == 0xFF)))

-- for (...) { if (test(current[i])) return true; } return false;
unfoldable pub any_byte : (ℕ → Bool) → List ℕ → Bool
any_byte test [] = false
any_byte test (b ∷ bytes) = if test b then true else any_byte test bytes

unfoldable pub tamper_check_unexpected_jumps : Mem → ℕ → ℕ → Bool
unfolding any_byte is_unexpected_jump read_bytes
tamper_check_unexpected_jumps mem address size =
    if address == 0 || ltb size 16
    then false
    else any_byte is_unexpected_jump (read_bytes mem address size)

unfoldable pub tamper_check_code_caves : Bool
tamper_check_code_caves = false

unfoldable pub is_inline_jump : ℕ → Bool
is_inline_jump opcode = (opcode == 0xE9) || (opcode == 0xE8) || (opcode == 0xEB)

-- The loop runs over the bytes from 8 up to size - 8.
unfoldable pub tamper_check_inline_hooks : Mem → ℕ → ℕ → Bool
unfolding any_byte is_inline_jump read_bytes
tamper_check_inline_hooks mem address size =
    if address == 0 || ltb size 16
    then false
    else any_byte is_inline_jump (read_bytes mem (address + 8) (size - 8 - 8))

unfoldable pub tamper_scan_all_protected : ℕ
tamper_scan_all_protected = 0

-- for (...) { if (current[i] != expected[i]) return true; } return false;
unfoldable pub differs : Mem → ℕ → ℕ → ℕ → Bool
differs mem address expected zero = false
differs mem address expected (suc n) =
    if not (mem address == mem expected) then true else differs mem (address + 1) (expected + 1) n

-- Both buffers lie in the memory.
unfoldable pub tamper_check_range : Mem → ℕ → ℕ → ℕ → Bool
unfolding differs
tamper_check_range mem address size expected_data =
    if address == 0 || expected_data == 0 || size == 0
    then false
    else differs mem address expected_data size
