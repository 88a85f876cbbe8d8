-- ===== src/Advanced/Hooks.antt =====
-- src/core/advanced/hook_detector.c over a memory with a byte for each address; the NULL address is 0.
pub mod Scan
use ps.Base.{
  ℕ, zero, suc, ◌+◌, ◌-◌, Bool, true, false, ◌||◌, Option, none, some, ltb, leb, ◌==◌,
  if◌then◌else◌, Status, success, already_initialized, add32,
}
use ps.Memory.{Mem, read_bytes}
use ps.Advanced.Tamper.{any_byte, differs}

-- On g_hook_initialized.
unfoldable pub hook_init : Bool → Status × Bool
hook_init true = (already_initialized, true)
hook_init false = (success, true)

unfoldable pub hook_shutdown : Bool → Bool
hook_shutdown initialized = false

unfoldable pub is_hook_opcode : ℕ → Bool
is_hook_opcode opcode = (opcode == 0xE9) || (opcode == 0xE8) || (opcode == 0xEB)

unfoldable pub hook_check_function : Mem → ℕ → Bool
unfolding is_hook_opcode
hook_check_function mem address = if address == 0 then false else is_hook_opcode (mem address)

unfoldable pub hook_check_detour : Mem → ℕ → Bool
hook_check_detour mem address = if address == 0 then false else mem address == 0xE9

unfoldable pub hook_check_jmp_hook : Mem → ℕ → Bool
hook_check_jmp_hook mem address =
    if address == 0 then false else (mem address == 0xE9) || (mem address == 0xEB)

unfoldable pub hook_check_call_hook : Mem → ℕ → Bool
hook_check_call_hook mem address = if address == 0 then false else mem address == 0xE8

-- The loop is the one of the tamper detector.
unfoldable pub hook_check_code_patch : Mem → ℕ → ℕ → ℕ → Bool
unfolding differs
hook_check_code_patch mem address size expected_bytes =
    if address == 0 || expected_bytes == 0 || size == 0
    then false
    else differs mem address expected_bytes size

-- while (i < size && current[i] == 0x90) { nop_count++; i++; }, from the byte at p with size - i bytes
-- left.
unfoldable pub nop_run : Mem → ℕ → ℕ → ℕ
nop_run mem p zero = 0
nop_run mem p (suc left) = if mem p == 0x90 then suc (nop_run mem (p + 1) left) else 0

-- One round at i: where the loop goes on, with the i++ of its head.
unfoldable pub scan_next : Mem → ℕ → ℕ → ℕ → ℕ
unfolding nop_run is_hook_opcode
scan_next mem address size i =
    if is_hook_opcode (mem (address + i))
    then i + 1
    else (if mem (address + i) == 0x90 then i + nop_run mem (address + i) (size - i) + 1 else i + 1)

-- What the round adds to hooks_found.
unfoldable pub scan_hit : Mem → ℕ → ℕ → ℕ → Bool
unfolding nop_run is_hook_opcode
scan_hit mem address size i =
    if is_hook_opcode (mem (address + i))
    then true
    else (if mem (address + i) == 0x90 then leb 5 (nop_run mem (address + i) (size - i)) else false)

-- The rounds from i on; `none` means that the fuel ran out.
unfoldable pub hook_scan_loop : ℕ → Mem → ℕ → ℕ → ℕ → ℕ → Option ℕ
unfolding scan_next scan_hit
hook_scan_loop zero mem address size i hooks_found = none
hook_scan_loop (suc fuel) mem address size i hooks_found =
    let rest =
      hook_scan_loop fuel mem address size (scan_next mem address size i)
        (if scan_hit mem address size i then add32 hooks_found 1 else hooks_found) in
    if ltb i (size - 5) then rest else some hooks_found

-- A round for each byte before the last five, and one to end.
unfoldable pub hook_scan_region : Mem → ℕ → ℕ → Option ℕ
unfolding hook_scan_loop
hook_scan_region mem address size =
    if address == 0 || ltb size 5 then some 0 else hook_scan_loop (size - 4) mem address size 0 0

-- The loop runs over the bytes from 8 up to size - 8.
unfoldable pub hook_check_inline_hooks : Mem → ℕ → ℕ → Bool
unfolding any_byte read_bytes
hook_check_inline_hooks mem address size =
    if address == 0 || ltb size 16
    then false
    else any_byte (λ b. (b == 0xE9) || (b == 0xE8)) (read_bytes mem (address + 8) (size - 8 - 8))
