-- ===== src/Advanced/Debugger.antt =====
-- src/core/advanced/debugger_detector.c. What the operating system answers is an argument: on Windows
-- the record `Windows`, elsewhere the lines that fgets reads from /proc/self/status. The file ends after
-- check_cheat_engine.
pub mod Attached
use ps.Base.{
  chars, ℕ, suc, ◌+◌, ◌-◌, ◌*◌, ◌%◌, ◌^◌, min, Bool, true, false, not, ◌&&◌, ◌||◌, Option, none,
  some, List, [], ◌∷◌, map, ltb, leb, ◌==◌, if◌then◌else◌, drop, Status, success,
  already_initialized, CString, sub64,
}

unfoldable pub is_prefix : CString → CString → Bool
is_prefix [] s = true
is_prefix (c ∷ needle) [] = false
is_prefix (c ∷ needle) (d ∷ s) = (c == d) && is_prefix needle s

-- strstr(s, needle) != NULL.
unfoldable pub contains : CString → CString → Bool
unfolding is_prefix
contains needle [] = is_prefix needle []
contains needle (d ∷ s) = is_prefix needle (d ∷ s) || contains needle s

-- _strlwr.
abbrev lower : CString → CString
lower s = map (λ c. if leb 65 c && leb c 90 then c + 32 else c) s

abbrev is_space : ℕ → Bool
is_space c = (c == 32) || (leb 9 c && leb c 13)

abbrev is_digit : ℕ → Bool
is_digit c = leb 48 c && leb c 57

-- The digits of a number up to the first other character.
unfoldable pub digits : ℕ → CString → ℕ
digits n [] = n
digits n (c ∷ s) = let rest = digits (10 * n + (c - 48)) s in if is_digit c then rest else n

unfoldable pub skip_spaces : CString → CString
skip_spaces [] = []
skip_spaces (c ∷ s) = if is_space c then skip_spaces s else c ∷ s

abbrev pub skip_sign : CString → CString
skip_sign [] = []
skip_sign (c ∷ s) = if (c == 43) || (c == 45) then s else c ∷ s

abbrev pub is_negative : CString → Bool
is_negative [] = false
is_negative (c ∷ s) = c == 45

-- The 32 bits of the int that atoi(s) gives where it is (int)strtol(s, NULL, 10) with a long of 64 bits:
-- strtol stops at the ends of the long, and the conversion to int keeps the low bits.
unfoldable pub atoi : CString → ℕ
unfolding digits skip_spaces
atoi s =
    let number = skip_spaces s in
    let value = digits 0 (skip_sign number) in
    if is_negative number
    then (2 ^ 32 - min value (2 ^ 63) % 2 ^ 32) % 2 ^ 32
    else min value (2 ^ 63 - 1) % 2 ^ 32

-- while (fgets(line, ...)) { if (strncmp(line, "TracerPid:", 10) == 0) return atoi(line + 10) != 0; }
unfoldable pub tracer_loop : List CString → Bool
unfolding is_prefix atoi
tracer_loop [] = false
tracer_loop (line ∷ lines) =
    if is_prefix (chars "TracerPid:") line
    then not (atoi (drop 10 line) == 0)
    else tracer_loop lines

-- `basic` is NtQueryInformationProcess's status and the byte of the PEB, if there is a PEB, where the
-- function is found; `processes` the snapshot's identifiers with their parents'; `name_of` the base name of
-- a process that can be opened and asked.
pub record Windows : Type 0 where
  pub debugger_present : Bool
  pub basic : Option (ℕ × Option ℕ)
  pub processes : Option (List (ℕ × ℕ))
  pub current_pid : ℕ
  pub name_of : ℕ → Option CString
  pub debug_registers : List ℕ
  pub foreground_title : Option CString
  pub modules : Option (List CString)

pub data Platform : Type 0 where
  windows : Windows → Platform
  posix : Option (List CString) → Platform

unfoldable pub check_is_debugger_present : Platform → Bool
unfolding tracer_loop
check_is_debugger_present (windows w) = w.debugger_present
check_is_debugger_present (posix none) = false
check_is_debugger_present (posix (some lines)) = tracer_loop lines

being_debugged : Option (ℕ × Option ℕ) → Bool
being_debugged none = false
being_debugged (some (status, none)) = false
being_debugged (some (status, some flag)) = (status == 0) && (flag % 2 == 1)

unfoldable pub check_nt_query_information_process : Platform → Bool
unfolding being_debugged
check_nt_query_information_process (windows w) = being_debugged w.basic
check_nt_query_information_process (posix status) = false

-- The loop over the snapshot: the parent of the first entry with the identifier, or 0.
unfoldable pub parent_of : ℕ → List (ℕ × ℕ) → ℕ
parent_of pid [] = 0
parent_of pid ((p, parent) ∷ entries) = if p == pid then parent else parent_of pid entries

unfoldable pub any_contains : List CString → CString → Bool
unfolding contains
any_contains [] s = false
any_contains (n ∷ names) s = contains n s || any_contains names s

abbrev pub debugger_names : List CString
debugger_names =
    chars "cheatengine"
    ∷ chars "x64dbg"
    ∷ chars "x32dbg"
    ∷ chars "ida"
    ∷ chars "ollydbg"
    ∷ chars "debug"
    ∷ chars "devenv"
    ∷ chars "visualstudio"
    ∷ []

is_debugger_name : Option CString → Bool
unfolding any_contains
is_debugger_name none = false
is_debugger_name (some name) = any_contains debugger_names (lower name)

check_parent : Windows → Option (List (ℕ × ℕ)) → Bool
unfolding parent_of is_debugger_name
check_parent w none = false
check_parent w (some entries) =
    let parent_pid = parent_of w.current_pid entries in
    if parent_pid == 0 then false else is_debugger_name (w.name_of parent_pid)

unfoldable pub check_parent_process : Platform → Bool
unfolding check_parent
check_parent_process (windows w) = check_parent w w.processes
check_parent_process (posix status) = false

unfoldable pub check_int3_breakpoints : Platform → Bool
check_int3_breakpoints p = false

-- Dr0 to Dr3 of the context.
unfoldable pub any_set : List ℕ → Bool
any_set [] = false
any_set (r ∷ registers) = not (r == 0) || any_set registers

unfoldable pub check_hardware_breakpoints : Platform → Bool
unfolding any_set
check_hardware_breakpoints (windows w) = any_set w.debug_registers
check_hardware_breakpoints (posix status) = false

-- On the ticks before and after the loop.
unfoldable pub check_timing : ℕ → ℕ → Bool
check_timing start end = ltb 100 (sub64 end start)

abbrev pub title_names : List CString
title_names = chars "cheat engine" ∷ chars "x64dbg" ∷ chars "ida pro" ∷ chars "ollydbg" ∷ []

unfoldable pub check_window_title : Platform → Bool
unfolding any_contains
check_window_title (windows w) = elim w.foreground_title [
  | none ↦ false
  | some title ↦ any_contains title_names (lower title)
]
check_window_title (posix status) = false

abbrev pub module_names : List CString
module_names = chars "cheatengine" ∷ chars "dbghelp" ∷ chars "kernel32" ∷ chars "user32" ∷ []

unfoldable pub module_loop : List CString → Bool
unfolding any_contains
module_loop [] = false
module_loop (m ∷ modules) =
    if any_contains module_names (lower m) && contains (chars "cheatengine") (lower m)
    then true
    else module_loop modules

unfoldable pub check_known_debugger_modules : Platform → Bool
unfolding module_loop
check_known_debugger_modules (windows w) = elim w.modules [
  | none ↦ false
  | some modules ↦ module_loop modules
]
check_known_debugger_modules (posix status) = false

-- On g_debugger_initialized.
unfoldable pub debugger_init : Bool → Status × Bool
debugger_init true = (already_initialized, true)
debugger_init false = (success, true)

unfoldable pub debugger_shutdown : Bool → Bool
debugger_shutdown initialized = false

-- The checks in their order; the first that answers yes ends the call.
unfoldable pub debugger_is_attached : Platform → ℕ → ℕ → Bool
unfolding check_is_debugger_present check_nt_query_information_process check_parent_process
    check_int3_breakpoints check_hardware_breakpoints check_timing check_window_title
    check_known_debugger_modules
debugger_is_attached p start end =
    if check_is_debugger_present p
    then true
    else (if check_nt_query_information_process p
        then true
        else (if check_parent_process p
            then true
            else (if check_int3_breakpoints p
                then true
                else (if check_hardware_breakpoints p
                    then true
                    else (if check_timing start end
                        then true
                        else (if check_window_title p
                            then true
                            else check_known_debugger_modules p))))))

unfoldable pub debugger_check_cheat_engine : Platform → Bool
unfolding check_parent_process
debugger_check_cheat_engine p = check_parent_process p
