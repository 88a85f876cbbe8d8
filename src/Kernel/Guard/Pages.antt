-- ===== src/Kernel/Guard/Pages.antt =====
-- The page protections that src/kernel/memory_guard.c sets.
use ps.Base.{ℕ, ◌≡◌, Bool, true, false, not, ◌&&◌, ◌||◌, arith}
use ps.Kernel.Guard.{
  Access, readonly, readwrite, execute, execute_read, execute_readwrite, has_flag, convert_flags,
}

-- What a program may do with a page of the named protections.
abbrev pub may_read : Access → Bool
may_read readonly = true
may_read readwrite = true
may_read execute_read = true
may_read execute_readwrite = true
may_read _ = false

abbrev pub may_write : Access → Bool
may_write readwrite = true
may_write execute_readwrite = true
may_write _ = false

abbrev pub may_execute : Access → Bool
may_execute execute = true
may_execute execute_read = true
may_execute execute_readwrite = true
may_execute _ = false

-- The protection for a set of flags: with NOACCESS a program may do nothing. Otherwise it may write and
-- execute exactly with the flag for it; it may read with READ, WRITE, or if none of READ, WRITE, EXECUTE and
-- GUARD is set; and the page is a guard page with GUARD, or in that last case.
pub convert_flags-may :
    (flags : ℕ)
    → let page = convert_flags flags in
      let none_set =
        not (has_flag 0 flags || has_flag 1 flags || has_flag 2 flags || has_flag 3 flags) in
      let allowed = not (has_flag 4 flags) in
      (may_write page.access ≡ (allowed && has_flag 1 flags))
      × (may_execute page.access ≡ (allowed && has_flag 2 flags))
      × (may_read page.access ≡ (allowed && (has_flag 0 flags || has_flag 1 flags || none_set)))
      × (page.guard ≡ (allowed && (has_flag 3 flags || none_set)))
unfolding convert_flags
convert_flags-may flags = ground arith
