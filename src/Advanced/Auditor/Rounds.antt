-- ===== src/Advanced/Auditor/Rounds.antt =====
-- What a round of the threads of src/core/advanced/async_auditor.c does, and how often it comes.
use ps.Base.{
  ℕ, suc, ◌+◌, ◌/◌, ◌≤◌, ◌≡◌, refl, ap, Bool, true, false, not, ◌&&◌, none, some, List, [], ◌∷◌,
  arith, ltb, if◌then◌else◌, length, add32, add64,
}
use ps.Chain.{count_all}
use ps.Hash.{Algorithm, Hash}
use ps.Memory.{Mem}
use ps.Advanced.Auditor.{
  AuditRegion, Auditor, audit_scan, audit_loop, audit_round, audit_interval, auditor_set_priority,
  audited,
}

-- The regions with the times and counts of a scan each.
abbrev pub stamped : (ℕ → ℕ) → ℕ → List AuditRegion → List AuditRegion
stamped ticks n [] = []
stamped ticks n (r ∷ regions) =
    record r { last_audit_time = ticks n; audit_count = add32 r.audit_count 1 }
    ∷ stamped ticks (n + 1) regions

length-stamped :
    (ticks : ℕ → ℕ) (n : ℕ) (regions : List AuditRegion)
    → length (stamped ticks n regions) ≡ length regions
length-stamped ticks n [] = refl
length-stamped ticks n (r ∷ regions) = ap suc (length-stamped ticks (n + 1) regions)

audit_loop_recursive :
    (t : AuditRegion → Bool) (ticks : ℕ → ℕ) (n : ℕ) (regions : List AuditRegion)
    → audit_loop true t ticks n regions ≡ some (stamped ticks n regions, count_all t regions)
unfolding audit_loop count_all audited
audit_loop_recursive t ticks n [] = refl
audit_loop_recursive t ticks n (r ∷ regions) =
    ground (arith, audit_loop_recursive t ticks (n + 1) regions)

audit_loop_plain :
    (t : AuditRegion → Bool) (ticks : ℕ → ℕ) (n : ℕ) (regions : List AuditRegion)
    → audit_loop false t ticks n regions
      ≡ (if ltb 0 (count_all t regions) then none else some (stamped ticks n regions, 0))
unfolding audit_loop count_all audited
audit_loop_plain t ticks n [] = refl
audit_loop_plain t ticks n (r ∷ regions) = ground (arith, audit_loop_plain t ticks (n + 1) regions)

audit_loop-eq :
    (recursive : Bool) (t : AuditRegion → Bool) (ticks : ℕ → ℕ) (n : ℕ) (regions : List AuditRegion)
    → audit_loop recursive t ticks n regions ≡ (
        if not recursive && ltb 0 (count_all t regions)
        then none
        else some (stamped ticks n regions, count_all t regions))
audit_loop-eq true t ticks n regions = audit_loop_recursive t ticks n regions
audit_loop-eq false t ticks n regions = ground (arith, audit_loop_plain t ticks n regions)

module _ (recursive : Bool) (a : Algorithm) (junk stack : Hash) (mem : Mem) (ticks : ℕ → ℕ) where
  -- A round stops for good at the first violation where a thread may not lock a mutex that it holds: it
  -- waits for itself. In every other case it stamps each region once, in order, counts the scans, and
  -- counts the regions that a scan reports as violations.
  pub audit_round-eq :
      (s : Auditor)
      → let violations = count_all (audit_scan a junk stack mem) s.regions in
        audit_round recursive a junk stack mem ticks s ≡ (
          if not recursive && ltb 0 violations
          then none
          else some (record s {
            regions = stamped ticks 0 s.regions;
            scans_performed = add64 s.scans_performed (length s.regions);
            violations_found = add64 s.violations_found violations;
          }))
  unfolding audit_round
  audit_round-eq s = ground (
    arith,
    audit_loop-eq recursive (audit_scan a junk stack mem) ticks 0 s.regions,
    length-stamped ticks 0 s.regions,
  )

interval_bounds : (x : ℕ) → x ≤ 10 → (90 ≤ 1000 / (x + 1)) × (1000 / (x + 1) ≤ 1000)
interval_bounds x h = grind arith

interval_falls : (x y : ℕ) → x ≤ y → 1000 / (y + 1) ≤ 1000 / (x + 1)
interval_falls x y h = grind arith

abbrev capped : ℕ → ℕ
capped p = if ltb 10 p then 10 else p

capped-le : (p : ℕ) → capped p ≤ 10
capped-le p = ground arith

audit_interval-eq : (s : Auditor) → s.priority ≤ 10 → audit_interval s ≡ 1000 / (s.priority + 1)
unfolding audit_interval
audit_interval-eq s h =
    rw (let p : add32 s.priority 1 ≡ s.priority + 1 = omega arith in p)
      (ground (arith, interval_bounds s.priority h))

-- Whatever priority is asked for, a thread then sleeps between 90 and 1000 milliseconds, and never
-- longer for a higher priority.
pub audit_interval-set_priority :
    (p q : ℕ) (s : Auditor)
    → p ≤ q
    → (90 ≤ audit_interval (auditor_set_priority p s))
      × (audit_interval (auditor_set_priority p s) ≤ 1000)
      × (audit_interval (auditor_set_priority q s) ≤ audit_interval (auditor_set_priority p s))
unfolding auditor_set_priority
audit_interval-set_priority p q s h =
    rw
      (
        audit_interval-eq (record s { priority = capped p }) (capped-le p),
        audit_interval-eq (record s { priority = capped q }) (capped-le q),
      )
      (
        (interval_bounds (capped p) (capped-le p)).0,
        (interval_bounds (capped p) (capped-le p)).1,
        interval_falls (capped p) (capped q) (ground arith),
      )
