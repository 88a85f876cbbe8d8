-- ===== src/Repair/Statistics.antt =====
-- What src/core/repair_system/memory_repair.c repairs, and what its counters say of it.
use ps.Base.{
  ℕ, ◌+◌, ◌^◌, ◌≤◌, ◌<◌, ◌≡◌, refl, ap, ◌⊎◌, inl, inr, true, false, Option, none, some, List, [],
  ◌∷◌, arith, if◌then◌else◌, Bool-cases, length, add32,
}
use ps.Chain.{find_first, update_first}
use ps.Hash.{Algorithm, Hash}
use ps.Memory.{
  MemoryRegion, ScanResult, is_region, scan_node, memory_scan_region, memory_scan_all, write_bytes,
}
use ps.Memory.Scanning.{memory_scan_all-reported}
use ps.Checkpoints.{repaired, failed, skipped}
use ps.Repair.{
  MemoryBackup, Process, find_backup_by_address, count_attempt, count_success, restore_from,
  restore_memory, attempt_auto_fix, is_repaired, fix_loop, check_and_fix_all,
}

restore_from-cases :
    (o : Option MemoryBackup) (r : MemoryRegion) (q : Process)
    → ((o ≡ none) × ((restore_from o r q).0 ≡ failed) × ((restore_from o r q).1 ≡ q))
      ⊎ ((b : MemoryBackup) × (o ≡ some b)
          × ((restore_from o r q).0 ≡ repaired)
          × ((restore_from o r q).1.mem ≡ write_bytes q.mem r.base_address b.bytes)
          × ((restore_from o r q).1.repairs ≡ count_success q.repairs))
unfolding restore_from
restore_from-cases none r q = inl (refl, refl, refl)
restore_from-cases (some b) r q = inr (b, refl, refl, refl, refl)

-- An automatic repair of a region has three outcomes. If the scan finds nothing the call is skipped,
-- and memory, backups and counters stay as they are. If it finds the region changed and there is no
-- backup of its address the call fails, memory stays as it is and one attempt is counted. If there is
-- a backup, the newest one's bytes are written at the region's address, and an attempt and a success
-- are counted.
pub attempt_auto_fix_outcome :
    (a : Algorithm) (junk : Hash) (r : MemoryRegion) (p : Process)
    → let tampered = (memory_scan_region a junk p.mem (some r) p.regions).0 in
      let t = attempt_auto_fix a junk (some r) p in
      ((tampered ≡ false) × (t.0 ≡ skipped) × (t.1.mem ≡ p.mem) × (t.1.repairs ≡ p.repairs))
      ⊎ ((tampered ≡ true)
          × (find_backup_by_address r.base_address p.repairs ≡ none)
          × (t.0 ≡ failed)
          × (t.1.mem ≡ p.mem)
          × (t.1.repairs ≡ count_attempt p.repairs))
      ⊎ ((b : MemoryBackup) × (tampered ≡ true)
          × (find_backup_by_address r.base_address p.repairs ≡ some b)
          × (t.0 ≡ repaired)
          × (t.1.mem ≡ write_bytes p.mem r.base_address b.bytes)
          × (t.1.repairs ≡ count_success (count_attempt p.repairs)))
unfolding attempt_auto_fix restore_memory
attempt_auto_fix_outcome a junk r p = elim (Bool-cases (scan_node a junk p.mem r).0) [
  | inl e ↦
      rw e
        (elim (restore_from-cases (find_backup_by_address r.base_address p.repairs) r (record {
          mem = p.mem;
          regions = update_first (is_region r.node) (λ x. (scan_node a junk p.mem r).1) p.regions;
          repairs = count_attempt p.repairs;
        })) [
          | inl (o, q, k) ↦ inr (inl (refl, o, q, ap (λ t. t.mem) k, ap (λ t. t.repairs) k))
          | inr (b, o, q, m, k) ↦ inr (inr (b, refl, o, q, m, k))
        ])
  | inr e ↦ rw e (inl (refl, refl, refl, refl))
]

-- One repair moves the counters by at most one, the successes only together with an attempt.
auto_fix-counts :
    (a : Algorithm) (junk : Hash) (o : Option MemoryRegion) (p : Process)
    → p.repairs.attempted + 1 < 2 ^ 32
    → p.repairs.successful ≤ p.repairs.attempted
    → let t = attempt_auto_fix a junk o p in
      (t.1.repairs.successful ≡ p.repairs.successful + (if is_repaired t.0 then 1 else 0))
      × (t.1.repairs.successful ≤ t.1.repairs.attempted)
      × (t.1.repairs.attempted ≤ p.repairs.attempted + 1)
auto_fix-counts a junk none p h k = unfold attempt_auto_fix in (omega arith, k, omega arith)
auto_fix-counts a junk (some r) p h k = ground (arith, attempt_auto_fix_outcome a junk r p)

fix_loop-counts :
    (a : Algorithm) (junk : Hash) (results : List ScanResult) (count : ℕ) (p : Process)
    → p.repairs.attempted + length results < 2 ^ 32
    → count + length results < 2 ^ 32
    → p.repairs.successful ≤ p.repairs.attempted
    → let t = fix_loop a junk results count p in
      (t.1.repairs.successful + count ≡ p.repairs.successful + t.0)
      × (t.0 ≤ count + length results)
      × (t.1.repairs.successful ≤ t.1.repairs.attempted)
      × (t.1.repairs.attempted ≤ p.repairs.attempted + length results)
unfolding fix_loop
fix_loop-counts a junk [] count p h c k = (omega arith, omega arith, k, omega arith)
fix_loop-counts a junk (s ∷ results) count p h c k =
    let t = attempt_auto_fix a junk (find_first (is_region s.region) p.regions) p in
    let one =
      auto_fix-counts a junk (find_first (is_region s.region) p.regions) p (omega arith) k in
    let count' = if is_repaired t.0 then add32 count 1 else count in
    let counted : (count' + 0 ≡ count + (if is_repaired t.0 then 1 else 0)) × (count' ≤ count + 1) =
      ground arith in
    let rest = fix_loop-counts a junk results count' t.1 (omega arith) (omega arith) one.1 in
    (omega arith, omega arith, rest.2, omega arith)

-- Repairing everything returns the number by which the counter of successes grew, at most 64; at most
-- 64 attempts are counted, and there are never more successes than attempts. (As long as the counter
-- of attempts does not wrap.)
pub check_and_fix_all_counts :
    (a : Algorithm) (junk : Hash) (p : Process)
    → p.repairs.attempted + 64 < 2 ^ 32
    → p.repairs.successful ≤ p.repairs.attempted
    → let t = check_and_fix_all a junk p in
      (t.1.repairs.successful ≡ p.repairs.successful + t.0)
      × (t.0 ≤ 64)
      × (t.1.repairs.successful ≤ t.1.repairs.attempted)
      × (t.1.repairs.attempted ≤ p.repairs.attempted + 64)
unfolding check_and_fix_all
check_and_fix_all_counts a junk p h k =
    let s = memory_scan_all a junk p.mem true 64 p.regions in
    let few = (memory_scan_all-reported a junk p.mem true 64 p.regions).1 in
    let counts =
      fix_loop-counts a junk s.0 0 (record p { regions = s.1 }) (omega arith) (omega arith) k in
    (omega arith, omega arith, counts.2, omega arith)
