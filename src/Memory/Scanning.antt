-- ===== src/Memory/Scanning.antt =====
-- The scan over all regions in src/core/memory_monitor/memory_scanner.c.
use ps.Base.{inr}
use ps.Base.{inl}
use ps.Base.{◌==◌}
use ps.Base.{Bool-cases}
use ps.Base.{
  ℕ, zero, suc, ◌≤◌, ◌≡◌, refl, ap, Bool, true, false, List, [], ◌∷◌, map, arith, if◌then◌else◌,
  length, take, length-take, CString,
}
use ps.Hash.{Algorithm, Hash}
use ps.Memory.{
  Mem, MemoryRegion, ScanResult, scan_compared, scan_node, scan_put, scan_loop, tamper_result,
  memory_scan_all,
}

module _ (a : Algorithm) (junk : Hash) (mem : Mem) where
  -- The entries of all regions that a scan would report, in the order of the list.
  abbrev pub reported : List MemoryRegion → List ScanResult
  reported [] = []
  reported (r ∷ regions) =
      let rest = reported regions in
      if (scan_node a junk mem r).0 then tamper_result (scan_node a junk mem r).1 ∷ rest else rest

  -- What a scan leaves of a region whatever it finds.
  abbrev pub fixed : MemoryRegion → ℕ × CString × ℕ × ℕ × Hash
  fixed r = (r.node, r.name, r.base_address, r.size, r.last_good_hash)

  pub scan_node-fixed : (r : MemoryRegion) → fixed (scan_node a junk mem r).1 ≡ fixed r
  unfolding scan_node scan_compared
  scan_node-fixed r = ground arith

  scan_put-cases :
      (o : Bool × MemoryRegion) (hit miss : List ScanResult × List MemoryRegion)
      → ((scan_put o hit miss).0 ≡ (if o.0 then tamper_result o.1 ∷ hit.0 else miss.0))
        × ((scan_put o hit miss).1 ≡ (if o.0 then o.1 ∷ hit.1 else o.1 ∷ miss.1))
  unfolding scan_put
  scan_put-cases (true, r) hit miss = (refl, refl)
  scan_put-cases (false, r) hit miss = (refl, refl)

  scan_loop-reported :
      (room : ℕ) (regions : List MemoryRegion)
      → (scan_loop a junk mem room regions).0 ≡ take room (reported regions)
  unfolding scan_loop
  scan_loop-reported zero regions = refl
  scan_loop-reported (suc room) [] = refl
  scan_loop-reported (suc room) (r ∷ regions) = ground (
    arith,
    scan_put-cases (scan_node a junk mem r) (scan_loop a junk mem room regions)
        (scan_loop a junk mem (suc room) regions),
    scan_loop-reported room regions,
    scan_loop-reported (suc room) regions,
  )

  scan_loop-fixed :
      (room : ℕ) (regions : List MemoryRegion)
      → map fixed (scan_loop a junk mem room regions).1 ≡ map fixed regions
  unfolding scan_loop
  scan_loop-fixed zero regions = refl
  scan_loop-fixed (suc room) [] = refl
  scan_loop-fixed (suc room) (r ∷ regions) = ground (
    arith,
    scan_put-cases (scan_node a junk mem r) (scan_loop a junk mem room regions)
        (scan_loop a junk mem (suc room) regions),
    scan_node-fixed r,
    scan_loop-fixed room regions,
    scan_loop-fixed (suc room) regions,
  )

-- A scan of all regions writes the entries of the first regions, in the order of the list, that a scan
-- of the region alone reports, and of no more than there is room for, or none if no array is given; it
-- changes neither the regions' number and order nor their addresses, names, sizes and last good hashes.
pub memory_scan_all-reported :
    (a : Algorithm) (junk : Hash) (mem : Mem) (results : Bool) (max_results : ℕ)
    (regions : List MemoryRegion)
    → let s = memory_scan_all a junk mem results max_results regions in
      (s.0 ≡ (if results then take max_results (reported a junk mem regions) else []))
      × (length s.0 ≤ max_results)
      × (map (fixed a junk mem) s.1 ≡ map (fixed a junk mem) regions)
unfolding memory_scan_all
memory_scan_all-reported a junk mem false max_results regions = (refl, omega arith, refl)
memory_scan_all-reported a junk mem true max_results regions =
    let entries = scan_loop-reported a junk mem max_results regions in
    elim (Bool-cases (max_results == 0)) [
      | inl e ↦ let empty : max_results ≡ 0 = ground arith in rw empty (refl, omega arith, refl)
      | inr e ↦ rw e (
        entries,
        omega (arith, ap length entries, length-take max_results (reported a junk mem regions)),
        scan_loop-fixed a junk mem max_results regions,
      )
    ]
