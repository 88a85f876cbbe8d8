-- ===== src/Memory/Audit/Rounds.antt =====
-- Whom a round of the audit of src/core/memory_monitor/memory_scanner.c calls.
use ps.Base.{
  ℕ, zero, suc, ◌≡◌, refl, ap, true, List, [], ◌∷◌, ◌++◌, map, arith, ltb, if◌then◌else◌, length,
  take,
}
use ps.Hash.{Algorithm, Hash}
use ps.Memory.{Mem, MemoryRegion, ScanResult, tamper_result, scan_node}
use ps.Memory.Scanning.{reported, memory_scan_all-reported, scan_node-fixed}
use ps.Memory.Audit.{Callback, Monitor, call_each, notify_all, memory_audit_round}

-- The calls of all callbacks for the regions with the given nodes, callback by callback.
abbrev pub calls_for : List Callback → List ℕ → List (ℕ × ℕ × ℕ)
calls_for [] nodes = []
calls_for (cb ∷ callbacks) nodes =
    map (λ n. (cb.callback, n, cb.user_data)) nodes ++ calls_for callbacks nodes

no_nodes : (callbacks : List Callback) → calls_for callbacks [] ≡ []
no_nodes [] = refl
no_nodes (cb ∷ callbacks) = no_nodes callbacks

-- The guard that skips the callbacks changes nothing.
unguarded :
    (callbacks : List Callback) (results : List ScanResult) (nodes : List ℕ)
    → notify_all callbacks results ≡ calls_for callbacks nodes
    → length results ≡ length nodes
    → (if ltb 0 (length results) then notify_all callbacks results else [])
      ≡ calls_for callbacks nodes
unguarded callbacks results [] e l = ground (arith, no_nodes callbacks)
unguarded callbacks results (n ∷ nodes) e l =
    rw (let p : ltb 0 (length results) ≡ true = ground arith in p) e

module _ (a : Algorithm) (junk : Hash) (mem : Mem) where
  -- The nodes of the regions that a scan of the region alone reports.
  abbrev pub changed : List MemoryRegion → List ℕ
  changed [] = []
  changed (r ∷ regions) =
      let rest = changed regions in if (scan_node a junk mem r).0 then r.node ∷ rest else rest

  call_each-reported :
      (cb : Callback) (room : ℕ) (regions : List MemoryRegion)
      → call_each cb (take room (reported a junk mem regions))
        ≡ map (λ n. (cb.callback, n, cb.user_data)) (take room (changed regions))
  unfolding call_each tamper_result
  call_each-reported cb zero regions = refl
  call_each-reported cb (suc room) [] = refl
  call_each-reported cb (suc room) (r ∷ regions) = ground (
    arith,
    ap (λ t. t.0) (scan_node-fixed a junk mem r),
    call_each-reported cb room regions,
    call_each-reported cb (suc room) regions,
  )

  notify_all-reported :
      (callbacks : List Callback) (room : ℕ) (regions : List MemoryRegion)
      → notify_all callbacks (take room (reported a junk mem regions))
        ≡ calls_for callbacks (take room (changed regions))
  unfolding notify_all
  notify_all-reported [] room regions = refl
  notify_all-reported (cb ∷ callbacks) room regions =
      rw (call_each-reported cb room regions, notify_all-reported callbacks room regions)

  none_changed :
      (room : ℕ) (regions : List MemoryRegion)
      → length (take room (reported a junk mem regions)) ≡ length (take room (changed regions))
  none_changed zero regions = refl
  none_changed (suc room) [] = refl
  none_changed (suc room) (r ∷ regions) =
      ground (arith, none_changed room regions, none_changed (suc room) regions)

  -- A round of the audit calls every callback, in the order of their list, once for each of the first 64
  -- regions that a scan of the region alone reports, in the order of the regions, with the region and
  -- the callback's user data; and it calls no other.
  pub memory_audit_round-calls :
      (m : Monitor)
      → (memory_audit_round a junk mem m).0 ≡ calls_for m.callbacks (take 64 (changed m.regions))
  unfolding memory_audit_round
  memory_audit_round-calls m = rw (memory_scan_all-reported a junk mem true 64 m.regions).0 (
      unguarded m.callbacks (take 64 (reported a junk mem m.regions)) (take 64 (changed m.regions))
        (notify_all-reported m.callbacks 64 m.regions) (none_changed 64 m.regions))
