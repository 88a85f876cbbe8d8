-- ===== src/Memory/Detection.antt =====
-- When a region of src/core/memory_monitor/memory_scanner.c counts as tampered with.
use ps.Base.{inr, inl, Bool-cases}
use ps.Base.{inr}
use ps.Base.{inl}
use ps.Base.{◌==◌}
use ps.Base.{◌||◌}
use ps.Base.{Bool-cases}
use ps.Base.{Bool}
use ps.Base.{
  ℕ, zero, suc, ◌<◌, ◌≡◌, refl, ap, ◌∙◌, true, false, not, some, List, [], ◌∷◌, arith, ==_refl,
  length, take, Status, success, CString, str_eq,
}
use ps.Chain.{update_first}
use ps.Hash.{Algorithm, Hash, hash_compute, hash_compare, hash_size}
use ps.Hash.Compare.{
  is_supported, digest_of, hash_compute_outcome, hash_compute_digest, hash_compare_same,
}
use ps.Memory.Bytes.{length-read_bytes}
use ps.Memory.{
  Mem, read_bytes, MemoryRegion, new_region, scan_compared, scan_node, memory_add_region,
  memory_scan_region, is_region, memory_scan_all, scan_loop, scan_put,
}

-- The hash carries the algorithm and the digest of the bytes.
abbrev pub Hashes : Algorithm → List ℕ → Hash → Type 0
Hashes a bytes h = (h.algorithm ≡ a) × (take (hash_size a) h.digest ≡ digest_of a bytes)

pub hash_compute-Hashes :
    (a : Algorithm) (bytes : List ℕ) (h : Hash)
    → is_supported a ≡ true
    → 0 < length bytes
    → ((hash_compute a (some bytes) h).0 ≡ success)
      × Hashes a bytes (hash_compute a (some bytes) h).1
hash_compute-Hashes a [] h s p = absurd (omega arith)
hash_compute-Hashes a (x ∷ d) h s p =
    (hash_compute_outcome a (some (x ∷ d)) h ∙ ground arith, hash_compute_digest a x d h s)

pub hash_compare-Hashes :
    (a : Algorithm) (d e : List ℕ) (h k : Hash)
    → is_supported a ≡ true
    → Hashes a d h
    → Hashes a e k
    → hash_compare h k ≡ str_eq (digest_of a d) (digest_of a e)
hash_compare-Hashes a d e h k s p q = hash_compare_same a h k p.0 q.0 ∙ rw (s, p.1, q.1) refl

scan_compared-Hashes :
    (a : Algorithm) (o : Status × Hash) (r : MemoryRegion) (bytes good : List ℕ)
    → is_supported a ≡ true
    → o.0 ≡ success
    → Hashes a bytes o.1
    → Hashes a good r.last_good_hash
    → ((scan_compared o r).0 ≡ not (str_eq (digest_of a bytes) (digest_of a good)))
      × ((scan_compared o r).1.last_good_hash ≡ r.last_good_hash)
unfolding scan_compared
scan_compared-Hashes a o r bytes good s e h g =
    let same = hash_compare-Hashes a bytes good o.1 r.last_good_hash s h g in
    (ground (arith, same), ground arith)

-- A region whose last good hash is the digest of `good` is reported exactly if its current bytes have
-- another digest.
pub scan_node-Hashes :
    (a : Algorithm) (junk : Hash) (mem : Mem) (r : MemoryRegion) (good : List ℕ)
    → is_supported a ≡ true
    → 0 < r.size
    → Hashes a good r.last_good_hash
    → ((scan_node a junk mem r).0
        ≡ not (str_eq (digest_of a (read_bytes mem r.base_address r.size)) (digest_of a good)))
      × ((scan_node a junk mem r).1.last_good_hash ≡ r.last_good_hash)
unfolding scan_node
scan_node-Hashes a junk mem r good s p g =
    let bytes = read_bytes mem r.base_address r.size in
    let hashed =
      hash_compute-Hashes a bytes junk s
        (omega (arith, length-read_bytes mem r.base_address r.size)) in
    scan_compared-Hashes a (hash_compute a (some bytes) junk) r bytes good s hashed.0 hashed.1 g

new_region-Hashes :
    (a : Algorithm) (junk : Hash) (mem : Mem) (p : ℕ) (name : CString) (address size : ℕ)
    → is_supported a ≡ true
    → 0 < size
    → Hashes a
        (read_bytes mem address size)
        (new_region a junk mem p name address size).last_good_hash
unfolding new_region
new_region-Hashes a junk mem p name address size s h =
    (hash_compute-Hashes a (read_bytes mem address size) junk s
      (omega (arith, length-read_bytes mem address size))).1

update_head :
    (r : MemoryRegion) (regions : List MemoryRegion) (v : MemoryRegion)
    → update_first (is_region r.node) (λ x. v) (r ∷ regions) ≡ v ∷ regions
unfolding update_first
update_head r regions v = rw (==_refl r.node)

-- A region added with a supported algorithm is reported by a later scan exactly if the bytes that it
-- then has give another digest than those that it had when it was added, whatever happened to the
-- memory in between; so an untouched region is never reported. The scan keeps the last good hash.
pub memory_scan-add :
    (a : Algorithm) (junk junk' : Hash) (mem mem' : Mem) (p : ℕ) (name : CString) (address size : ℕ)
    (regions : List MemoryRegion)
    → is_supported a ≡ true
    → 0 < address
    → 0 < size
    → let added = memory_add_region a junk mem (some p) (some name) address size regions in
      (r : MemoryRegion) × (added.0 ≡ some r)
      × (added.1 ≡ r ∷ regions)
      × ((memory_scan_region a junk' mem' (some r) added.1).0
          ≡ not (
              str_eq
                (digest_of a (read_bytes mem' address size))
                (digest_of a (read_bytes mem address size))))
      × (r' : MemoryRegion) × ((memory_scan_region a junk' mem' (some r) added.1).1 ≡ r' ∷ regions)
      × (r'.last_good_hash ≡ r.last_good_hash)
unfolding memory_add_region memory_scan_region
memory_scan-add a junk junk' mem mem' p name address size regions s h k =
    let r = new_region a junk mem p name address size in
    let scanned =
      scan_node-Hashes a junk' mem' r (read_bytes mem address size) s (unfold new_region in k)
        (new_region-Hashes a junk mem p name address size s k) in
    (
      r,
      ground arith,
      ground arith,
      scanned.0,
      (scan_node a junk' mem' r).1,
      ap (update_first (is_region r.node) (λ x. (scan_node a junk' mem' r).1)) {y = r ∷ regions}
            (ground arith)
          ∙ update_head r regions (scan_node a junk' mem' r).1,
      scanned.1,
    )

scan_node_unsupported :
    (a : Algorithm) (junk : Hash) (mem : Mem) (r : MemoryRegion)
    → is_supported a ≡ false
    → scan_node a junk mem r ≡ (false, r)
unfolding scan_node scan_compared
scan_node_unsupported a junk mem r s =
    let outcome = hash_compute_outcome a (some (read_bytes mem r.base_address r.size)) junk in
    ground (arith, outcome)

scan_loop_unsupported :
    (a : Algorithm) (junk : Hash) (mem : Mem) (room : ℕ) (regions : List MemoryRegion)
    → is_supported a ≡ false
    → scan_loop a junk mem room regions ≡ ([], regions)
unfolding scan_loop scan_put
scan_loop_unsupported a junk mem zero regions s = refl
scan_loop_unsupported a junk mem (suc room) [] s = refl
scan_loop_unsupported a junk mem (suc room) (r ∷ regions) s =
    rw (scan_node_unsupported a junk mem r s)
      (ap (λ t. (t.0, r ∷ t.1)) (scan_loop_unsupported a junk mem (suc room) regions s))

-- With an algorithm that has no case in the hash code (SHA-1 and SHA-512 among them) the monitor is
-- blind: a scan of any memory reports no region and changes nothing.
pub memory_scan_all_unsupported :
    (a : Algorithm) (junk : Hash) (mem : Mem) (results : Bool) (max_results : ℕ)
    (regions : List MemoryRegion)
    → is_supported a ≡ false
    → memory_scan_all a junk mem results max_results regions ≡ ([], regions)
unfolding memory_scan_all
memory_scan_all_unsupported a junk mem results max_results regions s =
    elim (Bool-cases (not results || max_results == 0)) [
      | inl e ↦ rw e refl
      | inr e ↦ rw e (scan_loop_unsupported a junk mem max_results regions s)
    ]
