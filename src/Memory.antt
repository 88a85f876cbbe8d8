-- ===== src/Memory.antt =====
-- src/core/memory_monitor/memory_scanner.c with include/ps14/memory.h: the monitored regions, from
-- g_regions on, and the process memory that they lie in. A region is known by the address of its
-- node. `a` is the configured integrity_checker.hash_algorithm (ps14_config_get never returns NULL),
-- `junk` what an uninitialised hash holds.
pub mod Pages
pub mod Audit
pub mod Bytes
pub mod Detection
pub mod Scanning
use ps.Base.{not}
use ps.Base.{
  ℕ, zero, suc, ◌+◌, ◌-◌, Bool, true, false, ◌&&◌, ◌||◌, Option, none, some, List, [], ◌∷◌, ◌++◌,
  ltb, leb, ◌==◌, if◌then◌else◌, length, get_or, take, Status, is_success, CString, max_name,
  strncpy, str_eq,
}
use ps.Chain.{find_first, update_first, remove_first}
use ps.Hash.{Algorithm, Hash, hash_compute, hash_compare}

-- A byte for each address.
abbrev pub Mem : Type 0
Mem = ℕ → ℕ

unfoldable pub read_bytes : Mem → ℕ → ℕ → List ℕ
read_bytes mem address zero = []
read_bytes mem address (suc n) = mem address ∷ read_bytes mem (address + 1) n

-- memcpy of the bytes to the address.
unfoldable pub write_bytes : Mem → ℕ → List ℕ → Mem
write_bytes mem address bytes x =
    if leb address x && ltb x (address + length bytes) then get_or bytes (x - address) 0 else mem x

pub record MemoryRegion : Type 0 where
  pub node : ℕ
  pub name : CString
  pub base_address : ℕ
  pub size : ℕ
  pub hash : Hash
  pub last_good_hash : Hash
  pub is_protected : Bool

abbrev pub is_region : ℕ → MemoryRegion → Bool
is_region p r = r.node == p

-- The region that ps14_memory_add_region fills in at address p of the heap.
unfoldable pub new_region : Algorithm → Hash → Mem → ℕ → CString → ℕ → ℕ → MemoryRegion
unfolding hash_compute read_bytes
new_region a junk mem p name address size =
    let hash = (hash_compute a (some (read_bytes mem address size)) junk).1 in
    record {
      node = p;
      name = strncpy max_name name;
      base_address = address;
      size = size;
      hash = hash;
      last_good_hash = hash;
      is_protected = false;
    }

-- The NULL address is 0; `alloc` is what malloc returns.
unfoldable pub memory_add_region :
    Algorithm
    → Hash
    → Mem
    → Option ℕ
    → Option CString
    → ℕ
    → ℕ
    → List MemoryRegion
    → Option MemoryRegion × List MemoryRegion
unfolding new_region
memory_add_region a junk mem alloc none address size regions = (none, regions)
memory_add_region a junk mem none (some name) address size regions = (none, regions)
memory_add_region a junk mem (some p) (some name) address size regions =
    if address == 0 || size == 0
    then (none, regions)
    else let r = new_region a junk mem p name address size in (some r, r ∷ regions)

unfoldable pub memory_remove_region : Option MemoryRegion → List MemoryRegion → List MemoryRegion
unfolding remove_first
memory_remove_region none regions = regions
memory_remove_region (some r) regions = remove_first (is_region r.node) regions

unfoldable pub memory_find_region : Option CString → List MemoryRegion → Option MemoryRegion
unfolding find_first
memory_find_region none regions = none
memory_find_region (some name) regions = find_first (λ r. str_eq r.name name) regions

-- The comparison with the last good hash, and the region with its hash field as it is left.
scan_compared : Status × Hash → MemoryRegion → Bool × MemoryRegion
unfolding hash_compare
scan_compared (status, current) r =
    if is_success status
    then (if hash_compare current r.last_good_hash
        then (false, r)
        else (true, record r { hash = current }))
    else (false, r)

-- ps14_memory_scan_region on the node itself: whether it was tampered with, and the node afterwards.
unfoldable pub scan_node : Algorithm → Hash → Mem → MemoryRegion → Bool × MemoryRegion
unfolding scan_compared hash_compute read_bytes
scan_node a junk mem r =
    scan_compared (hash_compute a (some (read_bytes mem r.base_address r.size)) junk) r

-- The same through a pointer to a node of the list.
unfoldable pub memory_scan_region :
    Algorithm → Hash → Mem → Option MemoryRegion → List MemoryRegion → Bool × List MemoryRegion
unfolding scan_node update_first
memory_scan_region a junk mem none regions = (false, regions)
memory_scan_region a junk mem (some r) regions = (
  (scan_node a junk mem r).0,
  update_first (is_region r.node) (λ x. (scan_node a junk mem r).1) regions,
)

pub record ScanResult : Type 0 where
  pub region : ℕ
  pub timestamp : ℕ
  pub tampered : Bool
  pub tamper_type : ℕ
  pub description : CString

-- "Hash mismatch in region ".
abbrev mismatch_message : CString
mismatch_message =
    72 ∷ 97 ∷ 115 ∷ 104 ∷ 32 ∷ 109 ∷ 105 ∷ 115 ∷ 109 ∷ 97 ∷ 116 ∷ 99 ∷ 104 ∷ 32 ∷ 105 ∷ 110 ∷ 32
    ∷ 114 ∷ 101 ∷ 103 ∷ 105 ∷ 111 ∷ 110 ∷ 32 ∷ []

-- The entry that the loop writes; PS14_TAMPER_DATA_MODIFIED is 1.
unfoldable pub tamper_result : MemoryRegion → ScanResult
tamper_result r = record {
  region = r.node;
  timestamp = 0;
  tampered = true;
  tamper_type = 1;
  description = take 255 (mismatch_message ++ r.name);
}

-- One round of the loop: a node that was tampered with takes one place of the results.
scan_put :
    Bool × MemoryRegion
    → List ScanResult × List MemoryRegion
    → List ScanResult × List MemoryRegion
    → List ScanResult × List MemoryRegion
unfolding tamper_result
scan_put (true, r) hit miss = (tamper_result r ∷ hit.0, r ∷ hit.1)
scan_put (false, r) hit miss = (miss.0, r ∷ miss.1)

-- while (curr && tampered_count < max_results), on the room that is left: the entries written and
-- the regions afterwards.
unfoldable pub scan_loop :
    Algorithm → Hash → Mem → ℕ → List MemoryRegion → List ScanResult × List MemoryRegion
unfolding scan_node scan_put
scan_loop a junk mem zero regions = ([], regions)
scan_loop a junk mem (suc room) [] = ([], [])
scan_loop a junk mem (suc room) (r ∷ regions) =
    let hit = scan_loop a junk mem room regions in
    let miss = scan_loop a junk mem (suc room) regions in scan_put (scan_node a junk mem r) hit miss

-- The number of entries is what the callers take as the result; `results` tells whether the array is
-- given.
unfoldable pub memory_scan_all :
    Algorithm → Hash → Mem → Bool → ℕ → List MemoryRegion → List ScanResult × List MemoryRegion
unfolding scan_loop
memory_scan_all a junk mem results max_results regions =
    if not results || max_results == 0
    then ([], regions)
    else scan_loop a junk mem max_results regions
