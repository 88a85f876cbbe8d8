-- ===== src/Repair/RoundTrip.antt =====
-- Backing up a region and restoring it, in src/core/repair_system/memory_repair.c.
use ps.Base.{
  ℕ, ◌+◌, ◌≤◌, ◌<◌, ◌≡◌, refl, ap, ◌∙◌, ◌⊎◌, true, false, not, ◌||◌, some, List, ◌∷◌, arith, ◌==◌,
  if◌then◌else◌, ==_refl, length, CString, str_eq, str_eq_refl,
}
use ps.Chain.{find_first}
use ps.Chain.Search.{find_first-update_first}
use ps.Hash.{Algorithm, Hash}
use ps.Hash.Compare.{is_supported, digest_of}
use ps.Memory.{Mem, read_bytes, write_bytes, MemoryRegion, is_region, memory_scan_region, scan_node}
use ps.Memory.Bytes.{length-read_bytes, read_bytes-write, write_bytes-outside}
use ps.Memory.Detection.{Hashes, hash_compute-Hashes, scan_node-Hashes}
use ps.Checkpoints.{repaired}
use ps.Repair.{
  MemoryBackup, Repairs, Process, init_memory_backup, new_backup, backup_memory,
  find_backup_by_address, count_attempt, count_success, restore_from, restore_memory,
}

-- A backup that holds `bytes` for the run at `address`, under the digest of algorithm `a`.
abbrev pub Holds : Algorithm → List ℕ → ℕ → ℕ → MemoryBackup → Type 0
Holds a bytes address size b =
    (b.address ≡ address) × (b.size ≡ size) × (b.bytes ≡ bytes) × Hashes a bytes b.hash

newest :
    (b : MemoryBackup) (s : Repairs)
    → find_backup_by_address b.address (record s { backups = b ∷ s.backups }) ≡ some b
unfolding find_backup_by_address
newest b s = rw (==_refl b.address)

-- With memory for the backup, backing up a named region of one or more bytes at an address other than
-- NULL puts a backup of the bytes that the region has then in front, hashed with the algorithm; it is
-- the one that a search for the address finds, whether or not the repair system was initialised.
pub backup_memory-Holds :
    (a : Algorithm) (junk : Hash) (mem : Mem) (tick p : ℕ) (name : CString) (address size : ℕ)
    (s : Repairs)
    → is_supported a ≡ true
    → 0 < address
    → 0 < size
    → let r = backup_memory a junk mem tick (some p) true (some name) address size s in
      (b : MemoryBackup) × (r.0 ≡ some b)
      × (find_backup_by_address address r.1 ≡ some b)
      × Holds a (read_bytes mem address size) address size b
unfolding backup_memory
backup_memory-Holds a junk mem tick p name address size s sup h k = (
  new_backup a junk mem tick p address size,
  rw valid refl,
  rw valid (
      newest (new_backup a junk mem tick p address size)
        (if s.initialized then s else (init_memory_backup s).1)),
  (
    refl,
    refl,
    refl,
    (hash_compute-Hashes a (read_bytes mem address size) junk sup
        (omega (arith, length-read_bytes mem address size))).1,
  ),
)
  where
    valid : (address == 0 || size == 0) ≡ false
    valid = ground arith

-- The region with both hashes taken from the backup.
abbrev rehashed : MemoryBackup → MemoryRegion → MemoryRegion
rehashed b r = record r { hash = b.hash; last_good_hash = b.hash }

quiet :
    (a : Algorithm) (junk : Hash) (bytes : List ℕ) (r : MemoryRegion) (mem : Mem)
    → is_supported a ≡ true
    → 0 < r.size
    → Hashes a bytes r.last_good_hash
    → read_bytes mem r.base_address r.size ≡ bytes
    → (scan_node a junk mem r).0 ≡ false
quiet a junk bytes r mem s pos g e =
    (scan_node-Hashes a junk mem r bytes s pos g).0
    ∙ ap (λ d. not (str_eq (digest_of a d) (digest_of a bytes))) e
    ∙ ap not (str_eq_refl (digest_of a bytes))

restored :
    (a : Algorithm) (junk : Hash) (bytes : List ℕ) (b : MemoryBackup) (r : MemoryRegion)
    (q : Process)
    → is_supported a ≡ true
    → 0 < r.size
    → length bytes ≡ r.size
    → Holds a bytes r.base_address r.size b
    → find_first (is_region r.node) q.regions ≡ some r
    → let t = restore_from (some b) r q in
      (t.0 ≡ repaired)
      × (read_bytes t.1.mem r.base_address r.size ≡ bytes)
      × ((x : ℕ) → (x < r.base_address) ⊎ (r.base_address + r.size ≤ x) → t.1.mem x ≡ q.mem x)
      × (t.1.repairs ≡ count_success q.repairs)
      × (r' : MemoryRegion) × (find_first (is_region r.node) t.1.regions ≡ some r')
      × ((memory_scan_region a junk t.1.mem (some r') t.1.regions).0 ≡ false)
unfolding restore_from memory_scan_region
restored a junk bytes b r q s pos len holds at = (
  refl,
  back,
  λ x out. write_bytes-outside q.mem r.base_address b.bytes x (ground (arith, ap length holds.2)),
  refl,
  rehashed b r,
  find_first-update_first (is_region r.node) (rehashed b) q.regions {x = r} (λ x e. e) at,
  quiet a junk bytes (rehashed b r) (write_bytes q.mem r.base_address b.bytes) s pos holds.3 back,
)
  where
    back : read_bytes (write_bytes q.mem r.base_address b.bytes) r.base_address r.size ≡ bytes
    back = read_bytes-write q.mem r.base_address r.size b.bytes (ap length holds.2 ∙ len) ∙ holds.2

-- Restoring a region from a backup of its run brings the bytes back and touches no other byte; both
-- counters go up, and a scan of the restored region reports nothing.
pub restore_memory-Holds :
    (a : Algorithm) (junk : Hash) (bytes : List ℕ) (b : MemoryBackup) (r : MemoryRegion)
    (q : Process)
    → is_supported a ≡ true
    → 0 < r.size
    → length bytes ≡ r.size
    → Holds a bytes r.base_address r.size b
    → find_backup_by_address r.base_address q.repairs ≡ some b
    → find_first (is_region r.node) q.regions ≡ some r
    → let t = restore_memory (some r) q in
      (t.0 ≡ repaired)
      × (read_bytes t.1.mem r.base_address r.size ≡ bytes)
      × ((x : ℕ) → (x < r.base_address) ⊎ (r.base_address + r.size ≤ x) → t.1.mem x ≡ q.mem x)
      × (t.1.repairs ≡ count_success (count_attempt q.repairs))
      × (r' : MemoryRegion) × (find_first (is_region r.node) t.1.regions ≡ some r')
      × ((memory_scan_region a junk t.1.mem (some r') t.1.regions).0 ≡ false)
unfolding restore_memory
restore_memory-Holds a junk bytes b r q s pos len holds found at =
    rw found (
      restored a junk bytes b r (record q { repairs = count_attempt q.repairs }) s pos len holds at)

-- Whatever happens to the memory between the two calls, restoring a region after its backup succeeds
-- and gives the region the bytes that it had when it was backed up; no byte outside the region changes,
-- and a scan of the region then reports nothing. (Supported algorithm, memory for the backup, region of
-- one or more bytes not at NULL, in the list under its address.)
pub restore_memory-backup :
    (a : Algorithm) (junk junk' : Hash) (mem mem' : Mem) (tick p : ℕ) (name : CString)
    (r : MemoryRegion) (regions : List MemoryRegion) (s : Repairs)
    → is_supported a ≡ true
    → 0 < r.base_address
    → 0 < r.size
    → find_first (is_region r.node) regions ≡ some r
    → let saved =
        (backup_memory a junk mem tick (some p) true (some name) r.base_address r.size s).1 in
      let t = restore_memory (some r) (record { mem = mem'; regions = regions; repairs = saved }) in
      (t.0 ≡ repaired)
      × (read_bytes t.1.mem r.base_address r.size ≡ read_bytes mem r.base_address r.size)
      × ((x : ℕ) → (x < r.base_address) ⊎ (r.base_address + r.size ≤ x) → t.1.mem x ≡ mem' x)
      × (r' : MemoryRegion) × (find_first (is_region r.node) t.1.regions ≡ some r')
      × ((memory_scan_region a junk' t.1.mem (some r') t.1.regions).0 ≡ false)
restore_memory-backup a junk junk' mem mem' tick p name r regions s sup h k at =
    let (b, e, found, holds) =
      backup_memory-Holds a junk mem tick p name r.base_address r.size s sup h k in
    let q : Process = record {
      mem = mem';
      regions = regions;
      repairs = (backup_memory a junk mem tick (some p) true (some name) r.base_address r.size s).1;
    } in
    let t =
      restore_memory-Holds a junk' (read_bytes mem r.base_address r.size) b r q sup k
        (length-read_bytes mem r.base_address r.size) holds found at in
    (t.0, t.1, t.2, t.4, t.5, t.6)
