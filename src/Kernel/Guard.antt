-- ===== src/Kernel/Guard.antt =====
-- src/kernel/memory_guard.c: the list of protected regions. Page protections are the operating system's:
-- a record of its two calls is a parameter. Its list keeps the order in which regions were added.
pub mod Pages
pub mod Restoring
use ps.Base.{
  ℕ, zero, suc, ◌+◌, ◌/◌, ◌%◌, ◌^◌, Bool, true, false, not, ◌&&◌, ◌||◌, Option, none, some, List,
  [], ◌∷◌, ◌++◌, ltb, ◌==◌, if◌then◌else◌, access_denied,
}
use ps.Chain.{find_first, remove_first}
use ps.Kernel.Status.{
  NtStatus, status_success, invalid_parameter, access_violation, access_denied, no_memory,
}

-- The PAGE_ constants that the source names, for one page; `other` are those that it does not name.
pub data Access : Type 0 where
  unset noaccess readonly readwrite execute execute_read execute_readwrite : Access
  other : ℕ → Access

-- A protection, with PAGE_GUARD.
pub record Page : Type 0 where
  pub access : Access
  pub guard : Bool

-- flags & (1 << k).
abbrev pub has_flag : ℕ → ℕ → Bool
has_flag k flags = flags / 2 ^ k % 2 == 1

with_write : Bool → Access → Access
with_write false p = p
with_write true p = readwrite

with_execute : Bool → Access → Access
with_execute false p = p
with_execute true readwrite = execute_readwrite
with_execute true readonly = execute_read
with_execute true _ = execute

-- The value that is returned, where 0 stands for the default.
or_default : Page → Page
or_default p = elim p.access [
  | unset ↦ if p.guard then p else record { access = readonly; guard = true }
  | _ ↦ p
]

unfoldable pub convert_flags : ℕ → Page
unfolding with_write with_execute or_default
convert_flags flags =
    if has_flag 4 flags
    then record { access = noaccess; guard = false }
    else (let p = if has_flag 0 flags then readonly else unset in
        or_default (record {
          access = with_execute (has_flag 2 flags) (with_write (has_flag 1 flags) p);
          guard = has_flag 3 flags;
        }))

-- Equality of two protections, as numbers.
unfoldable pub same_access : Access → Access → Bool
same_access unset unset = true
same_access noaccess noaccess = true
same_access readonly readonly = true
same_access readwrite readwrite = true
same_access execute execute = true
same_access execute_read execute_read = true
same_access execute_readwrite execute_readwrite = true
same_access (other m) (other n) = m == n
same_access _ _ = false

abbrev same_bool : Bool → Bool → Bool
same_bool true b = b
same_bool false b = not b

unfoldable pub same_page : Page → Page → Bool
unfolding same_access
same_page p q = same_access p.access q.access && same_bool p.guard q.guard

-- Ps14KernelMemoryRegion.
pub record KernelRegion : Type 0 where
  pub address : ℕ
  pub size : ℕ
  pub protection : ℕ
  pub is_protected : Bool

pub record ProtectedRegion : Type 0 where
  pub region : KernelRegion
  pub original_protect : Page
  pub target_process : ℕ

pub record Guard : Type 0 where
  pub regions : List ProtectedRegion
  pub initialized : Bool

-- The calls on the page tables S: whether an address is mapped, the protection of its page in a process,
-- and a change, which answers with the new tables, the start of the page and the old protection.
pub record VirtualMemory (S : Type 0) : Type 0 where
  pub is_valid : S → ℕ → Bool
  pub query : S → ℕ → ℕ → Option Page
  pub change : S → ℕ → ℕ → ℕ → Page → Option (S × ℕ × Page)

-- The list, a ring of nodes, is emptied.
unfoldable pub guard_init : Guard → NtStatus × Guard
guard_init g = (status_success, record { regions = []; initialized = true })

module _ {S : Type 0} (vm : VirtualMemory S) where
  -- A change whose answer is not looked at.
  unfoldable pub change_back : S → ℕ → ℕ → ℕ → Page → S
  change_back s process address size page = elim (vm.change s process address size page) [
    | none ↦ s
    | some (s', base, old) ↦ s'
  ]

  unfoldable pub restore_all : List ProtectedRegion → S → S
  unfolding change_back
  restore_all [] s = s
  restore_all (r ∷ regions) s =
      restore_all regions
        (change_back s r.target_process r.region.address r.region.size r.original_protect)

  -- The nodes are freed; the ring is entered again only after guard_init.
  unfoldable pub guard_shutdown : S → Guard → NtStatus × S × Guard
  unfolding restore_all
  guard_shutdown s g =
      (status_success, restore_all g.regions s, record { regions = []; initialized = false })

  -- The end of a protection whose pages were changed: `alloc` tells whether the pool has memory.
  unfoldable pub guard_insert :
      Bool → ℕ → Page → Page → KernelRegion → S → Guard → NtStatus × KernelRegion × S × Guard
  unfolding change_back
  guard_insert alloc process current old r s g =
      if not alloc
      then (no_memory, r, change_back s process r.address r.size old, g)
      else (let pr : ProtectedRegion = record {
        region = r;
        original_protect = current;
        target_process = process;
      } in
          (
            status_success,
            record r { is_protected = true },
            s,
            record g { regions = g.regions ++ pr ∷ [] },
          ))

  -- `process` is the caller's; the size of the structure is that of a 64-bit build. The region that is
  -- handed back is the caller's buffer, whose address the change has moved to the start of the page.
  unfoldable pub guard_protect :
      Bool → ℕ → Option KernelRegion → ℕ → S → Guard → NtStatus × Option KernelRegion × S × Guard
  unfolding guard_insert convert_flags
  guard_protect alloc process none size s g = (invalid_parameter, none, s, g)
  guard_protect alloc process (some r) size s g =
      if not g.initialized || ltb size 24 || not (vm.is_valid s r.address)
      then (invalid_parameter, some r, s, g)
      else elim (vm.query s process r.address) [
        | none ↦ (access_violation, some r, s, g)
        | some current ↦ elim (vm.change s process r.address r.size (convert_flags r.protection)) [
          | none ↦ (access_denied, some r, s, g)
          | some (s', base, old) ↦
              let done =
                guard_insert alloc process current old (record r { address = base }) s' g in
              (done.0, some done.1, done.2, done.3)
        ]
      ]

  -- The loop: the first region with the address gets its old protection back and is removed.
  unfoldable pub guard_unprotect :
      Option KernelRegion → ℕ → S → Guard → NtStatus × Option KernelRegion × S × Guard
  unfolding find_first remove_first change_back
  guard_unprotect none size s g = (invalid_parameter, none, s, g)
  guard_unprotect (some r) size s g =
      if not g.initialized || ltb size 24
      then (invalid_parameter, some r, s, g)
      else elim (find_first (λ (pr : ProtectedRegion). pr.region.address == r.address) g.regions) [
        | none ↦ (status_success, some r, s, g)
        | some pr ↦ (
          status_success,
          some (record r { is_protected = false }),
          change_back s pr.target_process pr.region.address pr.region.size pr.original_protect,
          record g {
            regions =
                remove_first (λ (x : ProtectedRegion). x.region.address == r.address) g.regions;
          },
        )
      ]

  -- Whether the protection of a region's page is another than the one that was set.
  unfoldable pub is_violated : S → ProtectedRegion → Bool
  unfolding convert_flags same_page
  is_violated s pr = elim (vm.query s pr.target_process pr.region.address) [
    | none ↦ false
    | some page ↦ not (same_page page (convert_flags pr.region.protection))
  ]

  -- The loop over the ring, with room for `oc - c` more entries.
  unfoldable pub guard_scan_loop : S → ℕ → List ProtectedRegion → List KernelRegion
  unfolding is_violated
  guard_scan_loop s zero regions = []
  guard_scan_loop s (suc room) [] = []
  guard_scan_loop s (suc room) (pr ∷ regions) =
      let hit = guard_scan_loop s room regions in
      let miss = guard_scan_loop s (suc room) regions in
      if is_violated s pr then pr.region ∷ hit else miss

  -- The entries written and the status; their number is not returned.
  unfoldable pub guard_scan : Bool → ℕ → S → Guard → NtStatus × List KernelRegion
  unfolding guard_scan_loop
  guard_scan has_out oc s g =
      if not g.initialized || not has_out || oc == 0
      then (invalid_parameter, [])
      else (status_success, guard_scan_loop s oc g.regions)
