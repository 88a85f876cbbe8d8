-- ===== src/Memory/Pages.antt =====
-- src/core/memory_monitor/page_auditor.c. On Windows the system's answers are arguments; elsewhere each
-- function returns a constant.
use ps.Base.{
  ℕ, zero, suc, ◌+◌, ◌-◌, ◌≤◌, ◌<◌, ◌≡◌, refl, inl, inr, Bool, true, false, not, ◌&&◌, ◌||◌, Option,
  none, some, List, [], ◌∷◌, arith, ltb, leb, ◌==◌, if◌then◌else◌, Bool-cases, Option-cases, length,
  Status, success, unknown,
}
use ps.Memory.{MemoryRegion}
use ps.Kernel.Guard.{Page, readonly, readwrite, execute_read, execute_readwrite}

-- What VirtualQuery tells of an address: the run of pages with one protection that it lies in.
pub record PageInfo : Type 0 where
  pub base_address : ℕ
  pub region_size : ℕ
  pub protect : Page

-- The protections that count as writable, and those that count as protected, without further flags.
unfoldable pub is_writable : Page → Bool
is_writable p =
    not p.guard && (elim p.access [ readwrite ↦ true | execute_readwrite ↦ true | _ ↦ false ])

unfoldable pub is_read_only : Page → Bool
is_read_only p =
    not p.guard && (elim p.access [ readonly ↦ true | execute_read ↦ true | _ ↦ false ])

-- The walk of ps14_page_audit_process over the runs, which only logs; its count stays 0. A run that does
-- not end behind the address would make it go on without end, and `none` is fuel that ran out.
unfoldable pub audit_process_loop : ℕ → (ℕ → Option PageInfo) → ℕ → Option ℕ
audit_process_loop zero query address = none
audit_process_loop (suc fuel) query address = elim (query address) [
  | none ↦ some 0
  | some p ↦ audit_process_loop fuel query (p.base_address + p.region_size)
]

-- `none` for a NULL handle is the code of an invalid argument.
unfoldable pub page_audit_process : ℕ → Bool → (ℕ → Option PageInfo) → ℕ → Option ℕ
unfolding audit_process_loop
page_audit_process fuel handle query max_results =
    if not handle
    then some 3
    else (if max_results == 0 then some 0 else audit_process_loop fuel query 0)

unfoldable pub page_is_protected : (ℕ → Option PageInfo) → ℕ → Status
unfolding is_read_only
page_is_protected query address = elim (query address) [
  | none ↦ unknown
  | some p ↦ if is_read_only p.protect then success else unknown
]

-- `changed` tells whether VirtualProtect succeeds.
unfoldable pub page_set_protection : Bool → Status
page_set_protection changed = if changed then success else unknown

unfoldable pub page_get_protection : (ℕ → Option PageInfo) → ℕ → Status × Option Page
page_get_protection query address = elim (query address) [
  | none ↦ (unknown, none)
  | some p ↦ (success, some p.protect)
]

-- Whether the run holds the address and is writable.
unfoldable pub is_violation : ℕ → PageInfo → Bool
unfolding is_writable
is_violation address p =
    leb p.base_address address
    && (ltb address (p.base_address + p.region_size) && is_writable p.protect)

-- while (addr < end && tampered_count < max_results), with the room that is left: the starts of the runs
-- that are written to the results.
unfoldable pub audit_region_loop : ℕ → (ℕ → Option PageInfo) → ℕ → ℕ → ℕ → Option (List ℕ)
unfolding is_violation
audit_region_loop zero query address end room = none
audit_region_loop (suc fuel) query address end room =
    if not (ltb address end) || room == 0 then some [] else elim (query address) [
      | none ↦ some []
      | some p ↦ elim (is_violation address p) [
        | true ↦
            elim (audit_region_loop fuel query (p.base_address + p.region_size) end (room - 1)) [
              | none ↦ none
              | some found ↦ some (p.base_address ∷ found)
            ]
        | false ↦ audit_region_loop fuel query (p.base_address + p.region_size) end room
      ]
    ]

-- A round for each byte of the region, and one to end.
unfoldable pub page_audit_region : (ℕ → Option PageInfo) → MemoryRegion → ℕ → Option (List ℕ)
unfolding audit_region_loop
page_audit_region query r max_results =
    audit_region_loop (suc r.size) query r.base_address (r.base_address + r.size) max_results

audit_region_loop_ends :
    (query : ℕ → Option PageInfo)
    → ((a : ℕ) (p : PageInfo) → query a ≡ some p → a < p.base_address + p.region_size)
    → (fuel address end room : ℕ) → end - address < fuel
    → (found : List ℕ) × (audit_region_loop fuel query address end room ≡ some found)
      × (length found ≤ room)
unfolding audit_region_loop
audit_region_loop_ends query law zero address end room h = absurd (omega arith)
audit_region_loop_ends query law (suc fuel) address end room h =
    elim (Bool-cases (not (ltb address end) || room == 0)) [
      | inl e ↦ rw e ([], refl, omega arith)
      | inr e ↦ elim (Option-cases (query address)) [
        | inl q ↦ rw (e, q) ([], refl, omega arith)
        | inr (p, q) ↦
            let further : end - (p.base_address + p.region_size) < fuel =
              ground (arith, law address p q) in
            elim (Bool-cases (is_violation address p)) [
              | inl v ↦
                  let r =
                    audit_region_loop_ends query law fuel (p.base_address + p.region_size) end
                      (room - 1) further in
                  rw (e, q, v, r.1) (p.base_address ∷ r.0, refl, ground (arith, r.2))
              | inr v ↦
                  rw (e, q, v)
                    (audit_region_loop_ends query law fuel (p.base_address + p.region_size) end room
                      further)
            ]
      ]
    ]

-- The audit of a region ends, and finds no more than there is room for, where each answer of VirtualQuery
-- is a run that ends behind the address that it was asked for.
pub page_audit_region_ends :
    (query : ℕ → Option PageInfo) (r : MemoryRegion) (max_results : ℕ)
    → ((a : ℕ) (p : PageInfo) → query a ≡ some p → a < p.base_address + p.region_size)
    → (found : List ℕ) × (page_audit_region query r max_results ≡ some found)
      × (length found ≤ max_results)
unfolding page_audit_region
page_audit_region_ends query r max_results law =
    audit_region_loop_ends query law (suc r.size) r.base_address (r.base_address + r.size)
      max_results (omega arith)
