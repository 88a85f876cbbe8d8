-- ===== src/Kernel/Guard/Restoring.antt =====
-- Protecting a region and taking the protection back, src/kernel/memory_guard.c.
use ps.Base.{
  ◌∙◌, ==_refl, false, ◌≢◌, ℕ, ◌≡◌, refl, Bool, true, none, some, List, [], ◌∷◌, ◌++◌, arith, ◌==◌,
}
use ps.Kernel.Guard.{
  change_back, guard_unprotect, Page, KernelRegion, ProtectedRegion, Guard, VirtualMemory,
  convert_flags, guard_insert, guard_protect,
}
use ps.Chain.{find_first, remove_first}
use ps.Kernel.Status.{status_success}

module _ {ℓ} {A : Type ℓ} (t : A → Bool) where
  -- A search that fails goes on to what is appended.
  find_first-append :
      (xs : List A) (y : A)
      → find_first t xs ≡ none
      → find_first t (xs ++ y ∷ []) ≡ find_first t (y ∷ [])
  unfolding find_first
  find_first-append [] y h = refl
  find_first-append (x ∷ xs) y h = ground (arith, find_first-append xs y)

  remove_first-append :
      (xs : List A) (y : A)
      → find_first t xs ≡ none
      → t y ≡ true
      → remove_first t (xs ++ y ∷ []) ≡ xs
  unfolding find_first remove_first
  remove_first-append [] y h k = rw k
  remove_first-append (x ∷ xs) y h k = ground (arith, remove_first-append xs y)

abbrev pub is_at : ℕ → ProtectedRegion → Bool
is_at address pr = pr.region.address == address

module _ {S : Type 0} (vm : VirtualMemory S) (r : KernelRegion) (s : S) (g : Guard) where
  guard_unprotect_found :
      (pr : ProtectedRegion)
      → g.initialized ≡ true
      → find_first (is_at r.address) g.regions ≡ some pr
      → guard_unprotect vm (some r) 24 s g ≡ (
        status_success,
        some (record r { is_protected = false }),
        change_back vm s pr.target_process pr.region.address pr.region.size pr.original_protect,
        record g { regions = remove_first (is_at r.address) g.regions },
      )
  unfolding guard_unprotect
  guard_unprotect_found pr on e = ground arith

  guard_unprotect_missing :
      g.initialized ≡ true
      → find_first (is_at r.address) g.regions ≡ none
      → guard_unprotect vm (some r) 24 s g ≡ (status_success, some r, s, g)
  unfolding guard_unprotect
  guard_unprotect_missing on e = ground arith

module _ {S : Type 0} (vm : VirtualMemory S) (process base : ℕ) (r : KernelRegion) (s s' : S)
    (current old : Page) (g : Guard) where
  abbrev pub entry : ProtectedRegion
  entry = record {
    region = record r { address = base };
    original_protect = current;
    target_process = process;
  }

  guard_protect-eq :
      g.initialized ≡ true
      → vm.is_valid s r.address ≡ true
      → vm.query s process r.address ≡ some current
      → vm.change s process r.address r.size (convert_flags r.protection) ≡ some (s', base, old)
      → guard_protect vm true process (some r) 24 s g ≡ (
        status_success,
        some (record r { address = base; is_protected = true }),
        s',
        record g { regions = g.regions ++ entry ∷ [] },
      )
  unfolding guard_protect guard_insert
  guard_protect-eq on valid q c = ground arith

  entry_found :
      find_first (is_at base) g.regions ≡ none
      → find_first (is_at base) (g.regions ++ entry ∷ []) ≡ some entry
  entry_found free =
      find_first-append (is_at base) g.regions entry free ∙ (unfold find_first in rw (==_refl base))

  entry_removed :
      find_first (is_at base) g.regions ≡ none
      → remove_first (is_at base) (g.regions ++ entry ∷ []) ≡ g.regions
  entry_removed free = remove_first-append (is_at base) g.regions entry free (==_refl base)

  change_back-eq :
      (s2 : S) (base2 : ℕ) (old2 : Page)
      → vm.change s' process base r.size current ≡ some (s2, base2, old2)
      → change_back vm s' process base r.size current ≡ s2
  unfolding change_back
  change_back-eq s2 base2 old2 c2 = rw (c2, change_back)

  -- A program that protects a region and takes the protection back with the structure that the call
  -- filled in gives the page its protection, and the list is the one before. (A driver that is
  -- initialised, a mapped address that can be asked, changes that succeed, no other entry at the start
  -- of the page, and page tables that answer with the protection that was set.)
  pub guard_unprotect-protect :
      (s2 : S) (base2 : ℕ) (old2 : Page)
      → ((a n : ℕ) (t t' : S) (page o : Page) (b : ℕ)
          → vm.change t process a n page ≡ some (t', b, o)
          → vm.query t' process a ≡ some page)
      → g.initialized ≡ true
      → vm.is_valid s r.address ≡ true
      → vm.query s process r.address ≡ some current
      → vm.change s process r.address r.size (convert_flags r.protection) ≡ some (s', base, old)
      → vm.change s' process base r.size current ≡ some (s2, base2, old2)
      → find_first (is_at base) g.regions ≡ none
      → let protected = guard_protect vm true process (some r) 24 s g in
        let back = guard_unprotect vm protected.1 24 protected.2 protected.3 in
        (protected.0 ≡ status_success)
        × (back.0 ≡ status_success)
        × (vm.query back.2 process base ≡ some current)
        × (back.3 ≡ g)
  guard_unprotect-protect s2 base2 old2 law on valid q c c2 free =
      let filled : KernelRegion = record r { address = base; is_protected = true } in
      let g' : Guard = record g { regions = g.regions ++ entry ∷ [] } in
      let query : vm.query s2 process base ≡ some current =
        law base r.size s' s2 current old2 base2 c2 in
      rw
        (
          guard_protect-eq on valid q c,
          guard_unprotect_found vm filled s' g' entry on (entry_found free),
          change_back-eq s2 base2 old2 c2,
          entry_removed free,
        )
        (refl, refl, query, refl)

  -- A region that does not start at a page cannot be unprotected by its address: the entry has the start
  -- of the page. The call reports a success and changes nothing, and the structure still says protected.
  pub guard_unprotect_unaligned :
      g.initialized ≡ true
      → vm.is_valid s r.address ≡ true
      → vm.query s process r.address ≡ some current
      → vm.change s process r.address r.size (convert_flags r.protection) ≡ some (s', base, old)
      → base ≢ r.address
      → find_first (is_at r.address) g.regions ≡ none
      → let protected = guard_protect vm true process (some r) 24 s g in
        (protected.3.regions ≡ g.regions ++ entry ∷ [])
        × (guard_unprotect vm (some (record r { is_protected = true })) 24 protected.2 protected.3
            ≡ (status_success, some (record r { is_protected = true }), protected.2, protected.3))
  guard_unprotect_unaligned on valid q c moved free =
      let other_start : find_first (is_at r.address) (entry ∷ []) ≡ none =
        unfold find_first in rw (let p : (base == r.address) ≡ false = ground arith in p) in
      rw (guard_protect-eq on valid q c) (
        refl,
        guard_unprotect_missing vm (record r { is_protected = true }) s'
            (record g { regions = g.regions ++ entry ∷ [] }) on
            (find_first-append (is_at r.address) g.regions entry free ∙ other_start),
      )
