-- ===== src/Server/Table.antt =====
-- An array of slots and the count of those in use, with the loops of src/server/ban_manager.c and
-- src/server/session_store.c over it.
pub mod Refinement
use ps.Base.{
  ℕ, zero, suc, ◌+◌, ◌-◌, Bool, true, false, Option, none, some, List, leb, if◌then◌else◌, get_or,
  set,
}

pub record Table {ℓ} (A : Type ℓ) : Type ℓ where
  pub slots : List A
  pub count : ℕ

-- The number of slots of each array.
abbrev pub capacity : ℕ
capacity = 1024

module _ {ℓ} {A : Type ℓ} where
  -- if (count >= 1024) return false; slots[count] = v; count++;
  unfoldable pub append_slot : A → Table A → Bool × Table A
  append_slot v t =
      if leb capacity t.count
      then (false, t)
      else (true, record { slots = set t.slots t.count v; count = t.count + 1 })

  -- for (j = i; j < count - 1; j++) slots[j] = slots[j + 1], on the number of rounds left.
  unfoldable pub shift_loop : ℕ → ℕ → A → List A → List A
  shift_loop zero j d slots = slots
  shift_loop (suc n) j d slots = shift_loop n (j + 1) d (set slots j (get_or slots (j + 1) d))

  -- for (i = 0; i < count; i++) if (test) ..., from index i on with n rounds left: the first index.
  unfoldable pub find_slot : (A → Bool) → ℕ → ℕ → A → List A → Option ℕ
  find_slot test zero i d slots = none
  find_slot test (suc n) i d slots =
      let later = find_slot test n (i + 1) d slots in
      if test (get_or slots i d) then some i else later

  -- The slot found is closed by shifting those behind it. `d` is an all-zero slot, which no index
  -- below the capacity reads.
  remove_at : Option ℕ → A → Table A → Bool × Table A
  unfolding shift_loop
  remove_at none d t = (false, t)
  remove_at (some i) d t =
      (true, record { slots = shift_loop (t.count - 1 - i) i d t.slots; count = t.count - 1 })

  unfoldable pub remove_slot : (A → Bool) → A → Table A → Bool × Table A
  unfolding remove_at find_slot
  remove_slot test d t = remove_at (find_slot test t.count 0 d t.slots) d t
