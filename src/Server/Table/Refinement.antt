-- ===== src/Server/Table/Refinement.antt =====
-- The server's tables as lists: what the loops over an array and a count do to the slots in use.
use mathlib.Core.Option
use mathlib.Core.Path.{ap₂, subst}
use ps.Base.{
  ℕ, zero, suc, ◌+◌, ◌-◌, ◌≤◌, ◌<◌, ◌≡◌, refl, sym, ap, ◌∙◌, ◌↔◌, inl, inr, Bool, true, false,
  Option, none, some, List, [], ◌∷◌, ◌++◌, arith, ltb, leb, if◌then◌else◌, Bool-cases, length,
  get_or, set, take, length-set, length-take,
}
use ps.Chain.{find_first, remove_first}
use ps.Server.Table.{Table, capacity, append_slot, shift_loop, find_slot, remove_at, remove_slot}

-- The slots in use.
abbrev pub live {ℓ} : {A : Type ℓ} → Table A → List A
live t = take t.count t.slots

-- The array has its size, and the count is within it.
pub record IsTable {ℓ} {A : Type ℓ} (t : Table A) : Type 0 where
  pub sized : length t.slots ≡ capacity
  pub within : t.count ≤ capacity

suc_add_one : (i : ℕ) → suc i + 1 ≡ suc (i + 1)
suc_add_one i = omega arith

module _ {ℓ} {A : Type ℓ} where
  shift_loop-cons :
      (n i : ℕ) (d x : A) (xs : List A) → shift_loop n (suc i) d (x ∷ xs) ≡ x ∷ shift_loop n i d xs
  unfolding shift_loop
  shift_loop-cons zero i d x xs = refl
  shift_loop-cons (suc n) i d x xs =
      rw (suc_add_one i) (shift_loop-cons n (i + 1) d x (set xs i (get_or xs (i + 1) d)))

  -- Shifting from the first slot on drops it.
  take-shift_loop :
      (n : ℕ) (d x : A) (xs : List A)
      → n ≤ length xs
      → take n (shift_loop n 0 d (x ∷ xs)) ≡ take n xs
  unfolding shift_loop
  take-shift_loop zero d x xs h = refl
  take-shift_loop (suc n) d x [] h = absurd (omega arith)
  take-shift_loop (suc n) d x (y ∷ ys) h =
      ap (take (suc n)) (shift_loop-cons n 0 d y (y ∷ ys))
      ∙ ap (◌∷◌ y) (take-shift_loop n d y ys (omega arith))

  take-set-append :
      (n : ℕ) (xs : List A) (v : A)
      → n < length xs
      → take (n + 1) (set xs n v) ≡ take n xs ++ v ∷ []
  take-set-append n [] v h = absurd (omega arith)
  take-set-append zero (x ∷ xs) v h = refl
  take-set-append (suc n) (x ∷ xs) v h =
      rw (suc_add_one n) (ap (◌∷◌ x) (take-set-append n xs v (omega arith)))

  module _ (test : A → Bool) (d : A) where
    find_slot-cons :
        (n i : ℕ) (x : A) (xs : List A)
        → find_slot test n (suc i) d (x ∷ xs) ≡ Option.map suc (find_slot test n i d xs)
    unfolding find_slot
    find_slot-cons zero i x xs = refl
    find_slot-cons (suc n) i x xs = elim (Bool-cases (test (get_or xs i d))) [
      | inl e ↦ rw e refl
      | inr e ↦ rw (e, suc_add_one i) (find_slot-cons n (i + 1) x xs)
    ]

    -- What a removal at the slot found leaves of the first n slots, and whether there was one.
    abbrev Removes : ℕ → List A → Option ℕ → Type ℓ
    Removes n slots none =
        (find_first test (take n slots) ≡ none) × (remove_first test (take n slots) ≡ take n slots)
    Removes n slots (some i) =
        (i < n)
        × ((a : A) × (find_first test (take n slots) ≡ some a))
        × (take (n - 1) (shift_loop (n - 1 - i) i d slots) ≡ remove_first test (take n slots))

    Removes-suc :
        (n : ℕ) (x : A) (xs : List A) (o : Option ℕ)
        → test x ≡ false
        → Removes n xs o
        → Removes (suc n) (x ∷ xs) (Option.map suc o)
    unfolding find_first remove_first
    Removes-suc n x xs none e r = rw e (r.0, ap (◌∷◌ x) r.1)
    Removes-suc n x xs (some i) e r = (
      omega (arith, r.0),
      (r.1.0, rw e r.1.1),
      rw e (
          ap₂ (λ m k. take m (shift_loop k (suc i) d (x ∷ xs)))
            (let p : suc n - 1 ≡ suc (n - 1) = omega (arith, r.0) in p)
            (let q : suc n - 1 - suc i ≡ n - 1 - i = omega arith in q)
          ∙ ap (take (suc (n - 1))) (shift_loop-cons (n - 1 - i) i d x xs)
          ∙ ap (◌∷◌ x) r.2),
    )

    find_slot-Removes :
        (n : ℕ) (slots : List A) → n ≤ length slots → Removes n slots (find_slot test n 0 d slots)
    unfolding find_slot find_first remove_first
    find_slot-Removes zero slots h = (refl, refl)
    find_slot-Removes (suc n) [] h = absurd (omega arith)
    find_slot-Removes (suc n) (x ∷ xs) h = elim (Bool-cases (test x)) [
      | inl e ↦
          subst (Removes (suc n) (x ∷ xs))
            (let p : some 0 ≡ find_slot test (suc n) 0 d (x ∷ xs) = rw e refl in p)
            (
              omega arith,
              (x, rw e refl),
              rw e (
                  ap₂ (λ m k. take m (shift_loop k 0 d (x ∷ xs)))
                    (let p : suc n - 1 ≡ n = omega arith in p)
                    (let q : suc n - 1 - 0 ≡ n = omega arith in q)
                  ∙ take-shift_loop n d x xs (omega arith)),
            )
      | inr e ↦
          subst (Removes (suc n) (x ∷ xs))
            (let p : Option.map suc (find_slot test n 0 d xs)
                  ≡ find_slot test (suc n) 0 d (x ∷ xs) =
                rw e (sym (find_slot-cons n 0 x xs)) in
              p)
            (Removes-suc n x xs (find_slot test n 0 d xs) e (find_slot-Removes n xs (omega arith)))
    ]

    length-shift_loop : (n j : ℕ) (slots : List A) → length (shift_loop n j d slots) ≡ length slots
    unfolding shift_loop
    length-shift_loop zero j slots = refl
    length-shift_loop (suc n) j slots =
        length-shift_loop n (j + 1) (set slots j (get_or slots (j + 1) d))
        ∙ length-set slots j (get_or slots (j + 1) d)

    remove_at-lists :
        (t : Table A) (o : Option ℕ)
        → IsTable t
        → Removes t.count t.slots o
        → IsTable (remove_at o d t).1
          × (live (remove_at o d t).1 ≡ remove_first test (live t))
          × (((remove_at o d t).0 ≡ false) ↔ (find_first test (live t) ≡ none))
    unfolding remove_at
    remove_at-lists t none w r = (w, sym r.1, (λ e. r.0, λ e. refl))
    remove_at-lists t (some i) w r = (
      record {
        sized = length-shift_loop (t.count - 1 - i) i t.slots ∙ w.sized;
        within = omega (arith, w.within);
      },
      r.2,
      (λ e. cc, λ e. cc r.1.1),
    )

    -- On a well-formed table, removing is removing from the list of the slots in use: the first slot
    -- that passes the test goes, and the order of the others stays. It answers no exactly if no slot in
    -- use passes.
    pub remove_slot-live :
        (t : Table A)
        → IsTable t
        → IsTable (remove_slot test d t).1
          × (live (remove_slot test d t).1 ≡ remove_first test (live t))
          × (((remove_slot test d t).0 ≡ false) ↔ (find_first test (live t) ≡ none))
    unfolding remove_slot
    remove_slot-live t w =
        remove_at-lists t (find_slot test t.count 0 d t.slots) w
          (find_slot-Removes t.count t.slots (omega (arith, w.sized, w.within)))

  -- On a well-formed table, appending is refused exactly if all 1024 slots are in use, and then changes
  -- nothing; otherwise the value goes behind the slots in use.
  pub append_slot-live :
      (v : A) (t : Table A)
      → IsTable t
      → IsTable (append_slot v t).1
        × (((append_slot v t).0 ≡ false) ↔ (length (live t) ≡ capacity))
        × (live (append_slot v t).1
            ≡ (if ltb (length (live t)) capacity then live t ++ v ∷ [] else live t))
  unfolding append_slot
  append_slot-live v t w = elim (Bool-cases (leb capacity t.count)) [
    | inl e ↦
        rw (e, let p : ltb (length (live t)) capacity ≡ false = ground (arith, used) in p)
          (w, (λ q. ground (arith, used), λ q. refl), refl)
    | inr e ↦
        rw (e, let p : ltb (length (live t)) capacity ≡ true = ground (arith, used) in p)
          (
            record { sized = length-set t.slots t.count v ∙ w.sized; within = ground arith },
            (λ q. cc, λ q. ground (arith, used)),
            take-set-append t.count t.slots v (ground (arith, w.sized)),
          )
  ]
    where
      used : length (live t) ≡ t.count
      used = omega (arith, length-take t.count t.slots, w.sized, w.within)

  -- What a successful append leaves.
  pub append_slot-done :
      (v : A) (t : Table A)
      → IsTable t
      → (append_slot v t).0 ≡ true
      → IsTable (append_slot v t).1 × (live (append_slot v t).1 ≡ live t ++ v ∷ [])
  unfolding append_slot
  append_slot-done v t w k = elim (Bool-cases (leb capacity t.count)) [
    | inl e ↦ absurd (ground (arith, k))
    | inr e ↦ rw e (
      record { sized = length-set t.slots t.count v ∙ w.sized; within = ground arith },
      take-set-append t.count t.slots v (ground (arith, w.sized)),
    )
  ]
