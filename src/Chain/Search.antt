-- ===== src/Chain/Search.antt =====
-- What the list loops find, keep and count.
use mathlib.Core.Path.{subst}
use ps.Base.{
  ◌+◌, ◌≡◌, refl, inl, inr, Bool, true, false, none, some, List, [], ◌∷◌, arith, Bool-cases, length,
}
use ps.Chain.{find_first, update_first, remove_first, remove_all, count_all}

abbrev pub All {ℓ κ} : {A : Type ℓ} → (A → Type κ) → List A → Type κ
All P [] = Unit
All P (x ∷ xs) = P x × All P xs

module _ {ℓ} {A : Type ℓ} (t : A → Bool) where
  pub find_first_test : (xs : List A) {x : A} → find_first t xs ≡ some x → t x ≡ true
  unfolding find_first
  find_first_test [] h = cc
  find_first_test (y ∷ xs) {x} h = ground (arith, find_first_test xs {x = x})

  -- What is removed and what is kept make up the list.
  pub count_all-remove_all : (xs : List A) → count_all t xs + length (remove_all t xs) ≡ length xs
  unfolding count_all remove_all
  count_all-remove_all [] = omega arith
  count_all-remove_all (x ∷ xs) = ground (arith, count_all-remove_all xs)

  pub remove_all_rejects : (xs : List A) → All (λ x. t x ≡ false) (remove_all t xs)
  unfolding remove_all
  remove_all_rejects [] = tt
  remove_all_rejects (x ∷ xs) = elim (Bool-cases (t x)) [
    | inl e ↦ rw e (remove_all_rejects xs)
    | inr e ↦ rw e (e, remove_all_rejects xs)
  ]

  pub length-update_first : (f : A → A) (xs : List A) → length (update_first t f xs) ≡ length xs
  unfolding update_first
  length-update_first f [] = refl
  length-update_first f (x ∷ xs) = ground (arith, length-update_first f xs)

  -- The node at which an update stops is the one that a search stops at.
  pub find_first-update_first :
      (f : A → A) (xs : List A) {x : A}
      → ((a : A) → t a ≡ true → t (f a) ≡ true)
      → find_first t xs ≡ some x
      → find_first t (update_first t f xs) ≡ some (f x)
  unfolding update_first find_first
  find_first-update_first f [] k h = cc
  find_first-update_first f (y ∷ xs) {x} k h =
      ground (arith, k y, find_first-update_first f xs {x = x} k)

  pub update_first_self :
      (f : A → A) (xs : List A) {x : A}
      → find_first t xs ≡ some x
      → f x ≡ x
      → update_first t f xs ≡ xs
  unfolding update_first find_first
  update_first_self f [] h k = refl
  update_first_self f (y ∷ xs) {x} h k = ground (arith, update_first_self f xs {x = x})

  -- A removal takes one node if a search finds one, and none otherwise.
  pub length-remove_first :
      (xs : List A) {x : A} → find_first t xs ≡ some x → length (remove_first t xs) + 1 ≡ length xs
  unfolding remove_first find_first
  length-remove_first [] h = cc
  length-remove_first (y ∷ xs) {x} h = ground (arith, length-remove_first xs {x = x})

  pub remove_first-eq_self : (xs : List A) → find_first t xs ≡ none → remove_first t xs ≡ xs
  unfolding remove_first find_first
  remove_first-eq_self [] h = refl
  remove_first-eq_self (y ∷ xs) h = ground (arith, remove_first-eq_self xs)

module _ {ℓ κ} {A : Type ℓ} (P : A → Type κ) (t : A → Bool) where
  pub find_first-All : (xs : List A) {x : A} → All P xs → find_first t xs ≡ some x → P x
  unfolding find_first
  find_first-All [] a h = cc
  find_first-All (y ∷ xs) {x} a h = elim (Bool-cases (t y)) [
    | inl e ↦ subst P (ground arith) a.0
    | inr e ↦ find_first-All xs {x = x} a.1 (ground arith)
  ]

  pub update_first-All :
      (f : A → A)
      → ((x : A) → P x → P (f x))
      → (xs : List A) → All P xs
      → All P (update_first t f xs)
  unfolding update_first
  update_first-All f k [] a = tt
  update_first-All f k (x ∷ xs) a = elim (Bool-cases (t x)) [
    | inl e ↦ rw e (k x a.0, a.1)
    | inr e ↦ rw e (a.0, update_first-All f k xs a.1)
  ]

  pub remove_first-All : (xs : List A) → All P xs → All P (remove_first t xs)
  unfolding remove_first
  remove_first-All [] a = tt
  remove_first-All (x ∷ xs) a = elim (Bool-cases (t x)) [
    | inl e ↦ rw e a.1
    | inr e ↦ rw e (a.0, remove_first-All xs a.1)
  ]

  pub remove_all-All : (xs : List A) → All P xs → All P (remove_all t xs)
  unfolding remove_all
  remove_all-All [] a = tt
  remove_all-All (x ∷ xs) a = elim (Bool-cases (t x)) [
    | inl e ↦ rw e (remove_all-All xs a.1)
    | inr e ↦ rw e (a.0, remove_all-All xs a.1)
  ]
