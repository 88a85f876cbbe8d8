-- ===== src/Chain.antt =====
-- The loops over a singly linked list that the components share. A list holds the nodes from the
-- head on; `test` is the condition of the loop's `if`.
pub mod Search
use ps.Base.{ℕ, suc, Bool, List, [], ◌∷◌, Option, none, some, if◌then◌else◌}

-- The result of code that may read through a pointer to nothing; `more` is a loop that has not ended in
-- the rounds it was given.
pub data Walk {ℓ} (A : Type ℓ) : Type ℓ where
  done : A → Walk A
  fault : Walk A
  more : Walk A

module _ {ℓ} {A : Type ℓ} (test : A → Bool) where
  -- while (curr) { if (test) return curr; curr = curr->next; } return NULL;
  unfoldable pub find_first : List A → Option A
  find_first [] = none
  find_first (x ∷ xs) = if test x then some x else find_first xs

  -- The node that a search stops at is changed in place.
  unfoldable pub update_first : (A → A) → List A → List A
  update_first f [] = []
  update_first f (x ∷ xs) = if test x then f x ∷ xs else x ∷ update_first f xs

  -- while (*curr) { if (test) { *curr = (*curr)->next; break; } curr = &(*curr)->next; }
  unfoldable pub remove_first : List A → List A
  remove_first [] = []
  remove_first (x ∷ xs) = if test x then xs else x ∷ remove_first xs

  -- while (*curr) { if (test) { *curr = (*curr)->next; } else { curr = &(*curr)->next; } }
  unfoldable pub remove_all : List A → List A
  remove_all [] = []
  remove_all (x ∷ xs) = let rest = remove_all xs in if test x then rest else x ∷ rest

  -- The number of nodes that such a loop frees.
  unfoldable pub count_all : List A → ℕ
  count_all [] = 0
  count_all (x ∷ xs) = let rest = count_all xs in if test x then suc rest else rest
