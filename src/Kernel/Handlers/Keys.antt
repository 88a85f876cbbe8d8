-- ===== src/Kernel/Handlers/Keys.antt =====
-- The list of src/kernel/callback_handler.c holds no callback twice.
use mathlib.Core.Path.{subst}
use ps.Base.{
  sym, ltb, ◌||◌, not, inl, inr, ℕ, ◌≡◌, refl, sym, inl, inr, Bool, true, false, not, ◌||◌, none,
  some, List, [], ◌∷◌, arith, ltb, ◌==◌, Bool-cases, Option-cases,
}
use ps.Chain.{find_first, remove_first}
use ps.Kernel.Status.{status_success}
use ps.Kernel.Handlers.{KernelCallback, is_same_callback, handler_register, handler_unregister}

-- No two entries agree in address and type.
abbrev pub IsKeyed : List KernelCallback → Type 0
IsKeyed [] = Unit
IsKeyed (cb ∷ callbacks) = (find_first (is_same_callback cb) callbacks ≡ none) × IsKeyed callbacks

module _ {ℓ} {A : Type ℓ} (t u : A → Bool) where
  find_first-remove_first :
      (xs : List A) → find_first t xs ≡ none → find_first t (remove_first u xs) ≡ none
  unfolding find_first remove_first
  find_first-remove_first [] h = refl
  find_first-remove_first (x ∷ xs) h = ground (arith, find_first-remove_first xs)

remove_first-IsKeyed :
    (u : KernelCallback → Bool) (callbacks : List KernelCallback)
    → IsKeyed callbacks
    → IsKeyed (remove_first u callbacks)
unfolding remove_first
remove_first-IsKeyed u [] k = tt
remove_first-IsKeyed u (cb ∷ callbacks) k = elim (Bool-cases (u cb)) [
  | inl e ↦ rw e k.1
  | inr e ↦ rw e (
    find_first-remove_first (is_same_callback cb) u callbacks k.0,
    remove_first-IsKeyed u callbacks k.1,
  )
]

module _ (is_valid : ℕ → Bool) (alloc : Bool) (new : KernelCallback) (size : ℕ)
    (callbacks : List KernelCallback) where
  refused : Bool
  refused = ltb size 32 || not (is_valid new.callback_address) || not alloc

  register_refused :
      refused ≡ true → (handler_register is_valid alloc (some new) size callbacks).1 ≡ callbacks
  unfolding handler_register refused
  register_refused e = ground arith

  register_found :
      (cb : KernelCallback)
      → find_first (is_same_callback new) callbacks ≡ some cb
      → (handler_register is_valid alloc (some new) size callbacks).1 ≡ callbacks
  unfolding handler_register
  register_found cb e = ground arith

  register_added :
      refused ≡ false
      → find_first (is_same_callback new) callbacks ≡ none
      → handler_register is_valid alloc (some new) size callbacks
        ≡ (status_success, new ∷ callbacks)
  unfolding handler_register refused
  register_added r e = ground arith

  pub register-IsKeyed :
      IsKeyed callbacks → IsKeyed (handler_register is_valid alloc (some new) size callbacks).1
  register-IsKeyed k = elim (Option-cases (find_first (is_same_callback new) callbacks)) [
    | inr (cb, e) ↦ subst IsKeyed (sym (register_found cb e)) k
    | inl e ↦ elim (Bool-cases refused) [
      | inl r ↦ subst IsKeyed (sym (register_refused r)) k
      | inr r ↦ subst (λ x. IsKeyed x.1) (sym (register_added r e)) (e, k)
    ]
  ]

pub unregister-IsKeyed :
    (address size : ℕ) (callbacks : List KernelCallback)
    → IsKeyed callbacks
    → IsKeyed (handler_unregister (some address) size callbacks).1
unfolding handler_unregister
unregister-IsKeyed address size callbacks k = elim (Bool-cases (ltb size 8)) [
  | inl e ↦ rw e k
  | inr e ↦
      rw e
        (remove_first-IsKeyed (λ (cb : KernelCallback). cb.callback_address == address) callbacks k)
]
