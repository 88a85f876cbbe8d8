-- ===== src/Integrity/Signature/Untouched.antt =====
-- Which bytes of a file src/core/integrity_check/code_signature.c looks at.
use ps.Base.{
  ℕ, zero, suc, ◌+◌, ◌≤◌, ◌<◌, ◌≡◌, refl, ap, ◌⊎◌, inl, inr, some, List, [], ◌∷◌, arith, set, take,
  drop,
}
use ps.Integrity.Signature.{Layout, nt_position, code_signature_verify_pe}

-- A byte behind the part that is taken does not show in it.
take-set : (n i x : ℕ) (l : List ℕ) → n ≤ i → take n (set l i x) ≡ take n l
take-set zero i x l h = refl
take-set (suc n) i x [] h = refl
take-set (suc n) zero x (y ∷ l) h = absurd (omega arith)
take-set (suc n) (suc i) x (y ∷ l) h = ap (◌∷◌ y) (take-set n i x l (omega arith))

-- Nor does one before the part that is left.
drop-set : (n i x : ℕ) (l : List ℕ) → i < n → drop n (set l i x) ≡ drop n l
drop-set zero i x l h = absurd (omega arith)
drop-set (suc n) i x [] h = refl
drop-set (suc n) zero x (y ∷ l) h = refl
drop-set (suc n) (suc i) x (y ∷ l) h = drop-set n i x l (omega arith)

window-set :
    (p n i x : ℕ) (l : List ℕ)
    → (i < p) ⊎ (p + n ≤ i)
    → take n (drop p (set l i x)) ≡ take n (drop p l)
window-set p n i x l (inl h) = ap (take n) (drop-set p i x l h)
window-set zero n i x l (inr h) = take-set n i x l (omega arith)
window-set (suc p) n i x [] (inr h) = refl
window-set (suc p) n zero x (y ∷ l) (inr h) = absurd (omega arith)
window-set (suc p) n (suc i) x (y ∷ l) (inr h) = window-set p n i x l (inr (omega arith))

-- A byte that lies outside of the two headers of a file can be changed at will: the answer stays, so a
-- file whose code or whose certificates were overwritten passes as before.
pub code_signature_verify_pe-set :
    (l : Layout) (bytes : List ℕ) (i x : ℕ)
    → 64 ≤ i
    → let p = nt_position (take 64 bytes) in
      (i < p) ⊎ (p + l.size ≤ i)
      → code_signature_verify_pe l (some (set bytes i x)) ≡ code_signature_verify_pe l (some bytes)
unfolding code_signature_verify_pe
code_signature_verify_pe-set l bytes i x h out =
    rw (take-set 64 i x bytes h)
      (rw (window-set (nt_position (take 64 bytes)) l.size i x bytes out) refl)
