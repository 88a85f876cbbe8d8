-- ===== src/Bits.antt =====
-- Exclusive or at variables: the law for the lowest digit, and the ring laws that follow from it.
use Prim.Native.Nat.{digits, bit_xor-bitwise, differ}
use native.Mathlib.Nat.{le_refl, pow-suc, pow-succ', div-div-eq-div-mul}
use ps.Base.{
  ℕ, zero, suc, ◌+◌, ◌*◌, ◌/◌, ◌%◌, ◌^◌, ◌≤◌, ◌<◌, bit_xor, ◌-◌, ◌∙◌, ◌≡◌, refl, sym, ap, arith,
}

-- What `bit_xor a b` means, on fuel n.
abbrev xor_digits : ℕ → ℕ → ℕ → ℕ
xor_digits n a b = digits (λ y. y) differ n a b

-- Fuel beyond the first number is not used.
one_more : (n a b : ℕ) → a ≤ n → xor_digits (suc n) a b ≡ xor_digits n a b
one_more zero zero b h = refl
one_more (suc n) zero b h = refl
one_more zero (suc a) b h = absurd (omega arith)
one_more (suc n) (suc a) b h = rw (one_more n (suc a / 2) (b / 2) (omega arith)) refl

many_more : (d a b : ℕ) → xor_digits (a + d) a b ≡ xor_digits a a b
many_more zero a b = ap (λ n. xor_digits n a b) (omega arith)
many_more (suc d) a b =
    let shift : a + suc d ≡ suc (a + d) = omega arith in
    ap (λ n. xor_digits n a b) shift ∙ one_more (a + d) a b (omega arith) ∙ many_more d a b

halved : (a b : ℕ) → xor_digits a (suc a / 2) b ≡ xor_digits (suc a / 2) (suc a / 2) b
halved a b =
    let half = suc a / 2 in
    let split : a ≡ half + (a - half) = omega arith in
    ap (λ n. xor_digits n half b) split ∙ many_more (a - half) half b

-- Two binary digits differ exactly when their sum is odd.
differ-eq : (a b : ℕ) → a < 2 → b < 2 → differ a b ≡ (a + b) % 2
differ-eq zero b p q = omega arith
differ-eq (suc zero) zero p q = omega arith
differ-eq (suc zero) (suc zero) p q = omega arith
differ-eq (suc zero) (suc (suc b)) p q = absurd (omega arith)
differ-eq (suc (suc a)) b p q = absurd (omega arith)

zero-bit_xor : (b : ℕ) → bit_xor 0 b ≡ b
zero-bit_xor b = rw bit_xor-bitwise refl

xor_step : (a b : ℕ) → bit_xor a b ≡ bit_xor (a / 2) (b / 2) * 2 + (a % 2 + b % 2) % 2
xor_step zero b = omega (arith, zero-bit_xor b, zero-bit_xor (b / 2))
xor_step (suc a) b =
    let parity = differ-eq (suc a % 2) (b % 2) (omega arith) (omega arith) in
    simp bit_xor-bitwise (omega (arith, halved a (b / 2), parity))

pub shifted_further : (k q : ℕ) → q * 2 ^ suc k ≡ q * 2 ^ k + q * 2 ^ k
shifted_further k q =
    let once : q * 2 ^ suc k ≡ q * (2 ^ k * 2) = ap (λ w. q * w) (pow-suc 2 k) in
    omega (arith, once)

pub xor-half : (a b : ℕ) → bit_xor a b / 2 ≡ bit_xor (a / 2) (b / 2)
xor-half a b = omega (arith, xor_step a b)

pub xor-parity : (a b : ℕ) → bit_xor a b % 2 ≡ (a % 2 + b % 2) % 2
xor-parity a b = omega (arith, xor_step a b)

bit_xor-zero_below : (n a : ℕ) → a ≤ n → bit_xor a 0 ≡ a
bit_xor-zero_below n zero h = refl
bit_xor-zero_below zero (suc a) h = absurd (omega arith)
bit_xor-zero_below (suc n) (suc a) h =
    omega (arith, xor_step (suc a) 0, bit_xor-zero_below n (suc a / 2) (omega arith))

pub bit_xor-zero : (a : ℕ) → bit_xor a 0 ≡ a
bit_xor-zero a = bit_xor-zero_below a a (le_refl a)

xor_comm_below : (n a b : ℕ) → a ≤ n → bit_xor a b ≡ bit_xor b a
xor_comm_below n zero b h = omega (arith, zero-bit_xor b, bit_xor-zero b)
xor_comm_below zero (suc a) b h = absurd (omega arith)
xor_comm_below (suc n) (suc a) b h =
    ground (arith, xor_step (suc a) b, xor_step b (suc a), xor_comm_below n (suc a / 2) (b / 2))

pub xor_comm : (a b : ℕ) → bit_xor a b ≡ bit_xor b a
xor_comm a b = xor_comm_below a a b (le_refl a)

xor_self_below : (n a : ℕ) → a ≤ n → bit_xor a a ≡ 0
xor_self_below n zero h = refl
xor_self_below zero (suc a) h = absurd (omega arith)
xor_self_below (suc n) (suc a) h =
    ground (arith, xor_step (suc a) (suc a), xor_self_below n (suc a / 2))

pub xor_self : (a : ℕ) → bit_xor a a ≡ 0
xor_self a = xor_self_below a a (le_refl a)

xor_assoc_below :
    (n a b c : ℕ) → a ≤ n → b ≤ n → c ≤ n → bit_xor (bit_xor a b) c ≡ bit_xor a (bit_xor b c)
xor_assoc_below zero zero zero zero p q r = refl
xor_assoc_below zero zero zero (suc c) p q r = absurd (omega arith)
xor_assoc_below zero zero (suc b) c p q r = absurd (omega arith)
xor_assoc_below zero (suc a) b c p q r = absurd (omega arith)
xor_assoc_below (suc n) a b c p q r = ground (
  arith,
  xor_step (bit_xor a b) c,
  xor_step a (bit_xor b c),
  xor-half a b,
  xor-half b c,
  xor-parity a b,
  xor-parity b c,
  xor_assoc_below n (a / 2) (b / 2) (c / 2),
)

pub xor_assoc : (a b c : ℕ) → bit_xor (bit_xor a b) c ≡ bit_xor a (bit_xor b c)
xor_assoc a b c = xor_assoc_below (a + b + c) a b c (omega arith) (omega arith) (omega arith)

-- Words of k bits stay words of k bits.
pub xor-lt : (k a b : ℕ) → a < 2 ^ k → b < 2 ^ k → bit_xor a b < 2 ^ k
xor-lt zero zero zero p q = omega arith
xor-lt zero zero (suc b) p q = absurd (omega arith)
xor-lt zero (suc a) b p q = absurd (omega arith)
xor-lt (suc k) a b p q = ground (arith, xor_step a b, pow-suc 2 k, xor-lt k (a / 2) (b / 2))

-- A field of k bits below a shifted word: exclusive or adds them.
pub xor_fields : (k q r : ℕ) → r < 2 ^ k → bit_xor r (q * 2 ^ k) ≡ q * 2 ^ k + r
xor_fields zero q zero p = omega (arith, zero-bit_xor (q * 1))
xor_fields zero q (suc r) p = absurd (omega arith)
xor_fields (suc k) q r p =
    ground
      (arith, xor_step r (q * 2 ^ suc k), shifted_further k q, pow-suc 2 k, xor_fields k q (r / 2))

-- A mask of k bits does not show above them.
pub shr-xor : (k a b : ℕ) → b < 2 ^ k → bit_xor a b / 2 ^ k ≡ a / 2 ^ k
shr-xor zero a zero p = omega (arith, bit_xor-zero a)
shr-xor zero a (suc b) p = absurd (omega arith)
shr-xor (suc k) a b p = omega (
  arith,
  pow-succ' 2 k,
  ap (λ (t : ℕ). bit_xor a b / t) (pow-succ' 2 k),
  ap (λ (t : ℕ). a / t) (pow-succ' 2 k),
  sym (div-div-eq-div-mul (bit_xor a b) 2 (2 ^ k)),
  sym (div-div-eq-div-mul a 2 (2 ^ k)),
  ap (λ (t : ℕ). t / 2 ^ k) (xor-half a b),
  shr-xor k (a / 2) (b / 2) (omega (arith, pow-succ' 2 k)),
)
