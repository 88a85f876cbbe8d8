-- ===== src/Base/Words.antt =====
-- include/ps14.h: error codes, C strings and machine words.
use Prim.Native.Char as Char
use Prim.Native.String.{String}
use Prim.Native.Nat.{ℕ, ◌+◌, ◌-◌, ◌%◌, ◌^◌}
use mathlib.Core.Path.{◌≡◌, refl}
use mathlib.Core.Logic.{◌⊎◌, inl, inr, ◌≢◌, ◌↔◌}
use mathlib.Core.Bool.{Bool, true, false, ◌&&◌}
use mathlib.Core.List.{List, [], ◌∷◌}
use native.Mathlib.Omega.{arith}
use ps.Base.Tests.{◌==◌}
use ps.Base.Lists.{take}

-- The return codes of type i32, by their macros' names.
pub data Status : Type 0 where
  success unknown out_of_memory invalid_argument not_found already_exists : Status
  not_initialized already_initialized memory_scan_failed file_verification_failed : Status
  authentication_failed network_error invalid_configuration tampering_detected : Status
  repair_failed memory_protection_failed callback_registration_failed : Status
  process_monitoring_failed invalid_parameters access_denied resource_exhaustion : Status

-- The macros' values.
unfoldable pub code : Status → ℕ
code success = 0
code unknown = 0x0001
code out_of_memory = 0x0002
code invalid_argument = 0x0003
code not_found = 0x0004
code already_exists = 0x0005
code not_initialized = 0x0006
code already_initialized = 0x0007
code memory_scan_failed = 0x0010
code file_verification_failed = 0x0011
code authentication_failed = 0x0012
code network_error = 0x0013
code invalid_configuration = 0x0014
code tampering_detected = 0x0015
code repair_failed = 0x0016
code memory_protection_failed = 0x8000 + 1
code callback_registration_failed = 0x8000 + 2
code process_monitoring_failed = 0x8000 + 3
code invalid_parameters = 0x8000 + 4
code access_denied = 0x8000 + 5
code resource_exhaustion = 0x8000 + 6

-- `== PS14_SUCCESS`.
abbrev pub is_success : Status → Bool
is_success success = true
is_success _ = false

pub is_success-cases : (s : Status) → (s ≡ success) ⊎ ((is_success s ≡ false) × (s ≢ success))
is_success-cases success = inl refl
is_success-cases _ = inr (refl, λ e. cc)

-- The characters of a C string before its terminator.
abbrev pub CString : Type 0
CString = List ℕ

-- The characters of a literal.
abbrev pub chars : String → CString
chars String.[] = []
chars (String.◌∷◌ c s) = Char.code c ∷ chars s

-- PS14_MAX_NAME - 1 and PS14_MAX_PATH - 1, the characters that a name or a path buffer keeps.
abbrev pub max_name : ℕ
max_name = 63

abbrev pub max_path : ℕ
max_path = 259

-- strncpy of n characters into a buffer whose next byte is the terminator.
abbrev pub strncpy : ℕ → CString → CString
strncpy n s = take n s

-- strcmp(a, b) == 0.
unfoldable pub str_eq : CString → CString → Bool
str_eq [] [] = true
str_eq [] (y ∷ ys) = false
str_eq (x ∷ xs) [] = false
str_eq (x ∷ xs) (y ∷ ys) = (x == y) && str_eq xs ys

pub str_eq_refl : (a : CString) → str_eq a a ≡ true
unfolding str_eq
str_eq_refl [] = refl
str_eq_refl (x ∷ xs) = ground (arith, str_eq_refl xs)

str_eq_sound : (a b : CString) → str_eq a b ≡ true → a ≡ b
unfolding str_eq
str_eq_sound [] [] h = refl
str_eq_sound [] (y ∷ ys) h = cc
str_eq_sound (x ∷ xs) [] h = cc
str_eq_sound (x ∷ xs) (y ∷ ys) h = ground (arith, str_eq_sound xs ys)

pub str_eq_iff : (a b : CString) → (str_eq a b ≡ true) ↔ (a ≡ b)
str_eq_iff a b = (str_eq_sound a b, λ e. rw e (str_eq_refl b))

-- Sums of unsigned words wrap.
abbrev pub add32 : ℕ → ℕ → ℕ
add32 a b = (a + b) % 2 ^ 32

abbrev pub add64 : ℕ → ℕ → ℕ
add64 a b = (a + b) % 2 ^ 64

-- Unsigned 64-bit difference; `-` on ℕ stops at 0, so the modulus is added first.
abbrev pub sub64 : ℕ → ℕ → ℕ
sub64 a b = (a + 2 ^ 64 - b) % 2 ^ 64
