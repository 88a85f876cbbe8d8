-- ===== src/Advanced/Debugger/Attached.antt =====
-- When src/core/advanced/debugger_detector.c reports a debugger outside of Windows.
use ps.Base.{
  true, false, sub64, ltb, ◌||◌, some, ℕ, ◌+◌, ◌-◌, ◌*◌, ◌^◌, ◌%◌, min, ◌<◌, ◌≡◌, refl, Bool, not,
  ◌&&◌, List, [], ◌∷◌, ◌++◌, map, arith, ◌==◌, CString,
}
use ps.Advanced.Debugger.{
  posix, check_timing, check_is_debugger_present, atoi, debugger_is_attached, chars, is_prefix,
  digits, tracer_loop, any_set, skip_spaces, skip_sign, is_negative,
}
use ps.Chain.Search.{All}

-- A line as the kernel writes it: the label, a tab, the digits and a line feed.
abbrev pub tracer_line : List ℕ → CString
tracer_line ds = chars "TracerPid:" ++ 9 ∷ (map (λ d. 48 + d) ds ++ 10 ∷ [])

-- The number that the digits ds write behind those of n.
abbrev pub number : ℕ → List ℕ → ℕ
number n [] = n
number n (d ∷ ds) = number (10 * n + d) ds

digits-number :
    (ds : List ℕ) (n : ℕ)
    → All (λ d. d < 10) ds
    → digits n (map (λ d. 48 + d) ds ++ 10 ∷ []) ≡ number n ds
unfolding digits
digits-number [] n a = ground arith
digits-number (d ∷ ds) n a = ground (
  arith,
  digits-number ds (10 * n + (48 + d - 48)) a.1,
  (let e : 48 + d - 48 ≡ d = omega arith in e),
)

digits_zero :
    (ds : List ℕ) (n : ℕ)
    → All (λ d. d < 10) ds
    → (digits n (map (λ d. 48 + d) ds ++ 10 ∷ []) == 0) ≡ (n == 0 && not (any_set ds))
unfolding digits any_set
digits_zero [] n a = ground arith
digits_zero (d ∷ ds) n a = ground (arith, digits_zero ds (10 * n + (48 + d - 48)) a.1)

tracer_loop_others :
    (before rest : List CString)
    → All (λ line. is_prefix (chars "TracerPid:") line ≡ false) before
    → tracer_loop (before ++ rest) ≡ tracer_loop rest
unfolding tracer_loop
tracer_loop_others [] rest a = refl
tracer_loop_others (line ∷ before) rest a = rw a.0 (tracer_loop_others before rest a.1)

skip_tab : (d : ℕ) (s : CString) → d < 10 → skip_spaces (9 ∷ (48 + d) ∷ s) ≡ (48 + d) ∷ s
unfolding skip_spaces
skip_tab d s h = ground arith

no_sign :
    (d : ℕ) (s : CString)
    → d < 10
    → (skip_sign ((48 + d) ∷ s) ≡ (48 + d) ∷ s) × (is_negative ((48 + d) ∷ s) ≡ false)
no_sign d s h = (ground arith, ground arith)

-- A number that an int holds.
atoi_tab :
    (d : ℕ) (s : CString)
    → d < 10
    → digits 0 ((48 + d) ∷ s) < 2 ^ 31
    → atoi (9 ∷ (48 + d) ∷ s) ≡ digits 0 ((48 + d) ∷ s)
unfolding atoi
atoi_tab d s h k =
    rw (skip_tab d s h, (no_sign d s h).0, (no_sign d s h).1)
      (let small : min (digits 0 ((48 + d) ∷ s)) (2 ^ 63 - 1) % 2 ^ 32 ≡ digits 0 ((48 + d) ∷ s) =
          omega (arith, k) in
        small)

not-not : (b : Bool) → not (not b) ≡ b
not-not true = refl
not-not false = refl

tracer_loop-line :
    (ds : List ℕ) (after : List CString)
    → All (λ d. d < 10) ds
    → number 0 ds < 2 ^ 31
    → tracer_loop (tracer_line ds ∷ after) ≡ any_set ds
unfolding tracer_loop
tracer_loop-line [] after a h = unfold atoi any_set in refl
tracer_loop-line (d ∷ ds) after a h =
    rw
      (
        atoi_tab d (map (λ d'. 48 + d') ds ++ 10 ∷ []) a.0 (rw (digits-number (d ∷ ds) 0 a) h),
        digits_zero (d ∷ ds) 0 a,
      )
      (not-not (any_set (d ∷ ds)))

-- The status file has lines without the label, then the tracer's line with the digits ds of a number that
-- an int holds, and any others behind it. Then a debugger is reported exactly if a digit of the tracer is
-- not 0, or the clock moved by more than 100 between the two readings, in 64-bit arithmetic.
pub debugger_is_attached-posix :
    (before after : List CString) (ds : List ℕ) (start end : ℕ)
    → All (λ line. is_prefix (chars "TracerPid:") line ≡ false) before
    → All (λ d. d < 10) ds
    → number 0 ds < 2 ^ 31
    → debugger_is_attached (posix (some (before ++ tracer_line ds ∷ after))) start end
      ≡ (any_set ds || ltb 100 (sub64 end start))
unfolding debugger_is_attached check_is_debugger_present check_timing
debugger_is_attached-posix before after ds start end others a h = ground (
  arith,
  tracer_loop_others before (tracer_line ds ∷ after) others,
  tracer_loop-line ds after a h,
)
