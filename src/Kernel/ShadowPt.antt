-- ===== src/Kernel/ShadowPt.antt =====
-- src/kernel/shadow_pt_detector.c. What the processor answers is an argument.
use ps.Base.{
  ℕ, ◌-◌, ◌/◌, ◌%◌, ◌^◌, ◌≡◌, Bool, true, false, not, ◌&&◌, ◌||◌, Option, none, some, arith, ltb,
  ◌==◌, if◌then◌else◌,
}
use ps.Kernel.Status.{NtStatus, status_success, invalid_parameter}

pub record Detector : Type 0 where
  pub expected_cr3 : ℕ
  pub active : Bool

pub record ShadowPtInfo : Type 0 where
  pub shadow_pt_active : Bool
  pub shadow_pt_address : ℕ
  pub detection_confidence : ℕ

pub data ShadowPtResult : Type 0 where
  nothing detected suspicious : ShadowPtResult

-- `cr3` is the register's value.
unfoldable pub shadow_init : ℕ → Detector → Detector
shadow_init cr3 d = record { expected_cr3 = cr3; active = true }

unfoldable pub shadow_shutdown : Detector → Detector
shadow_shutdown d = record d { active = false }

-- The local variable after the check of the register.
cr3_checked : ℕ → Detector → ShadowPtInfo
cr3_checked cr3 d =
    if not (cr3 == d.expected_cr3)
    then record {
      shadow_pt_active = true;
      shadow_pt_address = cr3 - cr3 % 4096;
      detection_confidence = 95;
    }
    else record { shadow_pt_active = false; shadow_pt_address = 0; detection_confidence = 0 }

-- And after the check of CPUID: `features` is ECX of leaf 1, `vmx_leaf` EAX of leaf 0x480.
vmx_checked : ℕ → ℕ → ShadowPtInfo → ShadowPtInfo
vmx_checked features vmx_leaf i =
    if features / 2 ^ 5 % 2 == 1
    then (if not (vmx_leaf == 0)
        then record i { shadow_pt_active = true; detection_confidence = 85 }
        else i)
    else i

reported : ShadowPtInfo → ShadowPtResult × Option ShadowPtInfo
reported i = if i.shadow_pt_active then (detected, some i) else (nothing, none)

-- The result, and what is written to `out`.
unfoldable pub shadow_check : ℕ → ℕ → ℕ → Bool → Detector → ShadowPtResult × Option ShadowPtInfo
unfolding cr3_checked vmx_checked reported
shadow_check cr3 features vmx_leaf has_out d =
    if not d.active || not has_out
    then (nothing, none)
    else reported (vmx_checked features vmx_leaf (cr3_checked cr3 d))

unfoldable pub shadow_enable : ℕ → Bool → ℕ → Detector → NtStatus × Detector
shadow_enable cr3 input size d = if ltb size 1 then (invalid_parameter, d) else (
  status_success,
  record { expected_cr3 = if input then cr3 else d.expected_cr3; active = input },
)

-- A table is reported exactly while the detector is on and has room for the answer, if the register is
-- not the one that was saved, or the processor has VMX and answers its leaf. The confidence is then 85
-- if the second holds, even where the first alone gave 95.
pub shadow_check-eq :
    (cr3 features vmx_leaf : ℕ) (has_out : Bool) (d : Detector)
    → let moved = not (cr3 == d.expected_cr3) in
      let virtual = (features / 32 % 2 == 1) && not (vmx_leaf == 0) in
      shadow_check cr3 features vmx_leaf has_out d ≡ (
        if d.active && (has_out && (moved || virtual))
        then (
          detected,
          some (record {
            shadow_pt_active = true;
            shadow_pt_address = if moved then cr3 - cr3 % 4096 else 0;
            detection_confidence = if virtual then 85 else 95;
          }),
        )
        else (nothing, none))
unfolding shadow_check
shadow_check-eq cr3 features vmx_leaf has_out d = ground arith
