-- ===== src/Shared/Logger.antt =====
-- src/shared/logger.c with include/ps14/logger.h. The state g_l has the level, the targets and the file.
-- ps14_logger_init runs a mutex's initialisation on it: what that leaves in the field `f` is an argument.
use ps.Base.{
  ℕ, ◌+◌, ◌-◌, ◌/◌, ◌%◌, ◌^◌, Bool, false, not, ◌&&◌, Option, none, ltb, ◌==◌, if◌then◌else◌,
  Status, success, not_initialized, already_initialized,
}

-- Ps14LogLevel, as its number; PS14_LOG_LEVEL_FATAL is 0.
pub record Logger : Type 0 where
  pub level : ℕ
  pub targets : ℕ
  pub log_file : Option ℕ

-- g_l.t & (1 << k).
abbrev pub has_target : ℕ → ℕ → Bool
has_target k targets = targets / 2 ^ k % 2 == 1

-- `lf` tells whether a file is named, `opened` is what fopen gives.
unfoldable pub logger_init : Option ℕ → Option ℕ → ℕ → ℕ → Bool → Logger → Status × Logger
logger_init left opened level targets lf g =
    if not (g.level == 0) then (already_initialized, g) else (
      success,
      record {
        level = level;
        targets = targets;
        log_file = if has_target 1 targets && lf then opened else left;
      },
    )

unfoldable pub logger_shutdown : Logger → Logger
logger_shutdown g = record { level = 0; targets = 0; log_file = none }

unfoldable pub logger_set_level : ℕ → Logger → Logger
logger_set_level level g = record g { level = level }

unfoldable pub logger_get_level : Logger → ℕ
logger_get_level g = g.level

unfoldable pub logger_set_targets : ℕ → Logger → Logger
logger_set_targets targets g = record g { targets = targets }

-- g_l.t |= 1 << k, and g_l.t &= ~(1 << k).
unfoldable pub logger_add_target : ℕ → Logger → Logger
logger_add_target k g = record g {
  targets = if has_target k g.targets then g.targets else g.targets + 2 ^ k;
}

unfoldable pub logger_remove_target : ℕ → Logger → Logger
logger_remove_target k g = record g {
  targets = if has_target k g.targets then g.targets - 2 ^ k else g.targets;
}

unfoldable pub logger_register_callback : ℕ → ℕ → Logger → ℕ × Logger
logger_register_callback callback user_data g = (0, g)

-- init_network, send_network and rotate_files.
unfoldable pub logger_network : Logger → Status × Logger
logger_network g = (not_initialized, g)

-- Whether a message is printed, and the file that it is written to.
unfoldable pub log : ℕ → Logger → Bool × Option ℕ
log level g =
    if ltb g.level level
    then (false, none)
    else (has_target 0 g.targets, if has_target 1 g.targets then g.log_file else none)
