-- ===== src/Shared/Launcher.antt =====
-- src/client/launcher.c, as far as the functions that it calls have the form in which it calls them, and
-- src/core/core.c. The launcher tests status codes as truth values.
use ps.Base.{
  chars, ℕ, zero, suc, ◌≡◌, refl, Bool, true, false, not, Option, none, some, ◌==◌, if◌then◌else◌,
  Status, code, CString,
}
use ps.Shared.Config.{Settings, config_init, config_load, config_shutdown}
use ps.Shared.Logger.{Logger, logger_init, logger_shutdown}

-- A status as a condition of C.
abbrev pub truth : Status → Bool
truth s = not (code s == 0)

-- The state of the launcher's file: g_running and the two libraries.
pub record Launcher : Type 0 where
  pub running : Bool
  pub settings : Settings
  pub logger : Logger

-- `init_log` is the call that starts the log.
unfoldable pub launcher_init : (Logger → Status × Logger) → Launcher → Bool × Launcher
unfolding code config_load
launcher_init init_log l =
    let loaded = config_load (chars "ps14_config.json") l.settings in
    if not (truth loaded.0)
    then (false, record l { settings = loaded.1 })
    else (let logged = init_log l.logger in
        if not (truth logged.0)
        then (false, record l { settings = loaded.1; logger = logged.1 })
        else (true, record { running = true; settings = loaded.1; logger = logged.1 }))

unfoldable pub verify_game_integrity : Option CString → Bool
verify_game_integrity none = false
verify_game_integrity (some path) = true

unfoldable pub inject_protection : Option CString → Bool
inject_protection none = false
inject_protection (some exe) = true

unfoldable pub launcher_shutdown : Launcher → Launcher
unfolding logger_shutdown
launcher_shutdown l = record l { running = false; logger = logger_shutdown l.logger }

-- while (g_running) Sleep(100), for the given number of rounds, after which the flag is found cleared.
unfoldable pub launcher_wait : ℕ → Launcher → Launcher
launcher_wait zero l = record l { running = false }
launcher_wait (suc rounds) l = if l.running then launcher_wait rounds l else l

-- The exit code.
unfoldable pub launcher_run : (Logger → Status × Logger) → ℕ → Launcher → ℕ × Launcher
unfolding launcher_init launcher_wait launcher_shutdown
launcher_run init_log rounds l =
    let started = launcher_init init_log l in
    if not started.0
    then (1, started.1)
    else (0, launcher_shutdown (launcher_wait rounds started.1))

-- The launcher never runs: loading the configuration always answers 0, which the launcher reads as a
-- failure, so it ends with exit code 1, has not started the log, and its flag is as it was.
pub launcher_run_fails :
    (init_log : Logger → Status × Logger) (rounds : ℕ) (l : Launcher)
    → ((launcher_run init_log rounds l).0 ≡ 1)
      × ((launcher_run init_log rounds l).1.logger ≡ l.logger)
      × ((launcher_run init_log rounds l).1.running ≡ l.running)
unfolding launcher_run
launcher_run_fails init_log rounds l = (refl, refl, refl)

-- DLL_PROCESS_ATTACH and DLL_PROCESS_DETACH.
unfoldable pub dll_attach : Option ℕ → Settings × Logger → Settings × Logger
unfolding config_init logger_init
dll_attach left (s, g) = ((config_init s).1, (logger_init left none 3 1 false g).1)

unfoldable pub dll_detach : Settings × Logger → Settings × Logger
unfolding config_shutdown logger_shutdown
dll_detach (s, g) = (config_shutdown s, logger_shutdown g)
