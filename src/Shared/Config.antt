-- ===== src/Shared/Config.antt =====
-- src/shared/config.c with include/ps14/config.h.
use ps.Base.{
  chars, ℕ, Bool, true, false, not, [], if◌then◌else◌, Status, success, not_initialized,
  already_initialized, CString,
}
use ps.Hash.{Algorithm, crc32}

pub record MemoryMonitorConfig : Type 0 where
  pub enabled : Bool
  pub audit_interval_ms : ℕ
  pub thread_count : ℕ
  pub protect_regions : Bool
  pub regions_file : CString

pub record IntegrityCheckerConfig : Type 0 where
  pub enabled : Bool
  pub check_interval_ms : ℕ
  pub hash_algorithm : Algorithm
  pub checksum_db_path : CString

pub record AuthConfig : Type 0 where
  pub enabled : Bool
  pub server_address : CString
  pub server_port : ℕ
  pub default_token : CString
  pub session_timeout_seconds : ℕ

pub record NetworkConfig : Type 0 where
  pub use_ssl : Bool
  pub cert_path : CString
  pub key_path : CString
  pub connection_timeout : ℕ
  pub retry_count : ℕ

pub record RepairConfig : Type 0 where
  pub enabled : Bool
  pub backup_dir : CString
  pub max_backups : ℕ
  pub auto_repair : Bool

pub record KernelConfig : Type 0 where
  pub enabled : Bool
  pub driver_path : CString
  pub device_name : CString

pub record PerformanceConfig : Type 0 where
  pub max_cpu_usage_percent : ℕ
  pub max_memory_mb : ℕ
  pub enable_throttling : Bool

pub record Config : Type 0 where
  pub enabled : Bool
  pub log_level : ℕ
  pub log_file : CString
  pub memory_monitor : MemoryMonitorConfig
  pub integrity_checker : IntegrityCheckerConfig
  pub auth : AuthConfig
  pub network : NetworkConfig
  pub repair : RepairConfig
  pub kernel : KernelConfig
  pub performance : PerformanceConfig

-- The two escapes in the device's name stand for the characters behind their backslashes.
abbrev pub default_config : Config
default_config = record {
  enabled = true;
  log_level = 3;
  log_file = chars "ps14.log";
  memory_monitor = record {
    enabled = true;
    audit_interval_ms = 100;
    thread_count = 4;
    protect_regions = true;
    regions_file = chars "regions.json";
  };
  integrity_checker = record {
    enabled = true;
    check_interval_ms = 1000;
    hash_algorithm = crc32;
    checksum_db_path = chars "checksums.db";
  };
  auth = record {
    enabled = true;
    server_address = chars "localhost";
    server_port = 8080;
    default_token = [];
    session_timeout_seconds = 3600;
  };
  network = record {
    use_ssl = false;
    cert_path = chars "cert.pem";
    key_path = chars "key.pem";
    connection_timeout = 30;
    retry_count = 3;
  };
  repair = record {
    enabled = true;
    backup_dir = chars "backups";
    max_backups = 10;
    auto_repair = true;
  };
  kernel = record {
    enabled = false;
    driver_path = chars "ps14_driver.sys";
    device_name = chars ".ps14_protection";
  };
  performance = record {
    max_cpu_usage_percent = 80;
    max_memory_mb = 512;
    enable_throttling = true;
  };
}

-- g_config, which callers change through the pointer that ps14_config_get returns, and the flag.
pub record Settings : Type 0 where
  pub config : Config
  pub initialized : Bool

unfoldable pub config_init : Settings → Status × Settings
config_init s =
    if s.initialized
    then (already_initialized, s)
    else (success, record { config = default_config; initialized = true })

unfoldable pub config_shutdown : Settings → Settings
config_shutdown s = record s { initialized = false }

unfoldable pub config_get : Settings → Config × Settings
unfolding config_init
config_get s = let s' = if not s.initialized then (config_init s).1 else s in (s'.config, s')

unfoldable pub config_get_const : Settings → Config × Settings
unfolding config_get
config_get_const s = config_get s

-- The file is not read.
unfoldable pub config_load : CString → Settings → Status × Settings
unfolding config_init
config_load filepath s = (success, if not s.initialized then (config_init s).1 else s)

-- Nor is it written.
unfoldable pub config_save : CString → Settings → Status × Settings
config_save filepath s = (if not s.initialized then not_initialized else success, s)
