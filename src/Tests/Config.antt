-- ===== src/Tests/Config.antt =====
-- The configuration file at a concrete content.
use cvdbench.Base.{
  ◌≡◌, refl, Bool, [], ◌∷◌, Option, none, some, Text, codes, starts_with_char, text_eq,
}
use cvdbench.Base.Map.{lookup, insert}
use cvdbench.Base.Results.{ok}
use cvdbench.Master.Config.{RawConfig, Loaded, parse_str, default_scheduler}
use cvdbench.Master.Config.Accepted.{IsAccepted, parse_str-IsAccepted}

-- Two file systems and one scanner.
abbrev raw : RawConfig
raw = record {
  server_listen = codes "a:1";
  metrics_listen = none;
  scheduler = record {
    worker_staleness_secs = some 60;
    job_retention_secs = none;
    prepare_timeout_secs = none;
    start_delay_ms = none;
    file_queue_capacity = none;
    dir_queue_capacity = none;
    dir_scan_concurrency = some 1;
  };
  filesystems =
      record { name = codes "x"; mount_point = codes "/x" }
      ∷ record { name = codes "y"; mount_point = codes "/y" }
      ∷ [];
}

abbrev is_absolute : Text → Bool
is_absolute path = starts_with_char b'/' path

abbrev canonicalize : Text → Option Text
canonicalize path = none

abbrev from_str : Text → Option RawConfig
from_str content = some raw

abbrev parse_address : Text → Option Text
parse_address address = some address

abbrev loaded : Loaded Text
loaded = record {
  listen = codes "a:1";
  metrics_listen = none;
  config = record {
    scheduler = record default_scheduler { dir_scan_concurrency = 1 };
    filesystems = (codes "x", codes "/x") ∷ (codes "y", codes "/y") ∷ [];
  };
}

raw-loaded : parse_str is_absolute canonicalize from_str parse_address [] ≡ ok loaded
unfolding parse_str lookup insert text_eq starts_with_char
raw-loaded = refl

parse_str-IsAccepted_example :
    (r : RawConfig) × (from_str [] ≡ some r) × IsAccepted is_absolute canonicalize r loaded.config
parse_str-IsAccepted_example =
    parse_str-IsAccepted is_absolute canonicalize from_str parse_address [] loaded raw-loaded
