-- ===== src/Cli/Examples.antt =====
-- The command line at a concrete configuration.
use keycard.Prelude.{true, false, ◌≡◌, refl, none, some, pos, codes, arith, same_text}
use keycard.Prelude.Numbers.{strip, strip_left, strip_right, signed, str_to_int}
use keycard.Kept.{init}
use keycard.Config.Durations.{parse_duration, parse_stripped, as_float, split_last, unit_seconds}
use keycard.Config.Examples.{host_python, toml_file, cfg, toml_file-loads}
use keycard.Server.Serve.{Serving}
use keycard.Server.Startup.{IsDuration}
use keycard.Server.Wait.{requested}
use keycard.Server.Examples.{
  seconds, host_site, buildable, buildable-Builds, cfg-durations, cfg-port, host_site-ready, ending,
}
use keycard.Cli.Up.{Options, Course, up, run_server, up_serves}

-- `keycard up --host 127.0.0.1 --keep 10m`
abbrev given : Options
given = record { host = some (codes "127.0.0.1"); port = none; keep_window = some "10m" }

ten_minutes : IsDuration seconds "10m"
unfolding parse_duration parse_stripped as_float split_last unit_seconds strip strip_left
    strip_right str_to_int signed same_text
ten_minutes = (600, refl)

-- A signal ends the run.
abbrev quiet : Course
quiet = record {
  loop = record { is_windows = false; adds = λ s. true };
  during = λ s. s;
  wake = requested;
  ending = ending;
  is_interrupted = false;
}

up_serves_example :
    (s : Serving) × (up seconds host_site buildable host_python
        (some toml_file)
        given
        (λ n. n)
        (λ b. true)
        quiet
      ≡ run_server quiet s)
    × (s.address ≡ (codes "127.0.0.1", pos 2222))
    × (s.listening ≡ true)
    × (s.kept ≡ init ten_minutes.0)
up_serves_example =
    let (idle, grace, window) = cfg-durations in
    up_serves seconds host_site buildable buildable-Builds host_python (some toml_file) given cfg
      (pos 2222) (λ n. n) (λ b. true) quiet toml_file-loads cfg-port (omega arith) (omega arith)
      idle grace ten_minutes host_site-ready.0 host_site-ready.1 refl
