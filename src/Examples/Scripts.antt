-- ===== src/Examples/Scripts.antt =====
-- Examples of the paths that name a script.
use zhac_mono_core.Prelude.{◌≡◌, ◌↔◌, some, ◌++◌, ◌<◌, length}
use zhac_mono_core.Prelude.Text.{bytes}
use zhac_mono_core.Scripts.{parse_name}
use zhac_mono_core.Scripts.Path.{HasNoSlash, suffix, is_run, is_check, run, parse_name-described}

parse_name-described_example :
    (parse_name 33 (bytes "/api/scripts/lamp/run") ≡ some (bytes "lamp", is_run run, is_check run))
    ↔ ((bytes "/api/scripts/lamp/run" ≡ bytes "/api/scripts/" ++ (bytes "lamp" ++ suffix run))
        × HasNoSlash (bytes "lamp")
        × (0 < length (bytes "lamp"))
        × (length (bytes "lamp") < 33))
parse_name-described_example =
    parse_name-described 33 (bytes "/api/scripts/lamp/run") (bytes "lamp") run
