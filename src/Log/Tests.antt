-- ===== src/Log/Tests.antt =====
-- Runs of rustdv/rustdv-sim/src/log.rs.
use rustdv.Base.{◌≡◌, refl, true, false, [], ◌∷◌, none, some}
use rustdv.RustdvPath.{Str, str_is_under}
use rustdv.Log.{
  Log, debug, info, warning, error, off, console, file, log, logger_log, set_level, set_level_for,
  log_to_file, add_file_for, remove_log_file, reset_config, is_enabled,
}

abbrev fresh : Log
fresh = record {
  threshold = info;
  target_levels = [];
  log_file = some 3;
  target_files = (b'a' ∷ [], 4) ∷ [];
  target_console = [];
  out = [];
}

abbrev inside : Str
inside = b'a' ∷ b'.' ∷ b'b' ∷ []

abbrev text : Str
text = b'm' ∷ []

-- A message of a component in the subtree of a file goes to the console and to both files, and one
-- without a path not to the subtree's.
everywhere :
    ((logger_log fresh inside info text).out
      ≡ (console, text) ∷ (file 4, text) ∷ (file 3, text) ∷ [])
    × ((log fresh info text).out ≡ (console, text) ∷ (file 3, text) ∷ [])
    × ((log fresh debug text).out ≡ [])
unfolding logger_log log str_is_under
everywhere = (refl, refl, refl)

-- The longer prefix decides, whichever was set first.
longer :
    let s = set_level_for (set_level_for fresh inside debug) (b'a' ∷ []) off in
    (is_enabled s inside debug ≡ true) × (is_enabled s (b'a' ∷ []) error ≡ false)
unfolding is_enabled set_level_for str_is_under
longer = (refl, refl)

restored :
    is_enabled (reset_config (set_level (set_level_for fresh inside debug) error)) inside warning
    ≡ true
unfolding reset_config is_enabled
restored = refl

no_file : (log_to_file fresh none ≡ none) × (add_file_for fresh inside none ≡ none)
unfolding log_to_file add_file_for
no_file = (refl, refl)

removed : (log (remove_log_file fresh) info text).out ≡ (console, text) ∷ []
unfolding log remove_log_file
removed = refl
