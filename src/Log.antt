-- ===== src/Log.antt =====
-- Logging, rustdv/rustdv-sim/src/log.rs: levels and consoles by subtree, and log files. A line is its
-- message, without the time and the path in front of it; a file is a number, and what is printed and
-- written is recorded in order. Opening a file may fail, which is `none`.
pub mod Levels
mod Tests
use rustdv.Base.{
  ℕ, leb, Bool, true, false, List, [], ◌∷◌, ◌++◌, Option, none, some, if◌then◌else◌, length,
}
use rustdv.RustdvPath.{Str, str_eq, str_is_under}

pub data Level : Type 0 where
  debug info warning error critical off : Level

-- The discriminant, by which levels are ordered
unfoldable pub rank : Level → ℕ
rank debug = 0
rank info = 1
rank warning = 2
rank error = 3
rank critical = 4
rank off = 5

-- Where a line goes
pub data Output : Type 0 where
  console : Output
  file : ℕ → Output

-- The thread's log settings, and what has been put out
pub record Log : Type 0 where
  pub threshold : Level
  pub target_levels : List (Str × Level)
  pub log_file : Option ℕ
  pub target_files : List (Str × ℕ)
  pub target_console : List (Str × Bool)
  pub out : List (Output × Str)

unfoldable pub set_level : Log → Level → Log
set_level s l = record s { threshold = l }

module _ {A : Type 0} where
  -- `v.retain(|(p, _)| p != path_prefix)`
  unfoldable pub retain : Str → List (Str × A) → List (Str × A)
  retain path_prefix [] = []
  retain path_prefix ((p, a) ∷ v) =
      let rest = retain path_prefix v in if str_eq p path_prefix then rest else (p, a) ∷ rest

  -- `filter(|(p, _)| under(path, p)).max_by_key(|(p, _)| p.len())`: of equals the last
  unfoldable pub longest : Str → List (Str × A) → Option (Str × A)
  longest path [] = none
  longest path ((p, a) ∷ v) =
      let rest = longest path v in
      if str_is_under path p
      then elim rest [
        | none ↦ some (p, a)
        | some m ↦ if leb (length p) (length m.0) then some m else some (p, a)
      ]
      else rest

unfoldable pub set_level_for : Log → Str → Level → Log
unfolding retain
set_level_for s path_prefix l = record s {
  target_levels = retain path_prefix s.target_levels ++ (path_prefix, l) ∷ [];
}

unfoldable pub set_console_for : Log → Str → Bool → Log
unfolding retain
set_console_for s path_prefix enabled = record s {
  target_console = retain path_prefix s.target_console ++ (path_prefix, enabled) ∷ [];
}

-- `log_to_file` and `add_file_for`, with the file that was opened
unfoldable pub log_to_file : Log → Option ℕ → Option Log
log_to_file s none = none
log_to_file s (some f) = some (record s { log_file = some f })

unfoldable pub add_file_for : Log → Str → Option ℕ → Option Log
add_file_for s path_prefix none = none
add_file_for s path_prefix (some f) =
    some (record s { target_files = s.target_files ++ (path_prefix, f) ∷ [] })

unfoldable pub remove_log_file : Log → Log
remove_log_file s = record s { log_file = none }

unfoldable pub reset_config : Log → Log
reset_config s = record {
  threshold = info;
  target_levels = [];
  log_file = none;
  target_files = [];
  target_console = [];
  out = s.out;
}

unfoldable pub console_enabled_for : Log → Str → Bool
unfolding longest
console_enabled_for s path = elim (longest path s.target_console) [ none ↦ true | some m ↦ m.1 ]

-- The files whose prefix the path is under, one line each
unfoldable pub to_files : Str → List (Str × ℕ) → Str → List (Output × Str)
to_files path [] line = []
to_files path ((prefix, f) ∷ files) line =
    let rest = to_files path files line in
    if str_is_under path prefix then (file f, line) ∷ rest else rest

unfoldable pub to_log_file : Option ℕ → Str → List (Output × Str)
to_log_file none line = []
to_log_file (some f) line = (file f, line) ∷ []

abbrev pub to_console : Bool → Str → List (Output × Str)
to_console enabled line = if enabled then (console, line) ∷ [] else []

unfoldable pub emit_for : Log → Str → Str → Log
unfolding console_enabled_for to_files to_log_file
emit_for s path line = record s {
  out =
      s.out
      ++ (to_console (console_enabled_for s path) line
          ++ (to_files path s.target_files line ++ to_log_file s.log_file line));
}

unfoldable pub emit : Log → Str → Log
unfolding to_log_file
emit s line = record s { out = s.out ++ (console, line) ∷ to_log_file s.log_file line }

-- The function `log`, of a message without a path
unfoldable pub log : Log → Level → Str → Log
unfolding rank emit
log s level msg = if leb (rank s.threshold) (rank level) then emit s msg else s

-- `Logger::enabled`, of the logger at the path
unfoldable pub is_enabled : Log → Str → Level → Bool
unfolding rank longest
is_enabled s path level = elim (longest path s.target_levels) [
  | some m ↦ leb (rank m.1) (rank level)
  | none ↦ leb (rank s.threshold) (rank level)
]

-- `Logger::log`
unfoldable pub logger_log : Log → Str → Level → Str → Log
unfolding is_enabled emit_for
logger_log s path level msg = if is_enabled s path level then emit_for s path msg else s
