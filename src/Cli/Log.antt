-- ===== src/Cli/Log.antt =====
-- cli/main.go, writeLog: an entry goes to the sinks and to the process's own output. `marshal` stands
-- for json.Marshal, and `text` for FormatText; a line stands without its newline.
use haribon.Prelude.{
  ℕ, ◌≡◌, refl, ap, ◌∙◌, String, true, Option, none, some, List, [], ◌∷◌, ◌++◌, str_eq,
  if◌then◌else◌, Option-cases, inl, inr,
}
use haribon.Logging.Exporters.{
  LogEntry, Exporter, file, multi_write, multi_name, write_entry, exporter_name,
}

-- The sinks, and what has been written to the output.
pub record LogState : Type 0 where
  pub sinks : List Exporter
  pub console : List (List ℕ)

module _ (log_format : String) (marshal : LogEntry → Option (List ℕ))
    (text : LogEntry → List ℕ) where
  -- The line of an entry in the format of the process, if it has one.
  unfoldable pub line_of : LogEntry → Option (List ℕ)
  line_of entry = if str_eq log_format "text" then some (text entry) else marshal entry

  -- the sinks, if they have a name
  unfoldable pub to_sinks : LogEntry → List Exporter → List Exporter
  unfolding line_of multi_name multi_write
  to_sinks entry sinks = elim (multi_name sinks) [
    | [] ↦ sinks
    | c ∷ cs ↦ multi_write line_of entry sinks
  ]

  -- the output
  unfoldable pub to_console : LogEntry → List (List ℕ) → List (List ℕ)
  unfolding line_of
  to_console entry console = elim (line_of entry) [ none ↦ console | some l ↦ console ++ (l ∷ []) ]

  -- func writeLog, with the time of the call
  unfoldable pub write_log : List ℕ → LogEntry → LogState → LogState
  unfolding to_sinks to_console
  write_log now entry s = record {
    sinks = to_sinks (record entry { time = now }) s.sinks;
    console = to_console (record entry { time = now }) s.console;
  }

  to_sinks-file :
      (entry : LogEntry) (ws : List (List ℕ))
      → to_sinks entry (file true ws ∷ []) ≡ file true (to_console entry ws) ∷ []
  unfolding to_sinks to_console multi_name exporter_name multi_write write_entry
  to_sinks-file entry ws = elim (Option-cases (line_of entry)) [
    | inl missing ↦ rw (missing, to_console, write_entry) refl
    | inr (l, found) ↦ rw (found, to_console, write_entry) refl
  ]

  -- A log file as the only sink holds, after any entry, exactly the lines of the process's output, if
  -- it held them before.
  pub write_log-mirrors :
      (now : List ℕ) (entry : LogEntry) (s : LogState)
      → s.sinks ≡ file true s.console ∷ []
      → (write_log now entry s).sinks ≡ file true (write_log now entry s).console ∷ []
  unfolding write_log
  write_log-mirrors now entry s h =
      ap (to_sinks (record entry { time = now })) h
      ∙ to_sinks-file (record entry { time = now }) s.console
