-- ===== src/Logs/Console.antt =====
-- The live console: `read_server_logs` (app/monitoring/log_scraper.py). Regular expressions, lower
-- case and the sanitizer are parameters; a search that raises re.error is none.
use palworld_server_service.Common.{
  ℕ, ◌+◌, ◌-◌, ◌*◌, ltb, ◌==◌, Bool, true, false, ◌&&◌, ◌||◌, not, Option, none, some, List, [],
  ◌∷◌, length, drop, if◌then◌else◌,
}
use palworld_server_service.Common.Text.{Text, codes, text_eq}
use palworld_server_service.Updater.Steps.{contains_text}
use mathlib.Core.List.{reverse}

pub record TextTools : Type 0 where
  pub lower : Text → Text
  -- re.search with IGNORECASE, of a query
  pub search : Text → Text → Option Bool
  pub sanitize_log_text : Text → Text

-- Each log file that exists, as its lines or none where reading raises.
pub record LogView : Type 0 where
  pub source : Option ℕ
  pub total_lines_scanned : ℕ
  pub returned_lines : ℕ
  pub lines : List Text

abbrev pub is_break : ℕ → Bool
is_break c = c == 10 || c == 13

abbrev pub lstrip_breaks : Text → Text
lstrip_breaks [] = []
lstrip_breaks (c ∷ t) = let rest = lstrip_breaks t in if is_break c then rest else c ∷ t

-- line.strip("\r\n")
unfoldable pub strip_breaks : Text → Text
strip_breaks t = reverse (lstrip_breaks (reverse (lstrip_breaks t)))

module _ (tools : TextTools) where
  abbrev pub is_found : Option Bool → Bool
  is_found none = false
  is_found (some b) = b

  abbrev pub level_passes : Text → Text → Bool
  level_passes level clean =
      let l = tools.lower level in
      if text_eq l (codes "engine")
      then contains_text (codes "logpalserver") (tools.lower clean)
      else if text_eq l (codes "eos")
      then is_found (tools.search (codes "eos|session|lobby|steam") clean)
      else if text_eq l (codes "warn_error")
      then is_found (tools.search (codes "warning|error|fatal|crash|fail") clean)
      else true

  -- A query that is no regular expression is looked for as it stands.
  abbrev pub query_result : Text → Text → Option Bool → Bool
  query_result query clean none = contains_text (tools.lower query) (tools.lower clean)
  query_result query clean (some found) = found

  abbrev pub query_passes : Option Text → Text → Bool
  query_passes none clean = true
  query_passes (some []) clean = true
  query_passes (some (c ∷ query)) clean =
      query_result (c ∷ query) clean (tools.search (c ∷ query) clean)

  unfoldable pub line_passes : Option Text → Text → Text → Bool
  line_passes filter_query level clean =
      not (text_eq clean []) && (level_passes level clean && query_passes filter_query clean)

  unfoldable pub filter_log_lines : Option Text → Text → List Text → List Text
  filter_log_lines filter_query level [] = []
  filter_log_lines filter_query level (line ∷ raw_lines) =
      let rest = filter_log_lines filter_query level raw_lines in
      let clean = strip_breaks line in
      if line_passes filter_query level clean then tools.sanitize_log_text clean ∷ rest else rest

  -- xs[-n:]
  abbrev pub take_last : ℕ → List Text → List Text
  take_last n xs = drop (length xs - n) xs

  -- A negative tail counts as 10, as 0 does.
  abbrev pub clamp : ℕ → ℕ
  clamp tail = if ltb tail 10 then 10 else if ltb 2000 tail then 2000 else tail

  -- The last lines of the first file that can be read, with its place among the candidates.
  unfoldable pub first_log : ℕ → ℕ → List (Option (List Text)) → Option ℕ × List Text
  first_log tail place [] = (none, [])
  first_log tail place (none ∷ files) = first_log tail (place + 1) files
  first_log tail place (some lines ∷ files) = (some place, take_last (tail * 3) lines)

  -- The journal is asked where there are no lines.
  abbrev pub or_journal : List Text → List Text → List Text
  or_journal [] journal = journal
  or_journal (line ∷ lines) journal = line ∷ lines

  -- On a POSIX host journalctl gives at most three times the tail; elsewhere `journal` is empty.
  unfoldable pub read_server_logs :
      ℕ → Option Text → Text → List (Option (List Text)) → List Text → LogView
  read_server_logs tail filter_query level files journal =
      let n = clamp tail in
      let (source, lines) = first_log n 0 files in
      let raw_lines = or_journal lines (take_last (n * 3) journal) in
      let shown = take_last n (filter_log_lines filter_query level raw_lines) in
      record {
        source = source;
        total_lines_scanned = length raw_lines;
        returned_lines = length shown;
        lines = shown;
      }
