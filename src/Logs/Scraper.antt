-- ===== src/Logs/Scraper.antt =====
-- The session scraper: `probe_local_logs` (app/monitoring/log_scraper.py). What the regular
-- expressions capture is a parameter, and so is the clock's text.
use palworld_server_service.Common.{
  ltb, ◌==◌, ◌≡◌, refl, Bool, true, false, ◌&&◌, not, Option, none, some, List, [], ◌∷◌, length,
  take, if◌then◌else◌,
}
use palworld_server_service.Common.Text.{Text, codes, starts_with, strip}
use mathlib.Core.List.{reverse}

pub record Patterns : Type 0 where
  -- LOG_SEARCH_PATTERN
  pub is_lobby_line : Text → Bool
  -- SessionId: and the bracketed time of a line
  pub session_of : Text → Option Text
  pub timestamp_of : Text → Option Text

-- An empty session id counts as none, as the code tests it.
pub record Scraper : Type 0 where
  pub registered : Bool
  pub first_seen : Option Text
  pub session_id : Option Text
  pub last_matched_line : Text

abbrev pub is_clean_line : Text → Bool
is_clean_line t = not (starts_with (codes "=") t) && ltb 5 (length t)

abbrev pub last_line : Text → List Text → Text
last_line kept [] = kept
last_line kept (line ∷ lines) =
    let rest = last_line kept lines in
    if is_clean_line (strip line) then take 120 (strip line) else rest

-- Of the last fifty lines, given with the newest first.
unfoldable pub tail_lines : List Text → Scraper → Scraper
tail_lines lines s = record s {
  last_matched_line = last_line s.last_matched_line (take 50 (reverse lines));
}

-- str.replace(".", "-")
abbrev pub dashes : Text → Text
dashes [] = []
dashes (c ∷ t) = (if c == b'.' then b'-' else c) ∷ dashes t

-- str.replace("-", " ", 1)
abbrev pub first_dash : Text → Text
first_dash [] = []
first_dash (c ∷ t) = let rest = first_dash t in if c == b'-' then b' ' ∷ t else c ∷ rest

abbrev pub or_former : Option Text → Option Text → Option Text
or_former none kept = kept
or_former (some t) kept = some t

module _ (p : Patterns) (now : Text) where
  abbrev pub time_of : Option Text → Text
  time_of none = now
  time_of (some t) = first_dash (dashes t)

  abbrev pub seen_first : Text → Option Text → Option Text
  seen_first line none = some (time_of (p.timestamp_of line))
  seen_first line (some []) = some (time_of (p.timestamp_of line))
  seen_first line (some (c ∷ t)) = some (c ∷ t)

  abbrev pub registered_by : Text → Scraper → Scraper
  registered_by line s = record s {
    registered = true;
    session_id = or_former (p.session_of line) s.session_id;
    first_seen = seen_first line s.first_seen;
  }

  -- The first line that tells of a lobby decides.
  unfoldable pub extract_session_from_lines : List Text → Scraper → Bool × Scraper
  extract_session_from_lines [] s = (false, s)
  extract_session_from_lines (line ∷ lines) s =
      let rest = extract_session_from_lines lines s in
      if p.is_lobby_line line then (true, registered_by line s) else rest

  abbrev pub has_session : Option Text → Bool
  has_session none = false
  has_session (some []) = false
  has_session (some (c ∷ t)) = true

  abbrev pub scan_on : (Scraper → Scraper) → Bool × Scraper → Scraper
  scan_on more (true, s) = if has_session s.session_id then s else more s
  scan_on more (false, s) = more s

  -- Each file as its lines, or none where reading raises.
  unfoldable pub scan_historical_log_files : List (Option (List Text)) → Scraper → Scraper
  scan_historical_log_files [] s = s
  scan_historical_log_files (none ∷ files) s = scan_historical_log_files files s
  scan_historical_log_files (some lines ∷ files) s =
      scan_on (scan_historical_log_files files) (extract_session_from_lines (take 10000 lines) s)

  -- The journal's lines, or none where journalctl cannot be asked.
  abbrev pub scan_journal : Option (List Text) → Scraper → Scraper
  scan_journal none s = s
  scan_journal (some lines) s = (extract_session_from_lines lines (tail_lines lines s)).1

  unfoldable pub scan_journalctl : Option (List Text) → Scraper → Scraper
  scan_journalctl journal s = if s.registered then s else scan_journal journal s

  abbrev pub tailed : Option (List Text) → Scraper → Scraper
  tailed none s = s
  tailed (some lines) s = tail_lines lines s

  unfoldable pub probe_local_logs :
      Option (List Text) → List (Option (List Text)) → Option (List Text) → Scraper → Scraper
  probe_local_logs active files journal s =
      let s' = tailed active s in
      if s'.registered && has_session s'.session_id
      then s'
      else scan_journalctl journal (scan_historical_log_files files s')

  -- Once a session is known, no probe finds another: the id and the time stay.
  pub probe_local_logs-known :
      (active : Option (List Text)) (files : List (Option (List Text)))
      (journal : Option (List Text)) (s : Scraper)
      → s.registered ≡ true
      → has_session s.session_id ≡ true
      → ((probe_local_logs active files journal s).session_id ≡ s.session_id)
        × ((probe_local_logs active files journal s).first_seen ≡ s.first_seen)
  unfolding probe_local_logs tail_lines
  probe_local_logs-known none files journal s known named = simp (known, named) (refl, refl)
  probe_local_logs-known (some lines) files journal s known named = simp (known, named) (refl, refl)
