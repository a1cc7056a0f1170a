-- ===== src/Logs/Shown.antt =====
-- What the live console of app/monitoring/log_scraper.py shows.
use palworld_server_service.Common.{
  ℕ, zero, suc, ◌-◌, ◌*◌, ◌≤◌, ◌≡◌, refl, true, Option, List, [], ◌∷◌, arith, length, drop,
  Bool-cases, inl, inr, All,
}
use palworld_server_service.Common.Text.{Text}
use palworld_server_service.Logs.Console.{
  TextTools, strip_breaks, line_passes, filter_log_lines, take_last, clamp, first_log, or_journal,
  read_server_logs,
}

-- The sanitized form of a line that the filters let through.
abbrev pub IsShowable : TextTools → Option Text → Text → Text → Type 0
IsShowable tools filter_query level shown =
    (line : Text) × ((line_passes tools filter_query level (strip_breaks line) ≡ true)
      × (shown ≡ tools.sanitize_log_text (strip_breaks line)))

All-drop : {A : Type 0} (P : A → Type 0) (n : ℕ) (xs : List A) → All P xs → All P (drop n xs)
All-drop P zero xs hs = hs
All-drop P (suc n) [] hs = tt
All-drop P (suc n) (x ∷ xs) hs = All-drop P n xs hs.1

length-drop : {A : Type 0} (n : ℕ) (xs : List A) → length (drop n xs) ≡ length xs - n
length-drop zero xs = omega arith
length-drop (suc n) [] = omega arith
length-drop (suc n) (x ∷ xs) = omega (arith, length-drop n xs)

module _ (tools : TextTools) (filter_query : Option Text) (level : Text) where
  filter_log_lines-IsShowable :
      (lines : List Text)
      → All (IsShowable tools filter_query level) (filter_log_lines tools filter_query level lines)
  unfolding filter_log_lines
  filter_log_lines-IsShowable [] = tt
  filter_log_lines-IsShowable (line ∷ lines) =
      elim (Bool-cases (line_passes tools filter_query level (strip_breaks line))) [
        | inl passes ↦ simp passes ((line, (passes, refl)), filter_log_lines-IsShowable lines)
        | inr stops ↦ simp stops (filter_log_lines-IsShowable lines)
      ]

  take_last-length : (n : ℕ) (xs : List Text) → length (take_last tools n xs) ≤ n
  take_last-length n xs = omega (arith, length-drop (length xs - n) xs)

  clamp-bounds : (tail : ℕ) → clamp tools tail ≤ 2000
  clamp-bounds tail = ground arith

  -- The console shows at most 2000 lines and no more than are asked for, where ten at least are
  -- asked for; each is the sanitized form of a line that the level and the query let through.
  pub read_server_logs-IsShowable :
      (tail : ℕ) (files : List (Option (List Text))) (journal : List Text)
      → (length (read_server_logs tools tail filter_query level files journal).lines ≤ 2000)
        × ((length (read_server_logs tools tail filter_query level files journal).lines
              ≤ clamp tools tail)
            × All
                (IsShowable tools filter_query level)
                (read_server_logs tools tail filter_query level files journal).lines)
  unfolding read_server_logs
  read_server_logs-IsShowable tail files journal =
      let raw =
        or_journal tools (first_log tools (clamp tools tail) 0 files).1
          (take_last tools (clamp tools tail * 3) journal) in
      let found = filter_log_lines tools filter_query level raw in
      (
        omega (arith, take_last-length (clamp tools tail) found, clamp-bounds tail),
        (
          take_last-length (clamp tools tail) found,
          All-drop (IsShowable tools filter_query level) (length found - clamp tools tail) found
              (filter_log_lines-IsShowable raw),
        ),
      )
