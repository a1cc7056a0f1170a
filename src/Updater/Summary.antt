-- ===== src/Updater/Summary.antt =====
-- The record of the last update (app/engine/updater.py). A folder gives the text of each path that is a
-- file; JSON is the parameter `Json`. The fields that are only displayed are left out.
use palworld_server_service.Common.{
  ℕ, String, Bool, true, false, not, Option, none, some, List, [], ◌∷◌, if◌then◌else◌,
}
use palworld_server_service.Common.Text.{Text, codes, strip, text_eq}
use palworld_server_service.Common.Outcome.{Outcome, ok, err, type_error}
use palworld_server_service.Updater.Progress.{PostUpdateSummary}

-- int() of the duration, 0 where it is negative, or the ValueError or TypeError that it raises.
pub data Duration : Type 0 where
  seconds : ℕ → Duration
  unreadable no_number : Duration

-- `text_at` is str of the value of a key that is there, `set_acknowledged` the
-- assignment. Of a value that is no dictionary, is_dict is false.
pub record Json (Doc : Type 0) : Type 0 where
  pub loads : Text → Option Doc
  pub dumps : Doc → Text
  pub is_dict : Doc → Bool
  pub text_at : String → Doc → Option Text
  pub duration : Doc → Duration
  pub is_acknowledged : Doc → Bool
  pub set_acknowledged : Doc → Doc

abbrev pub Folder : Type 0
Folder = Text → Option Text

unfoldable pub write : Text → Text → Folder → Folder
write path text files p = if text_eq path p then some text else files p

-- post_update_file, and the candidates of _resolve_post_update_file_path on POSIX.
pub record SummaryPaths : Type 0 where
  pub post_update_file : Text
  pub candidates : List Text

abbrev pub with_text : Text → Option Text → Option (Text × Text) → Option (Text × Text)
with_text path none rest = rest
with_text path (some text) rest = some (path, text)

unfoldable pub first_file : Folder → List Text → Option (Text × Text)
first_file files [] = none
first_file files (path ∷ paths) = with_text path (files path) (first_file files paths)

abbrev pub summary_file : SummaryPaths → Folder → Option (Text × Text)
summary_file paths files = first_file files (paths.post_update_file ∷ paths.candidates)

module _ {Doc : Type 0} (j : Json Doc) where
  abbrev pub text_or : Text → Option Text → Text
  text_or default none = default
  text_or default (some text) = text

  abbrev pub summary_with : Doc → Duration → Outcome (Option PostUpdateSummary)
  summary_with doc unreadable = ok none
  summary_with doc no_number = err type_error
  summary_with doc (seconds duration) = ok (
      some (record {
        has_failed = text_eq (text_or [] (j.text_at "status" doc)) (codes "failed");
        summary = text_or [] (j.text_at "summary" doc);
        duration_seconds = duration;
        acknowledged = j.is_acknowledged doc;
      }))

  abbrev pub summary_of : Option Doc → Outcome (Option PostUpdateSummary)
  summary_of none = ok none
  summary_of (some doc) =
      if j.is_dict doc then summary_with doc (j.duration doc) else err type_error

  abbrev pub not_blank : Text → Outcome (Option PostUpdateSummary)
  not_blank [] = ok none
  not_blank (c ∷ raw_text) = summary_of (j.loads (c ∷ raw_text))

  abbrev pub summary_in : Bool → Option (Text × Text) → Outcome (Option PostUpdateSummary)
  summary_in reads none = ok none
  summary_in reads (some (path, text)) = if reads then not_blank (strip text) else ok none

  -- `reads` is whether the file that is there can be read.
  unfoldable pub get_last_update_summary :
      SummaryPaths → Bool → Folder → Outcome (Option PostUpdateSummary)
  get_last_update_summary paths reads files = summary_in reads (summary_file paths files)

  abbrev pub acknowledged_as : Bool → Text → Option Doc → Folder → Outcome Bool × Folder
  acknowledged_as writes path none files = (ok false, files)
  acknowledged_as writes path (some doc) files =
      if not (j.is_dict doc)
      then (err type_error, files)
      else if writes
      then (ok true, write path (j.dumps (j.set_acknowledged doc)) files)
      else (ok false, files)

  abbrev pub acknowledge_in : Bool → Bool → Option (Text × Text) → Folder → Outcome Bool × Folder
  acknowledge_in reads writes none files = (ok false, files)
  acknowledge_in reads writes (some (path, text)) files =
      if reads then acknowledged_as writes path (j.loads (strip text)) files else (ok false, files)

  -- `writes` is whether the atomic write succeeds.
  unfoldable pub acknowledge_last_update :
      SummaryPaths → Bool → Bool → Folder → Outcome Bool × Folder
  acknowledge_last_update paths reads writes files =
      acknowledge_in reads writes (summary_file paths files) files
