-- ===== src/Examples/Notices.antt =====
-- The theorem about the record of the last update, at one record.
use palworld_server_service.Common.{
  ◌≡◌, refl, Bool, true, false, some, [], ◌∷◌, if◌then◌else◌, str_eq,
}
use palworld_server_service.Common.Text.{codes, text_eq, strip}
use palworld_server_service.Common.Outcome.{ok}
use palworld_server_service.Updater.Progress.{PostUpdateSummary, inactive, idle_progress}
use palworld_server_service.Updater.Summary.{
  Json, seconds, Folder, SummaryPaths, not_blank, summary_of, first_file, get_last_update_summary,
  acknowledge_last_update,
}
use palworld_server_service.Updater.Acknowledged.{IsFaithful, acknowledge-get}

-- A record of an update that is one letter: whether it has been acknowledged.
abbrev flag_json : Json Bool
flag_json = record {
  loads = λ t. some (text_eq t (codes "T"));
  dumps = λ doc. if doc then codes "T" else codes "F";
  is_dict = λ doc. true;
  text_at = λ key doc.
      some (
        if str_eq key "acknowledged"
        then codes (if doc then "True" else "False")
        else codes "done");
  duration = λ doc. seconds 5;
  is_acknowledged = λ doc. doc;
  set_acknowledged = λ doc. true;
}

flag_json-loads :
    (doc : Bool)
    → not_blank flag_json (strip (flag_json.dumps doc)) ≡ summary_of flag_json (some doc)
unfolding strip text_eq
flag_json-loads true = refl
flag_json-loads false = refl

flag_json-IsFaithful : IsFaithful flag_json
flag_json-IsFaithful = record {
  loads-dumps = λ doc dict. flag_json-loads doc;
  is_dict = λ doc dict. refl;
  text_at = λ key doc other. simp other refl;
  duration = λ doc. refl;
  is_acknowledged = λ doc. refl;
}

abbrev last_update_files : Folder
last_update_files path = some (codes "F")

abbrev done_update : PostUpdateSummary
done_update = record {
  has_failed = false;
  summary = codes "done";
  duration_seconds = 5;
  acknowledged = false;
}

abbrev update_paths : SummaryPaths
update_paths = record { post_update_file = codes "a"; candidates = codes "b" ∷ [] }

acknowledge-get_example :
    (get_last_update_summary flag_json update_paths true
        (acknowledge_last_update flag_json update_paths true true last_update_files).1
      ≡ ok (some (record done_update { acknowledged = true })))
    × (inactive [] (some (record done_update { acknowledged = true }))
        ≡ idle_progress [] (some (record done_update { acknowledged = true })))
unfolding get_last_update_summary acknowledge_last_update first_file strip text_eq
acknowledge-get_example =
    acknowledge-get flag_json flag_json-IsFaithful update_paths true last_update_files done_update
      [] refl refl
