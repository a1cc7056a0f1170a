-- ===== src/Updater/Acknowledged.antt =====
-- What an acknowledgement of the last update leaves (app/engine/updater.py).
use palworld_server_service.Common.{
  String, ◌≡◌, refl, sym, ap, Bool, true, false, Option, none, some, List, [], ◌∷◌, if◌then◌else◌,
  str_eq, Bool-cases, Option-cases, inl, inr,
}
use palworld_server_service.Common.Text.{Text, strip, text_eq, text_eq_refl, text_eq→eq}
use palworld_server_service.Common.Outcome.{Outcome, ok, err, type_error}
use palworld_server_service.Updater.Progress.{PostUpdateSummary, inactive, idle_progress}
use palworld_server_service.Updater.Summary.{
  Json, Duration, seconds, unreadable, no_number, Folder, write, SummaryPaths, first_file,
  summary_file, summary_with, summary_of, not_blank, get_last_update_summary, acknowledged_as,
  acknowledge_last_update,
}

-- A dictionary is read as it was written, its text not blank, and the assignment changes one key.
pub record IsFaithful {Doc : Type 0} (j : Json Doc) : Type 0 where
  pub loads-dumps :
      (doc : Doc)
      → j.is_dict doc ≡ true
      → not_blank j (strip (j.dumps doc)) ≡ summary_of j (some doc)
  pub is_dict : (doc : Doc) → j.is_dict doc ≡ true → j.is_dict (j.set_acknowledged doc) ≡ true
  pub text_at :
      (key : String) (doc : Doc)
      → str_eq key "acknowledged" ≡ false
      → j.text_at key (j.set_acknowledged doc) ≡ j.text_at key doc
  pub duration : (doc : Doc) → j.duration (j.set_acknowledged doc) ≡ j.duration doc
  pub is_acknowledged : (doc : Doc) → j.is_acknowledged (j.set_acknowledged doc) ≡ true

-- The file that was found is found again after it is written, with its new text.
first_file-write :
    (files : Folder) (paths : List Text) (path text old : Text)
    → first_file files paths ≡ some (path, old)
    → first_file (write path text files) paths ≡ some (path, text)
unfolding first_file write
first_file-write files [] path text old found = cc
first_file-write files (p ∷ paths) path text old found = elim (Bool-cases (text_eq path p)) [
  | inl same ↦ rw same (ap (λ q. some (q, text)) (sym (text_eq→eq path p same)))
  | inr other ↦ elim (Option-cases (files p)) [
    | inl missing ↦
        rw (other, missing) (first_file-write files paths path text old (rw missing at found))
    | inr (t, there) ↦
        let here : ◌≡◌ {A = Option (Text × Text)} (some (p, t)) (some (path, old)) =
          rw there at found in
        let p_eq : path ≡ p = cc in
        let test : text_eq path p ≡ true = rw p_eq (text_eq_refl p) in cc
  ]
]

module _ {Doc : Type 0} (j : Json Doc) (faithful : IsFaithful j) where
  abbrev dismissed : PostUpdateSummary → PostUpdateSummary
  dismissed u = record u { acknowledged = true }

  summary_with-set :
      (doc : Doc) (d : Duration) (u : PostUpdateSummary)
      → summary_with j doc d ≡ ok (some u)
      → summary_with j (j.set_acknowledged doc) d ≡ ok (some (dismissed u))
  summary_with-set doc unreadable u read = cc
  summary_with-set doc no_number u read = cc
  summary_with-set doc (seconds n) u read =
      rw
        (
          faithful.text_at "status" doc refl,
          faithful.text_at "summary" doc refl,
          faithful.is_acknowledged doc,
        )
        (ap
          (λ (o : Outcome (Option PostUpdateSummary)). elim o [
            | ok (some v) ↦ ok (some (dismissed v))
            | ok none ↦ ok none
            | err e ↦ err e
          ])
          read)

  acknowledged_as-read :
      (paths : SummaryPaths) (writes : Bool) (files : Folder) (path old : Text) (doc : Doc)
      (u : PostUpdateSummary)
      → summary_file paths files ≡ some (path, old)
      → summary_of j (some doc) ≡ ok (some u)
      → (acknowledged_as j writes path (some doc) files).0 ≡ ok true
      → get_last_update_summary j paths true (acknowledged_as j writes path (some doc) files).1
        ≡ ok (some (dismissed u))
  unfolding get_last_update_summary
  acknowledged_as-read paths writes files path old doc u found read =
      elim (Bool-cases (j.is_dict doc)) [
        | inr other ↦
            let raised : (if false then summary_with j doc (j.duration doc) else err type_error)
                ≡ ok (some u) =
              rw other at read in
            cc
        | inl dict ↦ elim (Bool-cases writes) [
          | inr failed ↦ rw (dict, failed) (λ answered. cc)
          | inl wrote ↦
              rw
                (
                  dict,
                  wrote,
                  first_file-write files (paths.post_update_file ∷ paths.candidates) path
                      (j.dumps (j.set_acknowledged doc)) old found,
                  faithful.loads-dumps (j.set_acknowledged doc) (faithful.is_dict doc dict),
                  faithful.is_dict doc dict,
                  faithful.duration doc,
                )
                (λ answered. summary_with-set doc (j.duration doc) u (rw dict at read))
        ]
      ]

  loaded :
      (paths : SummaryPaths) (writes : Bool) (files : Folder) (path old : Text) (o : Option Doc)
      (u : PostUpdateSummary)
      → summary_file paths files ≡ some (path, old)
      → summary_of j o ≡ ok (some u)
      → (acknowledged_as j writes path o files).0 ≡ ok true
      → get_last_update_summary j paths true (acknowledged_as j writes path o files).1
        ≡ ok (some (dismissed u))
  loaded paths writes files path old none u found read answered = cc
  loaded paths writes files path old (some doc) u found read answered =
      acknowledged_as-read paths writes files path old doc u found read answered

  stripped :
      (paths : SummaryPaths) (writes : Bool) (files : Folder) (path old raw : Text)
      (u : PostUpdateSummary)
      → summary_file paths files ≡ some (path, old)
      → not_blank j raw ≡ ok (some u)
      → (acknowledged_as j writes path (j.loads raw) files).0 ≡ ok true
      → get_last_update_summary j paths true (acknowledged_as j writes path (j.loads raw) files).1
        ≡ ok (some (dismissed u))
  stripped paths writes files path old [] u found read answered = cc
  stripped paths writes files path old (c ∷ raw) u found read answered =
      loaded paths writes files path old (j.loads (c ∷ raw)) u found read answered

  -- An acknowledgement that answers yes turns the summary that is read into the same one, acknowledged,
  -- wherever its file stands, and the progress of no deployment is reported from it any more. The file
  -- can be read, JSON reads back what it writes, and the assignment to one key leaves the others.
  pub acknowledge-get :
      (paths : SummaryPaths) (writes : Bool) (files : Folder) (u : PostUpdateSummary)
      (log_lines : List Text)
      → get_last_update_summary j paths true files ≡ ok (some u)
      → (acknowledge_last_update j paths true writes files).0 ≡ ok true
      → (get_last_update_summary j paths true (acknowledge_last_update j paths true writes files).1
          ≡ ok (some (dismissed u)))
        × (inactive log_lines (some (dismissed u)) ≡ idle_progress log_lines (some (dismissed u)))
  unfolding get_last_update_summary acknowledge_last_update inactive
  acknowledge-get paths writes files u log_lines read =
      elim (Option-cases (summary_file paths files)) [
        | inl missing ↦ let nothing : ok none ≡ ok (some u) = rw missing at read in cc
        | inr (file, found) ↦ rw found (λ answered. (
          stripped paths writes files file.0 file.1 (strip file.1) u found (rw found at read)
              answered,
          refl,
        ))
      ]
