-- ===== src/Api/Disclosed.antt =====
-- Who can read what is submitted as feedback (app/routers/feedback.py).
use mathlib.Core.List.{reverse, reverse-append}
use palworld_server_service.Common.{
  pos, ℕ, suc, String, ◌≡◌, refl, ap, ◌∙◌, false, none, List, [], ◌∷◌, ◌++◌, map, take, keep_where,
}
use palworld_server_service.Common.Outcome.{ok}
use palworld_server_service.Database.Models.{UserRecord, FeedbackRecord}
use palworld_server_service.Database.Store.{Database}
use palworld_server_service.Database.Records.{
  create_feedback, list_feedbacks, row_to_feedback, passes_filter,
}
use palworld_server_service.Api.Deps.{Context, Request, require_permission}
use palworld_server_service.Api.Feedback.{
  FeedbackSubmitRequest, render_feedback_markdown, submit_feedback, list_feedback_submissions,
}

keep_where-all :
    (rows : List FeedbackRecord) → keep_where (passes_filter none none none) rows ≡ rows
keep_where-all [] = refl
keep_where-all (row ∷ rows) = ap (λ t. row ∷ t) (keep_where-all rows)

newest_first :
    (rows : List FeedbackRecord) (row : FeedbackRecord) (limit : ℕ)
    → map row_to_feedback (
        take (suc limit) (reverse (keep_where (passes_filter none none none) (rows ++ (row ∷ [])))))
      ≡ row_to_feedback row ∷ map row_to_feedback (take limit (reverse rows))
newest_first rows row limit =
    ap (λ t. map row_to_feedback (take (suc limit) (reverse t)))
      (keep_where-all (rows ++ (row ∷ [])))
    ∙ ap (λ t. map row_to_feedback (take (suc limit) t)) (reverse-append rows (row ∷ []))

-- What a user with the right to submit feedback submits, a security report too, stands first in the
-- list that the next request gets, whatever credential it has or none, where it asks for at least
-- one entry and no filter.
pub feedback_disclosed :
    (dumps : FeedbackSubmitRequest → String) (req : FeedbackSubmitRequest) (now : String)
    (ctx : Context) (r anyone : Request) (db : Database) (user : UserRecord) (limit : ℕ)
    → require_permission "feedback:submit" ctx r db ≡ ok user
    → list_feedback_submissions false none none none
        (pos (suc limit))
        (pos 0)
        ctx
        anyone
        (submit_feedback dumps req now ctx r db).1
      ≡ ok (
          record {
            id = db.next_feedback_id;
            category = req.category;
            title = req.title;
            description = render_feedback_markdown req;
            metadata_json = dumps req;
            submitted_by = user.username;
            status = "OPEN";
            github_issue_number = none;
            created_at = now;
          }
          ∷ map row_to_feedback (take limit (reverse db.feedback_submissions)))
unfolding list_feedback_submissions submit_feedback create_feedback list_feedbacks row_to_feedback
feedback_disclosed dumps req now ctx r anyone db user limit allowed =
    simp allowed
      (ap (λ t. ok t) (unfold row_to_feedback in newest_first db.feedback_submissions _ limit))
