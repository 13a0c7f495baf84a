-- ===== src/Http/Comments/Safety.antt =====
-- What an answer of internal/transport/http/comments/comments.go says of the tables.
use task_tracker.Base.{
  Bool, ℕ, ◌≤◌, ◌≡◌, none, some, Text, ascii, map, length, ◌⊎◌, inl, inr, ℤ, parse_int, arith,
}
use task_tracker.Tx.{Outcome, ok}
use task_tracker.Domain.{
  Error, email_taken, invalid_credentials, not_found, forbidden, already_member, not_team_member,
  internal, TaskComment,
}
use task_tracker.Store.{Env, World, Transactions, find_comment}
use task_tracker.Persistence.Comments.{set_body}
use task_tracker.Service.Comments
use task_tracker.Service.Comments.Safety.{MayModify, with_comments, update-MayModify}
use task_tracker.Http.Kit.{Reply, json, status, Request, decoded, identifier, answer}
use task_tracker.Http.Kit.Gates.{Refused, path_body_gates, answer_either}
use task_tracker.Http.Rules.{Rules, Documented}
use task_tracker.Http.Trim.{trim_space}
use task_tracker.Http.Trim.Trimmed.{IsTrimmed, trim_space-IsTrimmed}
use task_tracker.Http.Comments.{
  UpdateCommentRequest, max_body_len, validate_update, CommentResponse, to_comment_response,
  failure, update_handler,
}

failure-code : (ended : Bool) (e : Error) → 400 ≤ status (failure {B = CommentResponse} ended e)
failure-code ended not_found = omega arith
failure-code ended forbidden = omega arith
failure-code ended not_team_member = ground arith
failure-code ended email_taken = ground arith
failure-code ended invalid_credentials = ground arith
failure-code ended already_member = ground arith
failure-code ended internal = ground arith

-- The length that the rules of a body allow.
validate_update-length :
    (rules : Rules) (s : Text)
    → Documented rules
    → validate_update rules (record { body = s }) ≡ none
    → (1 ≤ length s) × (length s ≤ max_body_len)
unfolding validate_update
validate_update-length rules s documented valid =
    let ((given, (sized, _)), _) = documented.every_rule _ valid in
    elim (documented.length_in-le 1 max_body_len s sized) [
      | inl empty ↦ absurd (documented.required_ne s given empty)
      | inr bounds ↦ bounds
    ]

abbrev shown_comment : TaskComment → Reply CommentResponse
shown_comment comment = json 200 (to_comment_response comment)

module _ (env : Env) (tx : Transactions) (rules : Rules) where
  -- The request names its user and its comment; the trimmed body, which is neither empty nor too long,
  -- is stored, and the answer shows the comment that the tables then hold.
  pub record Modifies (req : Request UpdateCommentRequest) (w : World)
      (r : Outcome (Reply CommentResponse) (Reply CommentResponse) × World) : Type 0 where
    pub user_id : ℕ
    pub comment_id : ℤ
    pub body : UpdateCommentRequest
    pub comment : TaskComment
    pub statement : ℕ
    pub principal : req.principal ≡ some user_id
    pub in_path : parse_int req.url_id ≡ some comment_id
    pub sent : req.body ≡ decoded body
    pub trimmed : IsTrimmed (trim_space body.body)
    pub sized : (1 ≤ length (trim_space body.body)) × (length (trim_space body.body) ≤ max_body_len)
    pub may_modify : MayModify w.tables user_id (identifier comment_id)
    pub stored :
        r.1.tables
        ≡ with_comments
            (map (set_body (env.time statement) (identifier comment_id) (trim_space body.body)))
            w.tables
    pub found : find_comment (identifier comment_id) r.1.tables ≡ some comment
    pub shown : r.0 ≡ ok (json 200 (to_comment_response comment))

  -- Assume that the rules of the validation do what their package documents. A request to update a
  -- comment either is answered with 200, or leaves every table as it was and ends in a panic or an
  -- answer of at least 400. When it is answered with 200, it names a user who may modify the
  -- comment that its path names, the body without the white space at its ends has from 1 to 4000
  -- bytes and none at its ends, the tables have that body in that comment, with a new time of its
  -- update if its body was another, and no other change, and the answer shows the comment that a
  -- lookup then finds.
  pub update_handler-Modifies :
      (req : Request UpdateCommentRequest) (w : World)
      → Documented rules
      → Modifies req w (update_handler env tx rules req w)
        ⊎ Refused w (update_handler env tx rules req w)
  unfolding update_handler
  update_handler-Modifies req w documented =
      path_body_gates (Modifies req w) w req.principal (ascii "invalid comment id") req.url_id
        req.body (λ sent. validate_update rules (record { body = trim_space sent.body }))
        (λ user_id comment_id sent.
          answer (Comments.update env tx user_id comment_id (trim_space sent.body)) shown_comment
            (failure req.ended))
        λ user_id comment_id body is_user is_comment is_body is_valid.
          let id = identifier comment_id in
          let text = trim_space body.body in
          let call = Comments.update env tx user_id id text in
          elim (answer_either
            (λ c.
              MayModify w.tables user_id id
              × ((n : ℕ) × ((call w).1.tables
                    ≡ with_comments (map (set_body (env.time n) id text)) w.tables))
              × (find_comment id (call w).1.tables ≡ some c))
            call shown_comment (failure req.ended) w (failure-code req.ended)
            (elim (update-MayModify env user_id tx id text w) [
              | inl (c, returned, may, stored, found) ↦ inl (c, returned, (may, stored, found))
              | inr undone ↦ inr undone
            ])) [
              | inl (comment, shown, (may, (n, stored), found)) ↦ inl (record {
                user_id = user_id;
                comment_id = comment_id;
                body = body;
                comment = comment;
                statement = n;
                principal = is_user;
                in_path = is_comment;
                sent = is_body;
                trimmed = trim_space-IsTrimmed body.body;
                sized = validate_update-length rules text documented is_valid;
                may_modify = may;
                stored = stored;
                found = found;
                shown = shown;
              })
              | inr refused ↦ inr refused
            ]
