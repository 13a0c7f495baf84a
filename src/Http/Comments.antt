-- ===== src/Http/Comments.antt =====
-- internal/transport/http/comments: dto.go and comments.go.
use task_tracker.Base.{ℕ, Bool, Option, none, some, List, [], ◌∷◌, Text, ascii, map, ℤ, pos}
use task_tracker.Tx.{Outcome, ok, err, ◌>>=◌, ◌>>◌}
use task_tracker.Domain.{Error, not_found, forbidden, TaskComment, CommentFilter}
use task_tracker.Store.{Env, Transactions}
use task_tracker.Service.Comments
use task_tracker.Http.Kit.{
  Reply, json, error, bare, Request, Handler, error_text, write_internal_error, principal_of,
  decode_json, check, identifier, path_id, answer,
}
use task_tracker.Http.Rules.{Rules}
use task_tracker.Http.Trim.{trim_space}
use task_tracker.Http.Query
use task_tracker.Http.Query.{
  Parsed, parsed, positive, parse_limit, parse_cursor, next_cursor, parsed_or_400,
}
pub mod Safety

pub record CreateCommentRequest : Type 0 where
  pub body : Text
  pub task_id : ℤ

pub record UpdateCommentRequest : Type 0 where
  pub body : Text

abbrev pub max_body_len : ℕ
max_body_len = 4000

module _ (rules : Rules) where
  unfoldable pub validate_create : CreateCommentRequest → Option Text
  validate_create r = rules.validate_struct (
      (rules.required_int r.task_id ∷ rules.min_int (pos 1) r.task_id ∷ [])
      ∷ (rules.required r.body ∷ rules.length_in 1 max_body_len r.body ∷ [])
      ∷ [])

  unfoldable pub validate_update : UpdateCommentRequest → Option Text
  validate_update r =
      rules.validate_struct
        ((rules.required r.body ∷ rules.length_in 1 max_body_len r.body ∷ []) ∷ [])

pub record CommentResponse : Type 0 where
  pub created_at : ℕ
  pub updated_at : ℕ
  pub body : Text
  pub id : ℕ
  pub task_id : ℕ
  pub user_id : ℕ

pub record CommentListResponse : Type 0 where
  pub next_cursor : Option ℕ
  pub items : List CommentResponse

-- `toCommentResponse`
abbrev pub to_comment_response : TaskComment → CommentResponse
to_comment_response c = record {
  id = c.id;
  task_id = c.task_id;
  user_id = c.user_id;
  body = c.body;
  created_at = c.created_at;
  updated_at = c.updated_at;
}

-- `parseListFilter`
unfoldable pub parse_list_filter : (Text → Text) → Parsed CommentFilter
parse_list_filter q =
    Query.◌>>=◌ (positive (ascii "task_id is required") (q (ascii "task_id"))) (λ task_id.
      Query.◌>>=◌ (parse_limit (q (ascii "limit"))) (λ limit.
        Query.◌>>=◌ (parse_cursor (q (ascii "cursor")))
          (λ after_id. parsed (record { task_id = task_id; limit = limit; after_id = after_id }))))

-- The switch of every handler of the file.
abbrev pub failure : {B : Type 0} → Bool → Error → Reply B
failure ended not_found = error 404 (error_text not_found)
failure ended forbidden = error 403 (error_text forbidden)
failure ended _ = write_internal_error ended

abbrev pub comment_page : CommentFilter → List TaskComment → CommentListResponse
comment_page f comments = record {
  items = map to_comment_response comments;
  next_cursor = next_cursor f.limit (map (λ (c : TaskComment). c.id) comments);
}

module _ (env : Env) where
  -- `listHandler`
  unfoldable pub list_handler : Request (Unit {0}) → Handler CommentListResponse
  list_handler req = do
    user_id ← principal_of req.principal
    filter ← parsed_or_400 (parse_list_filter req.query)
    answer (Comments.list env user_id filter) (λ comments. json 200 (comment_page filter comments))
        (failure req.ended)

  module _ (tx : Transactions) where
    -- `deleteHandler`
    unfoldable pub delete_handler : Request (Unit {0}) → Handler (Unit {0})
    delete_handler req = do
      user_id ← principal_of req.principal
      comment_id ← path_id (ascii "invalid comment id") req.url_id
      answer (Comments.delete env tx user_id comment_id) (λ _. bare 204) (failure req.ended)

    module _ (rules : Rules) where
      -- `createHandler`: the body is trimmed before it is checked.
      unfoldable pub create_handler : Request CreateCommentRequest → Handler CommentResponse
      create_handler req = do
        user_id ← principal_of req.principal
        sent ← decode_json req.body
        let trimmed = record sent { body = trim_space sent.body }
        check (validate_create rules trimmed)
        answer (Comments.create env tx user_id (identifier trimmed.task_id) trimmed.body)
            (λ comment. json 201 (to_comment_response comment)) (failure req.ended)

      -- `updateHandler`
      unfoldable pub update_handler : Request UpdateCommentRequest → Handler CommentResponse
      update_handler req = do
        user_id ← principal_of req.principal
        comment_id ← path_id (ascii "invalid comment id") req.url_id
        sent ← decode_json req.body
        let trimmed = trim_space sent.body
        check (validate_update rules (record { body = trimmed }))
        answer (Comments.update env tx user_id comment_id trimmed)
            (λ comment. json 200 (to_comment_response comment)) (failure req.ended)
