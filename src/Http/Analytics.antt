-- ===== src/Http/Analytics.antt =====
-- internal/transport/http/analytics: dto.go and analytics.go.
use task_tracker.Base.{
  ℕ, ◌+◌, Bool, Option, none, some, List, [], ◌∷◌, Text, ascii, map, ◌==◌, if◌then◌else◌,
}
use task_tracker.Tx.{◌>>=◌}
use task_tracker.Domain.{Error, forbidden, TeamStats, TeamTopCreator, OrphanAssignee}
use task_tracker.Store.{Env}
use task_tracker.Service.Analytics
use task_tracker.Http.Kit.{
  Reply, json, error, Request, Handler, error_text, write_internal_error, principal_of, answer,
}
use task_tracker.Http.Query
use task_tracker.Http.Query.{Parsed, parsed, parse_limit, parse_cursor, next_cursor, parsed_or_400}

pub record TeamStatsResponse : Type 0 where
  pub name : Text
  pub id : ℕ
  pub members : ℕ
  pub done_last_7_days : ℕ

pub record TopCreatorResponse : Type 0 where
  pub team_name : Text
  pub user_name : Text
  pub team_id : ℕ
  pub user_id : ℕ
  pub tasks_created : ℕ
  pub rank : ℕ

pub record OrphanAssigneeResponse : Type 0 where
  pub title : Text
  pub task_id : ℕ
  pub team_id : ℕ
  pub assignee_id : ℕ

-- The three list responses of dto.go.
pub record ListResponse (A : Type 0) : Type 0 where
  pub next_cursor : Option ℕ
  pub items : List A

pub record CursorLimit : Type 0 where
  pub after_id : ℕ
  pub limit : ℕ

-- `parseCursorLimit`
unfoldable pub parse_cursor_limit : (Text → Text) → Parsed CursorLimit
parse_cursor_limit q = Query.◌>>=◌ (parse_limit (q (ascii "limit"))) (λ limit.
    Query.◌>>=◌ (parse_cursor (q (ascii "cursor")))
      (λ after_id. parsed (record { after_id = after_id; limit = limit })))

-- The switch of the three handlers.
abbrev pub failure : {B : Type 0} → Bool → Error → Reply B
failure ended forbidden = error 403 (error_text forbidden)
failure ended _ = write_internal_error ended

abbrev pub to_stats_response : TeamStats → TeamStatsResponse
to_stats_response s = record {
  id = s.id;
  name = s.name;
  members = s.members;
  done_last_7_days = s.done_last_7_days;
}

abbrev pub to_creator_response : TeamTopCreator → TopCreatorResponse
to_creator_response c = record {
  team_id = c.team_id;
  team_name = c.team_name;
  user_id = c.user_id;
  user_name = c.user_name;
  tasks_created = c.tasks_created;
  rank = c.rank;
}

abbrev pub to_orphan_response : OrphanAssignee → OrphanAssigneeResponse
to_orphan_response o = record {
  task_id = o.task_id;
  team_id = o.team_id;
  assignee_id = o.assignee_id;
  title = o.title;
}

abbrev pub stats_page : ℕ → List TeamStats → ListResponse TeamStatsResponse
stats_page limit stats = record {
  items = map to_stats_response stats;
  next_cursor = next_cursor limit (map (λ (s : TeamStats). s.id) stats);
}

-- The loop of `topCreatorsHandler`: how often the team changes, and the last one.
unfoldable pub count_teams : ℕ → ℕ → List TeamTopCreator → ℕ × ℕ
count_teams teams last_team [] = (teams, last_team)
count_teams teams last_team (c ∷ cs) =
    count_teams (if c.team_id == last_team then teams else teams + 1) c.team_id cs

abbrev creators_cursor : ℕ → ℕ × ℕ → Option ℕ
creators_cursor limit (teams, last_team) = if teams == limit then some last_team else none

abbrev pub creators_page : ℕ → List TeamTopCreator → ListResponse TopCreatorResponse
creators_page limit creators = record {
  items = map to_creator_response creators;
  next_cursor = creators_cursor limit (count_teams 0 0 creators);
}

abbrev pub orphans_page : ℕ → List OrphanAssignee → ListResponse OrphanAssigneeResponse
orphans_page limit orphans = record {
  items = map to_orphan_response orphans;
  next_cursor = next_cursor limit (map (λ (o : OrphanAssignee). o.task_id) orphans);
}

module _ (env : Env) (week_ago month_ago : ℕ → ℕ) where
  -- `teamStatsHandler`
  unfoldable pub team_stats_handler : Request (Unit {0}) → Handler (ListResponse TeamStatsResponse)
  team_stats_handler req = do
    user_id ← principal_of req.principal
    page ← parsed_or_400 (parse_cursor_limit req.query)
    answer (Analytics.team_stats env week_ago month_ago user_id page.after_id page.limit)
        (λ stats. json 200 (stats_page page.limit stats)) (failure req.ended)

  -- `topCreatorsHandler`
  unfoldable pub top_creators_handler :
      Request (Unit {0}) → Handler (ListResponse TopCreatorResponse)
  top_creators_handler req = do
    user_id ← principal_of req.principal
    page ← parsed_or_400 (parse_cursor_limit req.query)
    answer (Analytics.top_creators env week_ago month_ago user_id page.after_id page.limit)
        (λ creators. json 200 (creators_page page.limit creators)) (failure req.ended)

module _ (env : Env) where
  -- `orphanAssigneesHandler`
  unfoldable pub orphan_assignees_handler :
      Request (Unit {0}) → Handler (ListResponse OrphanAssigneeResponse)
  orphan_assignees_handler req = do
    user_id ← principal_of req.principal
    page ← parsed_or_400 (parse_cursor_limit req.query)
    answer (Analytics.orphan_assignees env user_id page.after_id page.limit)
        (λ orphans. json 200 (orphans_page page.limit orphans)) (failure req.ended)
