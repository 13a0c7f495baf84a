-- ===== src/Examples/Http.antt =====
-- The theorems on the API at a site with a team of two users and one task.
use task_tracker.Base.{
  parse_int, pos, ℕ, ◌+◌, ◌≤◌, ◌≡◌, refl, false, none, some, [], ◌∷◌, ◌++◌, map, keep, Text, ascii,
  text_eq, ◌⊎◌, arith, decimal, if◌then◌else◌,
}
use task_tracker.Domain.{TaskFilter, at_least, team_role_rank}
use task_tracker.Store.{rollback}
use task_tracker.Persistence.Users.{by_id}
use task_tracker.Persistence.Teams.{member_role}
use task_tracker.Persistence.Tasks.{select, matches, list as list_rows}
use task_tracker.Service.Authorizer.{require_team_role}
use task_tracker.Service.Cache.{get_list, set_list, list_key, same_key}
use task_tracker.Service.Cache.Keys.{IsRequest}
use task_tracker.Service.Cache.Coherence.{Coherent}
use task_tracker.Http.Kit.{Request, decoded, malformed}
use task_tracker.Http.Kit.Gates.{Refused}
use task_tracker.Http.Query.{parsed, positive, parse_limit, parse_cursor}
use task_tracker.Service.Tasks as Service
use task_tracker.Http.Tasks.{
  UpdateTaskRequest, CreateTaskRequest, create_handler, TaskListResponse, to_task_response,
  update_handler, list_handler,
}
use task_tracker.Http.Tasks.Filter.{parse_list_filter, parse_status, parse_assignee}
use task_tracker.Http.Tasks.Filter.Bounds.{parse_list_filter-IsRequest}
use task_tracker.Http.Tasks.Safety.{
  Updates, update_handler-Updates, Creates, create_handler-Creates,
}
use task_tracker.Http.Teams
use task_tracker.Http.Teams.Safety.{Invites, invite_handler-Invites}
use task_tracker.Http.Tasks.Cursor.{list_handler-next_page}
use task_tracker.Http.Tasks.Walk.{walk, walk-eq}
use task_tracker.Http.Comments
use task_tracker.Http.Comments.{UpdateCommentRequest}
use task_tracker.Http.Comments.Safety.{Modifies, update_handler-Modifies}
use task_tracker.Examples.World.{env, task, tables, world}
use task_tracker.Examples.Data.{committing}
use task_tracker.Examples.Site.{rules, rules-Documented}

-- The query of one page of one task of team 1.
abbrev pub query : Text → Text
query key =
    if text_eq key (ascii "team_id")
    then ascii "1"
    else if text_eq key (ascii "limit")
    then ascii "1"
    else []

abbrev page_filter : TaskFilter
page_filter = record { status = none; assignee_id = none; team_id = 1; limit = 1; after_id = 0 }

query_read : parse_list_filter query ≡ parsed page_filter
unfolding parse_list_filter positive parse_limit parse_cursor parse_status parse_assignee text_eq
    parse_int
query_read = refl

parse_list_filter-IsRequest_example :
    IsRequest page_filter
    × (1 ≤ page_filter.team_id)
    × (1 ≤ page_filter.limit)
    × (page_filter.limit ≤ 100)
parse_list_filter-IsRequest_example = parse_list_filter-IsRequest query page_filter query_read

abbrev listing : Request (Unit {0})
listing = record { principal = some 2; url_id = []; query = query; body = malformed; ended = false }

abbrev first_page : TaskListResponse
first_page = record { next_cursor = some 5; items = to_task_response task ∷ [] }

abbrev last_page : TaskListResponse
last_page = record { next_cursor = none; items = [] }

nothing_cached : (team_id : ℕ) → Coherent team_id world
nothing_cached team_id f v tasks of_team rf ahead stored = cc

list_handler-next_page_example :
    (f : TaskFilter) × (parse_list_filter query ≡ parsed f)
    × (first_page.items ++ last_page.items
        ≡ map to_task_response (select (record f { limit = f.limit + f.limit }) tables))
unfolding list_handler Service.list require_team_role by_id member_role list_rows get_list set_list
    list_key at_least team_role_rank select parse_list_filter positive parse_limit parse_cursor
    parse_status parse_assignee text_eq parse_int decimal same_key
list_handler-next_page_example =
    list_handler-next_page env listing world first_page last_page 5 (omega arith, tt) nothing_cached
      refl refl (omega arith) refl

walk-eq_example : walk 3 page_filter tables ≡ some (keep (matches page_filter) tables.tasks)
walk-eq_example = walk-eq 3 page_filter tables (omega arith, tt) (omega arith) (omega arith)

abbrev update : Request UpdateTaskRequest
update = record {
  principal = some 2;
  url_id = ascii "5";
  query = λ _. [];
  body =
      decoded (record {
        assignee_id = none;
        title = ascii "new";
        description = [];
        status = ascii "done";
      });
  ended = false;
}

update_handler-Updates_example :
    Updates env
      (committing rollback)
      rules
      update
      world
      (update_handler env (committing rollback) rules update world)
    ⊎ Refused world (update_handler env (committing rollback) rules update world)
update_handler-Updates_example = update_handler-Updates env (committing rollback) rules update world

abbrev creation : Request CreateTaskRequest
creation = record {
  principal = some 2;
  url_id = [];
  query = λ _. [];
  body = decoded (record {
    assignee_id = some (pos 1);
    title = ascii "new";
    description = [];
    status = ascii "todo";
    team_id = pos 1;
  });
  ended = false;
}

create_handler-Creates_example :
    Creates env
      (committing rollback)
      rules
      creation
      world
      (create_handler env (committing rollback) rules creation world)
    ⊎ Refused world (create_handler env (committing rollback) rules creation world)
create_handler-Creates_example =
    create_handler-Creates env (committing rollback) rules creation world

abbrev invitation : Request Teams.InviteRequest
invitation = record {
  principal = some 1;
  url_id = ascii "1";
  query = λ _. [];
  body = decoded (record { email = ascii "c" });
  ended = false;
}

invite_handler-Invites_example :
    Invites env
      (committing rollback)
      rules
      invitation
      world
      (Teams.invite_handler env (committing rollback) rules invitation world)
    ⊎ Refused world (Teams.invite_handler env (committing rollback) rules invitation world)
invite_handler-Invites_example =
    invite_handler-Invites env (committing rollback) rules invitation world

abbrev edit : Request UpdateCommentRequest
edit = record {
  principal = some 2;
  url_id = ascii "9";
  query = λ _. [];
  body = decoded (record { body = ascii "  new text " });
  ended = false;
}

update_handler-Modifies_example :
    Modifies env
      (committing rollback)
      rules
      edit
      world
      (Comments.update_handler env (committing rollback) rules edit world)
    ⊎ Refused world (Comments.update_handler env (committing rollback) rules edit world)
update_handler-Modifies_example =
    update_handler-Modifies env (committing rollback) rules edit world rules-Documented
