-- ===== src/Examples/World.antt =====
-- A team of two users with one task and one comment, and an input for it.
use task_tracker.Base.{ℕ, false, none, some, [], ◌∷◌, Text, ascii, text_eq}
use task_tracker.Domain.{Task, todo, done, TaskFilter, TaskComment, member, owner, user, User}
use task_tracker.Store.{Env, World, Tables}
use task_tracker.Service.Tasks.{TaskInput}

abbrev pub env : Env
env = record {
  fails = λ _. false;
  time = λ n. n;
  group_id = λ _. ascii "group";
  same_email = λ a b. text_eq a b;
}

abbrev pub person : ℕ → Text → User
person id email = record {
  created_at = 0;
  email = email;
  name = email;
  password_hash = [];
  role = user;
  id = id;
}

abbrev pub task : Task
task = record {
  created_at = 1;
  updated_at = 1;
  completed_at = none;
  assignee_id = some 2;
  title = ascii "t";
  description = [];
  status = todo;
  id = 5;
  team_id = 1;
  created_by = 1;
}

abbrev pub comment : TaskComment
comment = record {
  created_at = 1;
  updated_at = 1;
  body = ascii "c";
  id = 9;
  task_id = 5;
  user_id = 2;
}

abbrev pub tables : Tables
tables = record {
  users = person 1 (ascii "a") ∷ person 2 (ascii "b") ∷ person 3 (ascii "c") ∷ [];
  teams = record { created_at = 0; name = ascii "team"; id = 1; created_by = 1 } ∷ [];
  members =
      record { team_id = 1; user_id = 1; role = owner }
      ∷ record { team_id = 1; user_id = 2; role = member }
      ∷ [];
  tasks = task ∷ [];
  history = [];
  comments = comment ∷ [];
  outbox = [];
}

abbrev pub world : World
world = record {
  tables = tables;
  counters = record {
    next_user = 4;
    next_team = 2;
    next_task = 6;
    next_comment = 10;
    next_message = 1;
  };
  redis = record { versions = λ _. none; lists = λ _. none };
  sent = 0;
}

abbrev pub input : TaskInput
input = record { assignee_id = none; title = ascii "t2"; description = []; status = done }

abbrev pub filter : TaskFilter
filter = record { status = some todo; assignee_id = none; team_id = 1; limit = 1; after_id = 0 }
