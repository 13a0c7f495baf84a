-- ===== src/Http/Middleware/Headers.antt =====
-- What a response of internal/transport/http carries beside its status and body.
use task_tracker.Base.{ℕ, Option, none}
use task_tracker.Http.Kit.{Reply}

-- An answer with its `Retry-After` header, if it has one.
pub record Answer (B : Type 0) : Type 0 where
  pub reply : Reply B
  pub retry_after : Option ℕ

abbrev pub plain : {B : Type 0} → Reply B → Answer B
plain r = record { reply = r; retry_after = none }
