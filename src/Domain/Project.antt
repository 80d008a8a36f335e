-- ===== src/Domain/Project.antt =====
-- packages/domain/src/project/project.ts.
use constructie_orchestrator.Base.{ℕ, String}

pub data ProjectLifecycleState : Type 0 where
  active paused archived : ProjectLifecycleState

pub record Project : Type 0 where
  pub id : String
  pub slug : String
  pub name : String
  pub lifecycle_state : ProjectLifecycleState
  pub revision : ℕ
  pub created_at : ℕ
  pub updated_at : ℕ

unfoldable pub create_project : String → String → String → ℕ → Project
create_project id slug name now = record {
  id = id;
  slug = slug;
  name = name;
  lifecycle_state = active;
  revision = 1;
  created_at = now;
  updated_at = now;
}
