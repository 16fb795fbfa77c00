-- ===== src/Application/Projects/Seeds/Order.antt =====
-- The order of nested seed tasks in a document, with their count and their depth: what the loops of
-- `prepare_seed_tasks` are compared with.
use silicon_commit.Base.{ℕ, ◌+◌, Bool, true, ◌&&◌, List, [], ◌∷◌, ◌++◌, Option, some, leb}
use silicon_commit.Text.{Text}
use silicon_commit.Domain.Ids.{ActorId, ProjectTaskId}
use silicon_commit.Domain.Todo.Status.{TodoStatus}
use silicon_commit.Domain.Project.{ProjectSeedTask, seed, SeedTasks, no_seeds, more_seeds}

-- The tasks of a document, counted with their children.
unfoldable mutual
  pub size : ProjectSeedTask → ℕ
  size (seed title description status assigned_to subtasks) = 1 + size_all subtasks

  pub size_all : SeedTasks → ℕ
  size_all no_seeds = 0
  size_all (more_seeds t ts) = size t + size_all ts

-- No task lies deeper than the sixteenth level.
unfoldable mutual
  pub shallow : ProjectSeedTask → ℕ → Bool
  shallow (seed title description status assigned_to subtasks) depth =
      leb depth 16 && shallow_all subtasks (depth + 1)

  pub shallow_all : SeedTasks → ℕ → Bool
  shallow_all no_seeds depth = true
  shallow_all (more_seeds t ts) depth = shallow t depth && shallow_all ts depth

-- A task with its place: its number in the order of the document, and its parent.
pub record Placed : Type 0 where
  pub id : ProjectTaskId
  pub parent : Option ProjectTaskId
  pub title : Text
  pub description : Text
  pub status : TodoStatus
  pub assigned_to : Option ActorId

module _ (fresh : ℕ → ProjectTaskId) where
  unfoldable mutual
    unfolding size

    pub place : ProjectSeedTask → Option ProjectTaskId → ℕ → List Placed
    place (seed title description status assigned_to subtasks) parent n =
        record {
          id = fresh n;
          parent = parent;
          title = title;
          description = description;
          status = status;
          assigned_to = assigned_to;
        }
        ∷ place_all subtasks (some (fresh n)) (n + 1)

    pub place_all : SeedTasks → Option ProjectTaskId → ℕ → List Placed
    place_all no_seeds parent n = []
    place_all (more_seeds t ts) parent n = place t parent n ++ place_all ts parent (n + size t)
