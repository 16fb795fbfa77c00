-- ===== src/Application/Projects/Seeds/Prepared.antt =====
-- The second loop of `prepare_seed_tasks` prepares the tasks in the order of the document, each
-- parent before its children.
use silicon_commit.Base.{
  ℕ, zero, suc, ◌+◌, ◌≡◌, ◌≢◌, ◌≤◌, ◌<◌, refl, sym, ap, ◌∙◌, Bool, true, false, ◌&&◌, ◌||◌, List,
  [], ◌∷◌, ◌++◌, Option, none, some, length, length-append, append_nil, ◌⊎◌, ltb, leb, ok, err,
  arith, inl, inr, append_assoc, ◌>>=◌, and_true,
}
use silicon_commit.Domain.Ids.{ProjectTaskId}
use silicon_commit.Domain.Validation.{DomainLimits}
use silicon_commit.Domain.Project.{ProjectSeedTask, seed, SeedTasks, no_seeds, more_seeds}
use silicon_commit.Application.Authorization.{VerifiedActor}
use silicon_commit.Application.Projects.Tasks.{DirectoryOfOne}
use silicon_commit.Application.Projects.Seeds.{
  push_scan, scan, push_pending, Seed, prepare_one, append_seed, collect, collect_checked,
  prepare_seed_tasks, too_many_tasks, too_many_assignees,
}
use silicon_commit.Error.{Fallible}
use silicon_commit.Application.Projects.Seeds.Order.{
  size, size_all, shallow, shallow_all, Placed, place, place_all,
}
use silicon_commit.Application.Projects.Seeds.Bounds.{
  scan_total, left, left_shallow, left-push_scan, left_shallow-push_scan, scan-bounds, scan-errors,
  scan_small,
}

module _ (directory : DirectoryOfOne) (actor : VerifiedActor) (limits : DomainLimits)
    (fresh : ℕ → ProjectTaskId) where
  -- One task after the other, up to the first that fails
  pub prepare_all : List Placed → List Seed → Fallible (List Seed)
  prepare_all [] output = ok output
  prepare_all (p ∷ ps) output =
      prepare_one directory actor limits fresh p.id p.parent p.title p.description p.status
        p.assigned_to
      >>= λ s. prepare_all ps (output ++ s ∷ [])

  -- The tasks of the second stack in their order
  pending : List (ProjectSeedTask × Option ProjectTaskId × ℕ) → ℕ → List Placed
  pending [] n = []
  pending ((t, parent, depth) ∷ stack) n = place fresh t parent n ++ pending stack (n + size t)

  pending_size : List (ProjectSeedTask × Option ProjectTaskId × ℕ) → ℕ
  pending_size [] = 0
  pending_size ((t, parent, depth) ∷ stack) = size t + pending_size stack

  pending_shallow : List (ProjectSeedTask × Option ProjectTaskId × ℕ) → Bool
  pending_shallow [] = true
  pending_shallow ((t, parent, depth) ∷ stack) = shallow t depth && pending_shallow stack

  pending-push :
      (ts : SeedTasks) (parent : Option ProjectTaskId) (depth n : ℕ)
      (stack : List (ProjectSeedTask × Option ProjectTaskId × ℕ))
      → pending (push_pending ts parent depth stack) n
        ≡ place_all fresh ts parent n ++ pending stack (n + size_all ts)
  unfolding pending push_pending place_all size_all
  pending-push no_seeds parent depth n stack = ap (pending stack) (omega arith)
  pending-push (more_seeds t ts) parent depth n stack =
      ap (λ r. place fresh t parent n ++ r) (pending-push ts parent depth (n + size t) stack)
      ∙ sym (append_assoc (place fresh t parent n) (place_all fresh ts parent (n + size t)) _)
      ∙ ap
          (λ k.
            (place fresh t parent n ++ place_all fresh ts parent (n + size t)) ++ pending stack k)
          (omega arith)

  size-push :
      (ts : SeedTasks) (parent : Option ProjectTaskId) (depth : ℕ)
      (stack : List (ProjectSeedTask × Option ProjectTaskId × ℕ))
      → pending_size (push_pending ts parent depth stack) ≡ size_all ts + pending_size stack
  unfolding pending_size push_pending size_all
  size-push no_seeds parent depth stack = omega arith
  size-push (more_seeds t ts) parent depth stack = omega (arith, size-push ts parent depth stack)

  shallow-push :
      (ts : SeedTasks) (parent : Option ProjectTaskId) (depth : ℕ)
      (stack : List (ProjectSeedTask × Option ProjectTaskId × ℕ))
      → pending_shallow (push_pending ts parent depth stack)
        ≡ (shallow_all ts depth && pending_shallow stack)
  unfolding pending_shallow push_pending shallow_all
  shallow-push no_seeds parent depth stack = refl
  shallow-push (more_seeds t ts) parent depth stack =
      ground (arith, shallow-push ts parent depth stack)

  append_seed-bind :
      (r : Fallible Seed) (go : Seed → Option (Fallible (List Seed)))
      (f : Seed → Fallible (List Seed))
      → ((p : Seed) → go p ≡ some (f p))
      → append_seed directory actor limits fresh r go ≡ some (r >>= f)
  append_seed-bind (err e) go f h = refl
  append_seed-bind (ok p) go f h = h p

  collect-prepare_all :
      (fuel : ℕ) (stack : List (ProjectSeedTask × Option ProjectTaskId × ℕ)) (output : List Seed)
      → pending_size stack + length output ≤ 1000
      → pending_shallow stack ≡ true
      → pending_size stack < fuel
      → collect directory actor limits fresh fuel stack output
        ≡ some (prepare_all (pending stack (length output)) output)
  unfolding collect prepare_all pending pending_size pending_shallow size shallow place
  collect-prepare_all zero stack output c s f = absurd (omega arith)
  collect-prepare_all (suc fuel) [] output c s f = refl
  collect-prepare_all (suc fuel)
        ((seed title description status assigned_to subtasks, parent, depth) ∷ stack) output c s f =
      let n = length output in
      let (deep, others) =
        and_true (leb depth 16 && shallow_all subtasks (depth + 1)) (pending_shallow stack) s in
      let (fits, below) = and_true (leb depth 16) (shallow_all subtasks (depth + 1)) deep in
      let here : (leb 1000 n || ltb 16 depth) ≡ false = ground (arith, fits) in
      let children = push_pending subtasks (some (fresh n)) (depth + 1) stack in
      let later =
        place_all fresh subtasks (some (fresh n)) (n + 1)
        ++ pending stack (n + (1 + size_all subtasks)) in
      let same : pending children (n + 1) ≡ later =
        pending-push subtasks (some (fresh n)) (depth + 1) (n + 1) stack
        ∙ ap (λ k. place_all fresh subtasks (some (fresh n)) (n + 1) ++ pending stack k)
            (omega arith) in
      let all_shallow : pending_shallow children ≡ true =
        shallow-push subtasks (some (fresh n)) (depth + 1) stack ∙ ground (arith, below, others) in
      rw here (
        append_seed-bind
          (prepare_one directory actor limits fresh (fresh n) parent title description status
            assigned_to)
          _ _
          (λ p.
            collect-prepare_all fuel children (output ++ p ∷ [])
              (omega (
                arith,
                size-push subtasks (some (fresh n)) (depth + 1) stack,
                length-append output (p ∷ []),
                c,
              ))
              all_shallow (omega (arith, size-push subtasks (some (fresh n)) (depth + 1) stack, f))
            ∙ ap (λ k. some (prepare_all (pending children k) (output ++ p ∷ [])))
                (length-append output (p ∷ []) ∙ omega arith)
            ∙ ap (λ ps. some (prepare_all ps (output ++ p ∷ []))) same))

  collected :
      (tasks : SeedTasks)
      → size_all tasks ≤ 1000
      → shallow_all tasks 1 ≡ true
      → collect directory actor limits fresh 1002 (push_pending tasks none 1 []) []
        ≡ some (prepare_all (place_all fresh tasks none 0) [])
  collected tasks c s =
      collect-prepare_all 1002 (push_pending tasks none 1 []) []
        (unfold pending_size in omega (arith, size-push tasks none 1 []))
        (shallow-push tasks none 1 [] ∙ (unfold pending_shallow in ground (arith, s)))
        (unfold pending_size in omega (arith, size-push tasks none 1 []))
      ∙ ap (λ ps. some (prepare_all ps []))
          (pending-push tasks none 1 0 []
            ∙ (unfold pending in append_nil (place_all fresh tasks none 0)))

  -- What the first loop decides about the whole.
  after_scan :
      (tasks : SeedTasks) (o : Option (Fallible (Unit {0})))
      → scan 1002 (push_scan tasks 1 []) 0 [] ≡ o
      → o ≢ none
      → ((size_all tasks ≤ 1000)
          × (shallow_all tasks 1 ≡ true)
          × (prepare_seed_tasks directory actor limits fresh tasks
              ≡ some (prepare_all (place_all fresh tasks none 0) [])))
        ⊎ (prepare_seed_tasks directory actor limits fresh tasks ≡ some (err too_many_tasks))
        ⊎ (prepare_seed_tasks directory actor limits fresh tasks ≡ some (err too_many_assignees))
  unfolding prepare_seed_tasks collect_checked
  after_scan tasks none e h = absurd (h refl)
  after_scan tasks (some (err x)) e h = elim (scan-errors 1002 (push_scan tasks 1 []) 0 [] e) [
    | inl t ↦ inr (
        inl
          (ap (collect_checked directory actor limits fresh tasks) e ∙ ap (λ x'. some (err x')) t))
    | inr a ↦ inr (
        inr
          (ap (collect_checked directory actor limits fresh tasks) e ∙ ap (λ x'. some (err x')) a))
  ]
  after_scan tasks (some (ok u)) e h =
      let (few, shallow) = scan-bounds 1002 (push_scan tasks 1 []) 0 [] (omega arith) e in
      let c : size_all tasks ≤ 1000 =
        unfold left in omega (arith, left-push_scan tasks 1 [], few) in
      let s : shallow_all tasks 1 ≡ true =
        unfold left_shallow in ground (arith, left_shallow-push_scan tasks 1 [], shallow) in
      inl (c, s, ap (collect_checked directory actor limits fresh tasks) e ∙ collected tasks c s)

  -- The fuel of the two loops over initial tasks is enough for every document: either it has at
  -- most 1000 tasks on at most 16 levels and the result is that of preparing the tasks of its tree
  -- one after the other, each before its subtasks, with the id of its parent; or the result is the
  -- error of too many tasks or levels, or that of too many assignees.
  pub prepare_seed_tasks_outcomes :
      (tasks : SeedTasks)
      → ((size_all tasks ≤ 1000)
          × (shallow_all tasks 1 ≡ true)
          × (prepare_seed_tasks directory actor limits fresh tasks
              ≡ some (prepare_all (place_all fresh tasks none 0) [])))
        ⊎ (prepare_seed_tasks directory actor limits fresh tasks ≡ some (err too_many_tasks))
        ⊎ (prepare_seed_tasks directory actor limits fresh tasks ≡ some (err too_many_assignees))
  prepare_seed_tasks_outcomes tasks =
      after_scan tasks (scan 1002 (push_scan tasks 1 []) 0 []) refl
        (scan_total 1002 (push_scan tasks 1 []) 0 [] (omega arith) (omega arith))

  -- A document of at most 100 tasks on at most 16 levels meets no limit: the loop with a stack
  -- prepares the tasks of its tree recursively from top to bottom.
  pub prepare_seed_tasks_small :
      (tasks : SeedTasks)
      → size_all tasks ≤ 100
      → shallow_all tasks 1 ≡ true
      → prepare_seed_tasks directory actor limits fresh tasks
        ≡ some (prepare_all (place_all fresh tasks none 0) [])
  unfolding prepare_seed_tasks collect_checked
  prepare_seed_tasks_small tasks c s =
      ap (collect_checked directory actor limits fresh tasks) (
        scan_small 1002 (push_scan tasks 1 []) 0 []
          (unfold left in omega (arith, left-push_scan tasks 1 []))
          (unfold left in omega (arith, left-push_scan tasks 1 []))
          (left_shallow-push_scan tasks 1 [] ∙ (unfold left_shallow in ground (arith, s)))
          (unfold left in omega (arith, left-push_scan tasks 1 [])))
      ∙ collected tasks (omega arith) s
