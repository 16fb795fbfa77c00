-- ===== src/Application/Projects/Replays.antt =====
-- `acquire_idempotency` and `replay_from_record` of src/infrastructure/postgres/projects.rs: the
-- stored answer to a repeated project request, given only to a caller who can still read the
-- project. The table and its rows are those of Postgres.Idempotency; `body_id` reads the string
-- field `id` of a JSON body, and `find` the rows of a located project.
use silicon_commit.Base.{
  ◌≡◌, refl, ap, ◌∙◌, Bool, true, false, not, List, [], ◌∷◌, Option, none, some, if◌then◌else◌,
  ◌==◌, ◌!=◌, list_eq, nat_eq, string_eq, String, Result, ok, err, fail_if, ok_or, ◌>>=◌, ◌>>◌,
  nat_beq, all, ◌++◌, arith, beq_refl,
}
use silicon_commit.Text.{Text, chars}
use silicon_commit.Domain.Attachment.{strip_prefix}
use silicon_commit.Domain.Ids.{AccountUuid, Uuid}
use silicon_commit.Domain.Todo.{Time}
use silicon_commit.Domain.Project.Uid.{ProjectLocator, project_locator}
use silicon_commit.Postgres.Idempotency.{
  MutationIdentity, MutationResponse, IdempotencyRecord, load_idempotency_record, replayed_response,
}
use silicon_commit.Postgres.Projects.{Circles, ProjectRows, lock_project, can_read}
use silicon_commit.Error.{conflict, not_found, Fallible}

-- `split('/').next()`
unfoldable pub first_segment : Text → Text
first_segment [] = []
first_segment (c ∷ s) = let rest = first_segment s in if nat_beq c b'/' then [] else c ∷ rest

-- `Result::ok`
abbrev pub ok_option : {A E : Type 0} → Result A E → Option A
ok_option (ok a) = some a
ok_option (err e) = none

module _ (parse_uuid : Text → Option Uuid) (body_id : Text → Option Text) where
  unfoldable pub parsed_locator : Option Text → Option ProjectLocator
  parsed_locator none = none
  parsed_locator (some s) = ok_option (project_locator parse_uuid s)

  abbrev pub in_rest : Option Text → Option ProjectLocator
  in_rest none = none
  in_rest (some rest) = parsed_locator (some (first_segment rest))

  -- The locator in the path
  unfoldable pub path_locator : Text → Option ProjectLocator
  unfolding first_segment parsed_locator
  path_locator path = in_rest (strip_prefix path (chars "/projects/"))

  abbrev pub or_created : String → Text → Option ProjectLocator → Option ProjectLocator
  or_created operation body (some l) = some l
  or_created operation body none =
      if operation == "createProject" then parsed_locator (body_id body) else none

  -- `locator` of `acquire_idempotency`: that of the path, or of the created project
  unfoldable pub replay_locator : MutationIdentity → MutationResponse → Option ProjectLocator
  unfolding path_locator parsed_locator
  replay_locator m response = or_created m.operation response.body (path_locator m.resource_path)

  -- `replay_from_record`
  unfoldable pub replay_from_record :
      Option IdempotencyRecord → MutationIdentity → Fallible (Option MutationResponse)
  replay_from_record none m = ok none
  replay_from_record (some r) m = do
    fail_if (r.request_fingerprint != m.fingerprint) (conflict "idempotency_key_reused")
    ok (some (replayed_response r))

  -- The check that the caller can still read the project
  unfoldable pub ensure_readable :
      (ProjectLocator → Option ProjectRows)
      → Circles
      → AccountUuid
      → Option ProjectLocator
      → Fallible (Unit {0})
  ensure_readable find db actor none = ok tt
  ensure_readable find db actor (some l) = do
    s ← ok_or (find l) not_found
    locked ← ok_or (lock_project s) not_found
    fail_if (not (can_read db actor s)) not_found

  unfoldable pub ensure_replayable :
      (ProjectLocator → Option ProjectRows)
      → Circles
      → AccountUuid
      → MutationIdentity
      → Option MutationResponse
      → Fallible (Unit {0})
  unfolding ensure_readable replay_locator
  ensure_replayable find db actor m none = ok tt
  ensure_replayable find db actor m (some response) =
      ensure_readable find db actor (replay_locator m response)

  -- `acquire_idempotency`, with the rows that are left after the expired ones were deleted
  unfoldable pub acquire_idempotency :
      (ProjectLocator → Option ProjectRows)
      → Circles
      → AccountUuid
      → MutationIdentity
      → Time
      → List IdempotencyRecord
      → Fallible (Option MutationResponse × List IdempotencyRecord)
  unfolding replay_from_record ensure_replayable
  acquire_idempotency find db actor m now rows = do
    let loaded = load_idempotency_record actor m now rows
    response ← replay_from_record loaded.0 m
    ensure_replayable find db actor m response
    ok (response, loaded.1)

-- A located project is live and the caller can read it.
abbrev pub is_shown :
    (ProjectLocator → Option ProjectRows) → Circles → AccountUuid → ProjectLocator → Bool
is_shown find db actor l = elim (find l) [ none ↦ false | some s ↦ can_read db actor s ]

module _ (parse_uuid : Text → Option Uuid) (body_id : Text → Option Text) where
  -- The project that a request is about: that of the path `/projects/{locator}` or of a path below
  -- it, or the one that a creation made, whose id the stored body holds.
  pub data IsAbout (m : MutationIdentity) (r : IdempotencyRecord) (l : ProjectLocator)
      : Type 0 where
    of_path :
        (s : Text)
        → m.resource_path ≡ chars "/projects/" ++ s
        → all (λ c. not (nat_beq c b'/')) s ≡ true
        → project_locator parse_uuid s ≡ ok l
        → IsAbout m r l
    of_subpath :
        (s rest : Text)
        → m.resource_path ≡ chars "/projects/" ++ s ++ b'/' ∷ rest
        → all (λ c. not (nat_beq c b'/')) s ≡ true
        → project_locator parse_uuid s ≡ ok l
        → IsAbout m r l
    of_body :
        (s : Text)
        → m.operation ≡ "createProject"
        → m.resource_path ≡ chars "/projects"
        → body_id r.response_body ≡ some s
        → project_locator parse_uuid s ≡ ok l
        → IsAbout m r l

  first_segment_whole : (s : Text) → all (λ c. not (nat_beq c b'/')) s ≡ true → first_segment s ≡ s
  unfolding first_segment
  first_segment_whole [] h = refl
  first_segment_whole (c ∷ s) h = ground (arith, first_segment_whole s)

  first_segment-append :
      (s rest : Text)
      → all (λ c. not (nat_beq c b'/')) s ≡ true
      → first_segment (s ++ b'/' ∷ rest) ≡ s
  unfolding first_segment
  first_segment-append [] rest h = ground arith
  first_segment-append (c ∷ s) rest h = ground (arith, first_segment-append s rest)

  strip_projects : (t : Text) → strip_prefix (chars "/projects/" ++ t) (chars "/projects/") ≡ some t
  unfolding strip_prefix
  strip_projects t = ground arith

  path_locator_of :
      (t s : Text) (l : ProjectLocator)
      → first_segment t ≡ s
      → project_locator parse_uuid s ≡ ok l
      → path_locator parse_uuid body_id (chars "/projects/" ++ t) ≡ some l
  unfolding path_locator parsed_locator
  path_locator_of t s l e h = rw (strip_projects t, e, h) refl

  path_of_creation : path_locator parse_uuid body_id (chars "/projects") ≡ none
  unfolding path_locator strip_prefix
  path_of_creation = ground arith

  replay_locator-IsAbout :
      (m : MutationIdentity) (r : IdempotencyRecord) (l : ProjectLocator)
      → IsAbout m r l
      → replay_locator parse_uuid body_id m (replayed_response r) ≡ some l
  unfolding replay_locator parsed_locator
  replay_locator-IsAbout m r l (of_path s p n h) =
      ap (or_created parse_uuid body_id m.operation r.response_body)
        (ap (path_locator parse_uuid body_id) p ∙ path_locator_of s s l (first_segment_whole s n) h)
  replay_locator-IsAbout m r l (of_subpath s rest p n h) =
      ap (or_created parse_uuid body_id m.operation r.response_body) (
        ap (path_locator parse_uuid body_id) p
        ∙ path_locator_of (s ++ b'/' ∷ rest) s l (first_segment-append s rest n) h)
  replay_locator-IsAbout m r l (of_body s o p b h) =
      ap (or_created parse_uuid body_id m.operation r.response_body)
        (ap (path_locator parse_uuid body_id) p ∙ path_of_creation)
      ∙ ap (λ op. or_created parse_uuid body_id op r.response_body none) o
      ∙ ap (parsed_locator parse_uuid body_id) b
      ∙ ap ok_option h

  ensure_readable-is_shown :
      (find : ProjectLocator → Option ProjectRows) (db : Circles) (actor : AccountUuid)
      (l : ProjectLocator)
      → ensure_readable parse_uuid body_id find db actor (some l)
        ≡ fail_if (not (is_shown find db actor l)) not_found
  unfolding ensure_readable lock_project can_read
  ensure_readable-is_shown find db actor l = ground arith

  -- If a stored response of the request with the same fingerprint is loaded, and the request is
  -- about a located project, by a path `/projects/{locator}`, by a path below it, or as the
  -- creation whose stored body holds the id, then the response is replayed exactly if that project
  -- is found, live and readable for the caller, and otherwise the answer is not found.
  pub acquire_idempotency-readable :
      (find : ProjectLocator → Option ProjectRows) (db : Circles) (actor : AccountUuid)
      (m : MutationIdentity) (now : Time) (rows : List IdempotencyRecord) (r : IdempotencyRecord)
      (l : ProjectLocator)
      → (load_idempotency_record actor m now rows).0 ≡ some r
      → r.request_fingerprint ≡ m.fingerprint
      → IsAbout m r l
      → acquire_idempotency parse_uuid body_id find db actor m now rows ≡ (
          if is_shown find db actor l
          then ok (some (replayed_response r), (load_idempotency_record actor m now rows).1)
          else err not_found)
  unfolding acquire_idempotency replay_from_record ensure_replayable
  acquire_idempotency-readable find db actor m now rows r l loaded same about =
      let checked : ensure_replayable parse_uuid body_id find db actor m
            (some (replayed_response r))
          ≡ fail_if (not (is_shown find db actor l)) not_found =
        ap (ensure_readable parse_uuid body_id find db actor) (replay_locator-IsAbout m r l about)
        ∙ ensure_readable-is_shown find db actor l in
      rw (loaded, same, beq_refl m.fingerprint) (rw checked (ground arith))
