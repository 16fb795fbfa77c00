-- ===== src/Application/Projects/Tasks/Exclusive.antt =====
-- Requests to claim one task, served one after the other (`claim_task` of
-- src/application/projects/collaboration.rs).
use silicon_commit.Base.{
  ◌≡◌, ◌⊎◌, inl, inr, refl, sym, ap, ◌∙◌, Bool, true, false, not, List, [], ◌∷◌, Option, none, some,
  ok, err, bind-ok, ok_inj, ok_or, subst, if◌then◌else◌, arith,
}
use silicon_commit.Text.{Text}
use silicon_commit.Config.{Duration}
use silicon_commit.Domain.Ids.{AccountUuid, ProjectTaskId, Uuid}
use silicon_commit.Domain.Todo.{is_some}
use silicon_commit.Postgres.Idempotency.{
  MutationIdentity, MutationResponse, IdempotencyRecord, replayed_response, load_idempotency_record,
}
use silicon_commit.Postgres.Projects.Tasks.{Work, TaskRow, fetch_task_by_id}
use silicon_commit.Application.Projects.{validate_request_id, authorize_locked_project}
use silicon_commit.Application.Projects.Replays.{
  acquire_idempotency, replay_from_record, ensure_replayable,
}
use silicon_commit.Application.Projects.Tasks.{claim_open}
use silicon_commit.Application.Projects.Tasks.Claims.{claim_open-IsClaimed, claim_open-unassigned}
use silicon_commit.Application.Projects.Tasks.Requests.{
  ClaimRequest, save_idempotency, store_claim, answer_claim, claim_request,
}
use silicon_commit.Error.{Fallible, internal}

-- The store of responses and the project
abbrev pub Desk : Type 0
Desk = List IdempotencyRecord × Work

-- The task is assigned to the account.
pub data IsAssignedTo (task_id : ProjectTaskId) (a : AccountUuid) (w : Work) : Type 0 where
  assigned :
      (t : TaskRow)
      → fetch_task_by_id task_id w.tasks ≡ some t
      → t.assigned_to_account ≡ some a
      → IsAssignedTo task_id a w

-- A response that is not a replay
abbrev pub is_fresh : MutationResponse → Bool
is_fresh r = not r.replayed

module _ (parse_uuid : Text → Option Uuid) (body_id : Text → Option Text)
    (to_json : TaskRow → Option Text) (ttl : Duration) (task_id : ProjectTaskId) where
  -- What is left after a request, and whether it was accepted as a new claim
  abbrev pub after_claim :
      Desk → Fallible (MutationResponse × List IdempotencyRecord × Work) → Desk × Bool
  after_claim d (err e) = (d, false)
  after_claim d (ok (response, records, w)) = ((records, w), is_fresh response)

  abbrev pub serve_claim : ClaimRequest → Desk → Desk × Bool
  serve_claim q d = after_claim d (claim_request parse_uuid body_id to_json ttl task_id q d.0 d.1)

  -- The requests one after the other: what is left, and the accounts whose claims were accepted.
  abbrev pub serve_claims : List ClaimRequest → Desk → Desk × List AccountUuid
  serve_claims [] d = (d, [])
  serve_claims (q ∷ qs) d =
      let served = serve_claim q d in
      let rest = serve_claims qs served.0 in
      (rest.0, if served.1 then q.actor.actor.uuid ∷ rest.1 else rest.1)

  -- A request that is answered from the store, or refused, leaves the project; a new claim finds the
  -- task open and assigns it.
  data IsServed (q : ClaimRequest) (w : Work) (d : Desk × Bool) : Type 0 where
    kept : w ≡ d.0.1 → d.1 ≡ false → IsServed q w d
    won :
        (t : TaskRow) (c : TaskRow × Work)
        → claim_open q.db q.actor task_id q.fresh q.now w ≡ ok c
        → c.1 ≡ d.0.1
        → d.1 ≡ true
        → IsServed q w d

  stored-replayed :
      (record_ : Option IdempotencyRecord) (m : MutationIdentity) (o : Option MutationResponse)
      → replay_from_record parse_uuid body_id record_ m ≡ ok o
      → (r : MutationResponse) → o ≡ some r
      → r.replayed ≡ true
  unfolding replay_from_record
  stored-replayed none m o h r e = absurd (cc (h, e))
  stored-replayed (some s) m o h r e =
      let (_, _, k) = bind-ok _ (λ _. ok (some (replayed_response s))) h in
      let same : some (replayed_response s) ≡ some r = ok_inj _ _ k ∙ e in ground (arith, same)

  acquired-replayed :
      (q : ClaimRequest) (records rest : List IdempotencyRecord) (o : Option MutationResponse)
      → acquire_idempotency parse_uuid body_id q.find q.db q.actor.actor.uuid q.identity q.now
          records
        ≡ ok (o, rest)
      → (r : MutationResponse) → o ≡ some r
      → r.replayed ≡ true
  unfolding acquire_idempotency
  acquired-replayed q records rest o h r e =
      let loaded = load_idempotency_record q.actor.actor.uuid q.identity q.now records in
      let (answer, got, h₁) =
        bind-ok (replay_from_record parse_uuid body_id loaded.0 q.identity) _ h in
      let (_, _, h₂) =
        bind-ok
          (ensure_replayable parse_uuid body_id q.find q.db q.actor.actor.uuid q.identity answer) _
          h₁ in
      let same : answer ≡ o =
        ap (λ (p : Option MutationResponse × List IdempotencyRecord). p.0)
          (ok_inj (answer, loaded.1) (o, rest) h₂) in
      stored-replayed loaded.0 q.identity answer got r (same ∙ e)

  stored-IsServed :
      (q : ClaimRequest) (w w' : Work) (records rest : List IdempotencyRecord) (c : TaskRow × Work)
      (response : MutationResponse)
      → claim_open q.db q.actor task_id q.fresh q.now w ≡ ok c
      → store_claim parse_uuid body_id to_json ttl task_id q records c ≡ ok (response, rest, w')
      → IsServed q w ((rest, w'), is_fresh response)
  unfolding store_claim
  stored-IsServed q w w' records rest c response claimed h =
      let (body, _, h₁) =
        bind-ok (ok_or (to_json c.0) (internal "project response serialization failed")) _ h in
      let made : MutationResponse = record { status = 200; body = body; replayed = false } in
      let (records', _, h₂) =
        bind-ok (save_idempotency q.actor.actor.uuid q.identity made ttl q.now records) _ h₁ in
      let same = ok_inj (made, records', c.1) (response, rest, w') h₂ in
      won c.0 c claimed (ap (λ (p : MutationResponse × List IdempotencyRecord × Work). p.2) same)
        (ap (λ (p : MutationResponse × List IdempotencyRecord × Work). is_fresh p.0) (sym same))

  answer_claim-IsServed :
      (q : ClaimRequest) (w w' : Work) (o : Option MutationResponse)
      (records rest : List IdempotencyRecord) (response : MutationResponse)
      → ((r : MutationResponse) → o ≡ some r → r.replayed ≡ true)
      → answer_claim parse_uuid body_id to_json ttl task_id q w (o, records)
        ≡ ok (response, rest, w')
      → IsServed q w ((rest, w'), is_fresh response)
  unfolding answer_claim
  answer_claim-IsServed q w w' (some r) records rest response replays h =
      let same = ok_inj (r, records, w) (response, rest, w') h in
      kept (ap (λ (p : MutationResponse × List IdempotencyRecord × Work). p.2) same) (
        ap (λ (p : MutationResponse × List IdempotencyRecord × Work). is_fresh p.0) (sym same)
        ∙ ap not (replays r refl))
  answer_claim-IsServed q w w' none records rest response replays h =
      let (c, claimed, k) = bind-ok (claim_open q.db q.actor task_id q.fresh q.now w) _ h in
      stored-IsServed q w w' records rest c response claimed k

  claim_request-IsServed :
      (q : ClaimRequest) (d : Desk)
      (x : Fallible (MutationResponse × List IdempotencyRecord × Work))
      → claim_request parse_uuid body_id to_json ttl task_id q d.0 d.1 ≡ x
      → IsServed q d.1 (after_claim d x)
  unfolding claim_request
  claim_request-IsServed q d (err e) h = kept refl refl
  claim_request-IsServed q d (ok (response, rest, w')) h =
      let me = q.actor.actor.uuid in
      let (_, _, h₁) = bind-ok (validate_request_id q.request_id) _ h in
      let (_, _, h₂) = bind-ok (authorize_locked_project q.db me d.1.rows) _ h₁ in
      let (acquired, got, h₃) =
        bind-ok (acquire_idempotency parse_uuid body_id q.find q.db me q.identity q.now d.0) _ h₂ in
      answer_claim-IsServed q d.1 w' acquired.0 acquired.1 rest response
        (acquired-replayed q d.0 acquired.1 acquired.0 got) h₃

  -- Of a task that is assigned, no claim is accepted.
  taken :
      (a : AccountUuid) (qs : List ClaimRequest) (d : Desk)
      → IsAssignedTo task_id a d.1
      → ((serve_claims qs d).1 ≡ []) × IsAssignedTo task_id a (serve_claims qs d).0.1
  taken a [] d h = (refl, h)
  taken a (q ∷ qs) d (assigned t stored mine) = elim (claim_request-IsServed q d _ refl) [
    | kept same lost ↦
        let (none_won, still) =
          taken a qs (serve_claim q d).0
            (subst (IsAssignedTo task_id a) same (assigned t stored mine)) in
        (rw lost none_won, still)
    | won _ c claimed _ _ ↦ absurd (
        cc (
          claim_open-unassigned q.db q.actor task_id q.fresh q.now d.1 t claimed stored,
          ap is_some mine,
        ))
  ]

  -- Of any requests to claim one task of a project, of any callers with any keys and served one
  -- after the other, at most one is accepted as a new claim; every other is refused or answered
  -- with a stored response. If one is accepted, the task is assigned to its caller in the end; if
  -- none is, the project is as before.
  pub serve_claims-exclusive :
      (qs : List ClaimRequest) (d : Desk)
      → (((serve_claims qs d).1 ≡ []) × (d.1 ≡ (serve_claims qs d).0.1))
        ⊎ ((a : AccountUuid) × ((serve_claims qs d).1 ≡ a ∷ [])
            × IsAssignedTo task_id a (serve_claims qs d).0.1)
  serve_claims-exclusive [] d = inl (refl, refl)
  serve_claims-exclusive (q ∷ qs) d = elim (claim_request-IsServed q d _ refl) [
    | kept same lost ↦ elim (serve_claims-exclusive qs (serve_claim q d).0) [
      | inl (none_won, left) ↦ inl (rw lost none_won, same ∙ left)
      | inr (a, one, his) ↦ inr (a, rw lost one, his)
    ]
    | won _ c claimed after accepted ↦
        let i =
          claim_open-IsClaimed q.db q.actor task_id q.fresh q.now d.1 {t = c.0} {w' = c.1}
            claimed in
        let mine : IsAssignedTo task_id q.actor.actor.uuid (serve_claim q d).0.1 =
          subst (IsAssignedTo task_id q.actor.actor.uuid) after
            (assigned c.0 i.stored i.assigned) in
        let (none_won, still) = taken q.actor.actor.uuid qs (serve_claim q d).0 mine in
        inr (q.actor.actor.uuid, rw accepted (ap (λ xs. q.actor.actor.uuid ∷ xs) none_won), still)
  ]
