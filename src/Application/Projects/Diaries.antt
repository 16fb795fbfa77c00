-- ===== src/Application/Projects/Diaries.antt =====
-- The diary as a register with optimistic concurrency: a specification, and its refinement by the
-- statements on the rows.
use silicon_commit.Base.{
  ℕ, ◌+◌, ◌≡◌, refl, sym, ap, ◌∙◌, Bool, true, false, ◌&&◌, List, [], ◌∷◌, some, ok, err, subst,
  arith, int_eq, int_beq_iff, pos, if◌then◌else◌, leb, nat_beq, int_beq, max, Bool-cases, inl, inr,
}
use silicon_commit.Text.{Text}
use silicon_commit.Domain.Ids.{AccountUuid}
use silicon_commit.Domain.Todo.{Time}
use silicon_commit.Domain.Notification.Version.{i64_max}
use silicon_commit.Domain.Project.Diary.{ExpectedDiaryVersion, ValidatedDiaryUpdate, diary_matches}
use silicon_commit.Postgres.Projects.{
  Circles, ProjectRows, DiaryRow, LockedProject, lock_project, can_write,
}
use silicon_commit.Postgres.Projects.Changes.{touch_project}
use silicon_commit.Postgres.Projects.Journal.{replace_diary, succ_version}
use silicon_commit.Application.Projects.{authorize_locked_project, replace_current_diary, refusal}
use silicon_commit.Application.Projects.Access.{locked_of}
use silicon_commit.Error.{AppError, not_found, conflict, Fallible}

-- A register: its text, and how often it was written since the first version.
pub record Register : Type 0 where
  pub text : Text
  pub version : ℕ

-- The specification of one write: it takes effect if it names the current version, and is refused
-- otherwise.
pub write : Register → ExpectedDiaryVersion → Text → Register × Bool
write r expected text =
    if nat_beq expected r.version && leb expected i64_max
    then (record { text = text; version = r.version + 1 }, true)
    else (r, false)

-- A request to replace the diary, by any caller who may write then
pub record DiaryRequest : Type 0 where
  pub db : Circles
  pub actor : AccountUuid
  pub expected : ExpectedDiaryVersion
  pub command : ValidatedDiaryUpdate
  pub now : Time

-- The rows after a request, and whether it was accepted; an error leaves them as they were.
abbrev after_answer : ProjectRows → Fallible (DiaryRow × ProjectRows) → ProjectRows × Bool
after_answer s (ok (d, s')) = (s', true)
after_answer s (err e) = (s, false)

pub serve : ProjectRows → DiaryRequest → ProjectRows × Bool
serve s q = after_answer s (replace_current_diary q.db q.actor q.expected q.command q.now s)

-- The rows of a live project show the register.
pub data Shows (s : ProjectRows) (r : Register) : Type 0 where
  shows :
      (d : DiaryRow)
      → s.diary ≡ some d
      → d.markdown ≡ r.text
      → d.version ≡ pos r.version
      → Shows s r

abbrev rewritten_row : AccountUuid → ValidatedDiaryUpdate → Time → DiaryRow → DiaryRow
rewritten_row actor command now d = record {
  markdown = command.markdown;
  version = succ_version d.version;
  updated_by_account = actor;
  updated_at = max d.updated_at now;
}

-- The two answers to a caller who may write.
outcome :
    (db : Circles) (actor : AccountUuid) (expected : ExpectedDiaryVersion)
    (command : ValidatedDiaryUpdate) (now : Time) (s : ProjectRows) (l : LockedProject)
    (d : DiaryRow)
    → authorize_locked_project db actor s ≡ ok l
    → s.diary ≡ some d
    → replace_current_diary db actor expected command now s ≡ (
        if diary_matches expected d.version
        then ok (
          rewritten_row actor command now d,
          record s {
            project = touch_project now s.project;
            diary = some (rewritten_row actor command now d);
          },
        )
        else err (conflict "diary_version_mismatch"))
unfolding replace_current_diary replace_diary
outcome db actor expected command now s l d a stored =
    ground (arith, a, stored, int_beq_iff d.version d.version)

matches_lem : (e v : ℕ) → diary_matches e (pos v) ≡ (nat_beq e v && leb e i64_max)
unfolding diary_matches int_beq
matches_lem e v = ground arith

abbrev answer_if : ProjectRows → DiaryRequest → DiaryRow → Bool → Fallible (DiaryRow × ProjectRows)
answer_if s q d b =
    if b
    then ok (
      rewritten_row q.actor q.command q.now d,
      record s {
        project = touch_project q.now s.project;
        diary = some (rewritten_row q.actor q.command q.now d);
      },
    )
    else err (conflict "diary_version_mismatch")

abbrev written_if : Register → DiaryRequest → Bool → Register × Bool
written_if r q b =
    if b then (record { text = q.command.markdown; version = r.version + 1 }, true) else (r, false)

-- The rows show the register, and the answers are the same.
abbrev Agrees : ProjectRows × Bool → Register × Bool → Type 0
Agrees a b = Shows a.0 b.0 × (a.1 ≡ b.1)

shown :
    (s : ProjectRows) (r : Register) (q : DiaryRequest) (d : DiaryRow) (b : Bool)
    → s.diary ≡ some d
    → d.markdown ≡ r.text
    → d.version ≡ pos r.version
    → Agrees (after_answer s (answer_if s q d b)) (written_if r q b)
shown s r q d true stored text version =
    (shows (rewritten_row q.actor q.command q.now d) refl refl (ap succ_version version), refl)
shown s r q d false stored text version = (shows d stored text version, refl)

-- Who may write is not changed by writing.
writers_kept :
    (db : Circles) (a : AccountUuid) (s : ProjectRows) (q : DiaryRequest) (d : DiaryRow) (b : Bool)
    → can_write db a (after_answer s (answer_if s q d b)).0 ≡ can_write db a s
unfolding can_write touch_project
writers_kept db a s q d true = refl
writers_kept db a s q d false = refl

-- The specification of a request of a caller who may or may not write
pub specified : Bool → Register → DiaryRequest → Register × Bool
specified allowed r q = if allowed then write r q.expected q.command.markdown else (r, false)

authorized_writer :
    (db : Circles) (actor : AccountUuid) (s : ProjectRows)
    → can_write db actor s ≡ true
    → (l : LockedProject) × (authorize_locked_project db actor s ≡ ok l)
unfolding authorize_locked_project lock_project can_write
authorized_writer db actor s h = (locked_of s, ground arith)

refused_writer :
    (db : Circles) (actor : AccountUuid) (s : ProjectRows)
    → can_write db actor s ≡ false
    → (e : AppError) × (authorize_locked_project db actor s ≡ err e)
unfolding authorize_locked_project lock_project
refused_writer db actor s h = elim (Bool-cases s.project.is_deleted) [
  | inl gone ↦ (not_found, ground arith)
  | inr live ↦ (refusal db actor s, ground arith)
]

refused_answer :
    (s : ProjectRows) (q : DiaryRequest) (e : AppError)
    → authorize_locked_project q.db q.actor s ≡ err e
    → replace_current_diary q.db q.actor q.expected q.command q.now s ≡ err e
unfolding replace_current_diary
refused_answer s q e h = rw h refl

-- One request does what the specification says, and leaves who may write.
serve-specified :
    (s : ProjectRows) (r : Register) (q : DiaryRequest)
    → Shows s r
    → Agrees (serve s q) (specified (can_write q.db q.actor s) r q)
      × ((db : Circles) (a : AccountUuid) → can_write db a (serve s q).0 ≡ can_write db a s)
unfolding serve specified write
serve-specified s r q (shows d stored text version) = elim (Bool-cases (can_write q.db q.actor s)) [
  | inl may ↦
      let (l, a) = authorized_writer q.db q.actor s may in
      let b = diary_matches q.expected d.version in
      let test : b ≡ (nat_beq q.expected r.version && leb q.expected i64_max) =
        ap (diary_matches q.expected) version ∙ matches_lem q.expected r.version in
      let result = outcome q.db q.actor q.expected q.command q.now s l d a stored in
      (
        subst
            (λ allowed.
              Agrees
                (after_answer s (replace_current_diary q.db q.actor q.expected q.command q.now s))
                (if allowed
                  then written_if r q (nat_beq q.expected r.version && leb q.expected i64_max)
                  else (r, false)))
            (sym may)
            (subst
              (λ x.
                Agrees (after_answer s x)
                  (written_if r q (nat_beq q.expected r.version && leb q.expected i64_max)))
              (sym result)
              (subst (λ c. Agrees (after_answer s (answer_if s q d b)) (written_if r q c)) test
                (shown s r q d b stored text version))),
        λ db a'. ap (λ x. can_write db a' (after_answer s x).0) result ∙ writers_kept db a' s q d b,
      )
  | inr barred ↦
      let (e, refused) = refused_writer q.db q.actor s barred in
      let result = refused_answer s q e refused in
      (
        subst
            (λ allowed.
              Agrees
                (after_answer s (replace_current_diary q.db q.actor q.expected q.command q.now s))
                (if allowed
                  then written_if r q (nat_beq q.expected r.version && leb q.expected i64_max)
                  else (r, false)))
            (sym barred)
            (subst (λ x. Agrees (after_answer s x) (r, false)) (sym result)
              (shows d stored text version, refl)),
        λ db a'. ap (λ x. can_write db a' (after_answer s x).0) result,
      )
]

-- A sequence of requests: the rows at the end, and the answers
pub serve_all : ProjectRows → List DiaryRequest → ProjectRows × List Bool
serve_all s [] = (s, [])
serve_all s (q ∷ qs) =
    let served = serve s q in let rest = serve_all served.0 qs in (rest.0, served.1 ∷ rest.1)

-- The same requests on the register, with who may write given
pub specified_all : (DiaryRequest → Bool) → Register → List DiaryRequest → Register × List Bool
specified_all may r [] = (r, [])
specified_all may r (q ∷ qs) =
    let written = specified (may q) r q in
    let rest = specified_all may written.0 qs in (rest.0, written.1 ∷ rest.1)

serve_all-specified_all :
    (may : DiaryRequest → Bool) (s : ProjectRows) (r : Register) (qs : List DiaryRequest)
    → ((q : DiaryRequest) → can_write q.db q.actor s ≡ may q)
    → Shows s r
    → Shows (serve_all s qs).0 (specified_all may r qs).0
      × ((serve_all s qs).1 ≡ (specified_all may r qs).1)
unfolding serve_all specified_all
serve_all-specified_all may s r [] k h = (h, refl)
serve_all-specified_all may s r (q ∷ qs) k h =
    let (agrees, kept) = serve-specified s r q h in
    let (now_shown, same) = subst (λ b. Agrees (serve s q) (specified b r q)) (k q) agrees in
    let (last_shown, answers) =
      serve_all-specified_all may (serve s q).0 (specified (may q) r q).0 qs
        (λ p. kept p.db p.actor ∙ k p) now_shown in
    (last_shown, ground (arith, same, answers))

-- Any sequence of requests to replace a diary, by any callers, answers as a register does that
-- accepts a write exactly if it comes from an account that may write to the project and names the
-- current version, and the rows show the register at the end.
pub serve_all_refines :
    (s : ProjectRows) (r : Register) (qs : List DiaryRequest)
    → Shows s r
    → Shows (serve_all s qs).0 (specified_all (λ q. can_write q.db q.actor s) r qs).0
      × ((serve_all s qs).1 ≡ (specified_all (λ q. can_write q.db q.actor s) r qs).1)
serve_all_refines s r qs h =
    serve_all-specified_all (λ q. can_write q.db q.actor s) s r qs (λ q. refl) h
