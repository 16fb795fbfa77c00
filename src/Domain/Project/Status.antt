-- ===== src/Domain/Project/Status.antt =====
-- The kinds and states of projects and their entries (src/domain/project.rs).
use silicon_commit.Base.{
  ◌≡◌, ◌↔◌, refl, Bool, true, String, if◌then◌else◌, Result, ok, err, ◌==◌, string_eq, Eq, arith,
  false,
}

pub data ProjectStatus : Type 0 where
  completed blocked canceled in_progress yet_to_start : ProjectStatus

-- `ProjectStatus::as_str`
unfoldable pub project_status_as_str : ProjectStatus → String
project_status_as_str completed = "completed"
project_status_as_str blocked = "blocked"
project_status_as_str canceled = "canceled"
project_status_as_str in_progress = "in_progress"
project_status_as_str yet_to_start = "yet_to_start"

pub data ParseProjectStatusError : Type 0 where
  parse_project_status_error : ParseProjectStatusError

-- `ProjectStatus::from_str`
unfoldable pub project_status_from_str : String → Result ProjectStatus ParseProjectStatusError
project_status_from_str value =
    if value == "completed"
    then ok completed
    else if value == "blocked"
    then ok blocked
    else if value == "canceled"
    then ok canceled
    else if value == "in_progress"
    then ok in_progress
    else if value == "yet_to_start"
    then ok yet_to_start
    else err parse_project_status_error

-- A state is read back from its spelling.
pub project_status_from_str-project_status_as_str :
    (s : ProjectStatus) → project_status_from_str (project_status_as_str s) ≡ ok s
unfolding project_status_from_str project_status_as_str
project_status_from_str-project_status_as_str completed = refl
project_status_from_str-project_status_as_str _ = refl

-- The derived `PartialEq`
unfoldable pub project_status_beq : ProjectStatus → ProjectStatus → Bool
project_status_beq completed completed = true
project_status_beq blocked blocked = true
project_status_beq canceled canceled = true
project_status_beq in_progress in_progress = true
project_status_beq yet_to_start yet_to_start = true
project_status_beq _ _ = false

pub project_status_beq_iff : (s t : ProjectStatus) → (project_status_beq s t ≡ true) ↔ (s ≡ t)
unfolding project_status_beq
project_status_beq_iff completed completed = ground arith
project_status_beq_iff _ _ = ground arith

instance abbrev pub project_status_eq : Eq ProjectStatus
project_status_eq = record { same = project_status_beq; same_iff = project_status_beq_iff }

pub data ProjectEntryType : Type 0 where
  blocker update completion : ProjectEntryType

unfoldable pub entry_type_beq : ProjectEntryType → ProjectEntryType → Bool
entry_type_beq blocker blocker = true
entry_type_beq update update = true
entry_type_beq completion completion = true
entry_type_beq _ _ = false

pub entry_type_beq_iff : (s t : ProjectEntryType) → (entry_type_beq s t ≡ true) ↔ (s ≡ t)
unfolding entry_type_beq
entry_type_beq_iff blocker blocker = ground arith
entry_type_beq_iff _ _ = ground arith

instance abbrev pub entry_type_eq : Eq ProjectEntryType
entry_type_eq = record { same = entry_type_beq; same_iff = entry_type_beq_iff }

pub data BlockerStatus : Type 0 where
  open_blocker resolved : BlockerStatus
