-- ===== src/Domain/Todo/Status.antt =====
-- src/domain/todo.rs: the lifecycle state and its spellings.
use silicon_commit.Base.{
  ℕ, ◌≡◌, ◌↔◌, ◌∙◌, ap, refl, Bool, true, String, if◌then◌else◌, Result, ok, err, ◌==◌, string_eq,
  Eq, arith, nat_beq,
}

pub data TodoStatus : Type 0 where
  completed canceled in_progress blocked yet_to_do : TodoStatus

-- `status_sort_key` of src/domain/notification.rs
unfoldable pub status_sort_key : TodoStatus → ℕ
status_sort_key completed = 0
status_sort_key canceled = 1
status_sort_key in_progress = 2
status_sort_key blocked = 3
status_sort_key yet_to_do = 4

status_of_key : ℕ → TodoStatus
status_of_key n =
    if nat_beq n 0
    then completed
    else if nat_beq n 1
    then canceled
    else if nat_beq n 2
    then in_progress
    else if nat_beq n 3
    then blocked
    else yet_to_do

status_of_key_lem : (s : TodoStatus) → status_of_key (status_sort_key s) ≡ s
unfolding status_of_key status_sort_key
status_of_key_lem completed = refl
status_of_key_lem _ = refl

-- Two states with one sort key are the same state.
pub status_sort_key_inj : (s t : TodoStatus) → status_sort_key s ≡ status_sort_key t → s ≡ t
status_sort_key_inj s t p = cc (ap status_of_key p, status_of_key_lem s, status_of_key_lem t)

-- The derived `PartialEq`
unfoldable pub status_beq : TodoStatus → TodoStatus → Bool
unfolding status_sort_key
status_beq s t = nat_beq (status_sort_key s) (status_sort_key t)

pub status_beq_iff : (s t : TodoStatus) → (status_beq s t ≡ true) ↔ (s ≡ t)
unfolding status_beq
status_beq_iff s t =
    (λ h. status_sort_key_inj s t (ground arith), λ p. ground (arith, ap status_sort_key p))

instance abbrev pub status_eq : Eq TodoStatus
status_eq = record { same = status_beq; same_iff = status_beq_iff }

-- `TodoStatus::default`
abbrev pub default_status : TodoStatus
default_status = yet_to_do

-- `TodoStatus::as_str`
unfoldable pub status_as_str : TodoStatus → String
status_as_str completed = "completed"
status_as_str canceled = "canceled"
status_as_str in_progress = "in_progress"
status_as_str blocked = "blocked"
status_as_str yet_to_do = "yet_to_do"

pub data ParseTodoStatusError : Type 0 where
  parse_todo_status_error : ParseTodoStatusError

-- `TodoStatus::from_str`
unfoldable pub status_from_str : String → Result TodoStatus ParseTodoStatusError
status_from_str value =
    if value == "completed"
    then ok completed
    else if value == "canceled"
    then ok canceled
    else if value == "in_progress"
    then ok in_progress
    else if value == "blocked"
    then ok blocked
    else if value == "yet_to_do"
    then ok yet_to_do
    else err parse_todo_status_error

from_str_sound :
    (value : String) (s : TodoStatus) → status_from_str value ≡ ok s → value ≡ status_as_str s
unfolding status_from_str status_as_str
from_str_sound value completed h = ground (arith, string_eq.same_iff value "completed")
from_str_sound value canceled h = ground (arith, string_eq.same_iff value "canceled")
from_str_sound value in_progress h = ground (arith, string_eq.same_iff value "in_progress")
from_str_sound value blocked h = ground (arith, string_eq.same_iff value "blocked")
from_str_sound value yet_to_do h = ground (arith, string_eq.same_iff value "yet_to_do")

from_str-as_str : (s : TodoStatus) → status_from_str (status_as_str s) ≡ ok s
unfolding status_from_str status_as_str
from_str-as_str completed = refl
from_str-as_str _ = refl

-- Parsing a todo state gives `s` exactly for the spelling of `s`.
pub status_from_str_iff :
    (value : String) (s : TodoStatus) → (status_from_str value ≡ ok s) ↔ (value ≡ status_as_str s)
status_from_str_iff value s =
    (from_str_sound value s, λ p. ap status_from_str p ∙ from_str-as_str s)
