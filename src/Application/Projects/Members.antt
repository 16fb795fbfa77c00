-- ===== src/Application/Projects/Members.antt =====
-- The active members of a project under every statement that changes them.
use silicon_commit.Base.{
  ◌≡◌, refl, ap, ◌∙◌, Bool, true, false, not, ◌&&◌, ◌||◌, List, [], ◌∷◌, ◌++◌, none, contains, ◌==◌,
  list_eq, nat_eq, list_beq_iff, arith, Bool-cases, inl, inr,
}
use silicon_commit.Domain.Ids.{AccountUuid}
use silicon_commit.Domain.Todo.{Time}
use silicon_commit.Postgres.Projects.{ParticipantRow, is_active, is_member}
use silicon_commit.Postgres.Projects.Changes.{add_member, insert_missing_members, close_unlisted}

-- No account has two active rows: the unique index on memberships.
abbrev pub one_active : List ParticipantRow → Bool
one_active [] = true
one_active (m ∷ ms) = not (is_active m && is_member m.participant_account ms) && one_active ms

abbrev new_row : AccountUuid → AccountUuid → Time → ParticipantRow
new_row actor member now = record {
  participant_account = member;
  added_by_account = actor;
  added_at = now;
  removed_by_account = none;
  removed_at = none;
}

is_member-append :
    (a actor member : AccountUuid) (now : Time) (ms : List ParticipantRow)
    → is_member a (ms ++ new_row actor member now ∷ []) ≡ (is_member a ms || member == a)
is_member-append a actor member now [] = ground arith
is_member-append a actor member now (m ∷ ms) =
    ground (arith, is_member-append a actor member now ms)

is_member_same :
    (a b : AccountUuid) (ms : List ParticipantRow)
    → (a == b) ≡ true
    → is_member a ms ≡ is_member b ms
is_member_same a b ms h = ap (λ x. is_member x ms) ((list_beq_iff a b).0 h)

contains_same :
    (a b : AccountUuid) (xs : List AccountUuid) → (a == b) ≡ true → contains xs a ≡ contains xs b
contains_same a b xs h = ap (contains xs) ((list_beq_iff a b).0 h)

-- Adding a member adds that account and no other.
pub is_member-add_member :
    (a actor member : AccountUuid) (now : Time) (ms : List ParticipantRow)
    → is_member a (add_member actor member now ms) ≡ (is_member a ms || member == a)
unfolding add_member
is_member-add_member a actor member now ms = elim (Bool-cases (is_member member ms)) [
  | inl old ↦ rw old (ground (arith, is_member_same member a ms))
  | inr new ↦ rw new (is_member-append a actor member now ms)
]

pub is_member-insert_missing_members :
    (a actor : AccountUuid) (accounts : List AccountUuid) (now : Time) (ms : List ParticipantRow)
    → is_member a (insert_missing_members actor accounts now ms)
      ≡ (is_member a ms || contains accounts a)
unfolding insert_missing_members
is_member-insert_missing_members a actor [] now ms = ground arith
is_member-insert_missing_members a actor (b ∷ bs) now ms =
    is_member-insert_missing_members a actor bs now (add_member actor b now ms)
    ∙ ground (arith, is_member-add_member a actor b now ms)

pub is_member-close_unlisted :
    (a actor : AccountUuid) (accounts : List AccountUuid) (now : Time) (ms : List ParticipantRow)
    → is_member a (close_unlisted actor accounts now ms) ≡ (is_member a ms && contains accounts a)
unfolding close_unlisted
is_member-close_unlisted a actor accounts now [] = refl
is_member-close_unlisted a actor accounts now (m ∷ ms) = ground (
  arith,
  contains_same m.participant_account a accounts,
  is_member-close_unlisted a actor accounts now ms,
)

beq_swap : (a b : AccountUuid) → (a == b) ≡ (b == a)
beq_swap a b = ground (arith, list_beq_iff a b, list_beq_iff b a)

one_active-append :
    (actor member : AccountUuid) (now : Time) (ms : List ParticipantRow)
    → one_active ms ≡ true
    → is_member member ms ≡ false
    → one_active (ms ++ new_row actor member now ∷ []) ≡ true
one_active-append actor member now [] h k = refl
one_active-append actor member now (m ∷ ms) h k = ground (
  arith,
  is_member-append m.participant_account actor member now ms,
  beq_swap m.participant_account member,
  one_active-append actor member now ms,
)

pub one_active-add_member :
    (actor member : AccountUuid) (now : Time) (ms : List ParticipantRow)
    → one_active ms ≡ true
    → one_active (add_member actor member now ms) ≡ true
unfolding add_member
one_active-add_member actor member now ms h = elim (Bool-cases (is_member member ms)) [
  | inl old ↦ rw old h
  | inr new ↦ rw new (one_active-append actor member now ms h new)
]

pub one_active-insert_missing_members :
    (actor : AccountUuid) (accounts : List AccountUuid) (now : Time) (ms : List ParticipantRow)
    → one_active ms ≡ true
    → one_active (insert_missing_members actor accounts now ms) ≡ true
unfolding insert_missing_members
one_active-insert_missing_members actor [] now ms h = h
one_active-insert_missing_members actor (b ∷ bs) now ms h =
    one_active-insert_missing_members actor bs now (add_member actor b now ms)
      (one_active-add_member actor b now ms h)

pub one_active-close_unlisted :
    (actor : AccountUuid) (accounts : List AccountUuid) (now : Time) (ms : List ParticipantRow)
    → one_active ms ≡ true
    → one_active (close_unlisted actor accounts now ms) ≡ true
unfolding close_unlisted
one_active-close_unlisted actor accounts now [] h = refl
one_active-close_unlisted actor accounts now (m ∷ ms) h = ground (
  arith,
  is_member-close_unlisted m.participant_account actor accounts now ms,
  one_active-close_unlisted actor accounts now ms,
)
