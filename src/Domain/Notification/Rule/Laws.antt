-- ===== src/Domain/Notification/Rule/Laws.antt =====
-- Validated rules have one normal form, and select what the request named.
use mathlib.Core.List.{Perm, Nodup}
use mathlib.Core.List.Perm
use silicon_commit.Base.{
  ◌≡◌, refl, ap, sym, ◌∙◌, Bool, true, false, List, [], ◌∷◌, Option, none, some, String, arith, inl,
  inr, is_empty, contains, ok,
}
use silicon_commit.Domain.Validation.{ensure_unique}
use silicon_commit.Domain.Validation.Unique.{ensure_unique_iff, ensure_unique_outcomes}
use silicon_commit.Domain.Todo.Status.{TodoStatus, status_eq}
use silicon_commit.Domain.Notification.Rule.{
  NotificationScope, any_update, status_updates, specific_statuses, NotificationRule, check_scope,
  new_rule, rule_from_persisted, sort_statuses, matches_update,
}
use silicon_commit.Domain.Notification.Rule.Sorting.{
  sort_statuses-perm, sort_statuses_of_perm, IsSorted, sort_statuses-IsSorted,
  sort_statuses_of_IsSorted, contains-sort_statuses,
}

is_empty-perm : (ss ts : List TodoStatus) → Perm ss ts → is_empty ss ≡ is_empty ts
is_empty-perm [] ts p = ap is_empty (Perm.nil-eq p)
is_empty-perm (s ∷ ss) [] p = ap is_empty (Perm.eq-nil p)
is_empty-perm (s ∷ ss) (t ∷ ts) p = refl

-- The check of distinctness does not depend on the order.
ensure_unique-perm :
    (field : String) (ss ts : List TodoStatus)
    → Perm ss ts
    → ensure_unique field ss ≡ ensure_unique field ts
ensure_unique-perm field ss ts p =
    let (s_down, s_up) = ensure_unique_iff field ss in
    let (t_down, t_up) = ensure_unique_iff field ts in
    elim (ensure_unique_outcomes field ss) [
      | inl s_ok ↦ s_ok ∙ sym (t_up (Perm.nodup p (s_down s_ok)))
      | inr s_err ↦ elim (ensure_unique_outcomes field ts) [
        | inl t_ok ↦ s_up (Perm.nodup (Perm.symm p) (t_down t_ok)) ∙ sym t_ok
        | inr t_err ↦ s_err ∙ sym t_err
      ]
    ]

check_scope-perm :
    (field : String) (scope : NotificationScope) (ss ts : List TodoStatus)
    → Perm ss ts
    → check_scope field scope ss ≡ check_scope field scope ts
unfolding check_scope
check_scope-perm field specific_statuses ss ts p = ground (arith, is_empty-perm ss ts p)
check_scope-perm field _ ss ts p = ground (arith, is_empty-perm ss ts p)

-- Two orders of the same states have the same outcome, the same rule or the same error.
pub new_rule_of_perm :
    (field : String) (scope : NotificationScope) (ss ts : List TodoStatus)
    → Perm ss ts
    → new_rule field scope ss ≡ new_rule field scope ts
unfolding new_rule
new_rule_of_perm field scope ss ts p = rw (
  check_scope-perm field scope ss ts p,
  ensure_unique-perm field ss ts p,
  sort_statuses_of_perm ss ts p,
)

new_rule_steps :
    (field : String) (scope : NotificationScope) (ss : List TodoStatus) {r : NotificationRule}
    → new_rule field scope ss ≡ ok r
    → (check_scope field scope ss ≡ ok tt)
      × (ensure_unique field ss ≡ ok tt)
      × (r.scope ≡ scope)
      × (r.statuses ≡ sort_statuses ss)
unfolding new_rule
new_rule_steps field scope ss h = ground arith

check_scope-ok :
    (field other : String) (scope : NotificationScope) (ss : List TodoStatus)
    → check_scope field scope ss ≡ ok tt
    → check_scope other scope ss ≡ ok tt
unfolding check_scope
check_scope-ok field other specific_statuses ss h = ground arith
check_scope-ok field other _ ss h = ground arith

-- The normal form of a rule: states exactly for the scope of specific states, each once, in order.
pub record IsRule (r : NotificationRule) : Type 0 where
  pub scoped : check_scope "subscription" r.scope r.statuses ≡ ok tt
  pub distinct : Nodup r.statuses
  pub sorted : IsSorted r.statuses

-- A rule that is accepted has states exactly for the scope of specific states, each state once, in
-- their order.
pub new_rule-IsRule :
    (field : String) (scope : NotificationScope) (ss : List TodoStatus) {r : NotificationRule}
    → new_rule field scope ss ≡ ok r
    → IsRule r
new_rule-IsRule field scope ss {r} h =
    let (scoped, unique, same_scope, same) = new_rule_steps field scope ss h in
    let p = Perm.symm (sort_statuses-perm ss) in
    record {
      scoped =
          rw (same_scope, same)
            (ap (λ u. u) (check_scope-perm "subscription" scope (sort_statuses ss) ss (Perm.symm p))
              ∙ check_scope-ok field "subscription" scope ss scoped);
      distinct = rw same (Perm.nodup p ((ensure_unique_iff field ss).0 unique));
      sorted = rw same (sort_statuses-IsSorted ss);
    }

persisted_of_IsRule :
    (r : NotificationRule) → IsRule r → rule_from_persisted r.scope r.statuses ≡ ok r
unfolding rule_from_persisted
persisted_of_IsRule r n = rw (
  n.scoped,
  (ensure_unique_iff "subscription" r.statuses).1 n.distinct,
  sort_statuses_of_IsSorted r.statuses n.sorted,
)

-- A rule that was accepted is read back from its stored scope and states as the same rule.
pub rule_from_persisted-new_rule :
    (field : String) (scope : NotificationScope) (ss : List TodoStatus) {r : NotificationRule}
    → new_rule field scope ss ≡ ok r
    → rule_from_persisted r.scope r.statuses ≡ ok r
rule_from_persisted-new_rule field scope ss {r} h =
    persisted_of_IsRule r (new_rule-IsRule field scope ss h)

-- What a request for a rule selects, by the states as they were given.
abbrev pub selects : NotificationScope → List TodoStatus → Option TodoStatus → Bool
selects any_update ss change = true
selects status_updates ss none = false
selects status_updates ss (some s) = true
selects specific_statuses ss none = false
selects specific_statuses ss (some s) = contains ss s

-- A rule that is accepted selects what its request named, although its states were sorted: every
-- update, every change of state, or the changes into one of the given states.
pub matches_update-new_rule :
    (field : String) (scope : NotificationScope) (ss : List TodoStatus) {r : NotificationRule}
    (change : Option TodoStatus)
    → new_rule field scope ss ≡ ok r
    → matches_update r change ≡ selects scope ss change
unfolding matches_update
matches_update-new_rule field scope ss change h =
    let (_, _, same_scope, same) = new_rule_steps field scope ss h in
    rw (same_scope, same) (go scope change)
  where
    go :
        (scope : NotificationScope) (change : Option TodoStatus)
        → matches_update (record { scope = scope; statuses = sort_statuses ss }) change
          ≡ selects scope ss change
    go any_update change = refl
    go status_updates none = refl
    go status_updates (some s) = refl
    go specific_statuses none = refl
    go specific_statuses (some s) = contains-sort_statuses s ss
