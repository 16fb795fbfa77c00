-- ===== src/Domain/Notification/Rule/Sorting.antt =====
-- The order of a rule's states: sorting keeps the states, forgets their order, and is done once.
use mathlib.Core.List.{Perm, Permᴰ}
use mathlib.Core.List.Perm
use mathlib.Core.Logic.{∥∥₁_elim}
use silicon_commit.Base.{
  ℕ, ◌≤◌, ◌≡◌, refl, ap, ◌∙◌, ◌||◌, List, [], ◌∷◌, arith, Bool-cases, inl, inr, leb, leb→le,
  contains, ◌==◌, All,
}
use silicon_commit.Domain.Todo.Status.{TodoStatus, status_eq, status_sort_key, status_sort_key_inj}
use silicon_commit.Domain.Notification.Rule.{insert_status, sort_statuses}

insert_status-perm : (s : TodoStatus) (ts : List TodoStatus) → Perm (insert_status s ts) (s ∷ ts)
unfolding insert_status
insert_status-perm s [] = Perm.refl (s ∷ [])
insert_status-perm s (t ∷ ts) = elim (Bool-cases (leb (status_sort_key s) (status_sort_key t))) [
  | inl h ↦ rw h (Perm.refl (s ∷ t ∷ ts))
  | inr h ↦ rw h (Perm.trans (Perm.cons t (insert_status-perm s ts)) (Perm.swap s t ts))
]

-- The sorted states are those that were given, as often.
pub sort_statuses-perm : (ss : List TodoStatus) → Perm (sort_statuses ss) ss
unfolding sort_statuses
sort_statuses-perm [] = Perm.refl []
sort_statuses-perm (s ∷ ss) =
    Perm.trans (insert_status-perm s (sort_statuses ss)) (Perm.cons s (sort_statuses-perm ss))

insert_status_comm :
    (s t : TodoStatus) (us : List TodoStatus)
    → insert_status s (insert_status t us) ≡ insert_status t (insert_status s us)
unfolding insert_status
insert_status_comm s t [] = ground (arith, status_sort_key_inj s t)
insert_status_comm s t (u ∷ us) = ground (arith, status_sort_key_inj s t, insert_status_comm s t us)

sort_statuses-permᴰ : {ss ts : List TodoStatus} → Permᴰ ss ts → sort_statuses ss ≡ sort_statuses ts
unfolding sort_statuses
sort_statuses-permᴰ Permᴰ.nil = refl
sort_statuses-permᴰ (Permᴰ.cons p k) = cc (p, sort_statuses-permᴰ k)
sort_statuses-permᴰ (Permᴰ.swap {a} {b} {l} p q) =
    insert_status_comm a b (sort_statuses l) ∙ cc (p, q)
sort_statuses-permᴰ (Permᴰ.trans k j) = sort_statuses-permᴰ k ∙ sort_statuses-permᴰ j

TodoStatus-set : IsSet (List TodoStatus)
TodoStatus-set = hlevel

-- Sorting forgets the order in which the states were given.
pub sort_statuses_of_perm :
    (ss ts : List TodoStatus) → Perm ss ts → sort_statuses ss ≡ sort_statuses ts
sort_statuses_of_perm ss ts p =
    ∥∥₁_elim p (TodoStatus-set (sort_statuses ss) (sort_statuses ts)) sort_statuses-permᴰ

-- The states in the order of their sort keys.
abbrev pub IsSorted : List TodoStatus → Type 0
IsSorted [] = Unit
IsSorted (s ∷ ss) = All (λ t. status_sort_key s ≤ status_sort_key t) ss × IsSorted ss

insert_status-All :
    (n : ℕ) (s : TodoStatus) (ts : List TodoStatus)
    → n ≤ status_sort_key s
    → All (λ t. n ≤ status_sort_key t) ts
    → All (λ t. n ≤ status_sort_key t) (insert_status s ts)
unfolding insert_status
insert_status-All n s [] h k = (h, tt)
insert_status-All n s (t ∷ ts) h (k, ks) =
    elim (Bool-cases (leb (status_sort_key s) (status_sort_key t))) [
      | inl e ↦ rw e (h, (k, ks))
      | inr e ↦ rw e (k, insert_status-All n s ts h ks)
    ]

All-le :
    (m n : ℕ) (ts : List TodoStatus)
    → m ≤ n
    → All (λ t. n ≤ status_sort_key t) ts
    → All (λ t. m ≤ status_sort_key t) ts
All-le m n [] h k = tt
All-le m n (t ∷ ts) h (k, ks) = (omega arith, All-le m n ts h ks)

insert_status-IsSorted :
    (s : TodoStatus) (ts : List TodoStatus) → IsSorted ts → IsSorted (insert_status s ts)
unfolding insert_status
insert_status-IsSorted s [] h = (tt, tt)
insert_status-IsSorted s (t ∷ ts) (k, ks) =
    elim (Bool-cases (leb (status_sort_key s) (status_sort_key t))) [
      | inl e ↦
          let below = leb→le (status_sort_key s) (status_sort_key t) e in
          rw e ((below, All-le _ _ ts below k), (k, ks))
      | inr e ↦ rw e (insert_status-All _ s ts (ground arith) k, insert_status-IsSorted s ts ks)
    ]

pub sort_statuses-IsSorted : (ss : List TodoStatus) → IsSorted (sort_statuses ss)
unfolding sort_statuses
sort_statuses-IsSorted [] = tt
sort_statuses-IsSorted (s ∷ ss) =
    insert_status-IsSorted s (sort_statuses ss) (sort_statuses-IsSorted ss)

insert_status_of_least :
    (s : TodoStatus) (ts : List TodoStatus)
    → All (λ t. status_sort_key s ≤ status_sort_key t) ts
    → insert_status s ts ≡ s ∷ ts
unfolding insert_status
insert_status_of_least s [] h = refl
insert_status_of_least s (t ∷ ts) (h, _) = ground arith

-- A sorted list is left as it is.
pub sort_statuses_of_IsSorted : (ss : List TodoStatus) → IsSorted ss → sort_statuses ss ≡ ss
unfolding sort_statuses
sort_statuses_of_IsSorted [] h = refl
sort_statuses_of_IsSorted (s ∷ ss) (k, ks) =
    rw (sort_statuses_of_IsSorted ss ks) (insert_status_of_least s ss k)

contains-insert_status :
    (a s : TodoStatus) (ts : List TodoStatus)
    → contains (insert_status s ts) a ≡ (s == a || contains ts a)
unfolding insert_status
contains-insert_status a s [] = ground arith
contains-insert_status a s (t ∷ ts) = ground (arith, contains-insert_status a s ts)

-- A state stands in the sorted list exactly when it was given.
pub contains-sort_statuses :
    (a : TodoStatus) (ss : List TodoStatus) → contains (sort_statuses ss) a ≡ contains ss a
unfolding sort_statuses
contains-sort_statuses a [] = refl
contains-sort_statuses a (s ∷ ss) =
    contains-insert_status a s (sort_statuses ss)
    ∙ ap (λ b. s == a || b) (contains-sort_statuses a ss)
