-- ===== src/Domain/Validation/Unique.antt =====
-- `ensure_unique` accepts exactly the lists without repetition (src/domain/validation.rs).
use mathlib.Core.HLevel.{⊥_prop}
use mathlib.Core.List.{Mem, Nodup, Pairwise-cons, Nodup-nil, mem-cons, mem-cons_self, not-mem-nil}
use mathlib.Core.Logic.Or
use silicon_commit.Base.{
  ◌≡◌, ◌≢◌, ◌↔◌, ◌⊎◌, refl, ◌∙◌, false, List, [], ◌∷◌, String, Bool-cases, inl, inr, contains, ◌==◌,
  ok, err, Eq, All, ne_of_beq, beq_of_ne, or_false,
}
use silicon_commit.Domain.Validation.{observe, ensure_unique, validation_error, duplicate_item}

module _ {ℓ} {A : Type ℓ} ⦃e : Eq A⦄ where
  fresh_of_mem : (v : A) (vs : List A) → All (λ w. (v == w) ≡ false) vs → (a : A) → Mem a vs → v ≢ a
  fresh_of_mem v [] h a m p = not-mem-nil m
  fresh_of_mem v (w ∷ vs) (here, later) a m p =
      Or.elim ⊥_prop (mem-cons.0 m) (λ q. ne_of_beq v w here (p ∙ q))
        (λ n. fresh_of_mem v vs later a n p)

  mem→fresh : (v : A) (vs : List A) → ((a : A) → Mem a vs → v ≢ a) → All (λ w. (v == w) ≡ false) vs
  mem→fresh v [] h = tt
  mem→fresh v (w ∷ vs) h =
      (beq_of_ne v w (h w mem-cons_self), mem→fresh v vs (λ a m. h a (mem-cons.1 (Or.inr m))))

  -- A value is new to `v ∷ observed` when it is not `v` and is new to `observed`.
  split_new :
      (v : A) (observed vs : List A)
      → All (λ w. contains (v ∷ observed) w ≡ false) vs
        ↔ (All (λ w. (v == w) ≡ false) vs × All (λ w. contains observed w ≡ false) vs)
  split_new v observed [] = (λ _. (tt, tt), λ _. tt)
  split_new v observed (w ∷ vs) =
      let (down, up) = split_new v observed vs in
      (
        λ (h, hs).
            let (a, b) = or_false (v == w) (contains observed w) h in
            let (as', bs) = down hs in ((a, as'), (b, bs)),
        λ ((a, as'), (b, bs)). (rw a b, up (as', bs)),
      )

  -- The loop passes exactly when the values are distinct and none of them was observed before.
  observe_iff :
      (field : String) (observed values : List A)
      → (observe field observed values ≡ ok tt)
        ↔ (Nodup values × All (λ v. contains observed v ≡ false) values)
  unfolding observe
  observe_iff field observed [] = (λ _. (Nodup-nil, tt), λ _. refl)
  observe_iff field observed (v ∷ vs) = elim (Bool-cases (contains observed v)) [
    | inl t ↦ rw t (λ h. absurd (cc h), λ (_, h). absurd (cc h.0))
    | inr f ↦
        let (down, up) = observe_iff field (v ∷ observed) vs in
        let (apart, join) = split_new v observed vs in
        rw f (
          λ h.
              let (d, n) = down h in
              let (fresh, rest) = apart n in
              (Pairwise-cons.1 (fresh_of_mem v vs fresh, d), (refl, rest)),
          λ (d, news).
              let (fresh, d') = Pairwise-cons.0 d in up (d', join (mem→fresh v vs fresh, news.1)),
        )
  ]

  nil_unseen : (values : List A) → All (λ v. contains {A = A} [] v ≡ false) values
  nil_unseen [] = tt
  nil_unseen (v ∷ vs) = (refl, nil_unseen vs)

  -- A list passes the check for duplicates exactly when no value stands in it twice.
  pub ensure_unique_iff :
      (field : String) (values : List A) → (ensure_unique field values ≡ ok tt) ↔ Nodup values
  unfolding ensure_unique
  ensure_unique_iff field values =
      let (down, up) = observe_iff field [] values in
      (λ h. (down h).0, λ d. up (d, nil_unseen values))

  observe-err :
      (field : String) (observed values : List A)
      → (observe field observed values ≡ ok tt)
        ⊎ (observe field observed values ≡ err (validation_error field duplicate_item))
  unfolding observe
  observe-err field observed [] = inl refl
  observe-err field observed (v ∷ vs) = elim (Bool-cases (contains observed v)) [
    | inl t ↦ rw t (inr refl)
    | inr f ↦ rw f (observe-err field (v ∷ observed) vs)
  ]

  -- The check of a collection has two outcomes: success or the duplicate error of its field.
  pub ensure_unique_outcomes :
      (field : String) (values : List A)
      → (ensure_unique field values ≡ ok tt)
        ⊎ (ensure_unique field values ≡ err (validation_error field duplicate_item))
  unfolding ensure_unique
  ensure_unique_outcomes field values = observe-err field [] values
