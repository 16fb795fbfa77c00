-- ===== src/Domain/Validation/Members.antt =====
-- Lists of distinct values, tested by `contains`.
use mathlib.Core.HLevel.{⊥_prop}
use mathlib.Core.List.{Mem, Nodup, Nodup-cons, mem-cons, not-mem-nil, perm_append_singleton}
use mathlib.Core.List.Perm
use mathlib.Core.Logic.Or
use silicon_commit.Base.{
  ◌≡◌, sym, Bool, false, List, [], ◌∷◌, ◌++◌, contains, Eq, ◌==◌, ne_of_beq, or_false, arith,
}

module _ {ℓ} {A : Type ℓ} ⦃e : Eq A⦄ where
  pub not-mem_of_contains : (xs : List A) (a : A) → contains xs a ≡ false → ¬ Mem a xs
  not-mem_of_contains [] a h m = not-mem-nil m
  not-mem_of_contains (x ∷ xs) a h m =
      let (apart, rest) = or_false (x == a) (contains xs a) h in
      Or.elim ⊥_prop (mem-cons.0 m) (λ q. ne_of_beq x a apart (sym q))
        (λ n. not-mem_of_contains xs a rest n)

  -- A value that a list does not contain may be appended.
  pub Nodup-append_new :
      (xs : List A) (a : A) → Nodup xs → contains xs a ≡ false → Nodup (xs ++ a ∷ [])
  Nodup-append_new xs a d h =
      Perm.nodup (Perm.symm (perm_append_singleton a xs))
        (Nodup-cons.1 (not-mem_of_contains xs a h, d))

  pub contains-append_last : (xs : List A) (a : A) → contains (xs ++ a ∷ []) a ≡ Bool.true
  contains-append_last [] a = ground (arith, e.same_iff a a)
  contains-append_last (x ∷ xs) a = ground (arith, contains-append_last xs a)
