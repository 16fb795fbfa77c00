-- ===== src/Domain/Pagination/Keyset.antt =====
-- Keyset pagination over rows in descending order: the pages, one after the other, are the rows.
use silicon_commit.Base.{
  append_nil, append_assoc, ℕ, zero, suc, ◌+◌, ◌≤◌, ◌<◌, ◌≡◌, refl, ap, subst, sym, ◌∙◌, inl, inr,
  Bool, true, false, ◌&&◌, ◌||◌, List, [], ◌∷◌, ◌++◌, Option, none, some, length, take, drop, All,
  ltb, nat_beq, if◌then◌else◌, arith, Bool-cases, take_all, length-drop, length-take,
  take-append-drop, lt→ltb, ltb→lt,
}
use silicon_commit.Domain.Pagination.{PageLimit, PageCursor, Page, last, cursor_of}

-- `(created_at, id) < (cursor.created_at, cursor.id)`
abbrev pub below : PageCursor → PageCursor → Bool
below a b = ltb a.created_at b.created_at || (nat_beq a.created_at b.created_at && ltb a.id b.id)

below_irrefl : (a : PageCursor) → below a a ≡ false
below_irrefl a = ground arith

below_asym : (a b : PageCursor) → below a b ≡ true → below b a ≡ false
below_asym a b h = ground arith

module _ {T : Type 0} where
  abbrev pub filter : (T → Bool) → List T → List T
  filter p [] = []
  filter p (x ∷ xs) = let rest = filter p xs in if p x then x ∷ rest else rest

  pub filter-and :
      (p q : T → Bool) (xs : List T) → filter (λ x. p x && q x) xs ≡ filter q (filter p xs)
  filter-and p q [] = refl
  filter-and p q (x ∷ xs) = elim (Bool-cases (p x)) [
    | inl is_p ↦ rw (is_p, filter-and p q xs)
    | inr is_p ↦ rw (is_p, filter-and p q xs)
  ]

  -- The items of a page and those that its cursor leads to.
  abbrev pub then_follow : (PageCursor → List T) → Page T → List T
  then_follow next p = p.items ++ elim p.next_cursor [ none ↦ [] | some c ↦ next c ]

  take-take : (n : ℕ) (xs : List T) → take n (take (suc n) xs) ≡ take n xs
  take-take zero xs = refl
  take-take (suc n) [] = refl
  take-take (suc n) (x ∷ xs) = ap (λ r. x ∷ r) (take-take n xs)

  split_last :
      (n : ℕ) (xs : List T)
      → suc n ≤ length xs
      → (ks : List T) × (x : T) × (last (take (suc n) xs) ≡ some x)
        × (xs ≡ ks ++ x ∷ drop (suc n) xs)
  split_last n [] h = absurd (omega arith)
  split_last zero (x ∷ xs) h = ([], x, refl, refl)
  split_last (suc n) (x ∷ []) h = absurd (omega arith)
  split_last (suc n) (x ∷ y ∷ ys) h =
      let (ks, z, l, e) = split_last n (y ∷ ys) (omega arith) in (x ∷ ks, z, l, ap (λ r. x ∷ r) e)

module _ {T : Type 0} (key : T → PageCursor) where
  -- Each row stands above all later ones.
  abbrev pub IsDescending : List T → Type 0
  IsDescending [] = Unit
  IsDescending (x ∷ xs) = All (λ y. below (key y) (key x) ≡ true) xs × IsDescending xs

  -- The rows below a cursor, all without one.
  abbrev pub from_cursor : Option PageCursor → T → Bool
  from_cursor none x = true
  from_cursor (some c) x = below (key x) c

  filter-All :
      (c : PageCursor) (ys : List T)
      → All (λ y. below (key y) c ≡ true) ys
      → filter (from_cursor (some c)) ys ≡ ys
  filter-All c [] h = refl
  filter-All c (y ∷ ys) (b, h) = rw (b, filter-All c ys h)

  at_split :
      (x : T) (us vs : List T) (u : T)
      → All (λ y. below (key y) (key u) ≡ true) (us ++ x ∷ vs)
      → below (key x) (key u) ≡ true
  at_split x [] vs u (b, _) = b
  at_split x (w ∷ us) vs u (_, h) = at_split x us vs u h

  -- The rows below a row are those after it.
  filter_after :
      (us : List T) (x : T) (vs : List T)
      → IsDescending (us ++ x ∷ vs)
      → filter (from_cursor (some (key x))) (us ++ x ∷ vs) ≡ vs
  filter_after [] x vs (b, h) = rw (below_irrefl (key x), filter-All (key x) vs b)
  filter_after (u ∷ us) x vs (b, h) =
      rw (below_asym (key x) (key u) (at_split x us vs u b), filter_after us x vs h)

  -- One page: the window of `limit + 1` rows below the cursor, cut to `limit`.
  abbrev pub page : PageLimit → List T → Option PageCursor → Page T
  page limit rows cursor =
      let window = take (limit + 1) (filter (from_cursor cursor) rows) in
      let kept = take limit window in
      record {
        items = kept;
        next_cursor = if ltb limit (length window) then cursor_of key (last kept) else none;
      }

  -- The items of the pages that a client gets by following `next_cursor`.
  abbrev pub follow : ℕ → PageLimit → List T → Option PageCursor → List T
  follow zero limit rows cursor = []
  follow (suc n) limit rows cursor =
      then_follow (λ c. follow n limit rows (some c)) (page limit rows cursor)

  -- A page that holds all that is left is the last one.
  page_last :
      (l : ℕ) (rows rest : List T) (cursor : Option PageCursor)
      → filter (from_cursor cursor) rows ≡ rest
      → length rest ≤ suc l
      → page (suc l) rows cursor ≡ record { items = rest; next_cursor = none }
  page_last l rows rest cursor e h =
      rw (e, take_all (suc l + 1) rest (omega (arith, h)), take_all (suc l) rest h)
        (rw (short h) refl)
    where
      short : length rest ≤ suc l → ltb (suc l) (length rest) ≡ false
      short h = ground arith

  -- A page with more rows behind it ends at the row of its cursor.
  page_next :
      (l : ℕ) (rows rest : List T) (cursor : Option PageCursor)
      → filter (from_cursor cursor) rows ≡ rest
      → suc l < length rest
      → page (suc l) rows cursor ≡ record {
        items = take (suc l) rest;
        next_cursor = cursor_of key (last (take (suc l) rest));
      }
  page_next l rows rest cursor e h =
      let two : suc l + 1 ≡ suc (suc l) = omega arith in
      let full : length (take (suc (suc l)) rest) ≡ suc (suc l) =
        omega (arith, length-take (suc (suc l)) rest, h) in
      let more : ltb (suc l) (length (take (suc (suc l)) rest)) ≡ true =
        lt→ltb _ _ (omega (arith, full)) in
      rw (e, two, take-take (suc l) rest, more) refl

  follow_rest :
      (n l : ℕ) (rows us rest : List T) (cursor : Option PageCursor)
      → IsDescending rows
      → rows ≡ us ++ rest
      → filter (from_cursor cursor) rows ≡ rest
      → length rest < n
      → follow n (suc l) rows cursor ≡ rest
  follow_rest zero l rows us rest cursor d e f h = absurd (omega arith)
  follow_rest (suc n) l rows us rest cursor d e f h =
      let next : PageCursor → List T = λ c. follow n (suc l) rows (some c) in
      elim (Bool-cases (ltb (suc l) (length rest))) [
        | inl more ↦
            let longer = ltb→lt (suc l) (length rest) more in
            let (ks, x, is_last, split) = split_last l rest (omega (arith, longer)) in
            let e' : rows ≡ (us ++ ks) ++ x ∷ drop (suc l) rest =
              e ∙ ap (λ r. us ++ r) split ∙ sym (append_assoc us ks (x ∷ drop (suc l) rest)) in
            let f' : filter (from_cursor (some (key x))) rows ≡ drop (suc l) rest =
              subst (λ r. filter (from_cursor (some (key x))) r ≡ drop (suc l) rest) (sym e')
                (filter_after (us ++ ks) x (drop (suc l) rest) (subst IsDescending e' d)) in
            let e2 : rows ≡ ((us ++ ks) ++ x ∷ []) ++ drop (suc l) rest =
              e' ∙ sym (append_assoc (us ++ ks) (x ∷ []) (drop (suc l) rest)) in
            let ih =
              follow_rest n l rows ((us ++ ks) ++ x ∷ []) (drop (suc l) rest) (some (key x)) d e2 f'
                (omega (arith, length-drop (suc l) rest, h, longer)) in
            ap (then_follow next) (
              page_next l rows rest cursor f longer
              ∙ ap (λ o. record { items = take (suc l) rest; next_cursor = cursor_of key o })
                  is_last)
            ∙ ap (λ r. take (suc l) rest ++ r) ih
            ∙ take-append-drop (suc l) rest
        | inr few ↦
            ap (then_follow next) (page_last l rows rest cursor f (ground arith)) ∙ append_nil rest
      ]

  -- A client that starts without a cursor and follows `next_cursor` gets every row once and in order,
  -- in at most one page more than there are rows, whatever the page size is.
  pub follow_all :
      (limit : PageLimit) (rows : List T)
      → 1 ≤ limit
      → IsDescending rows
      → follow (suc (length rows)) limit rows none ≡ rows
  follow_all zero rows h d = absurd (omega arith)
  follow_all (suc l) rows h d =
      follow_rest (suc (length rows)) l rows [] rows none d refl (filter_none rows) (omega arith)
    where
      filter_none : (xs : List T) → filter (from_cursor none) xs ≡ xs
      filter_none [] = refl
      filter_none (x ∷ xs) = ap (λ r. x ∷ r) (filter_none xs)
