-- ===== src/Admindb/Queries/Rows.antt =====
-- Rows found, added and changed.
use mathlib.Core.Option
use admin_api.Base.{
  Bool, true, false, Option, none, some, List, [], ◌∷◌, ◌++◌, ◌≡◌, refl, arith, any, find?,
  Bool-cases, inl, inr, ok,
}
use mathlib.Core.List.{Memᴰ}
use admin_api.Admindb.Queries.{one, update_rows, filter_rows}

module _ {A : Type 0} where
  -- A row at the end is found if no row before it passes the test.
  pub find?-append_last :
      (p : A → Bool) (xs : List A) (x : A)
      → any p xs ≡ false
      → p x ≡ true
      → find? p (xs ++ x ∷ []) ≡ some x
  find?-append_last p [] x h k = rw k refl
  find?-append_last p (y ∷ ys) x h k = ground (arith, find?-append_last p ys x)

  -- A row that is found first stays so when rows are added behind it.
  pub find?-append_some :
      (p : A → Bool) (xs ys : List A) {x : A} → find? p xs ≡ some x → find? p (xs ++ ys) ≡ some x
  find?-append_some p [] ys h = cc
  find?-append_some p (y ∷ xs) ys {x} h = ground (arith, find?-append_some p xs ys {x = x})

  pub find?-sound : (p : A → Bool) (xs : List A) {x : A} → find? p xs ≡ some x → p x ≡ true
  find?-sound p [] h = cc
  find?-sound p (y ∷ xs) {x} h = ground (arith, find?-sound p xs {x = x})

  pub any-of_find? : (p : A → Bool) (xs : List A) {x : A} → find? p xs ≡ some x → any p xs ≡ true
  any-of_find? p [] h = cc
  any-of_find? p (y ∷ xs) {x} h = ground (arith, any-of_find? p xs {x = x})

  -- Where no row passes, none is found.
  pub find?-none : (p : A → Bool) (xs : List A) → any p xs ≡ false → find? p xs ≡ none
  find?-none p [] h = refl
  find?-none p (y ∷ xs) h = ground (arith, find?-none p xs)

  -- The row that an update finds and changes is found again, changed.
  pub find?-update_rows_self :
      (p : A → Bool) (f : A → A)
      → ((x : A) → p x ≡ true → p (f x) ≡ true)
      → (xs : List A) → find? p (update_rows p f xs) ≡ Option.map f (find? p xs)
  unfolding update_rows
  find?-update_rows_self p f keep [] = refl
  find?-update_rows_self p f keep (x ∷ xs) =
      ground (arith, keep x, find?-update_rows_self p f keep xs)

  -- A row that the update does not change is found as before.
  pub find?-update_rows_other :
      (p q : A → Bool) (f : A → A)
      → ((x : A) → p x ≡ true → (q x ≡ false) × (q (f x) ≡ false))
      → (xs : List A) → find? q (update_rows p f xs) ≡ find? q xs
  unfolding update_rows
  find?-update_rows_other p q f apart [] = refl
  find?-update_rows_other p q f apart (x ∷ xs) =
      ground (arith, apart x, find?-update_rows_other p q f apart xs)

  -- A filter on which no row passes is empty.
  pub filter_rows-none : (p : A → Bool) (xs : List A) → any p xs ≡ false → filter_rows p xs ≡ []
  unfolding filter_rows
  filter_rows-none p [] h = refl
  filter_rows-none p (x ∷ xs) h = ground (arith, filter_rows-none p xs)

  -- The row that is found is one of the rows.
  pub find?-Mem :
      (p : A → Bool) (xs : List A) {x : A} → find? p xs ≡ some x → Memᴰ x xs × (p x ≡ true)
  find?-Mem p [] h = cc
  find?-Mem p (y ∷ xs) {x} h = elim (Bool-cases (p y)) [
    | inl e ↦ let same : x ≡ y = ground arith in (Memᴰ.head same, rw same e)
    | inr e ↦ let (m, q) = find?-Mem p xs {x = x} (ground arith) in (Memᴰ.tail m, q)
  ]

  pub one_inv : (o : Option A) {x : A} → one o ≡ ok x → o ≡ some x
  one_inv none h = cc
  one_inv (some y) h = cc

  -- An update that finds no row changes none.
  pub update_rows-none :
      (p : A → Bool) (f : A → A) (xs : List A) → any p xs ≡ false → update_rows p f xs ≡ xs
  unfolding update_rows
  update_rows-none p f [] h = refl
  update_rows-none p f (x ∷ xs) h = ground (arith, update_rows-none p f xs)
