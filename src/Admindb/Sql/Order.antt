-- ===== src/Admindb/Sql/Order.antt =====
-- ORDER BY, LIMIT and OFFSET: what a page of a listing holds.
use mathlib.Core.List.{Permᴰ}
use mathlib.Core.List.Permᴰ as PermD
use admin_api.Base.{
  ℕ, zero, suc, ◌+◌, ◌≤◌, List, [], ◌∷◌, ◌++◌, ◌≡◌, refl, ap, arith, leb, take, drop, length, All,
  if_cases,
}
use admin_api.Admindb.Sql.{insert_desc, order_desc}

-- The latest first.
module _ {A : Type 0} (created_at : A → ℕ) where
  abbrev pub IsLatestFirst : List A → Type 0
  IsLatestFirst [] = Unit
  IsLatestFirst (x ∷ xs) = All (λ y. created_at y ≤ created_at x) xs × IsLatestFirst xs

  All-below :
      {m n : ℕ} (xs : List A)
      → m ≤ n
      → All (λ y. created_at y ≤ m) xs
      → All (λ y. created_at y ≤ n) xs
  All-below [] h k = tt
  All-below (x ∷ xs) h (k, ks) = (omega arith, All-below xs h ks)

  All-insert_desc :
      (n : ℕ) (x : A) (xs : List A)
      → created_at x ≤ n
      → All (λ y. created_at y ≤ n) xs
      → All (λ y. created_at y ≤ n) (insert_desc created_at x xs)
  unfolding insert_desc
  All-insert_desc n x [] h k = (h, tt)
  All-insert_desc n x (y ∷ ys) h (k, ks) =
      if_cases (All (λ z. created_at z ≤ n)) (leb (created_at y) (created_at x)) (λ _. (h, (k, ks)))
        λ _. (k, All-insert_desc n x ys h ks)

  insert_desc-IsLatestFirst :
      (x : A) (xs : List A) → IsLatestFirst xs → IsLatestFirst (insert_desc created_at x xs)
  unfolding insert_desc
  insert_desc-IsLatestFirst x [] h = (tt, tt)
  insert_desc-IsLatestFirst x (y ∷ ys) (h, hs) =
      if_cases IsLatestFirst (leb (created_at y) (created_at x))
        (λ below. ((ground arith, All-below ys (ground arith) h), (h, hs)))
        λ above.
          (All-insert_desc (created_at y) x ys (ground arith) h, insert_desc-IsLatestFirst x ys hs)

  pub order_desc-IsLatestFirst : (xs : List A) → IsLatestFirst (order_desc created_at xs)
  unfolding order_desc
  order_desc-IsLatestFirst [] = tt
  order_desc-IsLatestFirst (x ∷ xs) =
      insert_desc-IsLatestFirst x (order_desc created_at xs) (order_desc-IsLatestFirst xs)

  insert_desc-Perm : (x : A) (xs : List A) → Permᴰ (x ∷ xs) (insert_desc created_at x xs)
  unfolding insert_desc
  insert_desc-Perm x [] = PermD.refl _
  insert_desc-Perm x (y ∷ ys) =
      if_cases (Permᴰ (x ∷ y ∷ ys)) (leb (created_at y) (created_at x)) (λ _. PermD.refl _)
        λ _. Permᴰ.trans (Permᴰ.swap refl refl) (Permᴰ.cons refl (insert_desc-Perm x ys))

  pub order_desc-Perm : (xs : List A) → Permᴰ xs (order_desc created_at xs)
  unfolding order_desc
  order_desc-Perm [] = Permᴰ.nil
  order_desc-Perm (x ∷ xs) =
      Permᴰ.trans (Permᴰ.cons refl (order_desc-Perm xs))
        (insert_desc-Perm x (order_desc created_at xs))

module _ {A : Type 0} where
  take-none : (n : ℕ) → take {A = A} n [] ≡ []
  take-none zero = refl
  take-none (suc n) = refl

  drop-none : (n : ℕ) → drop {A = A} n [] ≡ []
  drop-none zero = refl
  drop-none (suc n) = refl

  take-add : (n k : ℕ) (xs : List A) → take n xs ++ take k (drop n xs) ≡ take (n + k) xs
  take-add zero k xs = let e : 0 + k ≡ k = omega arith in rw e refl
  take-add (suc n) k [] = simp (take-none, drop-none) refl
  take-add (suc n) k (x ∷ xs) =
      let e : suc n + k ≡ suc (n + k) = omega arith in rw e (ap (λ ys. x ∷ ys) (take-add n k xs))

  -- A page of n behind m rows, and the page of k behind it, are the page of n + k.
  pub take-drop-add :
      (n k m : ℕ) (xs : List A)
      → take n (drop m xs) ++ take k (drop (m + n) xs) ≡ take (n + k) (drop m xs)
  take-drop-add n k zero xs = let e : 0 + n ≡ n = omega arith in rw e (take-add n k xs)
  take-drop-add n k (suc m) [] = simp (take-none, drop-none) refl
  take-drop-add n k (suc m) (x ∷ xs) =
      let e : suc m + n ≡ suc (m + n) = omega arith in rw e (take-drop-add n k m xs)

  pub length-take_le : (n : ℕ) (xs : List A) → length (take n xs) ≤ n
  length-take_le zero xs = omega arith
  length-take_le (suc n) [] = omega arith
  length-take_le (suc n) (x ∷ xs) = let rest = length-take_le n xs in omega arith
