-- ===== src/Order/Sorted.antt =====
-- What `sorted` gives back: the same elements, in ascending order, equal keys in the old order.
use mathlib.Core.List.{Perm}
use mathlib.Core.List.Perm
use standards_control_plane.Prelude.{
  All, Bool, Bool-cases, List, [], any, ap, arith, count_by, filter, if◌then◌else◌, inl, inr,
  length, refl, suc, sum_by, true, ℕ, ◌&&◌, ◌+◌, ◌||◌, ◌∙◌, ◌∷◌, ◌≡◌,
}
use standards_control_plane.Order.{Key, insert, leb_key, sorted}
use standards_control_plane.Order.Laws.{leb_key-total, leb_key_trans}

module _ {ℓ} {A : Type ℓ} (key : A → Key) where
  -- Every element is at most each that stands behind it.
  abbrev pub IsSorted : List A → Type 0
  IsSorted [] = Unit
  IsSorted (x ∷ xs) = All (λ y. leb_key (key x) (key y) ≡ true) xs × IsSorted xs

  pub All-insert {κ} :
      (P : A → Type κ) (x : A) (xs : List A) → P x → All P xs → All P (insert key x xs)
  unfolding insert
  All-insert P x [] p h = (p, tt)
  All-insert P x (y ∷ ys) p h =
      let rest = All-insert P x ys p h.1 in
      elim (Bool-cases (leb_key (key x) (key y))) [
        | inl le ↦ rw le (p, h)
        | inr gt ↦ rw gt (h.0, rest)
      ]

  pub All-sorted {κ} : (P : A → Type κ) (xs : List A) → All P xs → All P (sorted key xs)
  unfolding sorted
  All-sorted P [] h = tt
  All-sorted P (x ∷ xs) h = All-insert P x (sorted key xs) h.0 (All-sorted P xs h.1)

  All-le_trans :
      (x y : A) (ys : List A)
      → leb_key (key x) (key y) ≡ true
      → All (λ z. leb_key (key y) (key z) ≡ true) ys
      → All (λ z. leb_key (key x) (key z) ≡ true) ys
  All-le_trans x y [] h a = tt
  All-le_trans x y (z ∷ zs) h a = (leb_key_trans _ _ _ h a.0, All-le_trans x y zs h a.1)

  insert-IsSorted : (x : A) (xs : List A) → IsSorted xs → IsSorted (insert key x xs)
  unfolding insert
  insert-IsSorted x [] h = (tt, tt)
  insert-IsSorted x (y ∷ ys) h =
      let rest = insert-IsSorted x ys h.1 in
      elim (Bool-cases (leb_key (key x) (key y))) [
        | inl le ↦ rw le ((le, All-le_trans x y ys le h.0), h)
        | inr gt ↦ rw gt (All-insert _ x ys (leb_key-total (key x) (key y) gt) h.0, rest)
      ]

  pub sorted-IsSorted : (xs : List A) → IsSorted (sorted key xs)
  unfolding sorted
  sorted-IsSorted [] = tt
  sorted-IsSorted (x ∷ xs) = insert-IsSorted x (sorted key xs) (sorted-IsSorted xs)

  insert-perm : (x : A) (xs : List A) → Perm (insert key x xs) (x ∷ xs)
  unfolding insert
  insert-perm x [] = Perm.refl (x ∷ [])
  insert-perm x (y ∷ ys) =
      let rest = insert-perm x ys in
      elim (Bool-cases (leb_key (key x) (key y))) [
        | inl le ↦ rw le (Perm.refl (x ∷ y ∷ ys))
        | inr gt ↦ rw gt (Perm.trans (Perm.cons y rest) (Perm.swap x y ys))
      ]

  pub sorted-perm : (xs : List A) → Perm (sorted key xs) xs
  unfolding sorted
  sorted-perm [] = Perm.refl []
  sorted-perm (x ∷ xs) = Perm.trans (insert-perm x (sorted key xs)) (Perm.cons x (sorted-perm xs))

  length-insert : (x : A) (xs : List A) → length (insert key x xs) ≡ suc (length xs)
  unfolding insert
  length-insert x [] = refl
  length-insert x (y ∷ ys) = ground (arith, length-insert x ys)

  pub length-sorted : (xs : List A) → length (sorted key xs) ≡ length xs
  unfolding sorted
  length-sorted [] = refl
  length-sorted (x ∷ xs) = length-insert x (sorted key xs) ∙ ap suc (length-sorted xs)

  -- The elements that a test keeps, when the test holds of elements with equal keys only together
  -- and of one key, stand as they stood.
  abbrev pub same_key : Key → A → Bool
  same_key k x = leb_key k (key x) && leb_key (key x) k

  filter-insert :
      (k : Key) (x : A) (xs : List A)
      → filter (same_key k) (insert key x xs) ≡ filter (same_key k) (x ∷ xs)
  unfolding insert
  filter-insert k x [] = refl
  filter-insert k x (y ∷ ys) = ground (arith, filter-insert k x ys, leb_key_trans (key x) k (key y))

  -- Elements with the key `k` keep their order.
  pub sorted_stable :
      (k : Key) (xs : List A) → filter (same_key k) (sorted key xs) ≡ filter (same_key k) xs
  unfolding sorted
  sorted_stable k [] = refl
  sorted_stable k (x ∷ xs) =
      filter-insert k x (sorted key xs)
      ∙ ap (λ l. if same_key k x then x ∷ l else l) (sorted_stable k xs)

  insert_least :
      (x : A) (xs : List A)
      → All (λ y. leb_key (key x) (key y) ≡ true) xs
      → insert key x xs ≡ x ∷ xs
  unfolding insert
  insert_least x [] h = refl
  insert_least x (y ∷ ys) h = rw h.0

  -- Nothing moves in a list that is in order.
  pub sorted-of_IsSorted : (xs : List A) → IsSorted xs → sorted key xs ≡ xs
  unfolding sorted
  sorted-of_IsSorted [] h = refl
  sorted-of_IsSorted (x ∷ xs) h = rw (sorted-of_IsSorted xs h.1) (insert_least x xs h.0)

  pub any-insert :
      (p : A → Bool) (x : A) (xs : List A) → any p (insert key x xs) ≡ (p x || any p xs)
  unfolding insert
  any-insert p x [] = refl
  any-insert p x (y ∷ ys) = ground (arith, any-insert p x ys)

  -- A test holds somewhere in the sorted list exactly if it does in the list.
  pub any-sorted : (p : A → Bool) (xs : List A) → any p (sorted key xs) ≡ any p xs
  unfolding sorted
  any-sorted p [] = refl
  any-sorted p (x ∷ xs) = any-insert p x (sorted key xs) ∙ ap (λ b. p x || b) (any-sorted p xs)

  count_by-insert :
      (p : A → Bool) (x : A) (xs : List A)
      → count_by p (insert key x xs) ≡ (if p x then 1 else 0) + count_by p xs
  unfolding insert
  count_by-insert p x [] = refl
  count_by-insert p x (y ∷ ys) = ground (arith, count_by-insert p x ys)

  pub count_by-sorted : (p : A → Bool) (xs : List A) → count_by p (sorted key xs) ≡ count_by p xs
  unfolding sorted
  count_by-sorted p [] = refl
  count_by-sorted p (x ∷ xs) =
      count_by-insert p x (sorted key xs) ∙ omega (arith, count_by-sorted p xs)

  sum_by-insert : (f : A → ℕ) (x : A) (xs : List A) → sum_by f (insert key x xs) ≡ f x + sum_by f xs
  unfolding insert
  sum_by-insert f x [] = refl
  sum_by-insert f x (y ∷ ys) = ground (arith, sum_by-insert f x ys)

  pub sum_by-sorted : (f : A → ℕ) (xs : List A) → sum_by f (sorted key xs) ≡ sum_by f xs
  unfolding sorted
  sum_by-sorted f [] = refl
  sum_by-sorted f (x ∷ xs) = sum_by-insert f x (sorted key xs) ∙ omega (arith, sum_by-sorted f xs)
