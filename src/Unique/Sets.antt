-- ===== src/Unique/Sets.antt =====
-- `sorted(set(xs))`, with which extractor.py and normaliser.py make a list of a set of texts.
use standards_control_plane.Prelude.{
  ==_comm, All, All-mono, Bool-cases, List, String, [], arith, elem, eq_refl, false, inl, inr, refl,
  true, ◌==◌, ◌∙◌, ◌∷◌, ◌≡◌,
}
use standards_control_plane.Order.Sorted.{IsSorted, any-insert, any-sorted, sorted-IsSorted}
use standards_control_plane.Order.{Key, insert, leb_key, sorted, text}
use standards_control_plane.Unique.{ordered_unique}
use standards_control_plane.Unique.Laws.{IsUnique, ordered_unique_lem}

abbrev pub by_text : String → Key
by_text s = text s ∷ []

-- `sorted(set(values))`
unfoldable pub dedupe_sorted : List String → List String
unfolding ordered_unique sorted
dedupe_sorted values = sorted by_text (ordered_unique values)

insert-IsUnique :
    (x : String) (xs : List String)
    → elem x xs ≡ false
    → IsUnique xs
    → IsUnique (insert by_text x xs)
unfolding insert
insert-IsUnique x [] o u = (refl, tt)
insert-IsUnique x (y ∷ ys) o u =
    let rest = insert-IsUnique x ys (ground arith) u.1 in
    elim (Bool-cases (leb_key (by_text x) (by_text y))) [
      | inl le ↦ rw le (o, u)
      | inr gt ↦
          rw gt (any-insert by_text (λ z. y == z) x ys ∙ ground (arith, u.0, ==_comm x y), rest)
    ]

pub sorted-IsUnique : (xs : List String) → IsUnique xs → IsUnique (sorted by_text xs)
unfolding sorted
sorted-IsUnique [] u = tt
sorted-IsUnique (x ∷ xs) u =
    insert-IsUnique x (sorted by_text xs) (any-sorted by_text (λ z. x == z) xs ∙ u.0)
      (sorted-IsUnique xs u.1)

-- A list in order without repetition.
abbrev pub IsInOrder : List String → Type 0
IsInOrder xs = IsSorted by_text xs × IsUnique xs

pub dedupe_sorted-IsInOrder : (xs : List String) → IsInOrder (dedupe_sorted xs)
unfolding dedupe_sorted
dedupe_sorted-IsInOrder xs = (
  sorted-IsSorted by_text (ordered_unique xs),
  sorted-IsUnique (ordered_unique xs) (ordered_unique_lem xs).0,
)

pub elem-dedupe_sorted : (s : String) (xs : List String) → elem s (dedupe_sorted xs) ≡ elem s xs
unfolding dedupe_sorted
elem-dedupe_sorted s xs =
    any-sorted by_text (λ z. s == z) (ordered_unique xs) ∙ (ordered_unique_lem xs).1 s

pub All-elem_self : (xs : List String) → All (λ p. elem p xs ≡ true) xs
All-elem_self [] = tt
All-elem_self (x ∷ xs) =
    (ground (arith, eq_refl x), All-mono _ _ xs (λ p h. ground arith) (All-elem_self xs))
