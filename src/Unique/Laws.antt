-- ===== src/Unique/Laws.antt =====
-- Nothing is lost, nothing stands twice, and a limit cuts the same list off.
use standards_control_plane.Prelude.{
  ==_comm, All, Bool-cases, List, String, [], any-append, ap, arith, elem, eq_iff, eq_refl, false,
  inl, inr, length, not, refl, suc, take, true, zero, ℕ, ◌&&◌, ◌++◌, ◌+◌, ◌<◌, ◌==◌, ◌||◌, ◌∙◌, ◌∷◌,
  ◌≡◌, ◌≤◌,
}
use standards_control_plane.Unique.{
  dedupe_from, dedupe_strings, ordered_unique, unique_from, unique_ordered,
}

-- No text stands twice.
abbrev pub IsUnique : List String → Type 0
IsUnique [] = Unit
IsUnique (x ∷ xs) = (elem x xs ≡ false) × IsUnique xs

elem-unique_from :
    (s : String) (seen xs : List String)
    → elem s (unique_from seen xs) ≡ (not (elem s seen) && elem s xs)
unfolding unique_from
elem-unique_from s seen [] = ground arith
elem-unique_from s seen (x ∷ xs) = elim (Bool-cases (elem x seen)) [
  | inl e ↦ rw e (elem-unique_from s seen xs ∙ skipped e)
  | inr n ↦ rw n (ap (λ b. s == x || b) (elem-unique_from s (x ∷ seen) xs) ∙ kept n)
]
  where
    same_elem : (s == x) ≡ true → elem s seen ≡ elem x seen
    same_elem q = ap (λ t. elem t seen) ((eq_iff s x).0 q)

    skipped :
        elem x seen ≡ true
        → (not (elem s seen) && elem s xs) ≡ (not (elem s seen) && (s == x || elem s xs))
    skipped e = ground (arith, same_elem)

    kept :
        elem x seen ≡ false
        → (s == x || (not (s == x || elem s seen) && elem s xs))
          ≡ (not (elem s seen) && (s == x || elem s xs))
    kept n = ground (arith, same_elem)

unique_from-IsUnique : (seen xs : List String) → IsUnique (unique_from seen xs)
unfolding unique_from
unique_from-IsUnique seen [] = tt
unique_from-IsUnique seen (x ∷ xs) = elim (Bool-cases (elem x seen)) [
  | inl e ↦ rw e (unique_from-IsUnique seen xs)
  | inr n ↦
      rw n (elem-unique_from x (x ∷ seen) xs ∙ rw (eq_refl x), unique_from-IsUnique (x ∷ seen) xs)
]

abbrev Disjoint : List String → List String → Type 0
Disjoint seen xs = All (λ x. elem x seen ≡ false) xs

Disjoint-cons :
    (x : String) (seen xs : List String)
    → elem x xs ≡ false
    → Disjoint seen xs
    → Disjoint (x ∷ seen) xs
Disjoint-cons x seen [] h d = tt
Disjoint-cons x seen (y ∷ ys) h d =
    (ground (arith, d.0, ==_comm x y), Disjoint-cons x seen ys (ground arith) d.1)

unique_from_fixed :
    (seen xs : List String) → IsUnique xs → Disjoint seen xs → unique_from seen xs ≡ xs
unfolding unique_from
unique_from_fixed seen [] u d = refl
unique_from_fixed seen (x ∷ xs) u d =
    rw d.0 (ap (λ l. x ∷ l) (unique_from_fixed (x ∷ seen) xs u.1 (Disjoint-cons x seen xs u.0 d.1)))

Disjoint-nil : (xs : List String) → Disjoint [] xs
Disjoint-nil [] = tt
Disjoint-nil (x ∷ xs) = (refl, Disjoint-nil xs)

-- The result has the members of the list, each once, and doing it again changes nothing.
pub ordered_unique_lem :
    (xs : List String)
    → IsUnique (ordered_unique xs)
      × ((s : String) → elem s (ordered_unique xs) ≡ elem s xs)
      × (ordered_unique (ordered_unique xs) ≡ ordered_unique xs)
unfolding ordered_unique
ordered_unique_lem xs = (
  unique_from-IsUnique [] xs,
  λ s. elem-unique_from s [] xs,
  unique_from_fixed [] (unique_from [] xs) (unique_from-IsUnique [] xs)
      (Disjoint-nil (unique_from [] xs)),
)

dedupe_from-take :
    (limit kept n : ℕ) (seen xs : List String)
    → limit ≡ kept + suc n
    → dedupe_from limit kept seen xs ≡ take (suc n) (unique_from seen xs)
unfolding dedupe_from unique_from
dedupe_from-take limit kept n seen [] e = refl
dedupe_from-take limit kept zero seen (x ∷ xs) e = elim (Bool-cases (elem x seen)) [
  | inl i ↦ rw i (dedupe_from-take limit kept zero seen xs e)
  | inr o ↦ rw o (ground arith)
]
dedupe_from-take limit kept (suc n) seen (x ∷ xs) e = elim (Bool-cases (elem x seen)) [
  | inl i ↦ rw i (dedupe_from-take limit kept (suc n) seen xs e)
  | inr o ↦
      rw o
        (let rest = dedupe_from-take limit (kept + 1) n (x ∷ seen) xs (omega arith) in ground arith)
]

-- With a limit of at least one, `_dedupe_strings` gives the first texts of the unlimited result.
pub dedupe_strings-take :
    (values : List String) (limit : ℕ)
    → 0 < limit
    → dedupe_strings values limit ≡ take limit (ordered_unique values)
unfolding dedupe_strings ordered_unique
dedupe_strings-take values zero h = absurd (omega arith)
dedupe_strings-take values (suc n) h = dedupe_from-take (suc n) 0 n [] values (omega arith)

length-unique_from : (seen xs : List String) → length (unique_from seen xs) ≤ length xs
unfolding unique_from
length-unique_from seen [] = omega arith
length-unique_from seen (x ∷ xs) = elim (Bool-cases (elem x seen)) [
  | inl e ↦ rw e (omega (arith, length-unique_from seen xs))
  | inr n ↦ rw n (omega (arith, length-unique_from (x ∷ seen) xs))
]

take_all : (n : ℕ) (xs : List String) → length xs ≤ n → take n xs ≡ xs
take_all zero [] h = refl
take_all zero (x ∷ xs) h = absurd (omega arith)
take_all (suc n) [] h = refl
take_all (suc n) (x ∷ xs) h = ap (λ l. x ∷ l) (take_all n xs (omega arith))

-- `_unique_ordered` of consult.py and `_ordered_unique` of audit.py are the same function.
pub unique_ordered-ordered_unique : (xs : List String) → unique_ordered xs ≡ ordered_unique xs
unfolding unique_ordered ordered_unique dedupe_strings dedupe_from unique_from
unique_ordered-ordered_unique [] = refl
unique_ordered-ordered_unique (x ∷ xs) =
    dedupe_strings-take (x ∷ xs) (length (x ∷ xs)) (omega arith)
    ∙ take_all (length (x ∷ xs)) (ordered_unique (x ∷ xs)) (length-unique_from [] (x ∷ xs))

elem-take-false :
    (s : String) (n : ℕ) (xs : List String) → elem s xs ≡ false → elem s (take n xs) ≡ false
elem-take-false s zero xs h = refl
elem-take-false s (suc n) [] h = refl
elem-take-false s (suc n) (x ∷ xs) h = ground (arith, elem-take-false s n xs)

pub take-IsUnique : (n : ℕ) (xs : List String) → IsUnique xs → IsUnique (take n xs)
take-IsUnique zero xs u = tt
take-IsUnique (suc n) [] u = tt
take-IsUnique (suc n) (x ∷ xs) u = (elem-take-false x n xs u.0, take-IsUnique n xs u.1)

pub append-IsUnique :
    (x : String) (xs : List String) → elem x xs ≡ false → IsUnique xs → IsUnique (xs ++ (x ∷ []))
append-IsUnique x [] h u = (refl, tt)
append-IsUnique x (y ∷ ys) h u = (
  any-append (λ z. y == z) ys (x ∷ []) ∙ ground (arith, u.0, ==_comm x y),
  append-IsUnique x ys (ground arith) u.1,
)

-- A text that is there already adds nothing.
pub elem-known :
    (k x : String) (xs : List String)
    → elem x xs ≡ true
    → elem k xs ≡ (elem k xs || (k == x || false))
elem-known k x xs e = ground (arith, same_elem)
  where
    same_elem : (k == x) ≡ true → elem k xs ≡ elem x xs
    same_elem q = ap (λ t. elem t xs) ((eq_iff k x).0 q)
