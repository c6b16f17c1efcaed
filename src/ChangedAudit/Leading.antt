-- ===== src/ChangedAudit/Leading.antt =====
-- Which segment stands for the area: the most common one, the first by its text among these.
use Prim.Native.String.{◌++◌ as join}
use standards_control_plane.Unique.Sets.{All-elem_self}
use standards_control_plane.Prelude.{
  ==_comm, >>=-eq-ok, All, Bool-cases, List, Option, Option-cases, String, [], ap, arith, count_by,
  elem, eq_iff, eq_refl, filter, inl, inr, none, not, ok, ok-eq, refl, some, subst, sym, traverse,
  true, value-eq, ℕ, ◌+◌, ◌==◌, ◌||◌, ◌∙◌, ◌∷◌, ◌≡◌, ◌⊎◌,
}
use standards_control_plane.Order.{Key, leb_key}
use standards_control_plane.Order.Laws.{leb_key-total, leb_key_trans}
use standards_control_plane.Dict.{Dict, IsDict, contains, get, put}
use standards_control_plane.Dict.Laws.{
  All-get, All-of_get, contains-get, contains-put, get-contains, get-put, put-IsDict,
}
use standards_control_plane.ChangedAudit.{
  area_of_segment, count_of, counter_from, derive_area_id, lesser, min_from, segment_key, slug,
  strip_char, top_part, top_segment,
}
use standards_control_plane.Text.{Unicode}

module _ {A : Type 0} (key : A → Key) where
  leb_key_refl : (k : Key) → leb_key k k ≡ true
  leb_key_refl k = elim (Bool-cases (leb_key k k)) [
    | inl yes' ↦ yes'
    | inr no' ↦ leb_key-total k k no'
  ]

  lesser-le :
      (best x : A)
      → (leb_key (key (lesser key best x)) (key best) ≡ true)
        × (leb_key (key (lesser key best x)) (key x) ≡ true)
  unfolding lesser
  lesser-le best x = elim (Bool-cases (leb_key (key best) (key x))) [
    | inl le ↦ rw le (leb_key_refl (key best), le)
    | inr gt ↦ rw gt (leb_key-total (key best) (key x) gt, leb_key_refl (key x))
  ]

  -- The key of the result is at most that of each element.
  min_from-least :
      (best : A) (xs : List A)
      → (leb_key (key (min_from key best xs)) (key best) ≡ true)
        × All (λ x. leb_key (key (min_from key best xs)) (key x) ≡ true) xs
  unfolding min_from
  min_from-least best [] = (leb_key_refl (key best), tt)
  min_from-least best (x ∷ xs) =
      let (first, others) = min_from-least (lesser key best x) xs in
      let (under_best, under_x) = lesser-le best x in
      (leb_key_trans _ _ _ first under_best, (leb_key_trans _ _ _ first under_x, others))

  lesser-has : (P : A → Type 0) (best x : A) → P best → P x → P (lesser key best x)
  unfolding lesser
  lesser-has P best x p q = elim (Bool-cases (leb_key (key best) (key x))) [
    | inl le ↦ rw le p
    | inr gt ↦ rw gt q
  ]

  min_from-has :
      (P : A → Type 0) (best : A) (xs : List A) → P best → All P xs → P (min_from key best xs)
  unfolding min_from
  min_from-has P best [] p h = p
  min_from-has P best (x ∷ xs) p h =
      min_from-has P (lesser key best x) xs (lesser-has P best x p h.0) h.1

-- How often a segment stands among the segments.
abbrev pub tally : List String → String → ℕ
tally xs k = count_by (λ x. k == x) xs

get-counter_from :
    (k : String) (d : Dict ℕ) (xs : List String)
    → count_of (get k (counter_from d xs)) ≡ count_of (get k d) + tally xs k
unfolding counter_from
get-counter_from k d [] = omega arith
get-counter_from k d (x ∷ xs) =
    get-counter_from k (put x (count_of (get x d) + 1) d) xs
    ∙ ground (arith, get-put x k (count_of (get x d) + 1) d, ==_comm x k, same_count)
  where
    same_count : (k == x) ≡ true → count_of (get x d) ≡ count_of (get k d)
    same_count q = ap (λ t. count_of (get t d)) (sym ((eq_iff k x).0 q))

contains-counter_from :
    (k : String) (d : Dict ℕ) (xs : List String)
    → contains k (counter_from d xs) ≡ (contains k d || elem k xs)
unfolding counter_from
contains-counter_from k d [] = ground arith
contains-counter_from k d (x ∷ xs) =
    contains-counter_from k (put x (count_of (get x d) + 1) d) xs
    ∙ ground (arith, contains-put x k (count_of (get x d) + 1) d, ==_comm x k)

counter_from-IsDict : (d : Dict ℕ) (xs : List String) → IsDict d → IsDict (counter_from d xs)
unfolding counter_from
counter_from-IsDict d [] h = h
counter_from-IsDict d (x ∷ xs) h =
    counter_from-IsDict (put x (count_of (get x d) + 1) d) xs
      (put-IsDict x (count_of (get x d) + 1) d h)

-- Each pair of a counter has a segment and how often it stands there.
counted :
    (xs : List String) → All (λ p. (p.1 ≡ tally xs p.0) × (elem p.0 xs ≡ true)) (counter_from [] xs)
unfolding get contains
counted xs = All-of_get _ (counter_from [] xs) (counter_from-IsDict [] xs tt) (λ k v h. (
  sym (ap count_of h) ∙ (get-counter_from k [] xs ∙ omega arith),
  sym (contains-counter_from k [] xs) ∙ has_key k v h,
))
  where
    has_key :
        (k : String) (v : ℕ)
        → get k (counter_from [] xs) ≡ some v
        → contains k (counter_from [] xs) ≡ true
    has_key k v h = elim (Bool-cases (contains k (counter_from [] xs))) [
      | inl there ↦ there
      | inr gone ↦ cc (h, contains-get k (counter_from [] xs) gone)
    ]

-- `top` is one of the segments, and no segment stands there more often, nor as often and before it
-- by its text.
pub record IsLeading (xs : List String) (top : String) : Type 0 where
  pub member : elem top xs ≡ true
  pub least :
      All (λ x. leb_key (segment_key (top, tally xs top)) (segment_key (x, tally xs x)) ≡ true) xs

All-of_elem :
    (Q : String → Type 0) (xs ys : List String)
    → ((x : String) → elem x ys ≡ true → Q x)
    → All (λ x. elem x ys ≡ true) xs
    → All Q xs
All-of_elem Q [] ys f h = tt
All-of_elem Q (x ∷ xs) ys f h = (f x h.0, All-of_elem Q xs ys f h.1)

leading-least :
    (xs : List String) (m : String × ℕ)
    → m.1 ≡ tally xs m.0
    → All (λ q. leb_key (segment_key m) (segment_key q) ≡ true) (counter_from [] xs)
    → (x : String) → elem x xs ≡ true
    → leb_key (segment_key (m.0, tally xs m.0)) (segment_key (x, tally xs x)) ≡ true
unfolding contains
leading-least xs m n least x e = elim (Option-cases (get x (counter_from [] xs))) [
  | inl gone ↦ cc (contains-counter_from x [] xs, get-contains x (counter_from [] xs) gone, e)
  | inr (v, found) ↦
      let under = All-get _ x (counter_from [] xs) least found in
      let tallied = (All-get _ x (counter_from [] xs) (counted xs) found).0 in
      subst (λ k. leb_key (segment_key (m.0, k)) (segment_key (x, tally xs x)) ≡ true) n
        (subst (λ k. leb_key (segment_key m) (segment_key (x, k)) ≡ true) tallied under)
]

top_segment-IsLeading :
    (xs : List String) (d : Dict ℕ) {top : String}
    → d ≡ counter_from [] xs
    → top_segment d ≡ some top
    → IsLeading xs top
unfolding top_segment
top_segment-IsLeading xs [] e h = cc
top_segment-IsLeading xs (p ∷ d) e h =
    let m = min_from segment_key p d in
    let all_counted = subst (All _) (sym e) (counted xs) in
    let (n, member) =
      min_from-has segment_key (λ q. (q.1 ≡ tally xs q.0) × (elem q.0 xs ≡ true)) p d all_counted.0
        all_counted.1 in
    let least =
      subst (All (λ q. leb_key (segment_key m) (segment_key q) ≡ true)) e
        (min_from-least segment_key p d) in
    subst (IsLeading xs) (value-eq h) (record {
      member = member;
      least = All-of_elem _ xs xs (leading-least xs m n least) (All-elem_self xs);
    })

top_segment-none : (d : Dict ℕ) → top_segment d ≡ none → d ≡ []
unfolding top_segment
top_segment-none [] h = refl
top_segment-none (p ∷ d) h = cc

counter_from-nil : (xs : List String) → counter_from [] xs ≡ [] → xs ≡ []
unfolding contains
counter_from-nil [] h = refl
counter_from-nil (x ∷ xs) h =
    let c =
      subst (λ d. contains {V = ℕ} x d ≡ (contains {V = ℕ} x [] || elem x (x ∷ xs))) h
        (contains-counter_from x [] (x ∷ xs)) in
    cc (rw (eq_refl x) at c)

-- The area that is derived from changed paths is the slug of the subsystem with that of a leading
-- segment, or with `changed` if no path has one.
pub derive_area_id-IsLeading :
    (unicode : Unicode) (paths : List String) (subsystem : String) {area_id : String}
    → derive_area_id unicode paths subsystem ≡ ok area_id
    → (tops : List String) × (traverse top_part
          (filter (λ path. not (strip_char 47 path == "")) paths)
        ≡ ok tops)
      × (((tops ≡ []) × (area_id ≡ join (slug unicode subsystem "subsystem") "-changed"))
          ⊎ ((top : String) × IsLeading tops top
              × (area_id
                  ≡ join
                      (slug unicode subsystem "subsystem")
                      (join "-" (slug unicode top "changed")))))
unfolding derive_area_id
derive_area_id-IsLeading unicode paths subsystem {area_id} h =
    let slugged = slug unicode subsystem "subsystem" in
    let (tops, t, h1) =
      >>=-eq-ok (traverse top_part (filter (λ path. not (strip_char 47 path == "")) paths)) _ h in
    let named : (o : Option String)
        → top_segment (counter_from [] tops) ≡ o
        → area_id ≡ area_of_segment unicode slugged o =
      λ o s. sym (ok-eq h1) ∙ ap (area_of_segment unicode slugged) s in
    (
      tops,
      t,
      elim (Option-cases (top_segment (counter_from [] tops))) [
        | inl n ↦
            inl (counter_from-nil tops (top_segment-none (counter_from [] tops) n), named none n)
        | inr (top, s) ↦
            inr (top, top_segment-IsLeading tops (counter_from [] tops) refl s, named (some top) s)
      ],
    )
