-- ===== src/Calibration/Laws.antt =====
-- The counts of the false positives.
use standards_control_plane.Prelude.{
  ==-false→ne, ==_comm, All, Bool, Bool-cases, List, String, [], any, ap, arith, count_by, eq_iff,
  eq_refl, false, if◌then◌else◌, inl, inr, length, length-append, refl, sym, true, ℕ, ◌++◌, ◌+◌,
  ◌==◌, ◌||◌, ◌∙◌, ◌∷◌, ◌≡◌,
}
use standards_control_plane.Findings.{FindingRecord}
use standards_control_plane.Calibration.{Groups, append_to, group_from, pair_eq, rule_pair}

abbrev pub Pair : Type 0
Pair = String × String

-- The number of findings in the first group of a key.
abbrev pub size : Pair → Groups → ℕ
size k [] = 0
size k ((j, fs) ∷ rest) = if pair_eq j k then length fs else size k rest

abbrev has_group : Pair → Groups → Bool
has_group k gs = any (λ g. pair_eq g.0 k) gs

pair-eq : (a b : Pair) → pair_eq a b ≡ true → a ≡ b
pair-eq (a, b) (c, d) h =
    let left : (a == c) ≡ true = ground arith in
    let right : (b == d) ≡ true = ground arith in
    λ i. ((eq_iff a c).0 left i, (eq_iff b d).0 right i)

pair_eq_refl : (a : Pair) → pair_eq a a ≡ true
pair_eq_refl (a, b) = rw (eq_refl a, eq_refl b) refl

same_pairs : (a b k : Pair) → pair_eq a b ≡ true → pair_eq a k ≡ pair_eq b k
same_pairs a b k h = ap (λ p. pair_eq p k) (pair-eq a b h)

size-append_to :
    (k j : Pair) (f : FindingRecord) (gs : Groups)
    → size k (append_to j f gs) ≡ size k gs + (if pair_eq j k then 1 else 0)
unfolding append_to
size-append_to k j f [] = elim (Bool-cases (pair_eq j k)) [ inl y ↦ rw y refl | inr n ↦ rw n refl ]
size-append_to k j f ((i, fs) ∷ rest) = elim (Bool-cases (pair_eq i j)) [
  | inl y ↦ rw y (at_group (pair_eq i k) (pair_eq j k) (same_pairs i j k y))
  | inr n ↦ rw n (beyond (pair_eq i k) (pair_eq j k) (apart n) (size-append_to k j f rest))
]
  where
    at_group :
        (b c : Bool)
        → b ≡ c
        → (if b then length (fs ++ (f ∷ [])) else size k rest)
          ≡ (if b then length fs else size k rest) + (if c then 1 else 0)
    at_group true true e = length-append fs (f ∷ [])
    at_group false false e = omega arith
    at_group true false e = cc
    at_group false true e = cc

    apart : pair_eq i j ≡ false → pair_eq i k ≡ true → pair_eq j k ≡ false
    apart n y = elim (Bool-cases (pair_eq j k)) [
      | inr z ↦ z
      | inl z ↦ absurd (
          ==-false→ne refl (
            sym (
              ap (λ b. if b then "a" else "b")
                (sym n ∙ ap (λ p. pair_eq i p) (pair-eq j k z) ∙ y))))
    ]

    beyond :
        (b c : Bool)
        → (b ≡ true → c ≡ false)
        → size k (append_to j f rest) ≡ size k rest + (if c then 1 else 0)
        → (if b then length fs else size k (append_to j f rest))
          ≡ (if b then length fs else size k rest) + (if c then 1 else 0)
    beyond true c e h = rw (e refl) (omega arith)
    beyond false c e h = h

has_group-append_to :
    (k j : Pair) (f : FindingRecord) (gs : Groups)
    → has_group k (append_to j f gs) ≡ (has_group k gs || pair_eq j k)
unfolding append_to
has_group-append_to k j f [] = ground arith
has_group-append_to k j f ((i, fs) ∷ rest) = elim (Bool-cases (pair_eq i j)) [
  | inl y ↦ rw y (swallow (pair_eq i k) (pair_eq j k) (has_group k rest) (same_pairs i j k y))
  | inr n ↦
      rw n
        (regroup (pair_eq i k) (pair_eq j k) (has_group k rest) _ (has_group-append_to k j f rest))
]
  where
    swallow : (b c r : Bool) → b ≡ c → (b || r) ≡ ((b || r) || c)
    swallow b c r e = ground arith

    regroup : (b c r q : Bool) → q ≡ (r || c) → (b || q) ≡ ((b || r) || c)
    regroup b c r q e = ground arith

abbrev pub AreDistinct : Groups → Type 0
AreDistinct [] = Unit
AreDistinct ((k, fs) ∷ rest) = (has_group k rest ≡ false) × AreDistinct rest

append_to-AreDistinct :
    (j : Pair) (f : FindingRecord) (gs : Groups) → AreDistinct gs → AreDistinct (append_to j f gs)
unfolding append_to
append_to-AreDistinct j f [] d = (refl, tt)
append_to-AreDistinct j f ((i, fs) ∷ rest) d = elim (Bool-cases (pair_eq i j)) [
  | inl y ↦ rw y (d.0, d.1)
  | inr n ↦ rw n (
    has_group-append_to i j f rest ∙ both (has_group i rest) (pair_eq j i) d.0 (other_way n),
    append_to-AreDistinct j f rest d.1,
  )
]
  where
    both : (b c : Bool) → b ≡ false → c ≡ false → (b || c) ≡ false
    both b c e g = ground arith

    other_way : pair_eq i j ≡ false → pair_eq j i ≡ false
    other_way n = ground (arith, ==_comm i.0 j.0, ==_comm i.1 j.1)

pub group_from-AreDistinct :
    (gs : Groups) (fs : List FindingRecord) → AreDistinct gs → AreDistinct (group_from gs fs)
unfolding group_from
group_from-AreDistinct gs [] d = d
group_from-AreDistinct gs (f ∷ fs) d =
    group_from-AreDistinct (append_to (rule_pair f) f gs) fs
      (append_to-AreDistinct (rule_pair f) f gs d)

pub size-group_from :
    (k : Pair) (gs : Groups) (fs : List FindingRecord)
    → size k (group_from gs fs) ≡ size k gs + count_by (λ f. pair_eq (rule_pair f) k) fs
unfolding group_from
size-group_from k gs [] = omega arith
size-group_from k gs (f ∷ fs) = omega (
  arith,
  size-group_from k (append_to (rule_pair f) f gs) fs,
  size-append_to k (rule_pair f) f gs,
)

size_none : (k : Pair) (gs : Groups) → has_group k gs ≡ false → size k gs ≡ 0
size_none k [] h = refl
size_none k ((j, fs) ∷ rest) h = ground (arith, size_none k rest)

pub sizes : (gs : Groups) → AreDistinct gs → All (λ g. length g.1 ≡ size g.0 gs) gs
sizes [] d = tt
sizes ((k, fs) ∷ rest) d = (rw (pair_eq_refl k) refl, below rest (sizes rest d.1) d.0)
  where
    below :
        (hs : Groups)
        → All (λ g. length g.1 ≡ size g.0 rest) hs
        → has_group k hs ≡ false
        → All (λ g. length g.1 ≡ size g.0 ((k, fs) ∷ rest)) hs
    below [] a h = tt
    below ((j, gs') ∷ hs) a h =
        let apart : pair_eq k j ≡ false = ground (arith, ==_comm k.0 j.0, ==_comm k.1 j.1) in
        (rw apart a.0, below hs a.1 (ground arith))
