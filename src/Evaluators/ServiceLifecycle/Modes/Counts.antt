-- ===== src/Evaluators/ServiceLifecycle/Modes/Counts.antt =====
-- What one more declaration of a mode does to the test that it is declared at least twice.
use standards_control_plane.Prelude.{
  Bool, Bool-cases, List, String, ap, arith, elem, eq_iff, false, if◌then◌else◌, inl, inr, leb,
  true, ℕ, ◌+◌, ◌==◌, ◌||◌, ◌∙◌, ◌≡◌,
}

abbrev pub once : Bool → ℕ
once b = if b then 1 else 0

pub again :
    (a b : String) (c : ℕ) (d : List String) (twice : Bool)
    → elem b d ≡ true
    → ((twice || (a == b || false)) || leb 2 (once (elem a d) + c))
      ≡ (twice || leb 2 (once (elem a d) + ((once (a == b) + 0) + c)))
again a b c d twice e = elim (Bool-cases (a == b)) [
  | inl q ↦ rw q (rw (ap (λ t. elem t d) ((eq_iff a b).0 q) ∙ e) (ground arith))
  | inr n ↦ rw n (ground arith)
]

pub afresh :
    (a b : String) (c : ℕ) (d : List String) (twice : Bool)
    → elem b d ≡ false
    → (twice || leb 2 (once (elem a d || (a == b || false)) + c))
      ≡ (twice || leb 2 (once (elem a d) + ((once (a == b) + 0) + c)))
afresh a b c d twice e = elim (Bool-cases (a == b)) [
  | inl q ↦ rw q (rw (ap (λ t. elem t d) ((eq_iff a b).0 q) ∙ e) (ground arith))
  | inr n ↦ rw n (ground arith)
]

pub afresh_twice : (n : ℕ) → (false || leb 2 (once false + n)) ≡ leb 2 n
afresh_twice n = ground arith

pub none_again : (twice b : Bool) → twice ≡ (twice || leb 2 (once b + 0))
none_again twice true = ground arith
none_again twice false = ground arith
