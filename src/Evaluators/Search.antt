-- ===== src/Evaluators/Search.antt =====
-- The search of a check for the first path whose text passes, by the texts of the paths.
use standards_control_plane.Prelude.{
  All, Bool, Bool-cases, List, Option, String, [], if◌then◌else◌, inl, inr, none, ok, refl, some,
  ◌∷◌, ◌≡◌,
}
use standards_control_plane.Evaluators.{EvaluatorHost, first_path_where, read_repo_file}

module _ (host : EvaluatorHost) (texts : String → String) where
  abbrev pub IsReadable : List String → Type 0
  IsReadable = All λ p. read_repo_file host p ≡ ok (texts p)

  abbrev pub found_in : (String → Bool) → List String → Option String
  found_in test [] = none
  found_in test (p ∷ ps) = if test (texts p) then some p else found_in test ps

  pub first_path_where-found_in :
      (test : String → Bool) (ps : List String)
      → IsReadable ps
      → first_path_where host test ps ≡ ok (found_in test ps)
  unfolding first_path_where
  first_path_where-found_in test [] h = refl
  first_path_where-found_in test (p ∷ ps) h = elim (Bool-cases (test (texts p))) [
    | inl e ↦ rw h.0 (rw e refl)
    | inr n ↦ rw h.0 (rw n (first_path_where-found_in test ps h.1))
  ]
