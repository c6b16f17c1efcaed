-- ===== src/Evaluators/Architecture/Laws.antt =====
-- The checks of evaluators/architecture.py find exactly the paths that their markers stand in.
use standards_control_plane.Evaluators.Architecture.Locators.{
  access_locator, boundary_locator, eventing_locator, is_skipped_for_access,
  is_skipped_for_eventing, orchestration_locator,
}
use standards_control_plane.Prelude.{
  >>=-of_ok, All, All-mono, Bool, Bool-cases, List, Option, Result, String, [], ap, false, filter,
  if◌then◌else◌, inl, inr, none, ok, refl, some, true, ◌∙◌, ◌∷◌, ◌≡◌,
}
use standards_control_plane.Prelude.Int.{ℤ}
use standards_control_plane.Findings.{EvidenceRecord}
use standards_control_plane.Normaliser.Build.{ProjectArea, code_paths, ui_components}
use standards_control_plane.Evaluators.{
  Draft, EvaluatorHost, add_located, paths_of_evidence, read_repo_file, scan,
}
use standards_control_plane.Evaluators.Architecture.{
  ad_hoc_api_access_finding, async_eventing_finding, boundary_leak_finding, draft_of,
  located_in_file, scanned, ui_orchestration_finding, unless,
}

abbrev pub is_located : Option String → Bool
is_located none = false
is_located (some locator) = true

paths-add_located :
    (path : String) (o : Option String) (evidence : List EvidenceRecord)
    → paths_of_evidence (add_located path o evidence)
      ≡ (if is_located o then path ∷ paths_of_evidence evidence else paths_of_evidence evidence)
paths-add_located path none evidence = refl
paths-add_located path (some locator) evidence = refl

-- Where each path is located or not, the scan returns, and its evidence is of those that are.
scan-exact :
    (locate : String → Result (Option String)) (located : String → Option String)
    (paths : List String)
    → All (λ p. locate p ≡ ok (located p)) paths
    → (evidence : List EvidenceRecord) × (scan locate paths ≡ ok evidence)
      × (paths_of_evidence evidence ≡ filter (λ p. is_located (located p)) paths)
unfolding scan
scan-exact locate located [] h = ([], refl, refl)
scan-exact locate located (p ∷ ps) h =
    let (evidence, s, e) = scan-exact locate located ps h.1 in
    (
      add_located p (located p) evidence,
      >>=-of_ok _ h.0 ∙ >>=-of_ok _ s,
      paths-add_located p (located p) evidence
          ∙ ap (λ l. if is_located (located p) then p ∷ l else l) e,
    )

abbrev pub evidence_of : Option Draft → List EvidenceRecord
evidence_of none = []
evidence_of (some draft) = draft.evidence

evidence_of-draft_of :
    (title summary : String) (remediation : List String) (confidence : ℤ)
    (evidence : List EvidenceRecord)
    → evidence_of (draft_of title summary remediation confidence evidence) ≡ evidence
unfolding draft_of
evidence_of-draft_of title summary remediation confidence [] = refl
evidence_of-draft_of title summary remediation confidence (e ∷ es) = refl

-- A check returns, and its evidence names exactly the paths for which the test holds, in order.
abbrev pub Reports : Result (Option Draft) → (String → Bool) → List String → Type 0
Reports outcome violates paths =
    (draft : Option Draft) × (outcome ≡ ok draft)
    × (paths_of_evidence (evidence_of draft) ≡ filter violates paths)

module _ (host : EvaluatorHost) (project_area : ProjectArea) where
  scanned-Reports :
      (title summary remediation : String) (confidence : ℤ)
      (locate : String → Result (Option String)) (located : String → Option String)
      (paths : List String)
      → All (λ p. locate p ≡ ok (located p)) paths
      → Reports
          (scanned host project_area title summary remediation confidence locate paths)
          (λ p. is_located (located p))
          paths
  unfolding scanned
  scanned-Reports title summary remediation confidence locate located paths h =
      let (evidence, s, e) = scan-exact locate located paths h in
      (
        draft_of title summary (remediation ∷ []) confidence evidence,
        >>=-of_ok _ s,
        ap paths_of_evidence
              (evidence_of-draft_of title summary (remediation ∷ []) confidence evidence)
            ∙ e,
      )

  module _ (content : String → String) where
    abbrev IsReadable : List String → Type 0
    IsReadable paths = All (λ p. read_repo_file host p ≡ ok (content p)) paths

    located-unless :
        (skip : String → Bool) (locator : String → Option String) (p : String)
        → read_repo_file host p ≡ ok (content p)
        → unless host project_area (skip p) (located_in_file host project_area locator p)
          ≡ ok (if skip p then none else locator (content p))
    unfolding located_in_file
    located-unless skip locator p h = elim (Bool-cases (skip p)) [
      | inl yes' ↦ rw yes' refl
      | inr no' ↦ rw no' (>>=-of_ok _ h)
    ]

    located_lem :
        (locator : String → Option String) (p : String)
        → read_repo_file host p ≡ ok (content p)
        → located_in_file host project_area locator p ≡ ok (locator (content p))
    unfolding located_in_file
    located_lem locator p h = >>=-of_ok _ h

    unfoldable pub crosses : String → Bool
    unfolding boundary_locator
    crosses p = is_located (boundary_locator host.unicode p (content p))

    unfoldable pub orchestrates : String → Bool
    unfolding orchestration_locator
    orchestrates p = is_located (orchestration_locator host.unicode (content p))

    unfoldable pub accesses : String → Bool
    unfolding access_locator
    accesses p = is_located (
        if is_skipped_for_access host.unicode p
        then none
        else access_locator host.unicode (content p))

    unfoldable pub publishes : String → Bool
    unfolding eventing_locator
    publishes p = is_located (
        if is_skipped_for_eventing host.unicode p
        then none
        else eventing_locator host.unicode (content p))

    -- If the code paths and the screens can be read, each of the four checks returns, and its
    -- evidence names, in order, exactly the code paths or screens that its markers stand in and
    -- that it does not skip.
    pub architecture-Reports :
        All (λ p. read_repo_file host p ≡ ok (content p)) (project_area.artefacts code_paths)
        → All (λ p. read_repo_file host p ≡ ok (content p)) (project_area.artefacts ui_components)
        → Reports
            (boundary_leak_finding host project_area)
            crosses
            (project_area.artefacts code_paths)
          × Reports
              (ui_orchestration_finding host project_area)
              orchestrates
              (project_area.artefacts ui_components)
          × Reports
              (ad_hoc_api_access_finding host project_area)
              accesses
              (project_area.artefacts code_paths)
          × Reports
              (async_eventing_finding host project_area)
              publishes
              (project_area.artefacts code_paths)
    unfolding boundary_leak_finding ui_orchestration_finding ad_hoc_api_access_finding
        async_eventing_finding crosses orchestrates accesses publishes
    architecture-Reports code ui = (
      scanned-Reports _ _ _ _ _ (λ p. boundary_locator host.unicode p (content p))
          (project_area.artefacts code_paths)
          (All-mono _ _ (project_area.artefacts code_paths)
            (λ p. located_lem (boundary_locator host.unicode p) p) code),
      scanned-Reports _ _ _ _ _ (λ p. orchestration_locator host.unicode (content p))
          (project_area.artefacts ui_components)
          (All-mono _ _ (project_area.artefacts ui_components)
            (λ p. located_lem (orchestration_locator host.unicode) p) ui),
      scanned-Reports _ _ _ _ _ _ (project_area.artefacts code_paths) (
          All-mono _ _ (project_area.artefacts code_paths)
            (λ p.
              located-unless (is_skipped_for_access host.unicode) (access_locator host.unicode) p)
            code),
      scanned-Reports _ _ _ _ _ _ (project_area.artefacts code_paths) (
          All-mono _ _ (project_area.artefacts code_paths)
            (λ p.
              located-unless (is_skipped_for_eventing host.unicode) (eventing_locator host.unicode)
                p)
            code),
    )
