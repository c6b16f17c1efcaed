-- ===== src/Evaluators/ServiceLifecycle/Modes.antt =====
-- The walk of `_svc003_findings` over the accepted modes of a service: which modes it takes as
-- declared, and which as declared twice.
pub mod Counts
use standards_control_plane.Evaluators.ServiceLifecycle.Modes.Counts.{
  afresh, afresh_twice, again, none_again, once,
}
use standards_control_plane.Unique.Sets.{
  IsInOrder, dedupe_sorted, dedupe_sorted-IsInOrder, elem-dedupe_sorted,
}
use mathlib.Core.List.{append-nil, append_assoc}
use standards_control_plane.Json
use standards_control_plane.Prelude.{
  Bool-cases, List, Option, String, [], any-append, ap, arith, count_by, count_by-append, elem, inl,
  inr, leb, map, none, refl, some, sym, ℕ, ◌++◌, ◌+◌, ◌==◌, ◌||◌, ◌∙◌, ◌∷◌, ◌≡◌,
}
use standards_control_plane.Json.{Items, Value, arr, cons, obj, str, text_of, to_list}
use standards_control_plane.Normaliser.Build.{optional_list}
use standards_control_plane.Evaluators.ServiceLifecycle.Entries.{Entry, with_mode, without_mode}
use standards_control_plane.Text.{Unicode}
use standards_control_plane.Unique.Laws.{IsUnique, append-IsUnique, elem-known}
use standards_control_plane.Evaluators.ServiceLifecycle.{Issue, LifecycleHost, declared, in_order}
use standards_control_plane.Evaluators.ServiceLifecycle.Entries.Issues.{entry_of, mode_issues}
use standards_control_plane.Evaluators.ServiceLifecycle.Auth.{
  Walked, after_walk, duplicate_issue, enter, implementation_issues, modes_issues, walk_entries,
}

-- The mode of a value, if it is a mapping with one.
abbrev pub mode_of : Value → List String
unfolding Json.get
mode_of (obj entry) = optional_list (text_of (Json.get "mode" entry))
mode_of _ = []

abbrev pub modes_in : List Value → List String
modes_in [] = []
modes_in (v ∷ vs) = mode_of v ++ modes_in vs

-- How often a mode is declared.
abbrev pub declarations : String → List Value → ℕ
declarations mode vs = count_by (λ m. mode == m) (modes_in vs)

abbrev modes_of_entry : Entry → List String
modes_of_entry (with_mode mode entry) = mode ∷ []
modes_of_entry (without_mode issue) = []

module _ (unicode : Unicode) (lifecycle : LifecycleHost) (waiver_ids : Option (List String))
    (audit_date : ℕ) (sources : List (String × String)) (manifest_path service_name : String) where
  abbrev entry_at : ℕ → Value → Entry
  entry_at = entry_of unicode lifecycle waiver_ids audit_date manifest_path service_name

  abbrev entered : Walked → ℕ → Entry → Walked
  entered = enter unicode lifecycle waiver_ids audit_date sources manifest_path service_name

  abbrev walked : Walked → ℕ → List Value → Walked
  walked = walk_entries unicode lifecycle waiver_ids audit_date sources manifest_path service_name

  entry_of-modes : (index : ℕ) (v : Value) → modes_of_entry (entry_at index v) ≡ mode_of v
  unfolding entry_of
  entry_of-modes index (obj entry) = of_get (Json.get "mode" entry) refl
    where
      of_get :
          (o : Option Value)
          → Json.get "mode" entry ≡ o
          → modes_of_entry (entry_at index (obj entry)) ≡ optional_list (text_of o)
      of_get none e = rw e refl
      of_get (some (str s)) e = rw e refl
      of_get (some v) e = rw e refl
  entry_of-modes index v = refl

  enter-declared :
      (m : String) (w : Walked) (index : ℕ) (e : Entry)
      → elem m (entered w index e).declared_modes
        ≡ (elem m w.declared_modes || elem m (modes_of_entry e))
  unfolding enter
  enter-declared m w index (without_mode issue) = ground arith
  enter-declared m w index (with_mode mode entry) = elim (Bool-cases (elem mode w.declared_modes)) [
    | inl q ↦ rw q (elem-known m mode w.declared_modes q)
    | inr n ↦ rw n (any-append (λ x. m == x) w.declared_modes (mode ∷ []))
  ]

  enter-IsUnique :
      (w : Walked) (index : ℕ) (e : Entry)
      → IsUnique w.declared_modes
      → IsUnique (entered w index e).declared_modes
  unfolding enter
  enter-IsUnique w index (without_mode issue) u = u
  enter-IsUnique w index (with_mode mode entry) u = elim (Bool-cases (elem mode w.declared_modes)) [
    | inl q ↦ rw q u
    | inr n ↦ rw n (append-IsUnique mode w.declared_modes n u)
  ]

  enter-duplicates :
      (m : String) (w : Walked) (index : ℕ) (e : Entry) (later : ℕ)
      → (elem m (entered w index e).duplicates
          || leb 2 (once (elem m (entered w index e).declared_modes) + later))
        ≡ (elem m w.duplicates
            || leb 2 (
                once (elem m w.declared_modes)
                + (count_by (λ k. m == k) (modes_of_entry e) + later)))
  unfolding enter
  enter-duplicates m w index (without_mode issue) later = ground arith
  enter-duplicates m w index (with_mode mode entry) later =
      elim (Bool-cases (elem mode w.declared_modes)) [
        | inl q ↦ rw q (
            rw (any-append (λ x. m == x) w.duplicates (mode ∷ []))
              (again m mode later w.declared_modes (elem m w.duplicates) q))
        | inr n ↦ rw n (
            rw (any-append (λ x. m == x) w.declared_modes (mode ∷ []))
              (afresh m mode later w.declared_modes (elem m w.duplicates) n))
      ]

  walk-declared :
      (m : String) (w : Walked) (index : ℕ) (vs : List Value)
      → elem m (walked w index vs).declared_modes
        ≡ (elem m w.declared_modes || elem m (modes_in vs))
  unfolding walk_entries
  walk-declared m w index [] = ground arith
  walk-declared m w index (v ∷ vs) =
      let e = entry_at index v in
      walk-declared m (entered w index e) (index + 1) vs
      ∙ (rw (enter-declared m w index e) (
          rw (entry_of-modes index v)
            (rw (any-append (λ x. m == x) (mode_of v) (modes_in vs)) (ground arith))))

  walk-IsUnique :
      (w : Walked) (index : ℕ) (vs : List Value)
      → IsUnique w.declared_modes
      → IsUnique (walked w index vs).declared_modes
  unfolding walk_entries
  walk-IsUnique w index [] u = u
  walk-IsUnique w index (v ∷ vs) u =
      let e = entry_at index v in
      walk-IsUnique (entered w index e) (index + 1) vs (enter-IsUnique w index e u)

  walk-duplicates :
      (m : String) (w : Walked) (index : ℕ) (vs : List Value)
      → elem m (walked w index vs).duplicates
        ≡ (elem m w.duplicates || leb 2 (once (elem m w.declared_modes) + declarations m vs))
  unfolding walk_entries
  walk-duplicates m w index [] = none_again (elem m w.duplicates) (elem m w.declared_modes)
  walk-duplicates m w index (v ∷ vs) =
      let e = entry_at index v in
      walk-duplicates m (entered w index e) (index + 1) vs
      ∙ (enter-duplicates m w index e (declarations m vs)
          ∙ rw (entry_of-modes index v)
              (rw (count_by-append (λ k. m == k) (mode_of v) (modes_in vs)) refl))

  -- What is reported of an entry.
  abbrev reported : ℕ → Entry → List Issue
  reported index (without_mode issue) = issue ∷ []
  reported index (with_mode mode entry) =
      mode_issues unicode lifecycle waiver_ids audit_date manifest_path service_name mode index
        entry

  -- What is reported of each entry, in order.
  abbrev pub issues_from : ℕ → List Value → List Issue
  unfolding entry_of
  issues_from index [] = []
  issues_from index (v ∷ vs) = reported index (entry_at index v) ++ issues_from (index + 1) vs

  enter-issues :
      (w : Walked) (index : ℕ) (e : Entry)
      → (entered w index e).issues ≡ w.issues ++ reported index e
  unfolding enter
  enter-issues w index (without_mode issue) = refl
  enter-issues w index (with_mode mode entry) = refl

  walk-issues :
      (w : Walked) (index : ℕ) (vs : List Value)
      → (walked w index vs).issues ≡ w.issues ++ issues_from index vs
  unfolding walk_entries
  walk-issues w index [] = sym (append-nil w.issues)
  walk-issues w index (v ∷ vs) =
      let e = entry_at index v in
      walk-issues (entered w index e) (index + 1) vs
      ∙ (rw (enter-issues w index e)
          (append_assoc w.issues (reported index e) (issues_from (index + 1) vs)))

  -- What is said of the modes that are declared again, and of the code.
  abbrev pub rest_of_report : List String → List String → List Issue
  rest_of_report modes repeated =
      map
        (duplicate_issue unicode lifecycle waiver_ids audit_date sources manifest_path service_name)
        repeated
      ++ implementation_issues unicode lifecycle waiver_ids audit_date sources manifest_path
          service_name modes

  -- The report on accepted modes by what is declared: what is said of each entry, of each mode that
  -- is declared again, and of the code by the modes that are declared.
  pub record IsReported (vs : List Value) (issues : List Issue) : Type 0 where
    pub modes : List String
    pub once_each : IsUnique modes
    pub declared : (m : String) → elem m modes ≡ elem m (modes_in vs)
    pub repeated : List String
    pub in_order : IsInOrder repeated
    pub declared_again : (m : String) → elem m repeated ≡ leb 2 (declarations m vs)
    pub in_parts : issues ≡ issues_from 0 vs ++ rest_of_report modes repeated

  abbrev unwalked : Walked
  unwalked = record { declared_modes = []; duplicates = []; issues = [] }

  -- Of a list of accepted modes that is not empty the check reports what it says of each entry, in
  -- order, then one issue for each mode that is declared at least twice, in the order of the modes,
  -- and then what it says of the code for the modes that are declared, each once.
  pub modes_issues-IsReported :
      (v : Value) (vs : Items)
      → IsReported (to_list (cons v vs)) (
          modes_issues unicode lifecycle waiver_ids audit_date sources manifest_path service_name
            (arr (cons v vs)))
  unfolding modes_issues after_walk
  modes_issues-IsReported v vs =
      let values = to_list (cons v vs) in
      let w = walked unwalked 0 values in
      record {
        modes = w.declared_modes;
        once_each = walk-IsUnique unwalked 0 values tt;
        declared = λ m. walk-declared m unwalked 0 values;
        repeated = dedupe_sorted w.duplicates;
        in_order = dedupe_sorted-IsInOrder w.duplicates;
        declared_again = λ m.
            elem-dedupe_sorted m w.duplicates
            ∙ (walk-duplicates m unwalked 0 values ∙ afresh_twice (declarations m values));
        in_parts =
            ap (λ l. l ++ rest_of_report w.declared_modes (dedupe_sorted w.duplicates))
              (walk-issues unwalked 0 values);
      }
