-- ===== src/Normaliser/Laws.antt =====
-- What stands in the lists of a project area.
use standards_control_plane.Prelude.{
  >>=-eq-ok, Bool, Bool-cases, Ensures, List, Option, String, [], any, any-append, arith, elem,
  eq_iff, eq_refl, false, guard-eq-ok, inl, inr, map, ok, refl, subst, true, value_error, ◌&&◌,
  ◌++◌, ◌==◌, ◌||◌, ◌∙◌, ◌∷◌, ◌≡◌,
}
use standards_control_plane.Order.{sorted}
use standards_control_plane.Json.{Schemas, validate_with_schema}
use standards_control_plane.Text.{Unicode, split_at}
use standards_control_plane.Unique.Sets.{
  IsInOrder, by_text, dedupe_sorted-IsInOrder, elem-dedupe_sorted,
}
use standards_control_plane.Extractor.{ExtractedFile, ExtractedScope, scope_to_dict}
use standards_control_plane.Normaliser.{language_by_extension}
use standards_control_plane.Normaliser.AreaId.{infer_area_id}
use standards_control_plane.Normaliser.Build.{
  Bucket, Collected, ProjectArea, append_if, area_of, area_to_dict, belongs, collect, collect_all,
  normalise_project_area, nothing_collected, optional_list, paths_of,
}

elem-append_if :
    (s p : String) (f : String → Bool) (xs : List String)
    → elem s (append_if (f p) p xs) ≡ (elem s xs || (s == p && f s))
unfolding append_if
elem-append_if s p f xs = elim (Bool-cases (s == p)) [
  | inl same' ↦
      rw ((eq_iff s p).0 same') (ground (arith, any-append (λ z. p == z) xs (p ∷ []), eq_refl p))
  | inr other ↦ rw other (ground (arith, any-append (λ z. s == z) xs (p ∷ [])))
]

module _ (unicode : Unicode) where
  elem-collect_all :
      (b : Bucket) (s : String) (c : Collected) (files : List ExtractedFile)
      → elem s ((collect_all unicode c files).artefacts b) ≡ (
          elem s (c.artefacts b)
          || (elem s (map (λ (f : ExtractedFile). f.path) files) && belongs unicode b s))
  unfolding collect_all collect
  elem-collect_all b s c [] = ground arith
  elem-collect_all b s c (entry ∷ rest) =
      elem-collect_all b s (collect unicode c entry) rest
      ∙ ground (arith, elem-append_if s entry.path (belongs unicode b) (c.artefacts b))

  abbrev pub names_language : String → ExtractedFile → Bool
  unfolding language_by_extension
  names_language s f = elem s (optional_list (language_by_extension f.extension))

  elem-languages :
      (s : String) (c : Collected) (files : List ExtractedFile)
      → elem s (collect_all unicode c files).languages
        ≡ (elem s c.languages || any (names_language s) files)
  unfolding collect_all collect names_language
  elem-languages s c [] = ground arith
  elem-languages s c (entry ∷ rest) =
      elem-languages s (collect unicode c entry) rest
      ∙ ground (
        arith,
        any-append (λ z. s == z) c.languages
            (optional_list (language_by_extension entry.extension)),
      )

  append_if-keeps :
      (s p : String) (b : Bool) (xs : List String)
      → elem s xs ≡ true
      → elem s (append_if b p xs) ≡ true
  unfolding append_if
  append_if-keeps s p true xs h = ground (arith, any-append (λ z. s == z) xs (p ∷ []))
  append_if-keeps s p false xs h = h

  collect_all-keeps :
      (s : String) (c : Collected) (files : List ExtractedFile)
      → elem s c.tags ≡ true
      → elem s (collect_all unicode c files).tags ≡ true
  unfolding collect_all collect
  collect_all-keeps s c [] h = h
  collect_all-keeps s c (entry ∷ rest) h = collect_all-keeps s (collect unicode c entry) rest (
      append_if-keeps s _ _ _ (
        append_if-keeps s _ _ _ (
          append_if-keeps s _ _ _
            (append_if-keeps s _ _ _ (append_if-keeps s _ _ _ (append_if-keeps s _ _ c.tags h))))))

  -- What a project area says of the extracted files.
  pub record IsAreaOf (scope : ExtractedScope) (subsystem : String) (area : ProjectArea)
      : Type 0 where
    pub same_subsystem : area.subsystem ≡ subsystem
    pub in_order : area.paths ≡ sorted by_text (paths_of scope)
    pub are_sets : (b : Bucket) → IsInOrder (area.artefacts b)
    pub bucketed :
        (b : Bucket) (s : String)
        → elem s (area.artefacts b) ≡ (elem s (paths_of scope) && belongs unicode b s)
    pub languages : (s : String) → elem s area.languages ≡ any (names_language s) scope.files
    pub tagged : (elem subsystem area.tags ≡ true) × (elem area.area_id area.tags ≡ true)

  tagged_first : (s : String) (xs ys : List String) → elem s xs ≡ true → elem s (xs ++ ys) ≡ true
  tagged_first s xs ys h = any-append (λ z. s == z) xs ys ∙ rw h refl

  area_of-IsAreaOf :
      (scope : ExtractedScope) (subsystem area_id : String)
      → IsAreaOf scope subsystem (
          area_of scope subsystem area_id
            (collect_all unicode (nothing_collected subsystem) scope.files))
  unfolding area_of
  area_of-IsAreaOf scope subsystem area_id =
      let c = collect_all unicode (nothing_collected subsystem) scope.files in
      record {
        same_subsystem = refl;
        in_order = refl;
        are_sets = λ b. dedupe_sorted-IsInOrder (c.artefacts b);
        bucketed = λ b s.
            elem-dedupe_sorted s (c.artefacts b)
            ∙ elem-collect_all b s (nothing_collected subsystem) scope.files;
        languages = λ s.
            elem-dedupe_sorted s c.languages
            ∙ elem-languages s (nothing_collected subsystem) scope.files;
        tagged = (
          elem-dedupe_sorted subsystem _
              ∙ tagged_first subsystem c.tags _ (
                  collect_all-keeps subsystem (nothing_collected subsystem) scope.files
                    (ground (arith, eq_refl subsystem))),
          elem-dedupe_sorted area_id (c.tags ++ (split_at 45 area_id ++ (area_id ∷ [])))
              ∙ ground (
                arith,
                any-append (λ z. area_id == z) c.tags (split_at 45 area_id ++ (area_id ∷ [])),
                any-append (λ z. area_id == z) (split_at 45 area_id) (area_id ∷ []),
                eq_refl area_id,
              ),
        );
      }

  -- A project area that is returned was made of the identifier that inference gave: its buckets
  -- have exactly the paths that their tests accept, each once and in order, its languages are those
  -- of the files' extensions, and the subsystem and the identifier are among its tags.
  pub normalise_project_area-IsAreaOf :
      (accepts : Schemas) (scope : ExtractedScope) (subsystem : String) (area_hint : Option String)
      {area : ProjectArea}
      → normalise_project_area unicode accepts scope subsystem area_hint ≡ ok area
      → IsAreaOf scope subsystem area
        × (infer_area_id unicode.is_decimal (paths_of scope) subsystem area_hint ≡ ok area.area_id)
        × (accepts "project-area.schema.json" (area_to_dict area) ≡ true)
  unfolding normalise_project_area validate_with_schema area_of
  normalise_project_area-IsAreaOf accepts scope subsystem area_hint h =
      let (_, _, h1) =
        >>=-eq-ok (validate_with_schema accepts (scope_to_dict scope) "extracted-scope.schema.json")
          _ h in
      let (area_id, inferred, h2) =
        >>=-eq-ok (infer_area_id unicode.is_decimal (paths_of scope) subsystem area_hint) _ h1 in
      let payload =
        area_of scope subsystem area_id
          (collect_all unicode (nothing_collected subsystem) scope.files) in
      let (_, valid, h3) =
        >>=-eq-ok (validate_with_schema accepts (area_to_dict payload) "project-area.schema.json") _
          h2 in
      subst
        (Ensures (λ a.
          IsAreaOf scope subsystem a
          × (infer_area_id unicode.is_decimal (paths_of scope) subsystem area_hint ≡ ok a.area_id)
          × (accepts "project-area.schema.json" (area_to_dict a) ≡ true)))
        h3
        (
          area_of-IsAreaOf scope subsystem area_id,
          inferred,
          guard-eq-ok (accepts "project-area.schema.json" (area_to_dict payload)) value_error valid,
        )
