-- ===== src/Normaliser/Build.antt =====
-- `normalise_project_area` of normaliser.py: the artifact buckets and the other lists that one loop
-- over the extracted files fills.
use standards_control_plane.Unique.Sets.{dedupe_sorted}
use standards_control_plane.Order.{sorted, text}
use standards_control_plane.Prelude.{
  Bool, List, Option, Result, String, [], if◌then◌else◌, map, none, ok, some, ◌++◌, ◌>>=◌, ◌>>◌,
  ◌||◌, ◌∷◌,
}
use standards_control_plane.Json.{
  Fields, Schemas, Value, end, field, obj, str, strs, validate_with_schema,
}
use standards_control_plane.Text.{Unicode, occurs_in, split_at, starts_with}
use standards_control_plane.Extractor.{ExtractedFile, ExtractedScope, scope_to_dict}
use standards_control_plane.Normaliser.{
  is_code_path, is_config, is_docs, is_graph_artifact, is_prompt, is_review_evidence,
  is_screenshot_artifact, is_service, is_storybook_metadata, is_test, is_ui_component,
  language_by_extension,
}
use standards_control_plane.Normaliser.AreaId.{infer_area_id, is_enhancement_spec}

-- The keys of `_artifact_buckets`.
pub data Bucket : Type 0 where
  docs code_paths enhancement_specs review_evidence prompts ui_components : Bucket
  services tests configs storybook_metadata screenshots graphs : Bucket

abbrev pub Artefacts : Type 0
Artefacts = Bucket → List String

pub record ProjectArea : Type 0 where
  pub area_id : String
  pub paths : List String
  pub subsystem : String
  pub artefacts : Artefacts
  pub languages : List String
  pub frameworks : List String
  pub tags : List String

-- The lists that the loop appends to.
pub record Collected : Type 0 where
  pub artefacts : Artefacts
  pub languages : List String
  pub frameworks : List String
  pub tags : List String

-- The dict `payload`.
unfoldable pub area_to_dict : ProjectArea → Value
area_to_dict a = obj (
    field "area_id" (str a.area_id) (
      field "paths" (strs a.paths) (
        field "subsystem" (str a.subsystem) (
          field "artefacts"
            (obj (
              bucket "docs" docs (
                bucket "code_paths" code_paths (
                  bucket "enhancement_specs" enhancement_specs (
                    bucket "review_evidence" review_evidence (
                      bucket "prompts" prompts (
                        bucket "ui_components" ui_components (
                          bucket "services" services (
                            bucket "tests" tests (
                              bucket "configs" configs (
                                bucket "storybook_metadata" storybook_metadata (
                                  bucket "screenshots" screenshots
                                    (bucket "graphs" graphs end)))))))))))))
            (field "metadata"
              (obj (
                field "languages" (strs a.languages)
                  (field "frameworks" (strs a.frameworks) (field "tags" (strs a.tags) end))))
              end)))))
  where
    bucket : String → Bucket → Fields → Fields
    bucket name b rest = field name (strs (a.artefacts b)) rest

abbrev pub optional_list : Option String → List String
optional_list none = []
optional_list (some s) = s ∷ []

abbrev pub nothing_collected : String → Collected
nothing_collected subsystem = record {
  artefacts = λ b. [];
  languages = [];
  frameworks = [];
  tags = subsystem ∷ [];
}

abbrev pub paths_of : ExtractedScope → List String
paths_of scope = map (λ (f : ExtractedFile). f.path) scope.files

-- `payload` of what the loop collected.
unfoldable pub area_of : ExtractedScope → String → String → Collected → ProjectArea
unfolding dedupe_sorted split_at sorted
area_of scope subsystem area_id c = record {
  area_id = area_id;
  paths = sorted (λ s. text s ∷ []) (paths_of scope);
  subsystem = subsystem;
  artefacts = λ b. dedupe_sorted (c.artefacts b);
  languages = dedupe_sorted c.languages;
  frameworks = dedupe_sorted c.frameworks;
  tags = dedupe_sorted (c.tags ++ (split_at 45 area_id ++ (area_id ∷ [])));
}

-- `if b: xs.append(s)`
unfoldable pub append_if : Bool → String → List String → List String
append_if b s xs = if b then xs ++ (s ∷ []) else xs

module _ (unicode : Unicode) where
  -- The test under which the loop appends a path to a bucket.
  unfoldable pub belongs : Bucket → String → Bool
  unfolding is_docs is_code_path is_enhancement_spec is_review_evidence is_prompt is_ui_component
      is_service is_test is_config is_storybook_metadata is_screenshot_artifact is_graph_artifact
  belongs docs = is_docs
  belongs code_paths = is_code_path unicode
  belongs enhancement_specs = is_enhancement_spec unicode.is_decimal
  belongs review_evidence = is_review_evidence
  belongs prompts = is_prompt
  belongs ui_components = is_ui_component
  belongs services = is_service unicode
  belongs tests = is_test unicode
  belongs configs = is_config unicode
  belongs storybook_metadata = is_storybook_metadata unicode
  belongs screenshots = is_screenshot_artifact unicode
  belongs graphs = is_graph_artifact unicode

  unfoldable pub is_react : String → Bool
  unfolding starts_with occurs_in
  is_react path_value =
      starts_with path_value "frontend/"
      || (starts_with path_value "components/"
          || (occurs_in "/frontend/" path_value || occurs_in "/components/" path_value))

  -- The body of the loop.
  unfoldable pub collect : Collected → ExtractedFile → Collected
  unfolding belongs is_react starts_with occurs_in is_storybook_metadata is_screenshot_artifact
      is_graph_artifact language_by_extension
  collect c entry = record {
    artefacts = λ b. append_if (belongs b entry.path) entry.path (c.artefacts b);
    languages = c.languages ++ optional_list (language_by_extension entry.extension);
    frameworks = append_if (is_react entry.path) "react" c.frameworks;
    tags = append_if (starts_with entry.path "docs/" || occurs_in "/docs/" entry.path) "docs" (
        append_if (starts_with entry.path "backend/" || occurs_in "/backend/" entry.path) "backend"
          (append_if (is_graph_artifact unicode entry.path) "graphs" (
            append_if (is_screenshot_artifact unicode entry.path) "screenshots" (
              append_if (is_storybook_metadata unicode entry.path) "storybook"
                (append_if (is_react entry.path) "frontend" c.tags)))));
  }

  unfoldable pub collect_all : Collected → List ExtractedFile → Collected
  unfolding collect
  collect_all c [] = c
  collect_all c (entry ∷ rest) = collect_all (collect c entry) rest

  -- `normalise_project_area`
  unfoldable pub normalise_project_area :
      Schemas → ExtractedScope → String → Option String → Result ProjectArea
  unfolding validate_with_schema scope_to_dict collect_all infer_area_id area_of area_to_dict
  normalise_project_area accepts scope subsystem area_hint = do
    validate_with_schema accepts (scope_to_dict scope) "extracted-scope.schema.json"
    area_id ← infer_area_id unicode.is_decimal (paths_of scope) subsystem area_hint
    let payload =
        area_of scope subsystem area_id (collect_all (nothing_collected subsystem) scope.files)
    validate_with_schema accepts (area_to_dict payload) "project-area.schema.json"
    ok payload
