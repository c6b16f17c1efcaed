-- ===== src/Normaliser.antt =====
-- normaliser.py: what an extracted path is, by its text. The children infer the area and assemble
-- the project area.
pub mod AreaId
pub mod Build
pub mod Laws
pub mod Inference
use standards_control_plane.Prelude.{
  Bool, List, Option, String, [], elem, if◌then◌else◌, none, not, some, ◌&&◌, ◌==◌, ◌||◌, ◌∷◌,
}
use standards_control_plane.Paths.{ends_with, with_slashes}
use standards_control_plane.Text.{Unicode, ends_with_any, occurs_in, path_name, starts_with}

-- `CONFIG_FILENAMES`
abbrev pub config_filenames : List String
config_filenames =
    "package.json" ∷ "tsconfig.json" ∷ "pyproject.toml" ∷ "vite.config.ts" ∷ "vite.config.js"
    ∷ "services.yml" ∷ "services.yaml" ∷ []

-- `LANGUAGE_BY_EXTENSION.get(extension)`
unfoldable pub language_by_extension : String → Option String
language_by_extension extension =
    if extension == ".dot"
    then some "dot"
    else if extension == ".json"
    then some "json"
    else if extension == ".md"
    then some "markdown"
    else if extension == ".mdx"
    then some "markdown"
    else if extension == ".mmd"
    then some "mermaid"
    else if extension == ".mermaid"
    then some "mermaid"
    else if extension == ".py"
    then some "python"
    else if extension == ".ts"
    then some "typescript"
    else if extension == ".tsx"
    then some "typescript"
    else none

-- `_is_docs`
unfoldable pub is_docs : String → Bool
unfolding with_slashes starts_with occurs_in
is_docs path_value =
    let path = with_slashes path_value in
    starts_with path "docs/"
    || (starts_with path "prompts/" || (occurs_in "/docs/" path || occurs_in "/prompts/" path))

-- `_is_prompt`
unfoldable pub is_prompt : String → Bool
unfolding with_slashes starts_with occurs_in
is_prompt path_value =
    let path = with_slashes path_value in starts_with path "prompts/" || occurs_in "/prompts/" path

-- `_is_review_evidence`
unfoldable pub is_review_evidence : String → Bool
unfolding with_slashes starts_with occurs_in
is_review_evidence path_value =
    let path = with_slashes path_value in
    starts_with path "docs/reviews/" || occurs_in "/docs/reviews/" path

-- `_is_ui_component`
unfoldable pub is_ui_component : String → Bool
unfolding with_slashes starts_with occurs_in ends_with ends_with_any
is_ui_component path_value =
    let path = with_slashes path_value in
    ends_with_any path (".tsx" ∷ ".jsx" ∷ [])
    && (starts_with path "components/"
        || (occurs_in "/components/" path
            || (ends_with path "/page.tsx" || ends_with path "/page.jsx")))

module _ (unicode : Unicode) where
  -- `_path_name(path_value).lower()`
  abbrev pub lower_name_of : String → String
  lower_name_of path_value = unicode.lower (path_name (with_slashes path_value))

  abbrev pub lower_path_of : String → String
  lower_path_of path_value = unicode.lower (with_slashes path_value)

  -- `_is_test`
  unfoldable pub is_test : String → Bool
  unfolding with_slashes starts_with occurs_in path_name
  is_test path_value =
      let lower_name = lower_name_of path_value in
      let path = with_slashes path_value in
      starts_with path "tests/"
      || (occurs_in "/tests/" path
          || (starts_with lower_name "test_" || occurs_in ".test." lower_name))

  -- `_is_config`
  unfoldable pub is_config : String → Bool
  unfolding with_slashes occurs_in path_name
  is_config path_value =
      let lower_name = lower_name_of path_value in
      elem lower_name config_filenames || occurs_in ".config." lower_name

  -- `_is_storybook_metadata`
  unfoldable pub is_storybook_metadata : String → Bool
  unfolding with_slashes starts_with occurs_in path_name
  is_storybook_metadata path_value =
      let lower_path = lower_path_of path_value in
      let lower_name = path_name (with_slashes lower_path) in
      starts_with lower_path ".storybook/"
      || (starts_with lower_path "storybook/"
          || (occurs_in "/.storybook/" lower_path
              || (occurs_in "/storybook/" lower_path
                  || (occurs_in ".stories." lower_name || occurs_in ".story." lower_name))))

  -- `_is_screenshot_artifact`
  unfoldable pub is_screenshot_artifact : String → Bool
  unfolding with_slashes starts_with occurs_in path_name ends_with_any
  is_screenshot_artifact path_value =
      let lower_path = lower_path_of path_value in
      let lower_name = path_name (with_slashes lower_path) in
      (starts_with lower_path "screenshots/"
        || (starts_with lower_path "__screenshots__/"
            || (occurs_in "/screenshots/" lower_path
                || (occurs_in "/__screenshots__/" lower_path
                    || occurs_in "screenshot" lower_name))))
      && ends_with_any lower_path (".png" ∷ ".jpg" ∷ ".jpeg" ∷ ".webp" ∷ [])

  -- `_is_graph_artifact`
  unfoldable pub is_graph_artifact : String → Bool
  unfolding with_slashes starts_with occurs_in ends_with_any
  is_graph_artifact path_value =
      let lower_path = lower_path_of path_value in
      ends_with_any lower_path (".mmd" ∷ ".mermaid" ∷ ".dot" ∷ [])
      || (starts_with lower_path "graphs/" || occurs_in "/graphs/" lower_path)

  -- `_is_service`
  unfoldable pub is_service : String → Bool
  unfolding with_slashes starts_with occurs_in path_name
  is_service path_value =
      let lower_name = lower_name_of path_value in
      let path = with_slashes path_value in
      starts_with path "backend/services/"
      || (occurs_in "/backend/services/" path
          || (occurs_in "service" lower_name || occurs_in "action" lower_name))

  -- `_is_code_path`
  unfoldable pub is_code_path : String → Bool
  unfolding is_test ends_with_any
  is_code_path path_value =
      ends_with_any path_value (".py" ∷ ".ts" ∷ ".tsx" ∷ ".js" ∷ ".jsx" ∷ [])
      && not (is_test path_value)
