-- ===== src/Lib.antt =====
-- The standards control plane: a registry of engineering standards, evaluators that audit a scope
-- of a repository against them, and a persisted store of the findings. Agents consult it before
-- they build; audits, CI summaries and dashboards are projections of its findings.
--
-- The parts, with paths from the repository's root (all under src/standards_control_plane/):
--   Json         JSON values, the `_ensure_*` checks of the loaders, `validate_with_schema`
--                (schema_tools.py). The JSON Schema library is a parameter, `Schemas`: what it
--                answers for a schema's file name and a value.
--   Paths        path texts and the lexical part of pathlib: `_paths_overlap`, `_resolve_repo_path`
--                (findings.py). The file tree is a parameter, `Files`; symbolic links are not
--                followed.
--   Order, Dict, Unique   Python's comparison of keys with its stable `sorted`, its `dict` in
--                insertion order, and the loops that drop repeated texts (audit.py, consult.py).
--   Confidence   confidence.py; a confidence is counted in ten-thousandths, so values with up to
--                four decimals are exact. There are no floats.
--   Findings     findings.py: the records and their JSON (Findings), the loaders (Load), the merge
--                of the two stores (Merge), `reconcile_findings` (Reconcile), the replacement of the
--                two files (Write), `persist_audit_findings` (Persist), the selection for a consult
--                (Consult).
--   Artifacts    the writer of ci_outputs.py that replaces several files together; whether a content
--                passes its schema, and where a staging raises, are arguments.
--   Scoring      scoring.py. Waivers: waivers.py; the time that a text names is a parameter.
--   Registry     registry.py: records, choice of the active rules, overlays (Laws), the loader over
--                an abstract file tree (Load).
--   AppliesTo    applies_to.py: globs, the fallback tables (Fallback); `fnmatchcase` on one segment
--                is a parameter.
--   Text         the methods of `str` that the parts below use; what Python's tables of Unicode say
--                (`lower`, the decimals, white space, `\w`) is a parameter, `Unicode`.
--   Extractor    extractor.py: the resolution of the scope paths; the walk and the index of the
--                files stand in Walk. What the operating system answers is a parameter, `Disk`, and
--                what `os.walk` gives is a tree, `Listing`.
--   Normaliser   normaliser.py: the classifiers of paths; `_infer_area_id` stands in AreaId and
--                `normalise_project_area` in Build.
--   Evaluators   evaluators/*.py: what the evaluators repeat, and a child for each. The text of a
--                file is a parameter, in `EvaluatorHost`; what YAML and dates are parsed to, and
--                `repr`, are others, `LifecycleHost` (ServiceLifecycle). Table is `EVALUATORS`.
--   Audit        audit.py; `build_audit_result` stands in Build. The extractor, the normaliser and
--                the table of evaluators are an interface, `Parts`.
--   Assembly     the imports of audit.py: `program` fills `Parts` with the parts above. Area, Traced
--                and Changed are about the whole audit.
--   ChangedAudit changed_audit.py: the area of changed paths; the audit with its fallback stands in
--                Build. What git prints is a parameter.
--   Consult      consult.py; `build_consult_response` stands in Respond. The digest of a request,
--                `str.lower` and the historical reviews are an interface, `ConsultHost`.
--   ReviewEvidence  review_evidence.py; what the block of a Markdown file parses to is a parameter.
--   Calibration  calibration.py: the summary of false positives; its file is not modelled.
--   CiOutputs    ci_outputs.py without the Markdown text. ControlTower: the dashboards of
--                control_tower.py. Decimal: the numbers in the identifiers of warnings.
--
-- An audit extracts the files of a scope, normalises them to an area and asks the evaluators of the
-- requested domains, which read the files; it gives findings. The findings store is reconciled with them; a consult selects from the
-- store and the registry; the CI summary and the dashboards are made from the audit and the store.
--
-- An exception is a value of `Result`; the loops recur on the lists that they go through. Only the
-- digits of a number recur on fuel, the number itself, which is enough (Decimal). Where the source
-- writes files, a record stands for the files, and the calls of `os.replace` that fail are an
-- argument. A finding that an evaluator gives as a dict is the record that it is written from.
--
-- Texts are the native `String`, compared by code points as Python does; a text that is given to
-- `float` is taken to be no number; `str(v)` is applied to texts only, as the schemas demand. Not
-- modelled: the HTTP service, the MCP server and its tools, the command lines, Markdown rendering,
-- the reports and the scripts, which are input and output around these parts; `resolve_worktree_root`
-- (changed_audit.py), which runs git and compares directories; and the YAML values that JSON does
-- not have, such as dates.
pub mod Prelude
pub mod Order
pub mod Dict
pub mod Json
pub mod Paths
pub mod Confidence
pub mod Findings
pub mod Scoring
pub mod Waivers
pub mod Text
pub mod Extractor
pub mod Normaliser
pub mod Assembly
pub mod Unique
pub mod AppliesTo
pub mod Artifacts
pub mod Tests
pub mod Audit
pub mod Registry
pub mod Decimal
pub mod CiOutputs
pub mod ControlTower
pub mod Consult
pub mod ReviewEvidence
pub mod Calibration
pub mod ChangedAudit
pub mod Evaluators
