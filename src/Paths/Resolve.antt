-- ===== src/Paths/Resolve.antt =====
-- Where `resolve_repo_path` can lead.
use standards_control_plane.Prelude.{
  Bool, Bool-cases, List, Option, Result, String, [], ap, arith, eq_iff, eq_refl, err, false,
  file_not_found, guard, if◌then◌else◌, inl, inr, length, none, ok, refl, some, subst, suc, sym,
  true, value_error, zero, ℕ, ◌++◌, ◌==◌, ◌>>◌, ◌∙◌, ◌∷◌, ◌≡◌, ◌≢◌,
}
use standards_control_plane.Paths.{
  Files, Location, climb, is_absolute, is_relative_to, parts, resolve, resolve_repo_path, same,
  split,
}

pub same-eq : (xs ys : List String) → same xs ys ≡ true → xs ≡ ys
unfolding same
same-eq [] [] h = refl
same-eq (x ∷ xs) (y ∷ ys) h = ground (arith, eq_iff x y, same-eq xs ys)
same-eq [] (y ∷ ys) h = cc
same-eq (x ∷ xs) [] h = cc

pub same_refl : (xs : List String) → same xs xs ≡ true
unfolding same
same_refl [] = refl
same_refl (x ∷ xs) = rw (eq_refl x) (same_refl xs)

pub is_relative_to-below :
    (place root : Location)
    → is_relative_to place root ≡ true
    → (below : Location) × (place ≡ below ++ root)
unfolding is_relative_to
is_relative_to-below [] root h = ([], same-eq [] root h)
is_relative_to-below (p ∷ ps) root h = elim (Bool-cases (same (p ∷ ps) root)) [
  | inl e ↦ ([], same-eq (p ∷ ps) root e)
  | inr n ↦
      let (below, e) = is_relative_to-below ps root (rw n at h) in (p ∷ below, ap (λ l. p ∷ l) e)
]

root-is_relative_to : (root : Location) → is_relative_to root root ≡ true
unfolding is_relative_to
root-is_relative_to [] = same_refl []
root-is_relative_to (p ∷ ps) = rw (same_refl (p ∷ ps))

is_relative_to-cons :
    (p : String) (place root : Location)
    → is_relative_to place root ≡ true
    → is_relative_to (p ∷ place) root ≡ true
unfolding is_relative_to
is_relative_to-cons p place root h = ground arith

-- How deep below its start a walk stands after `ps`; `none` once it has left its start upwards.
unfoldable pub depth_after : ℕ → List String → Option ℕ
depth_after n [] = some n
depth_after zero (p ∷ ps) = let down = depth_after 1 ps in if p == ".." then none else down
depth_after (suc n) (p ∷ ps) =
    let up = depth_after n ps in
    let down = depth_after (suc (suc n)) ps in if p == ".." then up else down

climb_below :
    (below root : Location) (ps : List String)
    → depth_after (length below) ps ≢ none
    → is_relative_to (climb (below ++ root) ps) root ≡ true
unfolding climb depth_after
climb_below [] root [] h = root-is_relative_to root
climb_below (b ∷ bs) root [] h =
    is_relative_to-cons b (bs ++ root) root (climb_below bs root [] (λ q. cc))
climb_below [] root (p ∷ ps) h = elim (Bool-cases (p == "..")) [
  | inl up ↦ absurd (h (rw up))
  | inr down ↦ rw down (climb_below (p ∷ []) root ps (λ q. h (rw down q)))
]
climb_below (b ∷ bs) root (p ∷ ps) h = elim (Bool-cases (p == "..")) [
  | inl up ↦ rw up (climb_below bs root ps (λ q. h (rw up q)))
  | inr down ↦ rw down (climb_below (p ∷ b ∷ bs) root ps (λ q. h (rw down q)))
]

-- A path that is not absolute and never goes above its start is accepted exactly when it exists.
pub resolve_repo_path_inside :
    (files : Files) (path_value : String)
    → is_absolute (split path_value) ≡ false
    → depth_after 0 (parts path_value) ≢ none
    → resolve_repo_path files path_value ≡ (
        if files.exists (climb files.project_root (parts path_value))
        then ok (climb files.project_root (parts path_value))
        else err file_not_found)
unfolding resolve_repo_path
resolve_repo_path_inside files path_value relative stays =
    let inside = climb_below [] files.project_root (parts path_value) stays in
    rw relative (rw inside (ground arith))

abbrev looked_up : Bool → Bool → Location → Result Location
looked_up within there place = do guard within value_error; guard there file_not_found; ok place

looked_up_ok :
    (within there : Bool) (candidate place : Location)
    → looked_up within there candidate ≡ ok place
    → (within ≡ true) × (there ≡ true) × (candidate ≡ place)
looked_up_ok within there candidate place h = ground arith

-- Whatever the path, the place that is found lies in the project's tree and exists.
pub resolve_repo_path_confined :
    (files : Files) (path_value : String) (place : Location)
    → resolve_repo_path files path_value ≡ ok place
    → ((below : Location) × (place ≡ below ++ files.project_root)) × (files.exists place ≡ true)
unfolding resolve_repo_path
resolve_repo_path_confined files path_value place h =
    let candidate = resolve files.project_root path_value in
    let (within, there, e) =
      looked_up_ok (is_relative_to candidate files.project_root) (files.exists candidate) candidate
        place h in
    let (below, q) = is_relative_to-below candidate files.project_root within in
    ((below, sym e ∙ q), subst (λ c. files.exists c ≡ true) e there)
