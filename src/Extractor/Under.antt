-- ===== src/Extractor/Under.antt =====
-- What the walk from a scope path finds lies under it.
use standards_control_plane.Prelude.{
  >>=-eq-ok, All, All-append, Bool, Bool-cases, List, Result, String, [], false, guard, guard-eq-ok,
  if◌then◌else◌, inl, inr, map, not, ok, ok-eq, subst, traverse, true, value_error, ◌++◌, ◌∷◌, ◌≡◌,
  ◌⊎◌,
}
use standards_control_plane.Paths.{Location, is_relative_to, same}
use standards_control_plane.Extractor.{
  Directories, Disk, Listing, directory, ensure_within_repo, ensure_within_scope, lexical, listing,
  no_more,
}
use standards_control_plane.Extractor.Walk.{
  by_name, child, directory_names, discovered, discovered_file, gathered, in_text_order, iter_files,
  walk_each, walk_from,
}
use standards_control_plane.Order.{text}
use standards_control_plane.Order.Sorted.{All-sorted}

module _ (disk : Disk) where
  -- A place in a directory, or the file itself.
  abbrev pub is_within : Location → Location → Bool
  unfolding is_relative_to same
  is_within place root = if disk.is_dir root then is_relative_to place root else same place root

  -- A file of the walk from a root: it lies there as it stands or once it is resolved.
  abbrev pub IsUnder : Location → Location → Type 0
  IsUnder root place =
      (is_within place (disk.real (lexical root)) ≡ true)
      ⊎ (is_within (disk.real (lexical place)) (disk.real (lexical root)) ≡ true)

  within_of_scope :
      (place root : Location) {resolved : Location}
      → ensure_within_scope disk place root ≡ ok resolved
      → (is_within (disk.real (lexical place)) (disk.real (lexical root)) ≡ true)
        × (disk.real (lexical place) ≡ resolved)
  unfolding ensure_within_scope
  within_of_scope place root h =
      let (_, g, e) =
        >>=-eq-ok
          (guard (is_within (disk.real (lexical place)) (disk.real (lexical root))) value_error) _
          h in
      (
        guard-eq-ok (is_within (disk.real (lexical place)) (disk.real (lexical root))) value_error
            g,
        ok-eq e,
      )

  abbrev AllUnder : Location → Result (List Location) → Type 0
  AllUnder root step = (xs : List Location) → step ≡ ok xs → All (IsUnder root) xs

  discovered-IsUnder :
      (root current : Location) (name : String) {place : Location}
      → discovered disk root current name ≡ ok place
      → IsUnder root place
  unfolding discovered
  discovered-IsUnder root current name h =
      let (_, _, h1) =
        >>=-eq-ok (guard (not (disk.is_symlink (child disk current name))) value_error) _ h in
      let (candidate, c, h2) = >>=-eq-ok (ensure_within_repo disk (child disk current name)) _ h1 in
      let (_, s, h3) = >>=-eq-ok (ensure_within_scope disk candidate root) _ h2 in
      subst (IsUnder root) (ok-eq h3) (inr (within_of_scope candidate root s).0)

  discovered_file-AllUnder :
      (root current : Location) (name : String)
      → AllUnder root (discovered_file disk root current name)
  discovered_file-AllUnder root current name files h =
      let (candidate, c, h1) = >>=-eq-ok (discovered disk root current name) _ h in
      subst (All (IsUnder root)) (ok-eq h1)
        (if_file (disk.is_file candidate) candidate (discovered-IsUnder root current name c))
    where
      if_file :
          (b : Bool) (p : Location) → IsUnder root p → All (IsUnder root) (if b then p ∷ [] else [])
      if_file true p u = (u, tt)
      if_file false p u = tt

  gathered-AllUnder :
      (root : Location) (steps : List (Result (List Location)))
      → All (AllUnder root) steps
      → AllUnder root (gathered steps)
  gathered-AllUnder root [] a files h = subst (All (IsUnder root)) (ok-eq h) tt
  gathered-AllUnder root (step ∷ steps) a files h =
      let (xs, x, h1) = >>=-eq-ok step _ h in
      let (ys, y, h2) = >>=-eq-ok (gathered steps) _ h1 in
      subst (All (IsUnder root)) (ok-eq h2)
        (All-append (IsUnder root) xs ys (a.0 xs x) (gathered-AllUnder root steps a.1 ys y))

  files-AllUnder :
      (root current : Location) (names : List String)
      → All (AllUnder root) (map (discovered_file disk root current) names)
  files-AllUnder root current [] = tt
  files-AllUnder root current (n ∷ ns) =
      (discovered_file-AllUnder root current n, files-AllUnder root current ns)

  seconds-AllUnder :
      (root : Location) (ps : List (String × Result (List Location)))
      → All (λ p. AllUnder root p.1) ps
      → All (AllUnder root) (map (λ p. p.1) ps)
  seconds-AllUnder root [] a = tt
  seconds-AllUnder root (p ∷ ps) a = (a.0, seconds-AllUnder root ps a.1)

  module _ (root : Location) where
    mutual
      unfolding walk_from walk_each

      walk_from-AllUnder :
          (current_dir : List String) (l : Listing)
          → AllUnder root (walk_from disk root current_dir l)
      walk_from-AllUnder current_dir (listing filenames directories) files h =
          let (current, _, h1) = >>=-eq-ok (ensure_within_repo disk current_dir) _ h in
          let (_, _, h2) = >>=-eq-ok (ensure_within_scope disk current root) _ h1 in
          let (_, _, h3) =
            >>=-eq-ok
              (traverse (discovered disk root current)
                (in_text_order (directory_names directories)))
              _ h2 in
          let (here, i, h4) =
            >>=-eq-ok (gathered (map (discovered_file disk root current) (in_text_order filenames)))
              _ h3 in
          let below' = walk_each disk root current_dir directories in
          let (deeper, d, h5) = >>=-eq-ok (gathered (map (λ p. p.1) (by_name below'))) _ h4 in
          subst (All (IsUnder root)) (ok-eq h5) (
            All-append (IsUnder root) here deeper
              (gathered-AllUnder root _ (files-AllUnder root current (in_text_order filenames)) here
                i)
              (gathered-AllUnder root _
                (seconds-AllUnder root (by_name below') (
                  All-sorted (λ p. text p.0 ∷ []) (λ p. AllUnder root p.1) below'
                    (walk_each-AllUnder current_dir directories)))
                deeper d))

      walk_each-AllUnder :
          (current_dir : List String) (ds : Directories)
          → All (λ p. AllUnder root p.1) (walk_each disk root current_dir ds)
      walk_each-AllUnder current_dir no_more = tt
      walk_each-AllUnder current_dir (directory name l rest) =
          (walk_from-AllUnder (current_dir ++ (name ∷ [])) l, walk_each-AllUnder current_dir rest)

    pub iter_files-AllUnder : AllUnder root (iter_files disk root)
    unfolding iter_files
    iter_files-AllUnder files h = elim (Bool-cases (disk.is_file root)) [
      | inl e ↦
          let (inside, _, h1) = >>=-eq-ok (ensure_within_repo disk (lexical root)) _ (rw e at h) in
          let (file, s, h2) = >>=-eq-ok (ensure_within_scope disk inside root) _ h1 in
          let (w, same') = within_of_scope inside root s in
          subst (All (IsUnder root)) (ok-eq h2)
            (inl (subst (λ p. is_within p (disk.real (lexical root)) ≡ true) same' w), tt)
      | inr n ↦ walk_from-AllUnder (lexical root) (disk.walk root) files (rw n at h)
    ]
