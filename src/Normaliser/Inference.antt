-- ===== src/Normaliser/Inference.antt =====
-- When no area can be inferred.
use standards_control_plane.Prelude.{
  All, Bool, Error, List, Option, String, [], area_id_inference_error, arith, err, false,
  if◌then◌else◌, leb, length, none, ok, refl, some, true, ℕ, ◌&&◌, ◌==◌, ◌||◌, ◌↔◌, ◌∷◌, ◌≡◌,
}
use standards_control_plane.Text.{after_first, path_name}
use standards_control_plane.Normaliser.AreaId.{
  area_spec, first_of_several, infer_area_id, or_else, posix_parts, route_of, route_segment,
  spec_slug, specified,
}

-- What stands behind the first `/frontend/app/` has at least two parts, the last of them a page.
abbrev pub is_page_below : Option String → Bool
is_page_below none = false
is_page_below (some suffix) =
    (path_name suffix == "page.tsx" || path_name suffix == "page.jsx")
    && leb 2 (length (posix_parts suffix))

abbrev pub is_route : String → Bool
is_route path = is_page_below (after_first "/frontend/app/" path)

first_of_several-none : (l : List String) → (first_of_several l ≡ none) ↔ (leb 2 (length l) ≡ false)
first_of_several-none [] = (λ h. refl, λ h. refl)
first_of_several-none (a ∷ []) = (λ h. refl, λ h. refl)
first_of_several-none (a ∷ b ∷ l) = (λ h. cc, λ h. absurd (ground arith))

page-none :
    (a b : Bool) (l : List String)
    → ((if a || (b || false) then first_of_several l else none) ≡ none)
      ↔ (((a || b) && leb 2 (length l)) ≡ false)
page-none true b l = first_of_several-none l
page-none false true l = first_of_several-none l
page-none false false l = (λ h. refl, λ h. refl)

route_of-none : (o : Option String) → (route_of o ≡ none) ↔ (is_page_below o ≡ false)
route_of-none none = (λ h. refl, λ h. refl)
route_of-none (some suffix) =
    page-none (path_name suffix == "page.tsx") (path_name suffix == "page.jsx") (posix_parts suffix)

module _ (is_decimal : ℕ → Bool) where
  or_else-none : (a b : Option String) → (or_else a b ≡ none) ↔ ((a ≡ none) × (b ≡ none))
  or_else-none none b = (λ h. (refl, h), λ h. h.1)
  or_else-none (some x) b = (λ h. cc, λ h. cc)

  -- Nothing is found in any of the paths.
  spec_slug-none :
      (paths : List String)
      → (spec_slug is_decimal paths ≡ none)
        ↔ All (λ p. area_spec is_decimal (path_name p) ≡ none) paths
  unfolding spec_slug
  spec_slug-none [] = (λ h. tt, λ h. refl)
  spec_slug-none (p ∷ ps) =
      let both = or_else-none (area_spec is_decimal (path_name p)) (spec_slug is_decimal ps) in
      let rest = spec_slug-none ps in
      (λ h. ((both.0 h).0, rest.0 (both.0 h).1), λ h. both.1 (h.0, rest.1 h.1))

  route_segment-none :
      (paths : List String) → (route_segment paths ≡ none) ↔ All (λ p. is_route p ≡ false) paths
  unfolding route_segment
  route_segment-none [] = (λ h. tt, λ h. refl)
  route_segment-none (p ∷ ps) =
      let both = or_else-none (route_of (after_first "/frontend/app/" p)) (route_segment ps) in
      let first = route_of-none (after_first "/frontend/app/" p) in
      let rest = route_segment-none ps in
      (λ h. (first.0 (both.0 h).0, rest.0 (both.0 h).1), λ h. both.1 (first.1 h.0, rest.1 h.1))

  specified-err :
      (subsystem : String) (slug segment : Option String) (e : Error)
      → (specified subsystem slug segment ≡ err e)
        ↔ ((slug ≡ none) × (segment ≡ none) × (e ≡ area_id_inference_error))
  specified-err subsystem none none e = (λ h. (refl, refl, cc), λ h. cc)
  specified-err subsystem none (some s) e = (λ h. cc, λ h. cc)
  specified-err subsystem (some s) segment e = (λ h. cc, λ h. cc)

  -- Without a hint, inference raises exactly if no path has the slug of a specification in its
  -- name, and none has behind its first `/frontend/app/` at least two parts with `page.tsx` or
  -- `page.jsx` as the last; what it raises is `AreaIdInferenceError`. With a hint it returns the
  -- hint.
  pub infer_area_id_raises :
      (paths : List String) (subsystem : String) (e : Error)
      → ((hint : String) → infer_area_id is_decimal paths subsystem (some hint) ≡ ok hint)
        × ((infer_area_id is_decimal paths subsystem none ≡ err e) ↔ (
            All (λ p. area_spec is_decimal (path_name p) ≡ none) paths
            × All (λ p. is_route p ≡ false) paths
            × (e ≡ area_id_inference_error)))
  unfolding infer_area_id
  infer_area_id_raises paths subsystem e =
      let fails = specified-err subsystem (spec_slug is_decimal paths) (route_segment paths) e in
      let specs = spec_slug-none paths in
      let routes = route_segment-none paths in
      (
        λ hint. refl,
        (
          λ h. (specs.0 (fails.0 h).0, routes.0 (fails.0 h).1, (fails.0 h).2),
          λ h. fails.1 (specs.1 h.0, routes.1 h.1, h.2),
        ),
      )
