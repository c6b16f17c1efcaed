-- ===== src/ReviewEvidence/Laws.antt =====
-- Which reviews a consult quotes.
use mathlib.Core.List.{Perm}
use Prim.Native.Nat.{min}
use standards_control_plane.Prelude.{All, List, String, filter, length, true, ℕ, ◌++◌, ◌≡◌}
use standards_control_plane.Order.{Key}
use standards_control_plane.Order.Sorted.{IsSorted}
use standards_control_plane.ReviewEvidence.{
  ReviewEvidenceRecord, ReviewHost, is_related, review_key,
}

module _ (host : ReviewHost) (area_id : String) (request_paths : List String)
    (records : List ReviewEvidenceRecord) (limit : ℕ) where
  abbrev key : ReviewEvidenceRecord → Key
  key = review_key host area_id request_paths

  abbrev related : List ReviewEvidenceRecord
  related = filter (is_related host area_id request_paths) records

  -- The reviews that are quoted are, with some that are dropped, the related ones in the order of
  -- the key, as many as the limit allows, and each is of the area or touches a requested path.
  pub record IsQuoted (quoted : List ReviewEvidenceRecord) : Type 0 where
    pub dropped : List ReviewEvidenceRecord
    pub complete : Perm (quoted ++ dropped) (filter (is_related host area_id request_paths) records)
    pub in_order : IsSorted (review_key host area_id request_paths) (quoted ++ dropped)
    pub size :
        length quoted ≡ min limit (length (filter (is_related host area_id request_paths) records))
    pub each : All (λ r. is_related host area_id request_paths r ≡ true) quoted
