-- ===== src/Confidence.antt =====
-- confidence.py: the class of a confidence, which is counted in ten-thousandths.
use standards_control_plane.Prelude.{
  List, Result, String, [], err, if◌then◌else◌, not, ok, value_error, ◌&&◌, ◌∷◌,
}
use standards_control_plane.Prelude.Int.{leb_ℤ, pos, ℤ}

abbrev pub high_confidence_min : ℤ
high_confidence_min = pos 9500

abbrev pub medium_confidence_min : ℤ
medium_confidence_min = pos 8000

abbrev pub confidence_classes : List String
confidence_classes = "high" ∷ "medium" ∷ "low" ∷ []

unfoldable pub classify_confidence : ℤ → Result String
classify_confidence confidence =
    if not (leb_ℤ (pos 0) confidence && leb_ℤ confidence (pos 10000))
    then err value_error
    else if leb_ℤ high_confidence_min confidence
    then ok "high"
    else if leb_ℤ medium_confidence_min confidence
    then ok "medium"
    else ok "low"
