-- ===== src/Paths/Overlap.antt =====
-- `paths_overlap` holds exactly when one path, with its separators made slashes, ends the other.
use Prim.Native.String.{◌++◌ as join}
use Prim.Native.String.append
use standards_control_plane.Prelude.{
  Bool, Bool-cases, String, ap, arith, eq_iff, eq_refl, inl, inr, subst, sym, true, ◌==◌, ◌||◌, ◌↔◌,
  ◌∙◌, ◌≡◌, ◌⊎◌,
}
use standards_control_plane.Paths.{ends_with, paths_overlap, with_slashes}

-- `t` is the end of `s`.
abbrev pub IsEnd : String → String → Type 0
IsEnd t s = (u : String) × (s ≡ join u t)

pub ends_with-IsEnd : (s t : String) → ends_with s t ≡ true → IsEnd t s
unfolding ends_with
ends_with-IsEnd String.[] t h = (String.[], (eq_iff String.[] t).0 h ∙ sym (append.nil t))
ends_with-IsEnd (String.◌∷◌ c s) t h = elim (Bool-cases (String.◌∷◌ c s == t)) [
  | inl e ↦ (String.[], (eq_iff (String.◌∷◌ c s) t).0 e ∙ sym (append.nil t))
  | inr n ↦
      let (u, e) = ends_with-IsEnd s t (rw n at h) in
      (String.◌∷◌ c u, ap (λ r. String.◌∷◌ c r) e ∙ sym (append.cons c u t))
]

ends_with_self : (t : String) → ends_with t t ≡ true
unfolding ends_with
ends_with_self String.[] = eq_refl String.[]
ends_with_self (String.◌∷◌ c s) = rw (eq_refl (String.◌∷◌ c s))

ends_with-cons : (c : _) (s t : String) → ends_with s t ≡ true → ends_with (String.◌∷◌ c s) t ≡ true
unfolding ends_with
ends_with-cons c s t h = ground arith

ends_with-join : (u t : String) → ends_with (join u t) t ≡ true
ends_with-join String.[] t = rw (append.nil t) (ends_with_self t)
ends_with-join (String.◌∷◌ c u) t =
    rw (append.cons c u t) (ends_with-cons c (join u t) t (ends_with-join u t))

pub IsEnd-ends_with : (s t : String) → IsEnd t s → ends_with s t ≡ true
IsEnd-ends_with s t (u, e) = subst (λ r. ends_with r t ≡ true) (sym e) (ends_with-join u t)

or-true : (a b c : Bool) → (a || (b || c)) ≡ true → (a ≡ true) ⊎ (b ≡ true) ⊎ (c ≡ true)
or-true a b c h = ground arith

-- Two paths overlap exactly when, with back slashes read as slashes, one is the end of the other.
pub paths_overlap_iff :
    (left right : String)
    → (paths_overlap left right ≡ true) ↔ (
        IsEnd (with_slashes right) (with_slashes left)
        ⊎ IsEnd (with_slashes left) (with_slashes right))
unfolding paths_overlap
paths_overlap_iff left right = (to, from)
  where
    l : String
    l = with_slashes left

    r : String
    r = with_slashes right

    to : paths_overlap left right ≡ true → IsEnd r l ⊎ IsEnd l r
    to h = elim (or-true (l == r) (ends_with l r) (ends_with r l) h) [
      | inl e ↦ inl (String.[], (eq_iff l r).0 e ∙ sym (append.nil r))
      | inr (inl e) ↦ inl (ends_with-IsEnd l r e)
      | inr (inr e) ↦ inr (ends_with-IsEnd r l e)
    ]

    from : IsEnd r l ⊎ IsEnd l r → paths_overlap left right ≡ true
    from (inl e) = let p = IsEnd-ends_with l r e in ground arith
    from (inr e) = let p = IsEnd-ends_with r l e in ground arith
