-- ===== src/Findings/Reconcile/Distinct.antt =====
-- Lists of findings that name each finding once, and the dicts that they come from.
use standards_control_plane.Prelude.{
  ==_comm, Bool-cases, List, String, [], any, ap, arith, false, inl, inr, none, refl, subst, sym,
  true, ◌==◌, ◌||◌, ◌∙◌, ◌∷◌, ◌≡◌, ◌≢◌,
}
use standards_control_plane.Order.{insert, leb_key, sorted}
use standards_control_plane.Order.Sorted.{any-insert, any-sorted}
use standards_control_plane.Dict.{Dict, contains, get, values}
use standards_control_plane.Findings.{
  FindingRecord, FindingsStore, finding_sort_key, sorted_findings,
}
use standards_control_plane.Findings.Reconcile.Inputs.{IsKeyed, has_id}
use standards_control_plane.Dict.Laws.{contains-get, get-contains}

pub along :
    (P : List FindingRecord → Type 0) {s t : FindingsStore} → s ≡ t → P t.findings → P s.findings
along P e h = subst (λ (u : FindingsStore). P u.findings) (sym e) h

pub contains_of_found : (k : String) (d : Dict FindingRecord) → get k d ≢ none → contains k d ≡ true
contains_of_found k d h = elim (Bool-cases (contains k d)) [
  | inl e ↦ e
  | inr n ↦ absurd (h (contains-get k d n))
]

pub found_of_contains : (k : String) (d : Dict FindingRecord) → contains k d ≡ true → get k d ≢ none
found_of_contains k d h e = cc (h, get-contains k d e)

-- No two records have one identifier.
abbrev pub IsDistinct : List FindingRecord → Type 0
IsDistinct [] = Unit
IsDistinct (f ∷ fs) = (any (has_id f.finding_id) fs ≡ false) × IsDistinct fs

pub any-values :
    (k : String) (d : Dict FindingRecord) → IsKeyed d → any (has_id k) (values d) ≡ contains k d
unfolding contains
any-values k [] h = refl
any-values k ((j, f) ∷ d) ((e, es), u) =
    rw (ap (λ s. s == k) e) (ap (λ b. j == k || b) (any-values k d (es, u.1)))

pub values-IsDistinct : (d : Dict FindingRecord) → IsKeyed d → IsDistinct (values d)
values-IsDistinct [] h = tt
values-IsDistinct ((j, f) ∷ d) ((e, es), u) =
    (rw e (any-values j d (es, u.1) ∙ u.0), values-IsDistinct d (es, u.1))

pub insert-IsDistinct :
    (f : FindingRecord) (fs : List FindingRecord)
    → any (has_id f.finding_id) fs ≡ false
    → IsDistinct fs
    → IsDistinct (insert finding_sort_key f fs)
unfolding insert
insert-IsDistinct f [] h d = (refl, tt)
insert-IsDistinct f (g ∷ gs) h d =
    elim (Bool-cases (leb_key (finding_sort_key f) (finding_sort_key g))) [
      | inl le ↦ rw le (h, d)
      | inr gt ↦ rw gt (
        any-insert finding_sort_key (has_id g.finding_id) f gs
            ∙ ground (arith, ==_comm f.finding_id g.finding_id, d.0),
        insert-IsDistinct f gs (ground arith) d.1,
      )
    ]

pub sorted-IsDistinct : (fs : List FindingRecord) → IsDistinct fs → IsDistinct (sorted_findings fs)
unfolding sorted
sorted-IsDistinct [] h = tt
sorted-IsDistinct (f ∷ fs) h =
    insert-IsDistinct f (sorted_findings fs)
      (any-sorted finding_sort_key (has_id f.finding_id) fs ∙ h.0) (sorted-IsDistinct fs h.1)
