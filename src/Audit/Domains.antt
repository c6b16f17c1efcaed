-- ===== src/Audit/Domains.antt =====
-- What holds of each finding of an evaluator, and of one that is waived, holds of each finding of
-- the loop over the domains.
use standards_control_plane.Prelude.{
  >>=-eq-ok, All, All-append, List, Option, Option-cases, Result, String, [], inl, inr, none, ok,
  ok-eq, some, subst, ◌∷◌, ◌≡◌,
}
use standards_control_plane.Order.Sorted.{All-sorted}
use standards_control_plane.Dict.{Dict, get}
use standards_control_plane.Findings.{FindingRecord}
use standards_control_plane.Scoring.{score_findings}
use standards_control_plane.Waivers.{WaiverRecord}
use standards_control_plane.Audit.{adjust, adjusted, apply_waivers, audit_key, sorted_by_severity}
use standards_control_plane.Audit.Build.{
  Parts, Progress, add_evaluated, audit_domain, audit_domains,
}

module _ {Scope Area : Type 0} (parts : Parts Scope Area) (area : Area)
    (standards_version evaluated_at : String) (P : FindingRecord → Type 0) where
  -- The findings that the evaluator of a domain may give all have `P`.
  abbrev pub GivesAll : String → Type 0
  GivesAll domain =
      (evaluate : Area → String → String → Result (List FindingRecord)) (fs : List FindingRecord)
      → parts.evaluator domain ≡ some evaluate
      → evaluate area standards_version evaluated_at ≡ ok fs
      → All P fs

module _ {Scope Area : Type 0} (parts : Parts Scope Area) (area : Area)
    (standards_version evaluated_at : String) (active_waivers : Dict WaiverRecord)
    (P : FindingRecord → Type 0)
    (waive : (f : FindingRecord) → P f → P (record f { status = "waived" })) where
  All-adjusted : (fs : List FindingRecord) → All P fs → All P (adjusted active_waivers fs)
  All-adjusted [] h = tt
  All-adjusted (f ∷ fs) h = (keeps (get f.finding_id active_waivers) f h.0, All-adjusted fs h.1)
    where
      keeps : (o : Option WaiverRecord) (f : FindingRecord) → P f → P (adjust o f)
      keeps none f p = p
      keeps (some w) f p = waive f p

  add_evaluated-All :
      (p : Progress) (domain : String) (fs : List FindingRecord) {q : Progress}
      → All P p.findings
      → All P fs
      → add_evaluated parts area standards_version evaluated_at active_waivers p domain fs ≡ ok q
      → All P q.findings
  unfolding add_evaluated apply_waivers
  add_evaluated-All p domain fs h k q =
      let waived = adjusted active_waivers fs in
      let (score, s, q1) = >>=-eq-ok (score_findings (sorted_by_severity waived)) _ q in
      subst (λ (r : Progress). All P r.findings) (ok-eq q1)
        (All-append P p.findings (sorted_by_severity waived) h
          (All-sorted audit_key P waived (All-adjusted fs k)))

  audit_domain-All :
      (p : Progress) (domain : String) {q : Progress}
      → GivesAll parts area standards_version evaluated_at P domain
      → All P p.findings
      → audit_domain parts area standards_version evaluated_at active_waivers p domain
          (parts.evaluator domain)
        ≡ ok q
      → All P q.findings
  audit_domain-All p domain gives h q = elim (Option-cases (parts.evaluator domain)) [
    | inl n ↦ subst (λ (r : Progress). All P r.findings) (ok-eq (rw n at q)) h
    | inr (evaluate, s) ↦
        let (fs, e, q1) = >>=-eq-ok (evaluate area standards_version evaluated_at) _ (rw s at q) in
        add_evaluated-All p domain fs h (gives evaluate fs s e) q1
  ]

  pub audit_domains-All :
      (p : Progress) (domains : List String) {q : Progress}
      → All (GivesAll parts area standards_version evaluated_at P) domains
      → All P p.findings
      → audit_domains parts area standards_version evaluated_at active_waivers p domains ≡ ok q
      → All P q.findings
  unfolding audit_domains
  audit_domains-All p [] gives h q = subst (λ (r : Progress). All P r.findings) (ok-eq q) h
  audit_domains-All p (domain ∷ rest) gives h q =
      let (next, a, q1) =
        >>=-eq-ok
          (audit_domain parts area standards_version evaluated_at active_waivers p domain
            (parts.evaluator domain))
          _ q in
      audit_domains-All next rest gives.1 (audit_domain-All p domain gives.0 h a) q1
