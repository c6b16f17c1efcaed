-- ===== src/Audit/Laws.antt =====
-- What an audit guarantees: the score and the status of each requested domain, waived findings, and
-- the shape of the assembled result.
use Prim.Native.String.{◌++◌ as join}
use standards_control_plane.Prelude.{
  >>=-eq-ok, All, Bool, Bool-cases, Ensures, List, Option, Result, String, [], ap, arith, eq_iff,
  err, false, if◌then◌else◌, inl, inr, map, none, ok, refl, some, subst, sym, true, ℕ, ◌-◌, ◌==◌,
  ◌∙◌, ◌∷◌, ◌≡◌, ◌≤◌,
}
use standards_control_plane.Order.Sorted.{All-sorted, count_by-sorted}
use standards_control_plane.Dict.{Dict, get, put}
use standards_control_plane.Findings.{FindingRecord}
use standards_control_plane.Scoring.{score_findings}
use standards_control_plane.Scoring.Laws.{
  IsScorable, counts_as, deduction, score_findings-deduction, score_findings-waive, waive,
  waive-IsScorable,
}
use standards_control_plane.Waivers.{WaiverRecord}
use standards_control_plane.Audit.{adjust, adjusted, apply_waivers, audit_key, sorted_by_severity}
use standards_control_plane.Audit.Build.{
  DomainStatus, Parts, Progress, add_evaluated, audit_domain, audit_domains, evaluated,
  not_evaluated,
}
use standards_control_plane.Dict.Laws.{get-put, get-put_self}

abbrev is_there : Option WaiverRecord → Bool
is_there none = false
is_there (some w) = true

abbrev pub is_waived : Dict WaiverRecord → FindingRecord → Bool
is_waived active f = is_there (get f.finding_id active)

adjust_if :
    (o : Option WaiverRecord) (f : FindingRecord)
    → adjust o f ≡ (if is_there o then record f { status = "waived" } else f)
adjust_if none f = refl
adjust_if (some w) f = refl

adjusted-waive :
    (active : Dict WaiverRecord) (fs : List FindingRecord)
    → adjusted active fs ≡ map (waive (is_waived active)) fs
adjusted-waive active [] = refl
adjusted-waive active (f ∷ fs) =
    ap (λ g. g ∷ adjusted active fs) (adjust_if (get f.finding_id active) f)
    ∙ ap (λ l. waive (is_waived active) f ∷ l) (adjusted-waive active fs)

deduction-sorted : (fs : List FindingRecord) → deduction (sorted_by_severity fs) ≡ deduction fs
deduction-sorted fs = omega (
  arith,
  count_by-sorted audit_key (counts_as "critical") fs,
  count_by-sorted audit_key (counts_as "high") fs,
  count_by-sorted audit_key (counts_as "medium") fs,
  count_by-sorted audit_key (counts_as "low") fs,
)

score-sorted :
    (fs : List FindingRecord)
    → All IsScorable fs
    → score_findings (sorted_by_severity fs) ≡ score_findings fs
score-sorted fs h =
    score_findings-deduction (sorted_by_severity fs) (All-sorted audit_key IsScorable fs h)
    ∙ ap (λ n. ok (100 - n)) (deduction-sorted fs)
    ∙ sym (score_findings-deduction fs h)

-- The score that an audit gives a domain, after the waivers and the sorting, is at least the score
-- of the findings as the evaluator gave them.
pub apply_waivers_score :
    (active : Dict WaiverRecord) (fs : List FindingRecord) (before after : ℕ)
    → All IsScorable fs
    → score_findings fs ≡ ok before
    → score_findings (sorted_by_severity (apply_waivers active fs).0) ≡ ok after
    → before ≤ after
unfolding apply_waivers
apply_waivers_score active fs before after h e f =
    let p = is_waived active in
    let same = ap sorted_by_severity (adjusted-waive active fs) in
    score_findings-waive p fs before after h e (
      sym (score-sorted (map (waive p) fs) (waive-IsScorable p fs h))
      ∙ ap score_findings (sym same)
      ∙ f)

-- A finding whose waiver is active has the status "waived" after `apply_waivers`, any other is as
-- it was.
apply_waivers-map :
    (active : Dict WaiverRecord) (fs : List FindingRecord)
    → (apply_waivers active fs).0 ≡ map (waive (is_waived active)) fs
unfolding apply_waivers
apply_waivers-map = adjusted-waive

module _ {Scope Area : Type 0} (parts : Parts Scope Area) (area : Area)
    (standards_version evaluated_at : String) (active : Dict WaiverRecord) where
  abbrev Evaluator : Type 0
  Evaluator = Area → String → String → Result (List FindingRecord)

  abbrev not_evaluated_as : String → DomainStatus
  not_evaluated_as domain =
      not_evaluated (join (parts.title domain) " evaluator is not implemented in this phase.")

  -- What the audit says of a domain: with an evaluator, the score of its findings after the
  -- waivers; without one, that it was not evaluated.
  abbrev pub Reports : Progress → String → Option Evaluator → Type 0
  Reports p domain none = get domain p.domain_status ≡ some (not_evaluated_as domain)
  Reports p domain (some evaluate) =
      (evaluation : List FindingRecord) × (score : ℕ) × (evaluate area standards_version
          evaluated_at
        ≡ ok evaluation)
      × (score_findings (sorted_by_severity (adjusted active evaluation)) ≡ ok score)
      × (get domain p.scores ≡ some score)
      × (get domain p.domain_status ≡ some evaluated)

  added :
      (p : Progress) (domain : String) (evaluation : List FindingRecord) {next : Progress}
      → add_evaluated parts area standards_version evaluated_at active p domain evaluation ≡ ok next
      → (score : ℕ) × (score_findings (sorted_by_severity (adjusted active evaluation)) ≡ ok score)
        × (next.scores ≡ put domain score p.scores)
        × (next.domain_status ≡ put domain evaluated p.domain_status)
  unfolding add_evaluated apply_waivers
  added p domain evaluation {next} h =
      let (score, s, e) =
        >>=-eq-ok (score_findings (sorted_by_severity (adjusted active evaluation))) _ h in
      (score, s, ap (scores_of p) (sym e), ap (status_of p) (sym e))
    where
      scores_of : Progress → Result Progress → Dict ℕ
      scores_of d (ok q) = q.scores
      scores_of d (err e) = d.scores

      status_of : Progress → Result Progress → Dict DomainStatus
      status_of d (ok q) = q.domain_status
      status_of d (err e) = d.domain_status

  -- The body of the loop reports its domain.
  audit_domain-Reports :
      (p : Progress) (domain : String) (o : Option Evaluator) {next : Progress}
      → audit_domain parts area standards_version evaluated_at active p domain o ≡ ok next
      → Reports next domain o
  audit_domain-Reports p domain none h =
      ap (λ r. get domain (status_in r)) (sym h)
      ∙ get-put_self domain (not_evaluated_as domain) p.domain_status
    where
      status_in : Result Progress → Dict DomainStatus
      status_in (ok q) = q.domain_status
      status_in (err e) = []
  audit_domain-Reports p domain (some evaluate) h =
      let (evaluation, e, rest) = >>=-eq-ok (evaluate area standards_version evaluated_at) _ h in
      let (score, s, in_scores, in_status) = added p domain evaluation rest in
      (
        evaluation,
        score,
        e,
        s,
        ap (get domain) in_scores ∙ get-put_self domain score p.scores,
        ap (get domain) in_status ∙ get-put_self domain evaluated p.domain_status,
      )

  -- The body of the loop leaves the other domains alone.
  audit_domain_keeps :
      (p : Progress) (domain j : String) (o : Option Evaluator) {next : Progress}
      → (domain == j) ≡ false
      → audit_domain parts area standards_version evaluated_at active p domain o ≡ ok next
      → (get j next.scores ≡ get j p.scores) × (get j next.domain_status ≡ get j p.domain_status)
  audit_domain_keeps p domain j none n h =
      (ap (λ r. get j (scores_in r)) (sym h), ap (λ r. get j (status_in r)) (sym h) ∙ other)
    where
      scores_in : Result Progress → Dict ℕ
      scores_in (ok q) = q.scores
      scores_in (err e) = []

      status_in : Result Progress → Dict DomainStatus
      status_in (ok q) = q.domain_status
      status_in (err e) = []

      other : get j (put domain (not_evaluated_as domain) p.domain_status) ≡ get j p.domain_status
      other = get-put domain j (not_evaluated_as domain) p.domain_status ∙ (rw n)
  audit_domain_keeps p domain j (some evaluate) n h =
      let (evaluation, e, rest) = >>=-eq-ok (evaluate area standards_version evaluated_at) _ h in
      let (score, s, in_scores, in_status) = added p domain evaluation rest in
      (
        ap (get j) in_scores ∙ get-put domain j score p.scores ∙ (rw n),
        ap (get j) in_status ∙ get-put domain j evaluated p.domain_status ∙ (rw n),
      )

  Reports-keep :
      (p next : Progress) (j : String) (o : Option Evaluator)
      → (get j next.scores ≡ get j p.scores) × (get j next.domain_status ≡ get j p.domain_status)
      → Reports p j o
      → Reports next j o
  Reports-keep p next j none k r = k.1 ∙ r
  Reports-keep p next j (some evaluate) k (evaluation, score, e, s, here, status) =
      (evaluation, score, e, s, k.0 ∙ here, k.1 ∙ status)

  audit_domains_keep :
      (p : Progress) (ds : List String) (j : String) {final : Progress}
      → audit_domains parts area standards_version evaluated_at active p ds ≡ ok final
      → Reports p j (parts.evaluator j)
      → Reports final j (parts.evaluator j)
  unfolding audit_domains
  audit_domains_keep p [] j {final} h r = subst (Ensures (λ q. Reports q j (parts.evaluator j))) h r
  audit_domains_keep p (d ∷ ds) j h r =
      let (next, one, rest) =
        >>=-eq-ok
          (audit_domain parts area standards_version evaluated_at active p d (parts.evaluator d)) _
          h in
      audit_domains_keep next ds j rest (elim (Bool-cases (d == j)) [
        | inl e ↦
            subst (λ k. Reports next k (parts.evaluator k)) ((eq_iff d j).0 e)
              (audit_domain-Reports p d (parts.evaluator d) one)
        | inr n ↦
            Reports-keep p next j (parts.evaluator j)
              (audit_domain_keeps p d j (parts.evaluator d) n one) r
      ])

  -- If the loop over the requested domains succeeds, every requested domain is reported: with an
  -- evaluator, that returned findings, as evaluated, with the score of these after the waivers;
  -- without one, as not evaluated.
  pub audit_domains-Reports :
      (p : Progress) (ds : List String) {final : Progress}
      → audit_domains parts area standards_version evaluated_at active p ds ≡ ok final
      → All (λ d. Reports final d (parts.evaluator d)) ds
  unfolding audit_domains
  audit_domains-Reports p [] h = tt
  audit_domains-Reports p (d ∷ ds) h =
      let (next, one, rest) =
        >>=-eq-ok
          (audit_domain parts area standards_version evaluated_at active p d (parts.evaluator d)) _
          h in
      (
        audit_domains_keep next ds d rest (audit_domain-Reports p d (parts.evaluator d) one),
        audit_domains-Reports next ds rest,
      )
