-- ===== src/Graph/Evidence.antt =====
-- graph/facts.go: validateEvidence, check by check.
use agent_graph.Prelude.{
  Str, none, some, str_eq, ◌≡◌, ◌↔◌, false, inl, inr, arith, Bool-cases, subst,
}
use agent_graph.Graph.Types.{
  SourceSpan, FactEvidence, missing_fact_evidence, invalid_fact_confidence, invalid_source_span,
  ValidationCode,
}
use agent_graph.Graph.Validate.{
  is_incomplete, starts_after_end, is_unsupported_confidence, validate_evidence,
}
use agent_graph.Graph.Consistent.{IsComplete, IsOrdered, IsConfidence, IsEvidence}

is_incomplete_iff : (e : FactEvidence) → (is_incomplete e ≡ false) ↔ IsComplete e
unfolding is_incomplete
is_incomplete_iff e = (
  λ h. record {
    placed = ground arith;
    start_line = ground arith;
    start_column = ground arith;
    end_line = ground arith;
    end_column = ground arith;
    hashed = ground arith;
    extracted = ground arith;
    provenanced = ground arith;
  },
  λ h. ground arith,
)

starts_after_end_iff : (s : SourceSpan) → (starts_after_end s ≡ false) ↔ IsOrdered s
unfolding starts_after_end
starts_after_end_iff s = (λ h. ground arith, λ h. ground arith)

is_unsupported_confidence_iff : (c : Str) → (is_unsupported_confidence c ≡ false) ↔ IsConfidence c
unfolding is_unsupported_confidence
is_unsupported_confidence_iff c = (λ h. ground arith, λ h. ground arith)

pub validate_evidence_iff : (e : FactEvidence) → (validate_evidence e ≡ none) ↔ IsEvidence e
unfolding validate_evidence
validate_evidence_iff e = (
  λ h. record {
    complete = (is_incomplete_iff e).0 (ground arith);
    ordered = (starts_after_end_iff e.span).0 (ground arith);
    trusted = (is_unsupported_confidence_iff e.confidence).0 (ground arith);
  },
  λ w. rw (
    (is_incomplete_iff e).1 w.complete,
    (starts_after_end_iff e.span).1 w.ordered,
    (is_unsupported_confidence_iff e.confidence).1 w.trusted,
  ),
)

-- What each code of `validateEvidence` says of the evidence.
abbrev pub Blames : FactEvidence → ValidationCode → Type 0
Blames e missing_fact_evidence = ¬ IsComplete e
Blames e invalid_source_span = IsComplete e × (¬ IsOrdered e.span)
Blames e invalid_fact_confidence = IsComplete e × IsOrdered e.span × (¬ IsConfidence e.confidence)
Blames e _ = ⊥

-- An error of `validateEvidence` names the first fault of the evidence: parts are missing, or else the
-- span ends before it starts, or else the confidence is none of the three. It gives no other code.
pub validate_evidence-Blames :
    (e : FactEvidence) (code : ValidationCode) → validate_evidence e ≡ some code → Blames e code
unfolding validate_evidence
validate_evidence-Blames e code h = elim (Bool-cases (is_incomplete e)) [
  | inl t ↦
      subst (Blames e) {x = missing_fact_evidence} (ground arith)
        (λ w. cc ((is_incomplete_iff e).1 w))
  | inr f ↦ elim (Bool-cases (starts_after_end e.span)) [
    | inl t ↦
        subst (Blames e) {x = invalid_source_span} (ground arith)
          ((is_incomplete_iff e).0 f, λ w. cc ((starts_after_end_iff e.span).1 w))
    | inr g ↦ subst (Blames e) {x = invalid_fact_confidence} (ground arith) (
      (is_incomplete_iff e).0 f,
      (starts_after_end_iff e.span).0 g,
      λ w. cc ((is_unsupported_confidence_iff e.confidence).1 w),
    )
  ]
]
