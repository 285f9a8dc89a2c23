-- ===== src/Extractor/Contribution/Admission.antt =====
-- extractor/contracts.go: what NewContribution admits.
use agent_graph.Prelude.{
  List, [], Option, none, some, ok, ◌then◌, str_eq, if◌then◌else◌, ◌≡◌, ◌≢◌, ◌↔◌, inl, inr, refl,
  arith, All, Option-cases,
}
use agent_graph.Graph.Vocabulary.{Vocabulary}
use agent_graph.Graph.Validate.{validate}
use agent_graph.Graph.Soundness.{validate_iff}
use agent_graph.Extractor.Types.{Dependency, ContributionInput, Contribution, facts_invalid}
use agent_graph.Extractor.Metadata.{validate_metadata, validate_metadata_iff}
use agent_graph.Extractor.Contribution.{
  check_all, check_reference, refuse, check_symbol, check_surface, check_dependency,
  check_diagnostic, node_ids_of, check_source_path, check_contribution, contribution_of,
  new_contribution, check_own_dependency, with_dependencies,
}
use agent_graph.Extractor.Contribution.Admissible.{
  IsSeverity, IsReference, IsSymbol, IsSurface, IsAdmissible,
}
use agent_graph.Extractor.Contribution.Checks.{
  check_all_iff, check_reference_iff, refusal_iff, check_symbol_iff, check_surface_iff,
  check_dependency_iff, check_diagnostic_iff,
}

then_none : {E : Type 0} (a b : Option E) → (a then b ≡ none) ↔ ((a ≡ none) × (b ≡ none))
then_none none b = (λ h. (refl, h), λ h. h.1)
then_none (some e) b = (λ h. cc, λ h. cc)

check_contribution_iff :
    (vocabulary : Vocabulary) (input : ContributionInput)
    → (check_contribution vocabulary input ≡ none) ↔ IsAdmissible vocabulary input
unfolding check_contribution
check_contribution_iff vocabulary input =
    let ids = node_ids_of input.facts in
    let path = check_source_path input in
    let meta = validate_metadata input.metadata in
    let facts = refuse facts_invalid (validate vocabulary input.facts) in
    let refs = check_all (check_reference ids) input.unresolved_references in
    let syms = check_all (check_symbol ids) input.symbol_references in
    let surfs = check_all (check_surface ids) input.exported_surfaces in
    let deps = check_all check_dependency input.dependencies in
    let diags = check_all check_diagnostic input.diagnostics in
    let n = refusal_iff facts_invalid (validate vocabulary input.facts) in
    let v = validate_iff vocabulary input.facts in
    let m = validate_metadata_iff input.metadata in
    let r =
      check_all_iff (check_reference ids) (IsReference input.facts)
        (check_reference_iff input.facts) input.unresolved_references in
    let s =
      check_all_iff (check_symbol ids) (IsSymbol input.facts) (check_symbol_iff input.facts)
        input.symbol_references in
    let u =
      check_all_iff (check_surface ids) (IsSurface input.facts) (check_surface_iff input.facts)
        input.exported_surfaces in
    let d =
      check_all_iff check_dependency (λ d. (d.source_path ≢ []) × (d.target_path ≢ []))
        check_dependency_iff input.dependencies in
    let g =
      check_all_iff check_diagnostic (λ d. (d.message ≢ []) × IsSeverity d.severity)
        check_diagnostic_iff input.diagnostics in
    (
      λ h.
          let (h1, t1) =
            (then_none path (meta then facts then refs then syms then surfs then deps then diags)).0
              h in
          let (h2, t2) =
            (then_none meta (facts then refs then syms then surfs then deps then diags)).0 t1 in
          let (h3, t3) = (then_none facts (refs then syms then surfs then deps then diags)).0 t2 in
          let (h4, t4) = (then_none refs (syms then surfs then deps then diags)).0 t3 in
          let (h5, t5) = (then_none syms (surfs then deps then diags)).0 t4 in
          let (h6, t6) = (then_none surfs (deps then diags)).0 t5 in
          let (h7, h8) = (then_none deps diags).0 t6 in
          record {
            located = ground (arith, h1);
            described = m.0 h2;
            consistent = v.0 (n.0 h3);
            references = r.0 h4;
            symbols = s.0 h5;
            surfaces = u.0 h6;
            dependencies = d.0 h7;
            diagnostics = g.0 h8;
          },
      λ a. ground (
        arith,
        a.located,
        m.1 a.described,
        n.1 (v.1 a.consistent),
        r.1 a.references,
        s.1 a.symbols,
        u.1 a.surfaces,
        d.1 a.dependencies,
        g.1 a.diagnostics,
      ),
    )

-- `NewContribution` succeeds exactly on the admissible inputs, and then with what it was given: the source path
-- is not empty; the extractor is named and versioned, with extensions that differ; the facts are consistent
-- with the vocabulary; references, symbols and surfaces name local nodes and are complete, of a kind that is
-- known and with whole evidence; and dependencies and diagnostics are complete.
pub new_contribution_iff :
    (vocabulary : Vocabulary) (input : ContributionInput) (contribution : Contribution)
    → (new_contribution vocabulary input ≡ ok contribution)
      ↔ (IsAdmissible vocabulary input × (contribution ≡ contribution_of input))
unfolding new_contribution
new_contribution_iff vocabulary input contribution =
    let c = check_contribution_iff vocabulary input in
    elim (Option-cases (check_contribution vocabulary input)) [
      | inl e ↦ (λ h. (c.0 e, ground (arith, h, e)), λ (a, p). ground (arith, e, p))
      | inr (refusal, e) ↦ (λ h. ground (arith, h, e), λ (a, p). ground (arith, e, c.1 a))
    ]

-- `WithDependencies` succeeds exactly when each dependency has the source of the contribution and a target, and
-- then changes the dependencies and nothing else.
pub with_dependencies_iff :
    (contribution : Contribution) (dependencies : List Dependency) (updated : Contribution)
    → (with_dependencies contribution dependencies ≡ ok updated) ↔ (
        All (λ d. (d.source_path ≡ contribution.source_path) × (d.target_path ≢ [])) dependencies
        × (updated ≡ record contribution { dependencies = dependencies }))
unfolding with_dependencies
with_dependencies_iff contribution dependencies updated =
    let c =
      check_all_iff (check_own_dependency contribution)
        (λ d. (d.source_path ≡ contribution.source_path) × (d.target_path ≢ []))
        (λ d. unfold check_own_dependency in (λ h. (ground arith, ground arith), λ h. ground arith))
        dependencies in
    elim (Option-cases (check_all (check_own_dependency contribution) dependencies)) [
      | inl e ↦ (λ h. (c.0 e, ground (arith, h, e)), λ (a, p). ground (arith, e, p))
      | inr (refusal, e) ↦ (λ h. ground (arith, h, e), λ (a, p). ground (arith, e, c.1 a))
    ]
