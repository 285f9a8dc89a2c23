-- ===== src/Extractor/Contribution/Checks.antt =====
-- extractor/contracts.go: the checks of NewContribution, one by one.
use agent_graph.Prelude.{
  Str, List, [], ◌∷◌, Option, none, some, true, str_eq, mem, ◌≡◌, ◌≢◌, ◌↔◌, refl, arith, All,
  In→mem, mem→In, map-In, In-map,
}
use agent_graph.Graph.Types.{Node, FactEvidence, Facts, ValidationCode}
use agent_graph.Graph.Validate.{validate_evidence}
use agent_graph.Graph.Consistent.{IsEvidence}
use agent_graph.Graph.Evidence.{validate_evidence_iff}
use agent_graph.Extractor.Types.{
  ModuleBinding, UnresolvedReference, SymbolReference, ExportedSurface, Dependency, Diagnostic,
  Refusal, evidence_invalid,
}
use agent_graph.Extractor.Contribution.{
  check_all, check_binding, check_reference, validate_reference_evidence, refuse, check_symbol,
  check_surface, check_dependency, check_diagnostic, node_ids_of,
}
use agent_graph.Extractor.Contribution.Admissible.{
  IsLocal, IsSeverity, IsReference, IsSymbol, IsSurface,
}

pub check_all_iff :
    {A : Type 0} (check : A → Option Refusal) (Good : A → Type 0)
    → ((x : A) → (check x ≡ none) ↔ Good x)
    → (xs : List A) → (check_all check xs ≡ none) ↔ All Good xs
unfolding check_all
check_all_iff check Good h [] = (λ _. tt, λ _. refl)
check_all_iff check Good h (x ∷ xs) =
    let ih = check_all_iff check Good h xs in
    (λ e. ((h x).0 (ground arith), ih.0 (ground arith)), λ g. ground (arith, (h x).1 g.0, ih.1 g.1))

pub node_ids_iff :
    (facts : Facts) (id : Str) → (mem id (node_ids_of facts) ≡ true) ↔ IsLocal facts id
node_ids_iff facts id = (
  λ h. map-In (λ (node : Node). node.id) facts.nodes (mem→In id (node_ids_of facts) h),
  λ (node, i, e). ground (
    arith,
    e,
    In→mem node.id (node_ids_of facts) (In-map (λ (node : Node). node.id) node facts.nodes i),
  ),
)

pub check_binding_iff : (b : ModuleBinding) → (check_binding b ≡ none) ↔ (b.imported_name ≢ [])
unfolding check_binding
check_binding_iff b = (λ h. ground arith, λ h. ground arith)

pub check_reference_iff :
    (facts : Facts) (r : UnresolvedReference)
    → (check_reference (node_ids_of facts) r ≡ none) ↔ IsReference facts r
unfolding check_reference
check_reference_iff facts r =
    let l = node_ids_iff facts r.source_id in
    let b = check_all_iff check_binding (λ b. b.imported_name ≢ []) check_binding_iff r.bindings in
    (
      λ h. record {
        named = ground arith;
        local = l.0 (ground arith);
        aimed = ground arith;
        kinded = ground arith;
        bound = b.0 (ground arith);
      },
      λ g. ground (arith, g.named, l.1 g.local, g.aimed, g.kinded, b.1 g.bound),
    )

pub validate_reference_evidence_iff :
    (e : FactEvidence) → (validate_reference_evidence e ≡ none) ↔ IsEvidence e
unfolding validate_reference_evidence validate_evidence
validate_reference_evidence_iff e = validate_evidence_iff e

pub refusal_iff :
    (reason : ValidationCode → Refusal) (o : Option ValidationCode)
    → (refuse reason o ≡ none) ↔ (o ≡ none)
refusal_iff reason none = (λ _. refl, λ _. refl)
refusal_iff reason (some code) = (λ e. cc, λ e. cc)

pub check_symbol_iff :
    (facts : Facts) (r : SymbolReference)
    → (check_symbol (node_ids_of facts) r ≡ none) ↔ IsSymbol facts r
unfolding check_symbol
check_symbol_iff facts r =
    let l = node_ids_iff facts r.source_id in
    let v = validate_reference_evidence_iff r.evidence in
    let n = refusal_iff evidence_invalid (validate_reference_evidence r.evidence) in
    (
      λ h. record {
        named = ground arith;
        local = l.0 (ground arith);
        aimed = ground arith;
        related = ground arith;
        evident = v.0 (n.0 (ground arith));
      },
      λ g. ground (arith, g.named, l.1 g.local, g.aimed, g.related, n.1 (v.1 g.evident)),
    )

pub check_surface_iff :
    (facts : Facts) (s : ExportedSurface)
    → (check_surface (node_ids_of facts) s ≡ none) ↔ IsSurface facts s
unfolding check_surface
check_surface_iff facts s =
    let l = node_ids_iff facts s.node_id in
    (
      λ h. record { sourced = ground arith; local = l.0 (ground arith); named = ground arith },
      λ g. ground (arith, g.sourced, l.1 g.local, g.named),
    )

pub check_dependency_iff :
    (d : Dependency) → (check_dependency d ≡ none) ↔ ((d.source_path ≢ []) × (d.target_path ≢ []))
unfolding check_dependency
check_dependency_iff d = (λ h. (ground arith, ground arith), λ h. ground arith)

pub check_diagnostic_iff :
    (d : Diagnostic) → (check_diagnostic d ≡ none) ↔ ((d.message ≢ []) × IsSeverity d.severity)
unfolding check_diagnostic
check_diagnostic_iff d = (λ h. (ground arith, ground arith), λ h. ground arith)
