-- ===== src/Workspace/Ignore/Last.antt =====
-- workspace/discovery.go: the rules of `.wayfinderignore`, of which the last that matches decides.
use agent_graph.Prelude.{
  some, Str, List, [], ◌∷◌, ◌++◌, Bool, true, false, ◌≡◌, refl, arith, All, ◌↔◌, ◌⊎◌, inl, inr, not,
  subst, sym, ap, if_ind,
}
use agent_graph.Workspace.{IgnoreRule, IgnoreRules}
use agent_graph.Workspace.Patterns.{internal_directory, ignore_pattern_matches}
use agent_graph.Workspace.GitIgnore.{git_ignored}
use agent_graph.Workspace.Ignore.{apply_ignore_rules, source_excluded}

-- The rule matches, and none behind it does.
abbrev pub IsLastMatch : Str → List IgnoreRule → IgnoreRule → Type 0
IsLastMatch path rules rule =
    (before : List IgnoreRule) × (after : List IgnoreRule) × (rules ≡ before ++ rule ∷ after)
    × (ignore_pattern_matches path rule.pattern ≡ true)
    × All (λ r. ignore_pattern_matches path r.pattern ≡ false) after

IsLastMatch-cons :
    (path : Str) (r rule : IgnoreRule) (rules : List IgnoreRule)
    → IsLastMatch path rules rule
    → IsLastMatch path (r ∷ rules) rule
IsLastMatch-cons path r rule rules (before, after, e, m, n) =
    (r ∷ before, after, ap (λ xs. r ∷ xs) e, m, n)

-- What the loop answers: by the last rule that matches, or as before.
abbrev Answers : Str → List IgnoreRule → Bool → Bool → Type 0
Answers path rules excluded answer =
    ((rule : IgnoreRule) × IsLastMatch path rules rule × (answer ≡ not rule.includes))
    ⊎ (All (λ r. ignore_pattern_matches path r.pattern ≡ false) rules × (answer ≡ excluded))

apply_ignore_rules-Answers :
    (path : Str) (rules : List IgnoreRule) (excluded : Bool)
    → Answers path rules excluded (apply_ignore_rules rules path excluded)
apply_ignore_rules-Answers path [] excluded = inr (tt, refl)
apply_ignore_rules-Answers path (rule ∷ rules) excluded =
    if_ind (λ e. Answers path (rule ∷ rules) excluded (apply_ignore_rules rules path e))
      (ignore_pattern_matches path rule.pattern)
      (λ t. elim (apply_ignore_rules-Answers path rules (not rule.includes)) [
        | inl (r, last, e) ↦ inl (r, IsLastMatch-cons path rule r rules last, e)
        | inr (none, e) ↦ inl (rule, ([], rules, refl, t, none), e)
      ])
      (λ f. elim (apply_ignore_rules-Answers path rules excluded) [
        | inl (r, last, e) ↦ inl (r, IsLastMatch-cons path rule r rules last, e)
        | inr (none, e) ↦ inr ((f, none), e)
      ])

apply_unmatched :
    (path : Str) (rules : List IgnoreRule) (excluded : Bool)
    → All (λ r. ignore_pattern_matches path r.pattern ≡ false) rules
    → apply_ignore_rules rules path excluded ≡ excluded
apply_unmatched path [] excluded h = refl
apply_unmatched path (rule ∷ rules) excluded h =
    ground (arith, h.0, apply_unmatched path rules excluded h.1)

apply_last :
    (path : Str) (before after : List IgnoreRule) (rule : IgnoreRule) (excluded : Bool)
    → ignore_pattern_matches path rule.pattern ≡ true
    → All (λ r. ignore_pattern_matches path r.pattern ≡ false) after
    → apply_ignore_rules (before ++ rule ∷ after) path excluded ≡ not rule.includes
apply_last path [] after rule excluded m n =
    ground (arith, m, apply_unmatched path after (not rule.includes) n)
apply_last path (r ∷ before) after rule excluded m n = apply_last path before after rule _ m n

abbrev pub ExcludedByRules : Str → List IgnoreRule → Type 0
ExcludedByRules path rules =
    (rule : IgnoreRule) × IsLastMatch path rules rule × (rule.includes ≡ false)

apply_ignore_rules_iff :
    (path : Str) (rules : List IgnoreRule)
    → (apply_ignore_rules rules path false ≡ true) ↔ ExcludedByRules path rules
apply_ignore_rules_iff path rules = (
  λ h. elim (apply_ignore_rules-Answers path rules false) [
    | inl (rule, last, e) ↦ (rule, last, ground (arith, e, h))
    | inr (none, e) ↦ absurd (ground (arith, e, h))
  ],
  λ (rule, (before, after, e, m, n), i).
      let answer = apply_last path before after rule false m n in
      subst (λ xs. apply_ignore_rules xs path false ≡ true) (sym e) (ground (arith, answer, i)),
)

-- `sourceExcluded` holds of a path exactly when it goes through an internal directory, or Git ignores it, or the last
-- rule of `.wayfinderignore` that matches it excludes.
pub source_excluded_iff :
    (path : Str) (rules : IgnoreRules)
    → (source_excluded path rules ≡ true) ↔ (
        (internal_directory path ≡ true)
        ⊎ ((git_ignored path rules.git_ignores ≡ some true) ⊎ ExcludedByRules path rules.agraph))
unfolding source_excluded
source_excluded_iff path rules = ground (arith, apply_ignore_rules_iff path rules.agraph)
