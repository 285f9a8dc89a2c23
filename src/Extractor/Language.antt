-- ===== src/Extractor/Language.antt =====
-- extractor/vocabulary.go: NewLanguageVocabulary.
use agent_graph.Prelude.{
  Str, bytes, List, [], ◌∷◌, ◌++◌, Option, none, some, Result, ok, err, unless, true, false, ◌==◌,
  str_eq, Str-discrete, nat_eq, ℕ_discrete, if◌then◌else◌, not, map, mem, ◌≡◌, ◌≢◌, ◌↔◌, inl, inr,
  refl, arith, In, All, Distinct, In→mem, not-mem→not-In, subst,
}
use agent_graph.GoPath.{has_prefix}
use agent_graph.Graph.Types.{EndpointRule, VocabularyDefinition, ValidationCode}
use agent_graph.Graph.Vocabulary.{Vocabulary, new_vocabulary}
use agent_graph.Graph.WellFormed.{IsWellFormed}
use agent_graph.Graph.Admission.{new_vocabulary_iff}
use agent_graph.Extractor.Types.{Refusal, name_empty, prefix_missing, vocabulary_invalid}

abbrev pub kind_prefix : Str → Str
kind_prefix name = name ++ b':' ∷ []

unfoldable pub check_prefixes : Str → List Str → Option Refusal
check_prefixes name [] = none
check_prefixes name (kind ∷ kinds) =
    let rest = check_prefixes name kinds in
    if not (has_prefix kind (kind_prefix name)) then some prefix_missing else rest

abbrev pub rule : Str → Str → EndpointRule
rule source target = record { source = source; target = target }

unfoldable pub rules_between : List Str → List Str → List EndpointRule
rules_between [] targets = []
rules_between (source ∷ sources) targets =
    map (rule source) targets ++ rules_between sources targets

abbrev pub declaration_endpoints : List Str → List EndpointRule
declaration_endpoints kinds = map (rule (bytes "file")) kinds ++ rules_between kinds kinds

abbrev pub language_kinds : List Str → List Str
language_kinds kinds = bytes "project" ∷ bytes "file" ∷ bytes "symbol" ∷ kinds

abbrev pub language_definition : List Str → VocabularyDefinition
language_definition kinds = record {
  node_kinds = language_kinds kinds;
  relations =
      record { kind = bytes "contains"; endpoints = rule (bytes "project") (bytes "file") ∷ [] }
      ∷ record { kind = bytes "defines"; endpoints = declaration_endpoints kinds }
      ∷ record { kind = bytes "references"; endpoints = declaration_endpoints kinds }
      ∷ [];
}

abbrev pub refuse_vocabulary : Result ValidationCode Vocabulary → Result Refusal Vocabulary
refuse_vocabulary (ok vocabulary) = ok vocabulary
refuse_vocabulary (err code) = err (vocabulary_invalid code)

unfoldable pub new_language_vocabulary : Str → List Str → Result Refusal Vocabulary
new_language_vocabulary name kinds =
    if name == []
    then err name_empty
    else unless (check_prefixes name kinds)
        (refuse_vocabulary (new_vocabulary (language_definition kinds)))

abbrev pub IsPrefixed : Str → Str → Type 0
IsPrefixed name kind = has_prefix kind (kind_prefix name) ≡ true

check_prefixes_iff :
    (name : Str) (kinds : List Str)
    → (check_prefixes name kinds ≡ none) ↔ All (IsPrefixed name) kinds
unfolding check_prefixes
check_prefixes_iff name [] = (λ _. tt, λ _. refl)
check_prefixes_iff name (kind ∷ kinds) =
    let ih = check_prefixes_iff name kinds in
    (λ h. (ground arith, ih.0 (ground arith)), λ g. ground (arith, ih.1))

-- A kind with such a prefix has a colon in it, so it is none of the three that every language has.
IsPrefixed-colon : (name kind : Str) → IsPrefixed name kind → In b':' kind
unfolding has_prefix
IsPrefixed-colon [] [] h = cc
IsPrefixed-colon [] (c ∷ kind) h = inl (ground (arith, h))
IsPrefixed-colon (n ∷ name) [] h = cc
IsPrefixed-colon (n ∷ name) (c ∷ kind) h = inr (IsPrefixed-colon name kind (ground (arith, h)))

not_built_in :
    (name built_in : Str) (kinds : List Str)
    → mem b':' built_in ≡ false
    → All (IsPrefixed name) kinds
    → ¬ In built_in kinds
not_built_in name built_in [] h a i = i
not_built_in name built_in (k ∷ kinds) h a (inl e) =
    cc (h, In→mem b':' built_in (subst (In b':') e (IsPrefixed-colon name k a.0)))
not_built_in name built_in (k ∷ kinds) h a (inr i) = not_built_in name built_in kinds h a.1 i

filled : (name : Str) (kinds : List Str) → All (IsPrefixed name) kinds → All (λ k. k ≢ []) kinds
filled name [] a = tt
filled name (k ∷ kinds) a =
    (λ e. subst (In b':') e (IsPrefixed-colon name k a.0), filled name kinds a.1)

abbrev Known : List Str → List EndpointRule → Type 0
Known kinds rules = All (λ r. In r.source kinds × In r.target kinds) rules

All-append :
    (kinds : List Str) (xs ys : List EndpointRule)
    → Known kinds xs
    → Known kinds ys
    → Known kinds (xs ++ ys)
All-append kinds [] ys a b = b
All-append kinds (x ∷ xs) ys a b = (a.0, All-append kinds xs ys a.1 b)

rules-Known :
    (kinds : List Str) (source : Str) (targets : List Str)
    → In source kinds
    → ((k : Str) → In k targets → In k kinds)
    → Known kinds (map (rule source) targets)
rules-Known kinds source [] s h = tt
rules-Known kinds source (t ∷ targets) s h =
    ((s, h t (inl refl)), rules-Known kinds source targets s (λ k i. h k (inr i)))

rules_between-Known :
    (kinds sources targets : List Str)
    → ((k : Str) → In k sources → In k kinds)
    → ((k : Str) → In k targets → In k kinds)
    → Known kinds (rules_between sources targets)
unfolding rules_between
rules_between-Known kinds [] targets s h = tt
rules_between-Known kinds (x ∷ sources) targets s h =
    All-append kinds (map (rule x) targets) (rules_between sources targets)
      (rules-Known kinds x targets (s x (inl refl)) h)
      (rules_between-Known kinds sources targets (λ k i. s k (inr i)) h)

declared : (kinds : List Str) → Known (language_kinds kinds) (declaration_endpoints kinds)
declared kinds =
    All-append (language_kinds kinds) (map (rule (bytes "file")) kinds) (rules_between kinds kinds)
      (rules-Known (language_kinds kinds) (bytes "file") kinds (inr (inl refl))
        (λ k i. inr (inr (inr i))))
      (rules_between-Known (language_kinds kinds) kinds kinds (λ k i. inr (inr (inr i)))
        (λ k i. inr (inr (inr i))))

declares_iff : (kinds : List Str) → (declaration_endpoints kinds ≢ []) ↔ (kinds ≢ [])
unfolding rules_between
declares_iff [] = (λ n. absurd (n refl), λ n. absurd (n refl))
declares_iff (k ∷ kinds) = (λ n e. cc, λ n e. cc)

-- What the definition of a language asks of its declaration kinds.
language_iff :
    (name : Str) (kinds : List Str)
    → All (IsPrefixed name) kinds
    → IsWellFormed (language_definition kinds) ↔ ((kinds ≢ []) × Distinct kinds)
unfolding Str-discrete ℕ_discrete
language_iff name kinds a = (
  λ w. ((declares_iff kinds).0 w.relations_sound.1.0.ruled, w.kinds_distinct.1.1.1),
  λ (n, d).
      let known = declared kinds in
      let ruled = (declares_iff kinds).1 n in
      record {
        kinds_named = ((λ e. cc), ((λ e. cc), ((λ e. cc), filled name kinds a)));
        kinds_distinct = (
          (λ i. elim i [
            | inl e ↦ cc e
            | inr (inl e) ↦ cc e
            | inr (inr j) ↦ not_built_in name (bytes "project") kinds refl a j
          ]),
          (
            (λ i. elim i [
              | inl e ↦ cc e
              | inr j ↦ not_built_in name (bytes "file") kinds refl a j
            ]),
            (not_built_in name (bytes "symbol") kinds refl a, d),
          ),
        );
        relations_sound = (
          record { named = λ e. cc; ruled = λ e. cc; known = ((inl refl, inr (inl refl)), tt) },
          (
            record { named = λ e. cc; ruled = ruled; known = known },
            (record { named = λ e. cc; ruled = ruled; known = known }, tt),
          ),
        );
        relations_distinct = (
          not-mem→not-In (bytes "contains") (bytes "defines" ∷ bytes "references" ∷ []) refl,
          (not-mem→not-In (bytes "defines") (bytes "references" ∷ []) refl, ((λ i. i), tt)),
        );
      },
)

refused :
    (r : Result ValidationCode Vocabulary)
    → ((v : Vocabulary) × (refuse_vocabulary r ≡ ok v)) ↔ ((v : Vocabulary) × (r ≡ ok v))
refused (ok v) = (λ _. (v, refl), λ _. (v, refl))
refused (err code) = (λ (v, e). cc e, λ (v, e). cc e)

-- `NewLanguageVocabulary` succeeds exactly for a name that is not empty and kinds that carry it as their prefix,
-- differ from one another, and are not none.
pub new_language_vocabulary_iff :
    (name : Str) (kinds : List Str)
    → ((vocabulary : Vocabulary) × (new_language_vocabulary name kinds ≡ ok vocabulary))
      ↔ ((name ≢ []) × All (IsPrefixed name) kinds × (kinds ≢ []) × Distinct kinds)
unfolding new_language_vocabulary
new_language_vocabulary_iff name kinds =
    let p = check_prefixes_iff name kinds in
    let r = refused (new_vocabulary (language_definition kinds)) in
    let w = new_vocabulary_iff (language_definition kinds) in
    (
      λ (v, h).
          let named : name ≢ [] = ground (arith, h) in
          let a = p.0 (ground (arith, h, named)) in
          let (n, d) = (language_iff name kinds a).0 (w.0 (r.0 (v, ground (arith, h, named)))) in
          (named, a, n, d),
      λ (named, a, n, d).
          let (v, e) = r.1 (w.1 ((language_iff name kinds a).1 (n, d))) in
          (v, ground (arith, named, p.1 a, e)),
    )
