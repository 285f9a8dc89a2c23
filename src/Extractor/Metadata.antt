-- ===== src/Extractor/Metadata.antt =====
-- extractor/contracts.go: Metadata.Validate.
use agent_graph.Prelude.{
  Str, List, [], ◌∷◌, Option, none, some, ◌==◌, str_eq, ◌≡◌, ◌≢◌, ◌↔◌, refl, arith, if◌then◌else◌,
  mem, In, All, Distinct, map, is_empty, In→mem, not-In→not-mem, All-not-In-nil, All-unseen-cons,
}
use agent_graph.Extractor.Types.{
  Description, Refusal, name_empty, version_empty, no_extensions, extension_empty, extension_twice,
}
use agent_graph.Extractor.Extension.{normalize_extension}

-- The loop: `seen` is the map `extensions` that it fills.
unfoldable pub check_extensions : List Str → List Str → Option Refusal
check_extensions seen [] = none
check_extensions seen (extension ∷ extensions) =
    let normalized = normalize_extension extension in
    let rest = check_extensions (normalized ∷ seen) extensions in
    if normalized == []
    then some extension_empty
    else if mem normalized seen
    then some extension_twice
    else rest

unfoldable pub validate_metadata : Description → Option Refusal
validate_metadata metadata =
    if metadata.name == []
    then some name_empty
    else if metadata.version == []
    then some version_empty
    else if is_empty metadata.extensions
    then some no_extensions
    else check_extensions [] metadata.extensions

-- A named and versioned extractor with extensions that are not empty and differ from one another once
-- normalised.
pub record IsDescription (metadata : Description) : Type 0 where
  pub named : metadata.name ≢ []
  pub versioned : metadata.version ≢ []
  pub extended : metadata.extensions ≢ []
  pub filled : All (λ e. normalize_extension e ≢ []) metadata.extensions
  pub distinct : Distinct (map normalize_extension metadata.extensions)

record IsUnseen (seen extensions : List Str) : Type 0 where
  filled : All (λ e. normalize_extension e ≢ []) extensions
  distinct : Distinct (map normalize_extension extensions)
  unseen : All (λ e. ¬ In (normalize_extension e) seen) extensions

check_extensions_iff :
    (seen extensions : List Str)
    → (check_extensions seen extensions ≡ none) ↔ IsUnseen seen extensions
unfolding check_extensions
check_extensions_iff seen [] = (λ h. record { filled = tt; distinct = tt; unseen = tt }, λ u. refl)
check_extensions_iff seen (e ∷ es) =
    let n = normalize_extension e in
    let ih = check_extensions_iff (n ∷ seen) es in
    (
      λ h.
          let u = ih.0 (ground arith) in
          let (unseen, absent) = (All-unseen-cons normalize_extension n seen es).0 u.unseen in
          record {
            filled = ((ground arith), u.filled);
            distinct = (absent, u.distinct);
            unseen = ((λ i. ground (arith, In→mem n seen i)), unseen);
          },
      λ u. ground (
        arith,
        u.filled.0,
        not-In→not-mem n seen u.unseen.0,
        ih.1 (record {
          filled = u.filled.1;
          distinct = u.distinct.1;
          unseen = (All-unseen-cons normalize_extension n seen es).1 (u.unseen.1, u.distinct.0);
        }),
      ),
    )

-- `Metadata.Validate` returns nil exactly for a named and versioned extractor with extensions that are not
-- empty and differ from one another once normalised.
pub validate_metadata_iff :
    (metadata : Description) → (validate_metadata metadata ≡ none) ↔ IsDescription metadata
unfolding validate_metadata
validate_metadata_iff metadata = (
  λ h.
      let u = (check_extensions_iff [] metadata.extensions).0 (ground arith) in
      record {
        named = ground arith;
        versioned = ground arith;
        extended = ground arith;
        filled = u.filled;
        distinct = u.distinct;
      },
  λ d. ground (
    arith,
    d.named,
    d.versioned,
    d.extended,
    (check_extensions_iff [] metadata.extensions).1 (record {
      filled = d.filled;
      distinct = d.distinct;
      unseen = All-not-In-nil normalize_extension metadata.extensions;
    }),
  ),
)
