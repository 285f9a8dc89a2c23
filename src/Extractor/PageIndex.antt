-- ===== src/Extractor/PageIndex.antt =====
-- extractor/page_resolver_index.go: answers of a resolver index, kept for a page. A request is the tuple of its
-- fields; a copy of a target is the target. The index below is an interface of the source: a state, and what
-- it answers in it.
pub mod Stable
use agent_graph.Prelude.{
  ℕ, Str, List, [], ◌∷◌, Option, none, some, Bool, Eq, Str-discrete, ℕ_discrete, lookup,
}
use agent_graph.Graph.Types.{Node}
use agent_graph.Extractor.Types.{
  Description, UnresolvedReference, SymbolReference, ExportedSurface, Diagnostic,
}

pub record ResolverTarget : Type 0 where
  pub project_id : Str
  pub source_path : Str
  pub metadata : Description
  pub nodes : List Node
  pub unresolved_references : List UnresolvedReference
  pub symbol_references : List SymbolReference
  pub exported_surfaces : List ExportedSurface
  pub diagnostics : List Diagnostic

-- The project, the language and the source path.
abbrev pub ResolverTargetRequest : Type 0
ResolverTargetRequest = Str × Str × Str

-- The project, the language, the package path, the source path before the page, and the limit.
abbrev pub ResolverPackagePageRequest : Type 0
ResolverPackagePageRequest = Str × Str × Str × Str × ℕ

unfoldable pub target_request-discrete : Discrete ResolverTargetRequest
target_request-discrete = hlevel Str-discrete

unfoldable pub package_request-discrete : Discrete ResolverPackagePageRequest
package_request-discrete = hlevel (Str-discrete, ℕ_discrete)

instance abbrev pub target_request_eq : Eq ResolverTargetRequest
target_request_eq = record { dec = target_request-discrete }

instance abbrev pub package_request_eq : Eq ResolverPackagePageRequest
package_request_eq = record { dec = package_request-discrete }

-- An error is a text; `none` is nil.
pub record TargetAnswer : Type 0 where
  pub target : ResolverTarget
  pub found : Bool
  pub error : Option Str

pub record PackageAnswer : Type 0 where
  pub targets : List ResolverTarget
  pub error : Option Str

pub record PageResolverIndex : Type 0 where
  pub targets : List (ResolverTargetRequest × TargetAnswer)
  pub packages : List (ResolverPackagePageRequest × PackageAnswer)

abbrev pub new_page_resolver_index : PageResolverIndex
new_page_resolver_index = record { targets = []; packages = [] }

pub data PageRequest : Type 0 where
  for_target : ResolverTargetRequest → PageRequest
  for_package : ResolverPackagePageRequest → PageRequest

module _ {S : Type 0} (ask_target : S → ResolverTargetRequest → TargetAnswer × S)
    (ask_package : S → ResolverPackagePageRequest → PackageAnswer × S) where
  unfoldable pub resolver_target :
      PageResolverIndex → S → ResolverTargetRequest → TargetAnswer × PageResolverIndex × S
  resolver_target index s request = elim (lookup request index.targets) [
    | some result ↦ (result, index, s)
    | none ↦
        let (result, s') = ask_target s request in
        (result, record index { targets = (request, result) ∷ index.targets }, s')
  ]

  unfoldable pub resolver_package_page :
      PageResolverIndex → S → ResolverPackagePageRequest → PackageAnswer × PageResolverIndex × S
  resolver_package_page index s request = elim (lookup request index.packages) [
    | some result ↦ (result, index, s)
    | none ↦
        let (result, s') = ask_package s request in
        (result, record index { packages = (request, result) ∷ index.packages }, s')
  ]

  -- Any requests, one after another.
  unfoldable pub serve_all : PageResolverIndex → S → List PageRequest → PageResolverIndex × S
  serve_all index s [] = (index, s)
  serve_all index s (for_target request ∷ rest) =
      let (_, index', s') = resolver_target index s request in serve_all index' s' rest
  serve_all index s (for_package request ∷ rest) =
      let (_, index', s') = resolver_package_page index s request in serve_all index' s' rest
