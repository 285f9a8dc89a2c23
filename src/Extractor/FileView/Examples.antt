-- ===== src/Extractor/FileView/Examples.antt =====
-- extractor/contracts.go: a view of two files.
use agent_graph.Prelude.{
  ℕ, arith, length, err, Str, bytes, List, [], ◌∷◌, some, Result, ok, ◌≡◌, refl, sym, ap, subst,
  ◌∙◌, inl, inr, str_eq, Str-discrete, ℕ_discrete,
}
use agent_graph.GoPath.{clean, components, resolve, split, join_components, has_prefix}
use agent_graph.GoStrings.{trim_left, trim_right, trim_space}
use agent_graph.Extractor.FileView.{
  PathRefusal, ResolverFileView, normalize_resolver_path, add_files, new_resolver_file_view, file,
  Agrees, file_lem,
}

-- Evaluates the component.
run : Unit {0}
unfolding normalize_resolver_path add_files new_resolver_file_view file clean components resolve
    split join_components has_prefix trim_left trim_right trim_space Str-discrete ℕ_discrete
run = tt

abbrev files : List (Str × Str)
files = (bytes "./go.mod", bytes "module m") ∷ (bytes "b.go", bytes "package a") ∷ []

abbrev view : ResolverFileView
view = record {
  project_root = bytes "p";
  files = (bytes "go.mod", bytes "module m") ∷ (bytes "b.go", bytes "package a") ∷ [];
}

new_resolver_file_view-files : new_resolver_file_view (bytes "p/") files ≡ ok view
unfolding run
new_resolver_file_view-files = refl

normalize-mod : normalize_resolver_path (bytes "./go.mod") ≡ ok (bytes "go.mod")
unfolding run
normalize-mod = refl

normalize-mod_up : normalize_resolver_path (bytes "a/../go.mod") ≡ ok (bytes "go.mod")
unfolding run
normalize-mod_up = refl

normalize-source : normalize_resolver_path (bytes "b.go") ≡ ok (bytes "b.go")
unfolding run
normalize-source = refl

abbrev named_length : Result PathRefusal Str → ℕ
named_length (ok path) = length path
named_length (err refusal) = 0

apart : ◌≡◌ {A = Result PathRefusal Str} (ok (bytes "b.go")) (ok (bytes "go.mod")) → ⊥
apart e = omega (arith, ap named_length e)

files-Agrees : Agrees files (bytes "go.mod") (bytes "module m")
files-Agrees path other (inl p) h = sym (ap (λ (y : Str × Str). y.1) p)
files-Agrees path other (inr (inl p)) h = absurd (
    apart (
      sym normalize-source
      ∙ subst (λ y. normalize_resolver_path y ≡ ok (bytes "go.mod"))
          (sym (ap (λ (y : Str × Str). y.0) p)) h))
files-Agrees path other (inr (inr z)) h = absurd z

file_lem_example : file view (bytes "a/../go.mod") ≡ some (bytes "module m")
file_lem_example =
    file_lem (bytes "p/") files view (bytes "./go.mod") (bytes "a/../go.mod") (bytes "go.mod")
      (bytes "module m") new_resolver_file_view-files (inl refl) normalize-mod files-Agrees
      normalize-mod_up
