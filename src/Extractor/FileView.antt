-- ===== src/Extractor/FileView.antt =====
-- extractor/contracts.go: ResolverFileView. The files come in the order in which Go happens to walk its map.
mod Examples
use agent_graph.Prelude.{
  Str, bytes, List, [], ◌∷◌, Option, none, some, Result, ok, err, ◌>>=◌, Bool, ◌==◌, str_eq,
  Str-discrete, ◌||◌, if◌then◌else◌, lookup, assign, lookup-assign, ◌≡◌, ◌≢◌, refl, sym, ap, arith,
  ◌⊎◌, inl, inr, In, Result-cases, subst, ◌∙◌,
}
use agent_graph.GoPath.{dot_dot, is_abs, clean, has_prefix}
use agent_graph.GoStrings.{trim_space}

-- Why a path is refused.
pub data PathRefusal : Type 0 where
  not_inside_project : PathRefusal

pub record ResolverFileView : Type 0 where
  pub project_root : Str
  pub files : List (Str × Str)

abbrev pub leaves_project : Str → Bool
leaves_project path = is_abs path || path == dot_dot || has_prefix path (bytes "../")

unfoldable pub normalize_resolver_path : Str → Result PathRefusal Str
normalize_resolver_path value =
    let trimmed = trim_space value in
    if trimmed == []
    then err not_inside_project
    else if leaves_project (clean trimmed)
    then err not_inside_project
    else ok (clean trimmed)

-- The loop over the files.
unfoldable pub add_files :
    List (Str × Str) → List (Str × Str) → Result PathRefusal (List (Str × Str))
add_files view [] = ok view
add_files view ((path, contents) ∷ files) = elim (normalize_resolver_path path) [
  | err refusal ↦ err refusal
  | ok normalized ↦ add_files (assign normalized contents view) files
]

unfoldable pub new_resolver_file_view : Str → List (Str × Str) → Result PathRefusal ResolverFileView
new_resolver_file_view project_root files = normalize_resolver_path project_root >>= λ root.
    add_files [] files >>= λ view. ok (record { project_root = root; files = view })

unfoldable pub file : ResolverFileView → Str → Option Str
file view path = elim (normalize_resolver_path path) [
  | err refusal ↦ none
  | ok normalized ↦ lookup normalized view.files
]

-- All files under one normal path hold the same.
abbrev pub Agrees : List (Str × Str) → Str → Str → Type 0
Agrees files normalized contents =
    (path other : Str)
    → In {A = Str × Str} (path, other) files
    → normalize_resolver_path path ≡ ok normalized
    → other ≡ contents

abbrev Holds : List (Str × Str) → List (Str × Str) → Str → Str → Type 0
Holds view files n c =
    (lookup n view ≡ some c)
    ⊎ ((path : Str) × In {A = Str × Str} (path, c) files × (normalize_resolver_path path ≡ ok n))

add_files-step :
    (view : List (Str × Str)) (x d : Str) (files m : List (Str × Str))
    → add_files view ((x, d) ∷ files) ≡ ok m
    → (k : Str) × (normalize_resolver_path x ≡ ok k) × (add_files (assign k d view) files ≡ ok m)
unfolding add_files
add_files-step view x d files m h = elim (Result-cases (normalize_resolver_path x)) [
  | inl (k, e) ↦ (k, e, ground (arith, h, e))
  | inr (refusal, e) ↦ ground (arith, h, e)
]

lookup-add_files :
    (view files m : List (Str × Str)) (n c : Str)
    → add_files view files ≡ ok m
    → Agrees files n c
    → Holds view files n c
    → lookup n m ≡ some c
unfolding add_files
lookup-add_files view [] m n c h agrees (inl e) = ground (arith, h, e)
lookup-add_files view [] m n c h agrees (inr (path, i, e)) = absurd i
lookup-add_files view ((x, d) ∷ files) m n c h agrees held =
    let (k, e, rest) = add_files-step view x d files m h in
    lookup-add_files (assign k d view) files m n c rest
      (λ path other i p. agrees path other (inr i) p)
      (elim (Str-discrete k n) [
        | yes p ↦
            let same : d ≡ c = agrees x d (inl refl) (e ∙ ap ok p) in
            inl (ground (arith, p, same, lookup-assign k n d view))
        | no q ↦ elim held [
          | inl f ↦ inl (ground (arith, q, f, lookup-assign k n d view))
          | inr (path, inl p, f) ↦ absurd (
              q (
                ground (
                  arith,
                  e,
                  subst (λ y. normalize_resolver_path y ≡ ok n)
                      (sym (ap (λ (y : Str × Str). y.0) p)) f,
                )))
          | inr (path, inr i, f) ↦ inr (path, i, f)
        ]
      ])

-- A view finds each file that it was made from, under every path of the same normal form, if all files of that
-- form hold the same.
pub file_lem :
    (root : Str) (files : List (Str × Str)) (view : ResolverFileView)
    (path other normalized contents : Str)
    → new_resolver_file_view root files ≡ ok view
    → In {A = Str × Str} (path, contents) files
    → normalize_resolver_path path ≡ ok normalized
    → Agrees files normalized contents
    → normalize_resolver_path other ≡ ok normalized
    → file view other ≡ some contents
unfolding new_resolver_file_view file
file_lem root files view path other normalized contents h i e agrees f =
    elim (Result-cases (normalize_resolver_path root)) [
      | inr (refusal, r) ↦ ground (arith, h, r)
      | inl (root', r) ↦ elim (Result-cases (add_files [] files)) [
        | inr (refusal, a) ↦ ground (arith, h, r, a)
        | inl (m, a) ↦
            let found =
              lookup-add_files [] files m normalized contents a agrees (inr (path, i, e)) in
            let held : m ≡ view.files = ground (arith, h, r, a) in ground (arith, f, found, held)
      ]
    ]
