-- ===== src/Workspace/GitIgnore/Parents.antt =====
-- workspace/discovery.go: the loop of gitIgnored over the directories above a path.
use agent_graph.Prelude.{
  ℕ, zero, suc, Str, Bool, some, ◌||◌, ◌==◌, str_eq, Option-cases, List, [], ◌∷◌, true, false, ◌≡◌,
  arith, In, All, ◌↔◌, ◌⊎◌, inl, inr, Bool-cases, subst, sym, refl,
}
use mathlib.Core.List.{reverse}
use agent_graph.GoPath.{dot, join_components}
use agent_graph.GoPath.Resolve.{Proper}
use agent_graph.GoPath.Parent.{dir, parents, parents_of_dir, front_paths}
use agent_graph.Workspace.{GitIgnoreRule}
use agent_graph.Workspace.GitIgnore.{git_ignored_path, directory_ignored, git_ignored}

abbrev any_directory_ignored : List Str → List GitIgnoreRule → Bool
any_directory_ignored [] rules = false
any_directory_ignored (d ∷ ds) rules =
    git_ignored_path d true rules || any_directory_ignored ds rules

any_directory_ignored_iff :
    (ds : List Str) (rules : List GitIgnoreRule)
    → (any_directory_ignored ds rules ≡ true)
      ↔ ((d : Str) × In d ds × (git_ignored_path d true rules ≡ true))
any_directory_ignored_iff [] rules = (λ h. absurd (ground arith), λ h. absurd h.1)
any_directory_ignored_iff (d ∷ ds) rules = (
  λ h. elim (Bool-cases (git_ignored_path d true rules)) [
    | inl t ↦ (d, inl refl, t)
    | inr f ↦
        let (e, i, g) = (any_directory_ignored_iff ds rules).0 (ground (arith, f, h)) in
        (e, inr i, g)
  ],
  λ (e, i, g). elim i [
    | inl p ↦ let here = subst (λ a. git_ignored_path a true rules ≡ true) (sym p) g in ground arith
    | inr j ↦ let rest = (any_directory_ignored_iff ds rules).1 (e, j, g) in ground arith
  ],
)

-- The rounds that reach `.` answer for the directories on the way.
directory_ignored-parents :
    (fuel : ℕ) (d : Str) (rules : List GitIgnoreRule) {ds : List Str}
    → parents fuel d ≡ some ds
    → directory_ignored fuel d rules ≡ some (any_directory_ignored ds rules)
unfolding directory_ignored parents
directory_ignored-parents zero d rules h = cc
directory_ignored-parents (suc fuel) d rules {ds} h = elim (Bool-cases (d == dot)) [
  | inl t ↦
      let none_above : [] ≡ ds = ground (arith, t, h) in
      subst (λ x. directory_ignored (suc fuel) d rules ≡ some (any_directory_ignored x rules))
        none_above (ground (arith, t))
  | inr f ↦ elim (Option-cases (parents fuel (dir d))) [
    | inl n ↦ absurd (ground (arith, f, n, h))
    | inr (rest, e) ↦
        let whole : d ∷ rest ≡ ds = ground (arith, f, e, h) in
        let above = directory_ignored-parents fuel (dir d) rules e in
        subst (λ x. directory_ignored (suc fuel) d rules ≡ some (any_directory_ignored x rules))
          whole (ground (arith, f, above))
  ]
]

-- The loop of `gitIgnored` over the parents ends, with an answer, for every relative path of names (last name first
-- here). The answer is yes exactly when the rules ignore the path as a file or ignore, as a directory, a path of some
-- of its first names.
pub git_ignored_iff :
    (x : Str) (rs : List Str) (rules : List GitIgnoreRule)
    → All Proper (x ∷ rs)
    → (ignored : Bool) × (git_ignored (join_components (reverse (x ∷ rs))) rules ≡ some ignored)
      × ((ignored ≡ true) ↔ (
          ((d : Str) × In d (front_paths rs) × (git_ignored_path d true rules ≡ true))
          ⊎ (git_ignored_path (join_components (reverse (x ∷ rs))) false rules ≡ true)))
unfolding git_ignored
git_ignored_iff x rs rules h =
    let path = join_components (reverse (x ∷ rs)) in
    let above = directory_ignored-parents _ (dir path) rules (parents_of_dir x rs h) in
    (
      any_directory_ignored (front_paths rs) rules || git_ignored_path path false rules,
      ground (arith, above),
      ground (arith, any_directory_ignored_iff (front_paths rs) rules),
    )
