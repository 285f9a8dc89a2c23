-- ===== src/Sqlite/Publication/Greatest.antt =====
-- storage/sqlite/sqlite.go: the greatest version of a workspace, behind pruning and going back.
use agent_graph.Prelude.{
  ℕ, suc, ◌≤◌, ◌<◌, Str, List, [], ◌∷◌, true, ◌≡◌, ◌≢◌, refl, arith, Str-discrete, str_eq, nat_eq,
  is_some,
}
use agent_graph.Sqlite.Tables.{VersionRow, delete_where}
use agent_graph.Sqlite.Versions.{max_version, find_version}
use agent_graph.Sqlite.Publication.{version_below, version_above, record_version}

pub find_version-le :
    (workspace : Str) (version : ℕ) (rows : List VersionRow)
    → is_some (find_version workspace version rows) ≡ true
    → version ≤ max_version workspace rows
unfolding find_version max_version
find_version-le workspace version [] h = absurd (ground arith)
find_version-le workspace version (row ∷ rows) h =
    ground (arith, h, find_version-le workspace version rows)

-- Of the versions below the greatest any may go.
max_version-below :
    (workspace : Str) (first : ℕ) (rows : List VersionRow)
    → (first ≤ max_version workspace rows
        → max_version workspace (delete_where (version_below workspace first) rows)
          ≡ max_version workspace rows)
      × (max_version workspace rows < first
          → max_version workspace (delete_where (version_below workspace first) rows) ≡ 0)
unfolding max_version delete_where
max_version-below workspace first [] = (λ h. refl, λ h. refl)
max_version-below workspace first (row ∷ rows) =
    let (p, q) = max_version-below workspace first rows in ground (arith, p, q)

max_version-below_other :
    (workspace other : Str) (first : ℕ) (rows : List VersionRow)
    → other ≢ workspace
    → max_version other (delete_where (version_below workspace first) rows) ≡ max_version other rows
unfolding max_version delete_where
max_version-below_other workspace other first [] n = refl
max_version-below_other workspace other first (row ∷ rows) n =
    ground (arith, n, max_version-below_other workspace other first rows n)

pub max_version-pruned :
    (workspace other : Str) (first : ℕ) (rows : List VersionRow)
    → is_some (find_version workspace first rows) ≡ true
    → max_version other (delete_where (version_below workspace first) rows) ≡ max_version other rows
max_version-pruned workspace other first rows found = elim (Str-discrete other workspace) [
  | yes e ↦ ground (
    arith,
    e,
    (max_version-below workspace first rows).0 (find_version-le workspace first rows found),
  )
  | no n ↦ max_version-below_other workspace other first rows n
]

max_version-above :
    (workspace : Str) (last : ℕ) (rows : List VersionRow)
    → (max_version workspace (delete_where (version_above workspace last) rows) ≤ last)
      × (is_some (find_version workspace last rows) ≡ true
          → last ≤ max_version workspace (delete_where (version_above workspace last) rows))
unfolding max_version delete_where find_version
max_version-above workspace last [] = (omega arith, λ h. absurd (ground arith))
max_version-above workspace last (row ∷ rows) =
    let (p, q) = max_version-above workspace last rows in ground (arith, p, q)

pub max_version-rolled_back :
    (workspace : Str) (last : ℕ) (rows : List VersionRow)
    → is_some (find_version workspace last rows) ≡ true
    → max_version workspace (delete_where (version_above workspace last) rows) ≡ last
max_version-rolled_back workspace last rows found =
    let (p, q) = max_version-above workspace last rows in omega (arith, p, q found)

pub max_version-rolled_back_other :
    (workspace other : Str) (last : ℕ) (rows : List VersionRow)
    → other ≢ workspace
    → max_version other (delete_where (version_above workspace last) rows) ≡ max_version other rows
unfolding max_version delete_where
max_version-rolled_back_other workspace other last [] n = refl
max_version-rolled_back_other workspace other last (row ∷ rows) n =
    ground (arith, n, max_version-rolled_back_other workspace other last rows n)

pub max_version-record_version :
    (workspace time : Str) (rows : List VersionRow)
    → max_version workspace (record_version workspace (suc (max_version workspace rows)) time rows)
      ≡ suc (max_version workspace rows)
unfolding max_version
max_version-record_version workspace time rows = ground arith

pub max_version-record_version_le :
    (workspace other time : Str) (new : ℕ) (rows : List VersionRow)
    → max_version other rows ≤ max_version other (record_version workspace new time rows)
unfolding max_version
max_version-record_version_le workspace other time new rows = ground arith
