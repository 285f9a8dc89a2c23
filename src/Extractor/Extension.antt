-- ===== src/Extractor/Extension.antt =====
-- extractor/contracts.go: normalizeExtension and Extension.
use agent_graph.Prelude.{
  Str, [], ◌∷◌, true, ◌==◌, str_eq, ◌≡◌, refl, ap, arith, ◌⊎◌, inl, inr, if◌then◌else◌, not, ◌∙◌,
  nat_eq, if_ind,
}
use agent_graph.GoPath.{dot, has_prefix}
use agent_graph.GoStrings.{trim_left, trim_right, trim_space, to_lower, ext}
use agent_graph.GoStrings.Trim.{to_lower-to_lower, trim_right-trim_right, trim_right-to_lower}

abbrev pub dotted : Str → Str
dotted normalized =
    if normalized == []
    then []
    else if not (has_prefix normalized dot)
    then b'.' ∷ normalized
    else normalized

unfoldable pub normalize_extension : Str → Str
normalize_extension extension = dotted (to_lower (trim_space extension))

unfoldable pub extension : Str → Str
extension path = normalize_extension (ext path)

-- A normal extension: it starts with a dot, is lower case, and ends in no space.
record IsNormal (e : Str) : Type 0 where
  starts : has_prefix e dot ≡ true
  lowered : to_lower e ≡ e
  trimmed : trim_right e ≡ e

trim_left-dot : (e : Str) → has_prefix e dot ≡ true → trim_left e ≡ e
unfolding trim_left has_prefix
trim_left-dot [] h = refl
trim_left-dot (c ∷ e) h = ground (arith, h)

dotted-dot : (e : Str) → has_prefix e dot ≡ true → dotted e ≡ e
unfolding has_prefix
dotted-dot [] h = ground (arith, h)
dotted-dot (c ∷ e) h = ground (arith, h)

normalize-IsNormal : (e : Str) → IsNormal e → normalize_extension e ≡ e
unfolding normalize_extension trim_space
normalize-IsNormal e n = rw (trim_left-dot e n.starts, n.trimmed, n.lowered) (dotted-dot e n.starts)

dotted-cases : (n : Str) → to_lower n ≡ n → trim_right n ≡ n → (dotted n ≡ []) ⊎ IsNormal (dotted n)
dotted-cases n l t =
    if_ind (λ x. (x ≡ []) ⊎ IsNormal x) (n == []) (λ _. inl refl)
      (λ filled.
        if_ind (λ x. (x ≡ []) ⊎ IsNormal x) (not (has_prefix n dot)) {x = b'.' ∷ n} {y = n}
          (λ _. inr (record {
            starts = unfold has_prefix in ground arith;
            lowered = ap (λ r. b'.' ∷ r) l;
            trimmed = unfold trim_right in rw t (ground arith);
          }))
          (λ h. inr (record { starts = ground (arith, h); lowered = l; trimmed = t })))

normalize_extension-cases :
    (e : Str) → (normalize_extension e ≡ []) ⊎ IsNormal (normalize_extension e)
unfolding normalize_extension trim_space
normalize_extension-cases e =
    dotted-cases (to_lower (trim_right (trim_left e)))
      (to_lower-to_lower (trim_right (trim_left e)))
      (trim_right-to_lower (trim_right (trim_left e))
        ∙ ap to_lower (trim_right-trim_right (trim_left e)))

normalize_nothing : normalize_extension [] ≡ []
unfolding normalize_extension trim_space trim_left trim_right
normalize_nothing = ground arith

-- Normalising an extension twice is normalising it once.
pub normalize_extension-normalize_extension :
    (e : Str) → normalize_extension (normalize_extension e) ≡ normalize_extension e
normalize_extension-normalize_extension e = elim (normalize_extension-cases e) [
  | inl p ↦ rw p normalize_nothing
  | inr n ↦ normalize-IsNormal (normalize_extension e) n
]
