-- ===== src/Graph/Distinguish.antt =====
-- graph/facts.go: the bytes that NewNodeID hashes determine the kind and the span.
use agent_graph.Prelude.{
  ℕ, zero, suc, ◌%◌, ◌/◌, ◌^◌, ◌*◌, ◌<◌, Str, [], ◌∷◌, ◌++◌, length, ◌≡◌, refl, arith,
  length-append, append-injective, ap, ◌≢◌, ◌⊎◌, inl, inr, Str-discrete,
}
use agent_graph.Prelude.Int.{ℤ, pos, negsuc}
use agent_graph.Graph.Types.{SourceSpan}
use agent_graph.Graph.Identity.{
  big_endian, to_uint64, identity_string, identity_int, identity, hex_digit, hex, new_node_id,
}
use native.Mathlib.Nat.{pow-suc}
use mathlib.Core.List.{append_assoc, append-nil}

length-big_endian : (width n : ℕ) → length (big_endian width n) ≡ width
unfolding big_endian
length-big_endian zero n = refl
length-big_endian (suc width) n = omega (
  arith,
  length-append (big_endian width (n / 256)) ((n % 256) ∷ []),
  length-big_endian width (n / 256),
)

big_endian-injective :
    (width n m : ℕ)
    → n < 256 ^ width
    → m < 256 ^ width
    → big_endian width n ≡ big_endian width m
    → n ≡ m
unfolding big_endian
big_endian-injective zero n m hn hm h = omega arith
big_endian-injective (suc width) n m hn hm h =
    let (high, low) =
      append-injective (big_endian width (n / 256)) (big_endian width (m / 256)) _ _
        (omega (arith, length-big_endian width (n / 256), length-big_endian width (m / 256))) h in
    let e : n / 256 ≡ m / 256 =
      big_endian-injective width (n / 256) (m / 256) (omega (arith, pow-suc 256 width))
        (omega (arith, pow-suc 256 width)) high in
    let l : n % 256 ≡ m % 256 = cc in omega arith

-- The values of a 64-bit `int`.
abbrev pub IsInt64 : ℤ → Type 0
IsInt64 (pos n) = n < 2 ^ 63
IsInt64 (negsuc n) = n < 2 ^ 63

to_uint64-injective : (a b : ℤ) → IsInt64 a → IsInt64 b → to_uint64 a ≡ to_uint64 b → a ≡ b
unfolding to_uint64
to_uint64-injective a b ha hb h = ground arith

to_uint64-lt : (a : ℤ) → to_uint64 a < 2 ^ 64
unfolding to_uint64
to_uint64-lt (pos n) = omega arith
to_uint64-lt (negsuc n) = omega arith

identity_string-injective :
    (a b s t : Str)
    → length a < 2 ^ 32
    → length b < 2 ^ 32
    → identity_string a ++ s ≡ identity_string b ++ t
    → (a ≡ b) × (s ≡ t)
unfolding identity_string
identity_string-injective a b s t ha hb h =
    let size_of : Str → Str = λ v. big_endian 4 (length v % 2 ^ 32) in
    let (sizes, rest) =
      append-injective (size_of a) (size_of b) (a ++ s) (b ++ t)
        (omega
          (arith, length-big_endian 4 (length a % 2 ^ 32), length-big_endian 4 (length b % 2 ^ 32)))
        (simp append_assoc at h) in
    let same : length a % 2 ^ 32 ≡ length b % 2 ^ 32 =
      big_endian-injective 4 _ _ (omega arith) (omega arith) sizes in
    append-injective a b s t (omega arith) rest

identity_int-injective :
    (a b : ℤ) (s t : Str)
    → IsInt64 a
    → IsInt64 b
    → identity_int a ++ s ≡ identity_int b ++ t
    → (a ≡ b) × (s ≡ t)
unfolding identity_int
identity_int-injective a b s t ha hb h =
    let (p, q) =
      append-injective (identity_int a) (identity_int b) s t
        (omega (arith, length-big_endian 8 (to_uint64 a), length-big_endian 8 (to_uint64 b))) h in
    (
      to_uint64-injective a b ha hb
          (big_endian-injective 8 _ _ (to_uint64-lt a) (to_uint64-lt b) p),
      q,
    )

-- A span that Go's `int` can hold, of a kind and a path of less than 4 GiB.
pub record Fits (kind : Str) (span : SourceSpan) : Type 0 where
  pub kind_length : length kind < 2 ^ 32
  pub path_length : length span.path < 2 ^ 32
  pub start_line : IsInt64 span.start_line
  pub start_column : IsInt64 span.start_column
  pub end_line : IsInt64 span.end_line
  pub end_column : IsInt64 span.end_column

-- The hashed bytes determine the kind and the span, of strings below 4 GiB and 64-bit numbers.
pub identity-injective :
    (kind kind' : Str) (span span' : SourceSpan)
    → Fits kind span
    → Fits kind' span'
    → identity kind span ≡ identity kind' span'
    → (kind ≡ kind') × (span ≡ span')
unfolding identity
identity-injective kind kind' span span' f g h =
    let (k, h₁) = identity_string-injective kind kind' _ _ f.kind_length g.kind_length h in
    let (p, h₂) =
      identity_string-injective span.path span'.path _ _ f.path_length g.path_length h₁ in
    let (a, h₃) = identity_int-injective _ _ _ _ f.start_line g.start_line h₂ in
    let (b, h₄) = identity_int-injective _ _ _ _ f.start_column g.start_column h₃ in
    let (c, h₅) = identity_int-injective _ _ _ _ f.end_line g.end_line h₄ in
    let (d, _) =
      identity_int-injective span.end_column span'.end_column [] [] f.end_column g.end_column
        (simp append-nil h₅) in
    (k, cc)

hex_digit-injective : (a b : ℕ) → hex_digit a ≡ hex_digit b → a ≡ b
unfolding hex_digit
hex_digit-injective a b h = ground arith

hex-injective : (s t : Str) → hex s ≡ hex t → s ≡ t
unfolding hex
hex-injective [] [] h = refl
hex-injective [] (b ∷ t) h = cc
hex-injective (a ∷ s) [] h = cc
hex-injective (a ∷ s) (b ∷ t) h =
    let high = hex_digit-injective (a / 16) (b / 16) (cc) in
    let low = hex_digit-injective (a % 16) (b % 16) (cc) in
    let e : a ≡ b = omega arith in cc (hex-injective s t (cc), e)

length-hex : (s : Str) → length (hex s) ≡ 2 * length s
unfolding hex
length-hex [] = omega arith
length-hex (b ∷ s) = omega (arith, length-hex s)

-- Two inputs on which a hash function agrees.
abbrev pub Collision : (Str → Str) → Type 0
Collision hash = (a : Str) × (b : Str) × (a ≢ b) × (hash a ≡ hash b)

-- Equal node ids come from equal kinds, and from equal spans unless the hash collides: for a hash of 32
-- bytes, kinds and paths below 4 GiB and positions of 64 bits.
pub new_node_id-injective :
    (sha256 : Str → Str)
    → ((message : Str) → length (sha256 message) ≡ 32)
    → (kind kind' : Str) (span span' : SourceSpan) → Fits kind span
    → Fits kind' span'
    → new_node_id sha256 kind span ≡ new_node_id sha256 kind' span'
    → (kind ≡ kind') × ((span ≡ span') ⊎ Collision sha256)
unfolding new_node_id
new_node_id-injective sha256 sized kind kind' span span' f g h =
    let digest : Str = sha256 (identity kind span) in
    let digest' : Str = sha256 (identity kind' span') in
    let (same_kind, tails) =
      append-injective kind kind' (b':' ∷ hex digest) (b':' ∷ hex digest')
        (omega (
          arith,
          ap length h,
          length-append kind (b':' ∷ hex digest),
          length-append kind' (b':' ∷ hex digest'),
          length-hex digest,
          length-hex digest',
          sized (identity kind span),
          sized (identity kind' span'),
        ))
        h in
    let same_digest = hex-injective digest digest' (cc) in
    elim (Str-discrete (identity kind span) (identity kind' span')) [
      | yes e ↦ (same_kind, inl (identity-injective kind kind' span span' f g e).1)
      | no differ ↦ (same_kind, inr (identity kind span, identity kind' span', differ, same_digest))
    ]
