-- ===== src/Graph/Identity.antt =====
-- graph/facts.go: NewNodeID and the bytes that it hashes. SHA-256 is a parameter.
use agent_graph.Prelude.{
  ℕ, zero, suc, ◌+◌, ◌-◌, ◌%◌, ◌/◌, ◌^◌, Str, [], ◌∷◌, ◌++◌, length, if◌then◌else◌, ltb,
}
use agent_graph.Prelude.Int.{ℤ, pos, negsuc}
use agent_graph.Graph.Types.{SourceSpan}

-- The `width` low bytes of a number, the highest first: `PutUint32` and `PutUint64`.
unfoldable pub big_endian : ℕ → ℕ → Str
big_endian zero n = []
big_endian (suc width) n = big_endian width (n / 256) ++ (n % 256) ∷ []

-- The conversion `uint64(value)` of an `int`.
unfoldable pub to_uint64 : ℤ → ℕ
to_uint64 (pos n) = n % 2 ^ 64
to_uint64 (negsuc n) = 2 ^ 64 - 1 - n % 2 ^ 64

-- What `writeIdentityString` and `writeIdentityInt` add to the hash. `PutUint32` stores the length
-- modulo 2^32.
unfoldable pub identity_string : Str → Str
identity_string value = big_endian 4 (length value % 2 ^ 32) ++ value

unfoldable pub identity_int : ℤ → Str
identity_int value = big_endian 8 (to_uint64 value)

unfoldable pub identity : Str → SourceSpan → Str
identity kind span =
    identity_string kind
    ++ (identity_string span.path
        ++ (identity_int span.start_line
            ++ (identity_int span.start_column
                ++ (identity_int span.end_line ++ identity_int span.end_column))))

unfoldable pub hex_digit : ℕ → ℕ
hex_digit n = if ltb n 10 then n + b'0' else n + 87

-- `hex.EncodeToString`.
unfoldable pub hex : Str → Str
hex [] = []
hex (b ∷ bs) = hex_digit (b / 16) ∷ hex_digit (b % 16) ∷ hex bs

module _ (sha256 : Str → Str) where
  unfoldable pub new_node_id : Str → SourceSpan → Str
  new_node_id kind span = kind ++ (b':' ∷ hex (sha256 (identity kind span)))
