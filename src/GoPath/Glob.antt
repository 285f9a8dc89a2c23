-- ===== src/GoPath/Glob.antt =====
-- `path.Match` on text of ASCII. Its callers ignore the error of a bad pattern, with which the answer is false.
-- A pattern is read into pieces first; Go reads the rest of it for errors where a match has failed.
use agent_graph.Prelude.{
  ℕ, zero, suc, Str, List, [], ◌∷◌, ◌++◌, Option, none, some, Bool, true, false, ◌==◌, nat_eq,
  str_eq, if◌then◌else◌, is_empty, ◌&&◌, ◌||◌, not, leb, length, mem,
}
use mathlib.Core.Bool.{xor}
use agent_graph.GoPath.{slash}

abbrev star_byte : ℕ
star_byte = b'*'

abbrev question : ℕ
question = b'?'

abbrev open_class : ℕ
open_class = b'['

abbrev close_class : ℕ
close_class = b']'

abbrev caret : ℕ
caret = b'^'

abbrev hyphen : ℕ
hyphen = b'-'

abbrev backslash : ℕ
backslash = 0x5c

-- What matches one byte.
pub data Piece : Type 0 where
  literal : ℕ → Piece
  any_byte : Piece
  class : Bool → List (ℕ × ℕ) → Piece

-- A run of pieces, behind a star or not.
pub record Chunk : Type 0 where
  pub star : Bool
  pub pieces : List Piece

abbrev in_ranges : ℕ → List (ℕ × ℕ) → Bool
in_ranges c [] = false
in_ranges c ((lo, hi) ∷ ranges) = (leb lo c && leb c hi) || in_ranges c ranges

abbrev fits : Piece → ℕ → Bool
fits (literal b) c = b == c
fits any_byte c = not (c == slash)
fits (class negated ranges) c = xor (in_ranges c ranges) negated

-- `matchChunk`: what is left of the name.
unfoldable pub match_chunk : List Piece → Str → Option Str
unfolding xor
match_chunk [] name = some name
match_chunk (piece ∷ pieces) [] = none
match_chunk (piece ∷ pieces) (c ∷ name) =
    let rest = match_chunk pieces name in if fits piece c then rest else none

-- The last chunk has to use up the name.
abbrev accepted : Bool → Option Str → Option Str
accepted last none = none
accepted last (some rest) = if last && not (is_empty rest) then none else some rest

-- The first place where the chunk matches; only a star skips bytes, and no slash.
unfoldable pub place_chunk : Bool → List Piece → Bool → Str → Option Str
place_chunk star pieces last [] = accepted last (match_chunk pieces [])
place_chunk star pieces last (c ∷ name) =
    let later = place_chunk star pieces last name in
    elim (accepted last (match_chunk pieces (c ∷ name))) [
      | some rest ↦ some rest
      | none ↦ if star && not (c == slash) then later else none
    ]

unfoldable pub match_chunks : List Chunk → Str → Bool
match_chunks [] name = is_empty name
match_chunks (chunk ∷ chunks) name =
    if chunk.star && is_empty chunk.pieces
    then not (mem slash name)
    else elim (place_chunk chunk.star chunk.pieces (is_empty chunks) name) [
      | none ↦ false
      | some rest ↦ match_chunks chunks rest
    ]

-- `getEsc`: one byte of a class, and something has to follow it.
abbrev get_esc : Str → Option (ℕ × Str)
get_esc [] = none
get_esc (c ∷ []) = none
get_esc (c ∷ d ∷ rest) =
    if c == hyphen || c == close_class
    then none
    else if c == backslash
    then (if is_empty rest then none else some (d, rest))
    else some (c, d ∷ rest)

abbrev get_range : Str → Option ((ℕ × ℕ) × Str)
get_range pattern = elim (get_esc pattern) [
  | none ↦ none
  | some (lo, []) ↦ none
  | some (lo, c ∷ rest) ↦
      if c == hyphen
      then elim (get_esc rest) [ none ↦ none | some (hi, after) ↦ some ((lo, hi), after) ]
      else some ((lo, lo), c ∷ rest)
]

-- The ranges of a class behind its bracket, which needs one at least.
unfoldable pub parse_class : ℕ → List (ℕ × ℕ) → Str → Option (List (ℕ × ℕ) × Str)
parse_class zero ranges pattern = none
parse_class (suc fuel) ranges [] = none
parse_class (suc fuel) ranges (c ∷ pattern) =
    if c == close_class && not (is_empty ranges)
    then some (ranges, pattern)
    else elim (get_range (c ∷ pattern)) [
      | none ↦ none
      | some (range, rest) ↦ parse_class fuel (ranges ++ range ∷ []) rest
    ]

abbrev begin_class : Str → Option (Piece × Str)
begin_class [] = none
begin_class (c ∷ pattern) =
    let negated = c == caret in
    elim (parse_class (suc (length pattern)) [] (if negated then pattern else c ∷ pattern)) [
      | none ↦ none
      | some (ranges, rest) ↦ some (class negated ranges, rest)
    ]

-- One piece of a pattern that does not begin with a star.
unfoldable pub parse_piece : ℕ → Str → Option (Piece × Str)
parse_piece c pattern =
    if c == open_class
    then begin_class pattern
    else if c == question
    then some (any_byte, pattern)
    else if c == backslash
    then elim pattern [ [] ↦ none | d ∷ rest ↦ some (literal d, rest) ]
    else some (literal c, pattern)

abbrev push_piece : Piece → List Chunk → List Chunk
push_piece piece [] = record { star = false; pieces = piece ∷ [] } ∷ []
push_piece piece (chunk ∷ chunks) =
    if chunk.star
    then record { star = false; pieces = piece ∷ [] } ∷ chunk ∷ chunks
    else record { star = false; pieces = piece ∷ chunk.pieces } ∷ chunks

-- Stars in a row are one.
abbrev push_star : List Chunk → List Chunk
push_star [] = record { star = true; pieces = [] } ∷ []
push_star (chunk ∷ chunks) =
    if chunk.star then chunk ∷ chunks else record { star = true; pieces = chunk.pieces } ∷ chunks

-- Every round takes a byte off the pattern, so its length is fuel enough.
unfoldable pub parse_chunks : ℕ → Str → Option (List Chunk)
parse_chunks fuel [] = some []
parse_chunks zero (c ∷ pattern) = none
parse_chunks (suc fuel) (c ∷ pattern) = elim (c == star_byte) [
  | true ↦ elim (parse_chunks fuel pattern) [ none ↦ none | some chunks ↦ some (push_star chunks) ]
  | false ↦ elim (parse_piece c pattern) [
    | none ↦ none
    | some (piece, rest) ↦ elim (parse_chunks fuel rest) [
      | none ↦ none
      | some chunks ↦ some (push_piece piece chunks)
    ]
  ]
]

-- `path.Match`.
unfoldable pub path_match : Str → Str → Bool
path_match pattern name = elim (parse_chunks (length pattern) pattern) [
  | none ↦ false
  | some chunks ↦ match_chunks chunks name
]
