-- ===== src/Networking/Segments.antt =====
-- std::getline with the delimiter, as router.cpp splits paths and templates by it.
pub mod Laws
use chat_system.Prelude.{
  ℕ, zero, suc, ◌+◌, ◌-◌, ◌*◌, ◌/◌, ◌%◌, ◌≤◌, ◌<◌, min, ◌≡◌, refl, sym, ap, ◌∙◌, ◌≢◌, ◌↔◌, ◌⊎◌, inl,
  inr, Bool, true, false, not, ◌&&◌, ◌||◌, Option, none, some, List, [], ◌∷◌, ◌++◌, map, append-nil,
  append_assoc, String, Text, codes, text_eq, text_eq_iff, text_eq_refl, length, set, take, drop,
  replicate, All, length-append, length-set, length-take, length-replicate, arith, ltb, leb, ◌==◌,
  if◌then◌else◌, Bool-cases, Option-cases, ltb→lt, lt→ltb, leb→le, ==_iff, tests,
}

abbrev pub slash : ℕ
slash = b'/'

abbrev extend : ℕ → Option (Text × Text) → Option (Text × Text)
extend c none = some (c ∷ [], [])
extend c (some (line, rest)) = some (c ∷ line, rest)

-- One call on the rest of a stream: the line read and what remains, or failure at the end.
getline : Text → Option (Text × Text)
getline [] = none
getline (c ∷ s) = if c == slash then some ([], s) else extend c (getline s)

-- `while (std::getline(stream, segment, '/')) push_back(segment)`, with fuel.
read_segments : ℕ → Text → List Text
read_segments zero s = []
read_segments (suc fuel) s = elim (getline s) [
  | none ↦ []
  | some (line, rest) ↦ line ∷ read_segments fuel rest
]

-- Each round takes a character at least, so the stream's length is fuel enough.
unfoldable pub parsed_segments : Text → List Text
unfolding read_segments getline
parsed_segments s = read_segments (length s) s

-- DiscardLeadingEmptyString: the stream behind a leading slash.
unfoldable pub discard_leading_empty_string : Text → Text
discard_leading_empty_string [] = []
discard_leading_empty_string (c ∷ s) = if c == slash then s else c ∷ s
