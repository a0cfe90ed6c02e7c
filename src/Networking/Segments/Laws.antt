-- ===== src/Networking/Segments/Laws.antt =====
-- The loop over getline against a split by structural recursion, and against joining.
use chat_system.Prelude.{
  ℕ, zero, suc, ◌≤◌, ◌≡◌, refl, sym, ap, ◌∙◌, ◌≢◌, inl, inr, some, List, [], ◌∷◌, ◌++◌, Text,
  length, All, arith, ◌==◌, if◌then◌else◌, Bool-cases,
}
use chat_system.Networking.Segments.{slash, getline, read_segments, parsed_segments}

abbrev cons_first : ℕ → List Text → List Text
cons_first c [] = (c ∷ []) ∷ []
cons_first c (line ∷ lines) = (c ∷ line) ∷ lines

-- The reference: cut at each slash; nothing follows a slash at the end.
abbrev pub split : Text → List Text
split [] = []
split (c ∷ s) = if c == slash then [] ∷ split s else cons_first c (split s)

-- One line of a stream that is not at its end.
abbrev Reads : Text → ℕ → Type 0
Reads s n =
    (line : Text) × (rest : Text) × (getline s ≡ some (line, rest))
    × (split s ≡ line ∷ split rest)
    × (length rest ≤ n)

getline-Reads : (c : ℕ) (s : Text) → Reads (c ∷ s) (length s)
unfolding getline
getline-Reads c [] = elim (Bool-cases (c == slash)) [
  | inl hit ↦ ([], [], rw hit, rw hit, omega arith)
  | inr miss ↦ (c ∷ [], [], rw miss, rw miss, omega arith)
]
getline-Reads c (d ∷ s) =
    let (line, rest, read, cut, short) = getline-Reads d s in
    elim (Bool-cases (c == slash)) [
      | inl hit ↦ ([], d ∷ s, rw hit, rw hit, omega arith)
      | inr miss ↦ (c ∷ line, rest, rw (miss, read), rw (miss, cut), omega arith)
    ]

read_segments-line :
    (fuel : ℕ) (s line rest : Text)
    → getline s ≡ some (line, rest)
    → read_segments (suc fuel) s ≡ line ∷ read_segments fuel rest
unfolding read_segments
read_segments-line fuel s line rest read = rw (read, read_segments)

read_segments-split : (fuel : ℕ) (s : Text) → length s ≤ fuel → read_segments fuel s ≡ split s
unfolding read_segments getline
read_segments-split zero [] h = refl
read_segments-split zero (c ∷ s) h = absurd (omega arith)
read_segments-split (suc fuel) [] h = refl
read_segments-split (suc fuel) (c ∷ s) h =
    let (line, rest, read, cut, short) = getline-Reads c s in
    read_segments-line fuel (c ∷ s) line rest read
    ∙ ap (◌∷◌ line) (read_segments-split fuel rest (omega arith))
    ∙ sym cut

-- The loop ends within its fuel and cuts the stream as the reference does.
pub parsed_segments-split : (s : Text) → parsed_segments s ≡ split s
unfolding parsed_segments
parsed_segments-split s = read_segments-split (length s) s (omega arith)

abbrev pub HasNoSlash : Text → Type 0
HasNoSlash = All (λ c. c ≢ b'/')

abbrev pub join : List Text → Text
join [] = []
join (line ∷ []) = line
join (line ∷ next ∷ lines) = line ++ (slash ∷ join (next ∷ lines))

-- The last segment is not empty: a path that ends in a slash loses an empty one.
abbrev pub EndsFilled : List Text → Type 0
EndsFilled [] = Unit
EndsFilled (line ∷ []) = line ≢ []
EndsFilled (line ∷ next ∷ lines) = EndsFilled (next ∷ lines)

split-line :
    (line rest : Text) → HasNoSlash line → split (line ++ (slash ∷ rest)) ≡ line ∷ split rest
split-line [] rest h = refl
split-line (c ∷ line) rest (here, plain) = ground (arith, split-line line rest plain)

split-last : (c : ℕ) (line : Text) → HasNoSlash (c ∷ line) → split (c ∷ line) ≡ (c ∷ line) ∷ []
split-last c [] h = ground arith
split-last c (d ∷ line) (here, plain) = ground (arith, split-last d line plain)

-- Segments without slashes come back from the path that joins them.
pub parsed_segments-join :
    (lines : List Text)
    → All HasNoSlash lines
    → EndsFilled lines
    → parsed_segments (join lines) ≡ lines
parsed_segments-join lines h e = parsed_segments-split (join lines) ∙ split-join lines h e
  where
    split-join :
        (lines : List Text) → All HasNoSlash lines → EndsFilled lines → split (join lines) ≡ lines
    split-join [] h e = refl
    split-join ([] ∷ []) h e = absurd (e refl)
    split-join ((c ∷ line) ∷ []) (h, _) e = split-last c line h
    split-join (line ∷ next ∷ lines) (h, hs) e =
        split-line line (join (next ∷ lines)) h ∙ ap (◌∷◌ line) (split-join (next ∷ lines) hs e)
