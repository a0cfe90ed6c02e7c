-- ===== src/Services/Auth/Tags.antt =====
-- GenerateUniqueTag: which of the hundred tags that it draws it returns.
use chat_system.Prelude.{
  ℕ, zero, suc, ◌+◌, ◌≤◌, ◌<◌, ◌≡◌, refl, ap, ◌∙◌, ◌≢◌, inl, inr, none, Text, codes, arith, ◌==◌,
  Bool-cases, Option-cases, ==_iff,
}
use chat_system.Exceptions.{returns, throws, runtime_error}
use chat_system.Domain.Tag
use chat_system.Domain.Tag.{UserTag}
use chat_system.Repositories.Store.{Db, find_by_tag}
use chat_system.Services.Auth.{Draws, try_tag, try_tags, max_retries, generate_unique_tag}

-- The tag of pass number i.
abbrev pub drawn_tag : Draws → Text → ℕ → UserTag
drawn_tag draws login i = Tag.generate_from_login login (draws.tag_number i)

try_tags-free :
    (draws : Draws) (login : Text) (i left : ℕ) (db : Db)
    → find_by_tag db (drawn_tag draws login i) ≡ none
    → try_tags draws login i (suc left) db ≡ returns (drawn_tag draws login i)
unfolding try_tags try_tag
try_tags-free draws login i left db free =
    ap (λ o. try_tag o (drawn_tag draws login i) (try_tags draws login (suc i) left db)) free

try_tags-next :
    (draws : Draws) (login : Text) (i left : ℕ) (db : Db)
    → find_by_tag db (drawn_tag draws login i) ≢ none
    → try_tags draws login i (suc left) db ≡ try_tags draws login (suc i) left db
unfolding try_tags try_tag
try_tags-next draws login i left db taken =
    elim (Option-cases (find_by_tag db (drawn_tag draws login i))) [
      | inl none_left ↦ absurd (taken none_left)
      | inr (u, there) ↦
          ap (λ o. try_tag o (drawn_tag draws login i) (try_tags draws login (suc i) left db)) there
    ]

try_tags_first :
    (draws : Draws) (login : Text) (i k left : ℕ) (db : Db)
    → i ≤ k
    → k < i + left
    → ((j : ℕ) → i ≤ j → j < k → find_by_tag db (drawn_tag draws login j) ≢ none)
    → find_by_tag db (drawn_tag draws login k) ≡ none
    → try_tags draws login i left db ≡ returns (drawn_tag draws login k)
try_tags_first draws login i k zero db order room earlier free = absurd (omega arith)
try_tags_first draws login i k (suc left) db order room earlier free = elim (Bool-cases (i == k)) [
  | inl e ↦
      let same = (==_iff i k).0 e in
      try_tags-free draws login i left db
        (ap (λ n. find_by_tag db (drawn_tag draws login n)) same ∙ free)
      ∙ ap (λ n. returns (drawn_tag draws login n)) same
  | inr e ↦
      let below : i < k = ground arith in
      try_tags-next draws login i left db (earlier i (omega arith) below)
      ∙ try_tags_first draws login (suc i) k left db (omega (arith, below)) (omega arith)
          (λ j low high. earlier j (omega arith) high) free
]

-- GenerateUniqueTag returns the first of its hundred tags that no user has.
pub generate_unique_tag_first :
    (draws : Draws) (login : Text) (k : ℕ) (db : Db)
    → k < max_retries
    → ((j : ℕ) → j < k → find_by_tag db (drawn_tag draws login j) ≢ none)
    → find_by_tag db (drawn_tag draws login k) ≡ none
    → generate_unique_tag draws login db ≡ returns (drawn_tag draws login k)
unfolding generate_unique_tag
generate_unique_tag_first draws login k db room earlier free =
    try_tags_first draws login 0 k max_retries db (omega arith) (omega arith)
      (λ j low high. earlier j high) free

try_tags_taken :
    (draws : Draws) (login : Text) (i left : ℕ) (db : Db)
    → ((j : ℕ) → i ≤ j → j < i + left → find_by_tag db (drawn_tag draws login j) ≢ none)
    → try_tags draws login i left db
      ≡ throws (runtime_error (codes "Failed to generate unique tag after 100 attempts"))
unfolding try_tags
try_tags_taken draws login i zero db taken = refl
try_tags_taken draws login i (suc left) db taken =
    try_tags-next draws login i left db (taken i (omega arith) (omega arith))
    ∙ try_tags_taken draws login (suc i) left db λ j low high. taken j (omega arith) (omega arith)

-- GenerateUniqueTag throws when users have all of its hundred tags.
pub generate_unique_tag_taken :
    (draws : Draws) (login : Text) (db : Db)
    → ((j : ℕ) → j < max_retries → find_by_tag db (drawn_tag draws login j) ≢ none)
    → generate_unique_tag draws login db
      ≡ throws (runtime_error (codes "Failed to generate unique tag after 100 attempts"))
unfolding generate_unique_tag
generate_unique_tag_taken draws login db taken =
    try_tags_taken draws login 0 max_retries db λ j low high. taken j (omega arith)
