-- ===== src/Services/User/Pages.antt =====
-- The pages that Search returns.
use chat_system.Prelude.{
  ℕ, zero, suc, ◌+◌, ◌≤◌, ◌<◌, ◌%◌, ◌≡◌, refl, sym, ap, ◌∙◌, false, List, [], ◌∷◌, ◌++◌, map,
  append-nil, append_assoc, Text, text_eq_iff, length, take, drop, length-append, length-take,
  arith, ltb, ◌&&◌, if◌then◌else◌, true,
}
use chat_system.Exceptions.{Exception, Result, returns, throws, ◌>>=◌, ◌>>◌}
use chat_system.Domain.User.{User}
use chat_system.Repositories.Rows.{taken, keep, delete, Distinct}
use chat_system.Repositories.Rows.Updates.{delete-absent}
use chat_system.Repositories.Store.{user_id}
use chat_system.Services.User.{
  UserProfile, map_to_profile, size_modulus, int_modulus, search_rows, collect, search,
}

take-nil : (n : ℕ) → take {A = User} n [] ≡ []
take-nil zero = refl
take-nil (suc n) = refl

collect-take :
    (limit : ℕ) (self : Text) (users : List User) (profiles : List UserProfile) (room : ℕ)
    → length profiles + room ≡ limit
    → collect limit self users profiles
      ≡ profiles ++ map map_to_profile (take room (delete user_id self users))
unfolding collect delete keep
collect-take limit self [] profiles room h =
    sym (append-nil profiles) ∙ ap (λ us. profiles ++ map map_to_profile us) (sym (take-nil room))
collect-take limit self (user ∷ users) profiles zero h = ground (arith, append-nil profiles)
collect-take limit self (user ∷ users) profiles (suc room) h = ground (
  arith,
  collect-take limit self users profiles (suc room) h,
  collect-take limit self users (profiles ++ (map_to_profile user ∷ [])) room,
  length-append profiles (map_to_profile user ∷ []),
  append_assoc profiles (map_to_profile user ∷ [])
      (map map_to_profile (take room (delete user_id self users))),
)

-- With different ids, a user's own row is at most one.
length-delete :
    (self : Text) (users : List User)
    → Distinct user_id users
    → length users ≤ length (delete user_id self users) + 1
unfolding delete keep taken
length-delete self [] h = omega arith
length-delete self (user ∷ users) (h, hs) =
    ground (
      arith,
      length-delete self users hs,
      delete-absent user_id self users,
      text_eq_iff user.id self,
    )

taken-drop :
    (x : Text) (n : ℕ) (users : List User)
    → taken user_id x users ≡ false
    → taken user_id x (drop n users) ≡ false
unfolding taken
taken-drop x zero users h = h
taken-drop x (suc n) [] h = h
taken-drop x (suc n) (u ∷ users) h = taken-drop x n users (ground arith)

taken-take :
    (x : Text) (n : ℕ) (users : List User)
    → taken user_id x users ≡ false
    → taken user_id x (take n users) ≡ false
unfolding taken
taken-take x zero users h = refl
taken-take x (suc n) [] h = h
taken-take x (suc n) (u ∷ users) h = ground (arith, taken-take x n users)

Distinct-drop :
    (n : ℕ) (users : List User) → Distinct user_id users → Distinct user_id (drop n users)
Distinct-drop zero users h = h
Distinct-drop (suc n) [] h = h
Distinct-drop (suc n) (u ∷ users) (h, hs) = Distinct-drop n users hs

Distinct-take :
    (n : ℕ) (users : List User) → Distinct user_id users → Distinct user_id (take n users)
Distinct-take zero users h = tt
Distinct-take (suc n) [] h = h
Distinct-take (suc n) (u ∷ users) (h, hs) = (taken-take u.id n users h, Distinct-take n users hs)

length-map_profile : (us : List User) → length (map map_to_profile us) ≡ length us
length-map_profile [] = refl
length-map_profile (u ∷ us) = ap suc (length-map_profile us)

-- When limit + 1 and the offset fit an int64_t, Search throws what the reservation of the profiles
-- throws, or returns the profiles of the first rows of its window of limit + 1 matching rows that
-- are not the requesting user's, up to the limit.
pub search-take :
    (refused : Exception) (reserve : ℕ → Result (Unit {0})) (matching : List User) (self : Text)
    (limit offset : ℕ)
    → limit + 1 < int_modulus
    → offset < int_modulus
    → search refused reserve matching self limit offset ≡ (
        reserve limit
        >> returns (
            map map_to_profile
              (take limit (delete user_id self (take (limit + 1) (drop offset matching))))))
unfolding search search_rows
search-take refused reserve matching self limit offset room low =
    let small : (limit + 1) % size_modulus ≡ limit + 1 = omega (arith, room) in
    let bound : (ltb (limit + 1) int_modulus && ltb offset int_modulus) ≡ true =
      ground (arith, room, low) in
    ap
      (λ n.
        (if ltb n int_modulus && ltb offset int_modulus
          then returns (take n (drop offset matching))
          else throws refused)
        >>= λ users. reserve limit >> returns (collect limit self users []))
      small
    ∙ ap
        (λ b.
          (if b then returns (take (limit + 1) (drop offset matching)) else throws refused)
          >>= λ users. reserve limit >> returns (collect limit self users []))
        bound
    ∙ ap (λ ps. reserve limit >> returns ps) (collect-take limit self _ [] limit (omega arith))

-- When limit + 1 and the offset fit an int64_t, the vector gets room for the limit, the matching rows
-- have different ids and more of them than the limit are left behind the offset, Search returns
-- exactly as many profiles as the limit, although the requesting user may be among the rows.
pub search_full :
    (refused : Exception) (reserve : ℕ → Result (Unit {0})) (matching : List User) (self : Text)
    (limit offset : ℕ)
    → reserve limit ≡ returns tt
    → limit + 1 < int_modulus
    → offset < int_modulus
    → Distinct user_id matching
    → limit < length (drop offset matching)
    → (profiles : List UserProfile) × (search refused reserve matching self limit offset
        ≡ returns profiles)
      × (length profiles ≡ limit)
search_full refused reserve matching self limit offset reserved room low distinct more =
    let window = take (limit + 1) (drop offset matching) in
    let kept =
      length-delete self window (
        Distinct-take (limit + 1) (drop offset matching)
          (Distinct-drop offset matching distinct)) in
    (
      map map_to_profile (take limit (delete user_id self window)),
      search-take refused reserve matching self limit offset room low
          ∙ ap (λ r. r >> returns (map map_to_profile (take limit (delete user_id self window))))
              reserved,
      length-map_profile (take limit (delete user_id self window))
          ∙ length-take limit (delete user_id self window)
          ∙ omega (arith, kept, length-take (limit + 1) (drop offset matching)),
    )
