-- ===== src/Services/Chat/Members.antt =====
-- The participants of a new chat: std::sort, std::ranges::unique and erase.
use chat_system.Prelude.{
  ◌≡◌, refl, sym, ◌∙◌, inl, inr, true, false, List, [], ◌∷◌, Text, text_eq, text_eq_iff, All, arith,
  Bool-cases,
}
use chat_system.Repositories.Where.{any, order_by}
use chat_system.Repositories.Where.Order.{
  IsStrict, Ordered, order_by-Perm, order_by-Ordered, any-Perm,
}
use chat_system.Services.Chat.{text_less, unique_behind, unique, contains_user}

text_less_asymmetric : (s t : Text) → text_less s t ≡ true → text_less t s ≡ false
unfolding text_less
text_less_asymmetric s [] h = cc
text_less_asymmetric [] (d ∷ t) h = refl
text_less_asymmetric (c ∷ s) (d ∷ t) h = ground (arith, text_less_asymmetric s t)

text_less_negative :
    (s t u : Text) → text_less s t ≡ false → text_less t u ≡ false → text_less s u ≡ false
unfolding text_less
text_less_negative s t [] h k = refl
text_less_negative s [] (e ∷ u) h k = cc
text_less_negative [] (d ∷ t) (e ∷ u) h k = cc
text_less_negative (c ∷ s) (d ∷ t) (e ∷ u) h k = ground (arith, text_less_negative s t u)

text_less-IsStrict : IsStrict text_less
text_less-IsStrict = record { asymmetric = text_less_asymmetric; negative = text_less_negative }

text_less_total : (s t : Text) → text_less t s ≡ false → text_eq s t ≡ false → text_less s t ≡ true
unfolding text_less text_eq
text_less_total [] [] h k = cc
text_less_total (c ∷ s) [] h k = cc
text_less_total [] (d ∷ t) h k = refl
text_less_total (c ∷ s) (d ∷ t) h k = ground (arith, text_less_total s t)

text_less_trans :
    (s t u : Text) → text_less s t ≡ true → text_less t u ≡ true → text_less s u ≡ true
text_less_trans s t u h k = elim (Bool-cases (text_less s u)) [
  | inl e ↦ e
  | inr e ↦
      let back : text_less s t ≡ false = text_less_negative s u t e (text_less_asymmetric t u k) in
      cc
]

-- Sorted without repetitions.
abbrev pub Ascending : List Text → Type 0
Ascending [] = Unit
Ascending (x ∷ xs) = All (λ y. text_less x y ≡ true) xs × Ascending xs

All-text_less :
    (x y : Text) (ys : List Text)
    → text_less x y ≡ true
    → All (λ z. text_less y z ≡ true) ys
    → All (λ z. text_less x z ≡ true) ys
All-text_less x y [] h hs = tt
All-text_less x y (z ∷ ys) h (k, ks) = (text_less_trans x y z h k, All-text_less x y ys h ks)

unique_behind-Ascending :
    (x : Text) (ys : List Text) → Ordered text_less (x ∷ ys) → Ascending (x ∷ unique_behind x ys)
unfolding unique_behind
unique_behind-Ascending x [] h = (tt, tt)
unique_behind-Ascending x (y ∷ ys) ((h, hs), (k, ks)) = elim (Bool-cases (text_eq x y)) [
  | inl e ↦ rw e (unique_behind-Ascending x ys (hs, ks))
  | inr e ↦
      let less = text_less_total x y h e in
      let (below, rest) = unique_behind-Ascending y ys (k, ks) in
      rw e ((less, All-text_less x y (unique_behind y ys) less below), (below, rest))
]

pub unique-Ascending : (xs : List Text) → Ordered text_less xs → Ascending (unique xs)
unfolding unique
unique-Ascending [] h = tt
unique-Ascending (x ∷ xs) h = unique_behind-Ascending x xs h

contains_user-unique_behind :
    (user x : Text) (ys : List Text)
    → contains_user user (x ∷ unique_behind x ys) ≡ contains_user user (x ∷ ys)
unfolding contains_user unique_behind
contains_user-unique_behind user x [] = refl
contains_user-unique_behind user x (y ∷ ys) = ground (
  arith,
  contains_user-unique_behind user x ys,
  contains_user-unique_behind user y ys,
  text_eq_iff x y,
)

contains_user-unique :
    (user : Text) (xs : List Text) → contains_user user (unique xs) ≡ contains_user user xs
unfolding unique
contains_user-unique user [] = refl
contains_user-unique user (x ∷ xs) = contains_user-unique_behind user x xs

pub contains_user-any :
    (user : Text) (xs : List Text) → contains_user user xs ≡ any (λ x. text_eq x user) xs
unfolding contains_user any
contains_user-any user [] = refl
contains_user-any user (x ∷ xs) = ground (arith, contains_user-any user xs)

-- Sorting and removing the repetitions keeps who is in the list.
pub contains_user-unique-order_by :
    (user : Text) (xs : List Text)
    → contains_user user (unique (order_by text_less xs)) ≡ contains_user user xs
contains_user-unique-order_by user xs =
    contains_user-unique user (order_by text_less xs)
    ∙ contains_user-any user (order_by text_less xs)
    ∙ any-Perm (λ x. text_eq x user) (order_by-Perm text_less xs)
    ∙ sym (contains_user-any user xs)

pub unique-order_by-Ascending : (xs : List Text) → Ascending (unique (order_by text_less xs))
unique-order_by-Ascending xs =
    unique-Ascending (order_by text_less xs) (order_by-Ordered text_less xs text_less-IsStrict)
