-- ===== src/Networking/Credentials.antt =====
-- Server/Source/Networking/utils.cpp: the bearer token of a request, and its path parameters.
use chat_system.Prelude.{
  ℕ, ◌≡◌, refl, ◌↔◌, Bool, true, false, not, ◌&&◌, ◌||◌, Option, none, some, [], ◌∷◌, ◌++◌, Text,
  codes, text_eq, text_eq_refl, length, drop, All, arith, ◌==◌, if◌then◌else◌,
}
use chat_system.Exceptions.{Result, returns, throws, invalid_argument}
use chat_system.Networking.Http.{Request}
use chat_system.Networking.Router.{PathParams}

abbrev pub auth_scheme : Text
auth_scheme = codes "Bearer "

abbrev pub auth_scheme_len : ℕ
auth_scheme_len = 7

-- std::string_view::starts_with.
unfoldable pub starts_with_text : Text → Text → Bool
starts_with_text [] s = true
starts_with_text (c ∷ p) [] = false
starts_with_text (c ∷ p) (d ∷ s) = (c == d) && starts_with_text p s

-- ExtractToken, for the Authorization field.
unfoldable pub token_of_header : Option Text → Option Text
token_of_header none = none
token_of_header (some auth_header) =
    if length auth_header == 0 || not (starts_with_text auth_scheme auth_header)
    then none
    else some (drop auth_scheme_len auth_header)

unfoldable pub extract_token : Request → Option Text
extract_token req = token_of_header req.authorization

unfoldable pub extract_path_param : PathParams → Text → Result Text
extract_path_param [] key =
    throws (invalid_argument (codes "Missing required path parameter: " ++ key))
extract_path_param ((param_key, param_val) ∷ params) key =
    let rest = extract_path_param params key in
    if text_eq param_key key then returns param_val else rest

pub starts_with_text-append : (p s : Text) → starts_with_text p (p ++ s) ≡ true
unfolding starts_with_text
starts_with_text-append [] s = refl
starts_with_text-append (c ∷ p) s = ground (arith, starts_with_text-append p s)

starts_with_text-cut : (p s : Text) → starts_with_text p s ≡ true → s ≡ p ++ drop (length p) s
unfolding starts_with_text
starts_with_text-cut [] s h = refl
starts_with_text-cut (c ∷ p) [] h = cc
starts_with_text-cut (c ∷ p) (d ∷ s) h = ground (arith, starts_with_text-cut p s)

pub drop-append : (p s : Text) → drop (length p) (p ++ s) ≡ s
drop-append [] s = refl
drop-append (c ∷ p) s = drop-append p s

token_of_header_iff :
    (o : Option Text) (token : Text)
    → (token_of_header o ≡ some token) ↔ (o ≡ some (auth_scheme ++ token))
unfolding token_of_header starts_with_text codes
token_of_header_iff none token = ground arith
token_of_header_iff (some header) token = ground (
  arith,
  starts_with_text-cut auth_scheme header,
  starts_with_text-append auth_scheme token,
  drop-append auth_scheme token,
)

-- ExtractToken returns a token exactly if the Authorization field is the scheme's name, a space and
-- that token, which may be empty.
pub extract_token_iff :
    (req : Request) (token : Text)
    → (extract_token req ≡ some token) ↔ (req.authorization ≡ some (auth_scheme ++ token))
unfolding extract_token
extract_token_iff req token = token_of_header_iff req.authorization token

-- ExtractPathParam returns the value of the first parameter with the key, whatever stands behind it.
pub extract_path_param_first :
    (before after : PathParams) (key value : Text)
    → All (λ p. text_eq p.0 key ≡ false) before
    → extract_path_param (before ++ ((key, value) ∷ after)) key ≡ returns value
unfolding extract_path_param
extract_path_param_first [] after key value h = ground (arith, text_eq_refl key)
extract_path_param_first (p ∷ before) after key value (h, hs) =
    ground (arith, extract_path_param_first before after key value hs, h)
