-- ===== src/Networking/Json.antt =====
-- nlohmann::json, which the controllers use: values and the operations on them are parameters. An
-- operation that throws returns the exception; iterating over a value never throws.
use chat_system.Prelude.{ℕ, Bool, List, Text}
use chat_system.Exceptions.{Result}

pub record Json (J : Type 0) : Type 0 where
  pub parse : Text → Result J
  pub contains : Text → J → Bool
  pub at : Text → J → Result J
  pub as_string : J → Result Text
  pub elements : J → List J
  pub items : J → List (Text × J)
  pub text : Text → J
  pub number : ℕ → J
  pub null : J
  pub object : List (Text × J) → J
  pub array : List J → J
  pub dump : J → Result Text
