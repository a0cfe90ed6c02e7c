-- ===== src/Networking/Http.antt =====
-- The parts of a request and a response that the router and the helpers read and write.
use chat_system.Prelude.{ℕ, Option, Text}

-- A verb by its number; `authorization` is the header field, if it is present.
pub record Request : Type 0 where
  pub method : ℕ
  pub target : Text
  pub authorization : Option Text
  pub body : Text

pub record Response : Type 0 where
  pub status : ℕ
  pub body : Text
