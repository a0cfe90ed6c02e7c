-- ===== src/Repositories/Chats/Writing.antt =====
-- Transactions that write the chat tables.
use chat_system.Prelude.{◌≡◌, ap}
use chat_system.Exceptions.{Result, returns, throws}
use chat_system.Repositories.ChatStore.{ChatDb}
use chat_system.Repositories.Chats.{in_transaction}

pub in_transaction-returns :
    (db new : ChatDb) (r : Result ChatDb) (u : Unit {0})
    → in_transaction db r ≡ (returns u, new)
    → r ≡ returns new
unfolding in_transaction
in_transaction-returns db new (returns x) u h = ap (λ p. returns (p.1)) h
in_transaction-returns db new (throws e) u h = cc
