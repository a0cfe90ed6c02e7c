-- ===== src/Repositories/Messages/Pages.antt =====
-- The pages that FindByChatId and FindUndelivered return.
use chat_system.Prelude.{
  ℕ, ◌≤◌, ◌≡◌, refl, sym, ap, ◌∙◌, true, false, Option, List, [], ◌∷◌, Text, text_eq, text_eq_iff,
  arith, take, drop, length, length-take,
}
use mathlib.Core.List.{Perm}
use mathlib.Core.List.Perm
use chat_system.Exceptions.{Exception, returns, bind-returns, returns-injective}
use chat_system.Domain.Message.{Message}
use chat_system.Repositories.Rows.{keep}
use chat_system.Repositories.Where.{any, limit_offset}
use chat_system.Repositories.Where.Laws.{any-keep_disjoint, any-take-false}
use chat_system.Repositories.Where.Order.{
  IsStrict, Ordered, order_by-Perm, order_by-Ordered, any-Perm,
}
use chat_system.Repositories.ChatStore.{
  MessageRow, ChatDb, ChatPostgres, IsQueryOrder, map_message, map_messages,
}
use chat_system.Repositories.Messages.{
  newer, is_delivered, is_undelivered, message_rows_of, undelivered_rows, find_undelivered,
}
use chat_system.Repositories.Messages.Receipts.{any-map_messages}

newer-IsStrict : IsStrict newer
unfolding newer
newer-IsStrict = record { asymmetric = λ m n h. ground arith; negative = λ m n o h k. ground arith }

-- The messages of a chat in the order of FindByChatId are all of its messages, newest first.
pub message_rows_of-newest_first :
    (postgres : ChatPostgres) (db : ChatDb) (chat_id : Text) (limit offset : ℕ)
    → IsQueryOrder postgres
    → Perm
        (message_rows_of postgres db chat_id limit offset)
        (keep (λ m. text_eq m.chat_id chat_id) db.messages)
      × Ordered newer (message_rows_of postgres db chat_id limit offset)
unfolding message_rows_of
message_rows_of-newest_first postgres db chat_id limit offset order = (
  Perm.trans (order_by-Perm newer _) (order.messages limit offset _),
  order_by-Ordered newer
      (postgres.messages_order limit offset (keep (λ m. text_eq m.chat_id chat_id) db.messages))
      newer-IsStrict,
)

pub limit_offset-returns :
    {R : Type 0} (refused : Exception) (limit offset : ℕ) (rows page : List R)
    → limit_offset refused limit offset rows ≡ returns page
    → page ≡ take limit (drop offset rows)
unfolding limit_offset
limit_offset-returns refused limit offset rows page h = ground arith

module _ (postgres : ChatPostgres) where
  length-map_messages :
      (rows : List MessageRow) (ms : List Message)
      → map_messages postgres rows ≡ returns ms
      → length ms ≡ length rows
  unfolding map_messages
  length-map_messages [] ms h = let same = returns-injective [] ms h in rw (sym same) refl
  length-map_messages (row ∷ rows) ms h =
      let (m, mapped, rest) = bind-returns (map_message postgres row) _ ms h in
      let (others, all, made) = bind-returns (map_messages postgres rows) _ ms rest in
      let same = returns-injective _ ms made in
      rw (sym same) (omega (arith, length-map_messages rows others all))

  pub find_undelivered-returns :
      (db : ChatDb) (user : Text) (limit : ℕ) (after : Option Text) (ms : List Message)
      → find_undelivered postgres db user limit after ≡ returns ms
      → map_messages postgres (take limit (undelivered_rows postgres db user limit after))
        ≡ returns ms
  unfolding find_undelivered
  find_undelivered-returns db user limit after ms h =
      let (page, cut, mapped) =
        bind-returns
          (limit_offset postgres.negative_count limit 0
            (undelivered_rows postgres db user limit after))
          _ ms h in
      let same = limit_offset-returns postgres.negative_count limit 0 _ page cut in
      ap (map_messages postgres) (sym same) ∙ mapped

  pub length-find_undelivered :
      (db : ChatDb) (user : Text) (limit : ℕ) (after : Option Text) (ms : List Message)
      → find_undelivered postgres db user limit after ≡ returns ms
      → length ms ≤ limit
  length-find_undelivered db user limit after ms h =
      let rows = undelivered_rows postgres db user limit after in
      omega (
        arith,
        length-map_messages (take limit rows) ms
            (find_undelivered-returns db user limit after ms h),
        length-take limit rows,
      )

  -- A message that was delivered to the user is not among those found.
  pub find_undelivered-delivered :
      (db : ChatDb) (user : Text) (limit : ℕ) (after : Option Text) (ms : List Message) (id : Text)
      → IsQueryOrder postgres
      → find_undelivered postgres db user limit after ≡ returns ms
      → is_delivered db id user ≡ true
      → any (λ m. text_eq m.id id) ms ≡ false
  unfolding undelivered_rows is_undelivered
  find_undelivered-delivered db user limit after ms id order h delivered =
      any-map_messages postgres id _ ms (find_undelivered-returns db user limit after ms h)
      ∙ any-take-false (λ (m : MessageRow). text_eq m.id id) limit
          (undelivered_rows postgres db user limit after)
          (any-Perm (λ (m : MessageRow). text_eq m.id id) (order_by-Perm _ _)
            ∙ any-Perm (λ (m : MessageRow). text_eq m.id id) (order.messages limit 0 _)
            ∙ any-keep_disjoint (λ (m : MessageRow). text_eq m.id id) (is_undelivered db user after)
                db.messages
                (λ m e. ground (
                  arith,
                  text_eq_iff m.id id,
                  ap (λ x. is_delivered db x user) ((text_eq_iff m.id id).0 e),
                )))
