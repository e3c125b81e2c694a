-- ===== src/Db/Indexes.antt =====
-- When `CreateIndexes` fails.
use rea_time_chat_g_rpc.Base.{
  ◌<◌, ◌≢◌, refl, inl, inr, none, List, arith, length, Has, Option-cases,
}
use rea_time_chat_g_rpc.Db.{
  IndexModel, Collection, Driver, Client, users_collection, messages_collection, users_index,
  message_indexes, index_messages, create_indexes,
}

-- What the driver documents of an unordered Go map: it is refused as the keys of an index if it has
-- more than one key, since the order of the keys matters.
abbrev pub RefusesMaps : {C W : Type 0} → Driver C W → Type 0
RefusesMaps {C} {W} driver =
    (client : C) (coll : Collection) (models : List IndexModel) (m : IndexModel) (w : W)
    → Has m models
    → 1 < length m.keys
    → (driver.create_many client coll models w).0 ≢ none

module _ {C W : Type 0} (driver : Driver C W) (refuses : RefusesMaps driver) where
  -- The keys of the compound index on the messages are a map with three keys, which the driver refuses:
  -- `CreateIndexes` always reports an error.
  pub create_indexes_fails : (c : Client C) (w : W) → (create_indexes driver c w).0 ≢ none
  unfolding create_indexes index_messages message_indexes
  create_indexes_fails c w =
      let w' = (driver.create_one c.client (users_collection c) users_index w).1 in
      let refused =
        refuses c.client (messages_collection c) message_indexes _ w' (inl refl) (omega arith) in
      elim (Option-cases (driver.create_one c.client (users_collection c) users_index w).0) [
        | inr (_, e) ↦ ground arith
        | inl e ↦
            elim (Option-cases
              (driver.create_many c.client (messages_collection c) message_indexes w').0) [
                | inl f ↦ absurd (refused f)
                | inr (_, f) ↦ ground arith
              ]
      ]
