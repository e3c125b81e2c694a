-- ===== src/Db.antt =====
-- internal/db/db.go. The MongoDB driver is the parameter `Driver`; contexts and timeouts are left out.
pub mod Indexes
pub mod Samples
use rea_time_chat_g_rpc.Base.{
  Bool, true, false, Option, none, some, List, [], ◌∷◌, Text, codes, ℤ, pos, negsuc, Result, ok,
  err,
}
use rea_time_chat_g_rpc.Errors.{Error, wrapped}

-- `mongo.IndexModel`, with its keys as a Go map: 1 for a rising and -1 for a falling order.
pub record IndexModel : Type 0 where
  pub keys : List (Text × ℤ)
  pub unique : Bool

-- A collection by the names of its database and its own.
pub record Collection : Type 0 where
  pub database : Text
  pub name : Text

-- The calls on a connection of type `C`, in a world `W`.
pub record Driver (C W : Type 0) : Type 0 where
  pub connect : Text → W → Result Error C × W
  pub ping : C → W → Option Error × W
  pub disconnect : C → W → Option Error × W
  pub create_one : C → Collection → IndexModel → W → Option Error × W
  pub create_many : C → Collection → List IndexModel → W → Option Error × W

pub record Client (C : Type 0) : Type 0 where
  pub client : C
  pub db : Text

pub users_collection : {C : Type 0} → Client C → Collection
users_collection c = record { database = c.db; name = codes "users" }

pub messages_collection : {C : Type 0} → Client C → Collection
messages_collection c = record { database = c.db; name = codes "messages" }

pub users_index : IndexModel
users_index = record { keys = (codes "email", pos 1) ∷ []; unique = true }

pub message_indexes : List IndexModel
message_indexes =
    record {
      keys =
          (codes "from_email", pos 1)
          ∷ (codes "to_email", pos 1)
          ∷ (codes "sent_at", negsuc 0)
          ∷ [];
      unique = false;
    }
    ∷ record { keys = (codes "sent_at", negsuc 0) ∷ []; unique = false }
    ∷ []

module _ {C W : Type 0} (driver : Driver C W) where
  -- What follows the connection.
  unfoldable pub ping_client : C → W → Result Error (Client C) × W
  ping_client client w =
      let (failed, w') = driver.ping client w in
      elim failed [
        | some e ↦ (err (wrapped (codes "failed to ping MongoDB") e), w')
        | none ↦ (ok (record { client = client; db = codes "chat_db" }), w')
      ]

  unfoldable pub new : Text → W → Result Error (Client C) × W
  new mongo_uri w =
      let (result, w') = driver.connect mongo_uri w in
      elim result [
        | err e ↦ (err (wrapped (codes "failed to connect to MongoDB") e), w')
        | ok client ↦ ping_client client w'
      ]

  pub close : Client C → W → Option Error × W
  close c w = driver.disconnect c.client w

  -- What follows the index of the users.
  unfoldable pub index_messages : Client C → W → Option Error × W
  index_messages c w =
      let (failed, w') = driver.create_many c.client (messages_collection c) message_indexes w in
      elim failed [
        | some e ↦ (some (wrapped (codes "failed to create message indexes") e), w')
        | none ↦ (none, w')
      ]

  unfoldable pub create_indexes : Client C → W → Option Error × W
  create_indexes c w =
      let (failed, w') = driver.create_one c.client (users_collection c) users_index w in
      elim failed [
        | some e ↦ (some (wrapped (codes "failed to create users index") e), w')
        | none ↦ index_messages c w'
      ]
