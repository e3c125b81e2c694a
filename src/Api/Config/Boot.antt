-- ===== src/Api/Config/Boot.antt =====
-- Whether `main` reaches the start of the server.
use rea_time_chat_g_rpc.Base.{
  ◌≡◌, inl, inr, false, List, arith, Text, Result, ok, is_ok, Result-cases, Option-cases,
}
use rea_time_chat_g_rpc.Errors.{Error}
use rea_time_chat_g_rpc.RateLimit.{RateLib, new_limiter_store}
use rea_time_chat_g_rpc.Db.{Driver, Client, new, create_indexes}
use rea_time_chat_g_rpc.Db.Indexes.{RefusesMaps, create_indexes_fails}
use rea_time_chat_g_rpc.Api.Config.{Env, Config, assemble, open_database, boot}

module _ {Creds C W Limit Limiter : Type 0} (load : Text → Text → Result Error Creds)
    (driver : Driver C W) (lib : RateLib Limit Limiter)
    (order : List (Text × Text) → List (Text × Text)) where
  assembled_running :
      (env : Env) (client : Client C) (c : Config Creds C Limit Limiter)
      → assemble load driver lib order env client ≡ ok c
      → c.limiter_store.stopped ≡ false
  unfolding assemble new_limiter_store
  assembled_running env client c e = ground arith

  -- The clean-up of a limiter store that `main` has just built runs.
  pub boot_running :
      (env : Env) (w : W) (c : Config Creds C Limit Limiter)
      → (boot load driver lib order env w).0 ≡ ok c
      → c.limiter_store.stopped ≡ false
  unfolding boot open_database
  boot_running env w c e = elim (Result-cases (new driver env.mongodb_uri w).0) [
    | inr (_, f) ↦ absurd (ground arith)
    | inl (client, f) ↦
        let w' = (new driver env.mongodb_uri w).1 in
        elim (Option-cases (create_indexes driver client w').0) [
          | inl g ↦ assembled_running env client c (ground arith)
          | inr (_, g) ↦ absurd (ground arith)
        ]
  ]

module _ {Creds C W Limit Limiter : Type 0} (load : Text → Text → Result Error Creds)
    (driver : Driver C W) (refuses : RefusesMaps driver) (lib : RateLib Limit Limiter)
    (order : List (Text × Text) → List (Text × Text)) where
  -- With a driver that refuses an index whose keys are a Go map with several entries, `main` never
  -- serves: on every environment it ends in a fatal error, at the creation of the indexes or
  -- before it.
  pub boot_fails : (env : Env) (w : W) → is_ok (boot load driver lib order env w).0 ≡ false
  unfolding boot open_database
  boot_fails env w = elim (Result-cases (new driver env.mongodb_uri w).0) [
    | inr (_, e) ↦ ground arith
    | inl (client, e) ↦
        let w' = (new driver env.mongodb_uri w).1 in
        elim (Option-cases (create_indexes driver client w').0) [
          | inl f ↦ absurd (create_indexes_fails driver refuses client w' f)
          | inr (_, f) ↦ ground arith
        ]
  ]
