-- ===== src/Api/Process/Ends.antt =====
-- What the process leaves behind at each of its ends.
use rea_time_chat_g_rpc.Base.{
  ◌≡◌, refl, ◌⊎◌, inl, inr, true, false, Option, none, some, List, arith, Text, codes, Result, ok,
  Result-cases, Option-cases,
}
use rea_time_chat_g_rpc.Errors.{Error, wrapped}
use rea_time_chat_g_rpc.RateLimit.{RateLib, stop}
use rea_time_chat_g_rpc.Db.{Driver, close}
use rea_time_chat_g_rpc.Api.Config.{Env, Config, boot}
use rea_time_chat_g_rpc.Api.Process.{
  System, Event, serve_failed, interrupted, End, fatal, finished, deferred, listen_addr,
  run_deferred, serve_and_wait, main,
}
use rea_time_chat_g_rpc.Api.Config.Boot.{boot_running}

module _ {Creds C W Limit Limiter : Type 0} (driver : Driver C W) (system : System W) where
  -- The deferred calls find the limiter store running.
  run_deferred-running :
      (c : Config Creds C Limit Limiter) (w : W)
      → c.limiter_store.stopped ≡ false
      → run_deferred driver deferred c finished w ≡ (
        finished,
        record c { limiter_store = record (c.limiter_store) { stopped = true } },
        (close driver c.db_client w).1,
      )
  unfolding run_deferred stop
  run_deferred-running c w running = ground arith

  serve_and_wait-end :
      (event : Option Event) (c : Config Creds C Limit Limiter) (w : W)
      → c.limiter_store.stopped ≡ false
      → (end : End) → (serve_and_wait driver system event c w).0 ≡ some end
      → ((e : Error) × (end ≡ fatal e))
        ⊎ ((event ≡ some interrupted)
            × (serve_and_wait driver system event c w ≡ (
              some finished,
              record c { limiter_store = record (c.limiter_store) { stopped = true } },
              (close driver c.db_client (system.graceful_stop w)).1,
            )))
  unfolding serve_and_wait
  serve_and_wait-end none c w running end e = absurd (ground arith)
  serve_and_wait-end (some (serve_failed x)) c w running end e =
      inl (wrapped (codes "gRPC server exit: %v") x, ground arith)
  serve_and_wait-end (some interrupted) c w running end e =
      inr (refl, ground (arith, run_deferred-running c (system.graceful_stop w) running))

  module _ (load : Text → Text → Result Error Creds) (lib : RateLib Limit Limiter)
      (order : List (Text × Text) → List (Text × Text)) where
    -- `main` has returned at a signal: the server was stopped first, then the clean-up of the limiter
    -- store, and the client of the database was closed last.
    abbrev pub IsClean : Option Event → Env → W → Config Creds C Limit Limiter → Type 0
    IsClean event env w c =
        let started = boot load driver lib order env w in
        let listening = system.listen (listen_addr c.listen) started.1 in
        (started.0 ≡ ok c)
        × (listening.0 ≡ none)
        × (event ≡ some interrupted)
        × (main driver system load lib order event env w ≡ (
          some finished,
          some (record c { limiter_store = record (c.limiter_store) { stopped = true } }),
          (close driver c.db_client (system.graceful_stop listening.1)).1,
        ))

    -- Whenever `main` ends, it ends in a fatal error or is clean; no deferred call panics.
    main_ends :
        (event : Option Event) (env : Env) (w : W) (end : End)
        → (main driver system load lib order event env w).0 ≡ some end
        → ((e : Error) × (end ≡ fatal e))
          ⊎ ((c : Config Creds C Limit Limiter) × IsClean event env w c)
    unfolding main
    main_ends event env w end ended = elim (Result-cases (boot load driver lib order env w).0) [
      | inr (e, f) ↦ inl (e, ground arith)
      | inl (c, f) ↦
          let w' = (boot load driver lib order env w).1 in
          let listening = system.listen (listen_addr c.listen) w' in
          elim (Option-cases listening.0) [
            | inr (e, g) ↦ inl (wrapped (codes "failed to listen: %v") e, ground arith)
            | inl g ↦
                elim (serve_and_wait-end event c listening.1
                  (boot_running load driver lib order env w c f) end (ground arith)) [
                    | inl e ↦ inl e
                    | inr (signal, closed) ↦ inr (c, (f, g, signal, ground arith))
                  ]
          ]
    ]
