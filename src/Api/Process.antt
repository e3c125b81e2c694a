-- ===== src/Api/Process.antt =====
-- cmd/api/main.go as a whole: the start of the server, what it waits for, and the deferred calls.
-- Listening, serving and the graceful stop are gRPC's and the system's.
pub mod Ends
mod Tests
use rea_time_chat_g_rpc.Base.{Option, none, some, List, [], ◌∷◌, ◌++◌, Text, codes, Result, ok, err}
use rea_time_chat_g_rpc.Errors.{Error, wrapped}
use rea_time_chat_g_rpc.RateLimit.{RateLib, LimiterStore, stop}
use rea_time_chat_g_rpc.Db.{Driver, close}
use rea_time_chat_g_rpc.Api.Config.{Env, Config, boot}

-- `net.Listen("tcp", …)` and `grpcServer.GracefulStop()`, on the world `W`.
pub record System (W : Type 0) : Type 0 where
  pub listen : Text → W → Option Error × W
  pub graceful_stop : W → W

-- What the process sees first once it serves: an end of `Serve` with an error, or a signal.
pub data Event : Type 0 where
  serve_failed : Error → Event
  interrupted : Event

-- How the process ends: by `log.Fatal`, which exits at once, by the return of `main`, or by a panic in a
-- deferred call.
pub data End : Type 0 where
  fatal : Error → End
  finished : End
  panicked : End

-- The deferred calls of `main`.
pub data Deferred : Type 0 where
  close_client stop_limiter : Deferred

-- In the order in which they run, the last one that was deferred first.
abbrev pub deferred : List Deferred
deferred = stop_limiter ∷ close_client ∷ []

abbrev pub listen_addr : Text → Text
listen_addr port = b':' ∷ port

module _ {Creds C W Limit Limiter : Type 0} (driver : Driver C W) where
  -- A panic does not keep the other deferred calls from running.
  pub run_deferred :
      List Deferred
      → Config Creds C Limit Limiter
      → End
      → W
      → End × Config Creds C Limit Limiter × W
  run_deferred [] c end w = (end, c, w)
  run_deferred (close_client ∷ calls) c end w =
      let (_, w') = close driver c.db_client w in run_deferred calls c end w'
  run_deferred (stop_limiter ∷ calls) c end w =
      let on_panic = run_deferred calls c panicked w in
      elim (stop c.limiter_store) [
        | none ↦ on_panic
        | some s ↦ run_deferred calls (record c { limiter_store = s }) end w
      ]

  module _ (system : System W) where
    -- The goroutine that serves, and the wait for a signal; `none` serves on.
    pub serve_and_wait :
        Option Event
        → Config Creds C Limit Limiter
        → W
        → Option End × Config Creds C Limit Limiter × W
    serve_and_wait none c w = (none, c, w)
    serve_and_wait (some (serve_failed e)) c w =
        (some (fatal (wrapped (codes "gRPC server exit: %v") e)), c, w)
    serve_and_wait (some interrupted) c w =
        let (end, c', w') = run_deferred deferred c finished (system.graceful_stop w) in
        (some end, c', w')

    -- The configuration is that of a process that has one.
    pub main :
        (Text → Text → Result Error Creds)
        → RateLib Limit Limiter
        → (List (Text × Text) → List (Text × Text))
        → Option Event
        → Env
        → W
        → Option End × Option (Config Creds C Limit Limiter) × W
    main load lib order event env w =
        let (started, w') = boot load driver lib order env w in
        elim started [
          | err e ↦ (some (fatal e), none, w')
          | ok c ↦
              let (refused, w'') = system.listen (listen_addr c.listen) w' in
              elim refused [
                | some e ↦ (some (fatal (wrapped (codes "failed to listen: %v") e)), some c, w'')
                | none ↦ let (end, c', v) = serve_and_wait event c w'' in (end, some c', v)
              ]
        ]
