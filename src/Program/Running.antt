-- ===== src/Program/Running.antt =====
-- run and main of api/cmd/main.go.
use spi_exata.Base.{ℕ, String, List, [], ◌∷◌}
use spi_exata.Base.Errors.{Error, wrap, Result, ok, err, panicked}
use spi_exata.Base.State.{deferring, deferring_call, M, ◌>>=◌, fail, step, wrapping}
use spi_exata.User.{Time}
use spi_exata.Logger.{Arg}
use spi_exata.Program.{Config, Ending, server_error, signal, Server, Calls}

module _ {W F D KS T A : Type 0} (c : Calls W F D KS T A) where
  abbrev said : String → List Arg → M W (Unit {0})
  said msg args = c.info msg args

  abbrev status : String → M W (Unit {0})
  status what = said "startup" (Arg.string "status" ∷ Arg.string what ∷ [])

  -- what follows Shutdown: Close of the server is called if it fails
  abbrev pub stopped : Result (Unit {0}) → W → Result (Unit {0}) × W
  stopped (ok _) w = (ok tt, w)
  stopped (err e) w = (err (wrap "could not stop server gracefully" e), c.close_server w)
  stopped (panicked m) w = (panicked m, w)

  abbrev sent : ℕ → String → List Arg
  sent sig what = Arg.string "status" ∷ Arg.string what ∷ Arg.string "signal" ∷ Arg.other sig ∷ []

  -- after the first message for a signal
  unfoldable pub stopping : Time → ℕ → M W (Unit {0})
  stopping timeout sig =
      deferring_call (c.info "shutdown" (sent sig "shutdown complete"))
        (λ w. let (r, w1) = c.shutdown timeout w in stopped r w1)

  -- the `select`
  unfoldable pub ended : Time → Ending → M W (Unit {0})
  unfolding stopping
  ended timeout (server_error e) = fail (wrap "server error" e)
  ended timeout (signal sig) = do
    _ ← said "shutdown" (sent sig "shutdown started")
    stopping timeout sig

  -- from the start of the server on
  unfoldable pub listening : Time → Server A → M W (Unit {0})
  unfolding ended
  listening timeout api = do
    _ ← step (λ w. (tt, c.listen api w))
    ending ← step c.wait
    ended timeout ending

  -- from the start of the API on
  unfoldable pub serve : Config F → D → KS → T → M W (Unit {0})
  unfolding listening
  serve cfg db ks tp = do
    _ ← status "initializing V1 API support"
    _ ← c.notify
    handler ← c.web_api cfg db ks tp
    let api : Server A = record {
      addr = cfg.web.api_host;
      handler = handler;
      read_timeout = cfg.web.read_timeout;
      write_timeout = cfg.web.write_timeout;
      idle_timeout = cfg.web.idle_timeout;
    }
    _ ← said "startup" (
        Arg.string "status"
        ∷ Arg.string "api router started"
        ∷ Arg.string "host"
        ∷ Arg.string api.addr
        ∷ [])
    listening cfg.web.shutdown_timeout api

  -- from the tracing on
  unfoldable pub with_keys : Config F → D → KS → M W (Unit {0})
  unfolding serve
  with_keys cfg db ks = do
    _ ← status "initializing tracing support"
    (tp, teardown) ← wrapping "starting tracing" (
        c.init_tracing (record {
          service_name = "";
          host = cfg.tempo.host;
          excluded_routes = "/v1/liveness" ∷ "/v1/readiness" ∷ [];
          probability = cfg.tempo.probability;
        }))
    deferring teardown (serve cfg db ks tp)

  -- from the keys on, with the database open
  unfoldable pub with_db : Config F → D → M W (Unit {0})
  unfolding with_keys
  with_db cfg db = do
    _ ← status "initializing authentication support"
    ks ← wrapping "loading keys" (c.load_keys "foundation/zarf/keys")
    with_keys cfg db ks

  -- from the start of the service on
  unfoldable pub start : Config F → M W (Unit {0})
  unfolding with_db
  start cfg = do
    _ ← c.build_info
    _ ← c.publish cfg.version.build
    _ ← said "startup" (
        Arg.string "status"
        ∷ Arg.string "initializing database support"
        ∷ Arg.string "hostport"
        ∷ Arg.string cfg.db.host
        ∷ [])
    db ← wrapping "connecting to db" (
        c.open_db (record {
          user = cfg.db.user;
          password = cfg.db.password;
          host = cfg.db.host;
          name = cfg.db.name;
          schema = "";
          max_idle_conns = cfg.db.max_idle_conns;
          max_open_conns = cfg.db.max_open_conns;
          disable_tls = cfg.db.disable_tls;
        }))
    deferring (c.close_db db) (with_db cfg db)

  -- from the logging of the configuration on
  unfoldable pub with_config : Config F → M W (Unit {0})
  unfolding start
  with_config cfg = do
    _ ← said "startup" (Arg.string "version" ∷ c.version_arg cfg.version ∷ [])
    _ ← said "startup" (Arg.string "config" ∷ Arg.string (c.print cfg) ∷ [])
    _ ← said "starting service" (Arg.string "version" ∷ Arg.string cfg.version.build ∷ [])
    deferring_call (c.info "shutdown complete" []) (start cfg)

  -- run, told GOMAXPROCS
  unfoldable pub run : ℕ → M W (Unit {0})
  unfolding with_config
  run procs = do
    _ ← said "startup" (Arg.string "GOMAXPROCS" ∷ Arg.other procs ∷ [])
    cfg ← wrapping "processing config" (c.process (record { build = c.build; desc = "SPI-EXATA" }))
    with_config cfg

  -- main: the status of the exit
  unfoldable pub main : (Error → W → W) → ℕ → W → ℕ × W
  main error procs w =
      let (r, w') = run procs w in
      elim r [ ok _ ↦ (0, w') | err e ↦ (1, error e w') | panicked m ↦ (2, w') ]
