-- ===== src/Program/Releasing.antt =====
-- What run gives back of what it takes.
use spi_exata.Base.{[], ◌∷◌, ◌∙◌, ℕ, ◌-◌, String, ◌≡◌, ◌≢◌, refl, inl, inr, arith}
use spi_exata.Base.Errors.{Error, Result, ok, err, panicked}
use spi_exata.Base.State.{M, continue}
use spi_exata.User.{Time}
use spi_exata.Logger.{Arg}
use spi_exata.Program.{Config, Ending, server_error, signal, Server, Calls}
use spi_exata.Program.Running.{
  stopped, stopping, ended, listening, serve, with_keys, with_db, start, with_config, run,
}
use spi_exata.Program.Holding.{
  Resource, server, database, provider, one_of, one_of-server, Held, Ends, Keeps, steady_lem, after,
  freed, deferred, IsHolder,
}

module _ {W F D KS T A : Type 0} (c : Calls W F D KS T A) (held : Held W)
    (laws : IsHolder c held) where
  -- the world holds one server less
  fewer : Resource → W → ℕ
  fewer x w = held w x - one_of server x

  panicked-Ends :
      {Y : Type 0} (x : Resource) (p : String) (w w' : W)
      → held w' x ≡ held w x
      → Ends held {X = Y} x (fewer x w) (panicked p) w'
  unfolding fewer
  panicked-Ends x p w w' h = elim (one_of-server x) [
    | inl other ↦ inl (omega arith)
    | inr is ↦ inr (is, (p, refl))
  ]

  stopped_at :
      (t : Time) (w : W) (x : Resource) (r : Result (Unit {0}))
      → (c.shutdown t w).0 ≡ r
      → Ends held x
          (fewer x w)
          (stopped c r (c.shutdown t w).1).0
          (stopped c r (c.shutdown t w).1).1
  unfolding fewer
  stopped_at t w x (ok u) e = inl (laws.shutdown_done t w x e)
  stopped_at t w x (err y) e =
      let same = laws.shutdown_failed t w y x e in
      let closed = laws.close_server (c.shutdown t w).1 x in inl (omega arith)
  stopped_at t w x (panicked p) e = panicked-Ends x p w _ (laws.shutdown_fell t w p x e)

  moved :
      {Y : Type 0} (x : Resource) (w w1 : W) (z : Result Y × W)
      → held w1 x ≡ held w x
      → Ends held x (fewer x w1) z.0 z.1
      → Ends held x (fewer x w) z.0 z.1
  unfolding fewer
  moved x w w1 z same (inl e) = inl (omega arith)
  moved x w w1 z same (inr p) = inr p

  signal_at :
      (t : Time) (sig : ℕ) (w w1 : W) (x : Resource) (r : Result (Unit {0}))
      → held w1 x ≡ held w x
      → ((e : Error) → r ≢ err e)
      → Ends held x
          (fewer x w)
          (continue r w1 (λ _. stopping c t sig)).0
          (continue r w1 (λ _. stopping c t sig)).1
  unfolding stopping fewer
  signal_at t sig w w1 x (ok u) same no_error =
      deferred held
        (c.info "shutdown" (
          Arg.string "status"
          ∷ Arg.string "shutdown complete"
          ∷ Arg.string "signal"
          ∷ Arg.other sig
          ∷ []))
        (λ w. stopped c (c.shutdown t w).0 (c.shutdown t w).1) (laws.info "shutdown" _) w1 x
        (held w x - one_of server x)
        (moved x w w1 _ same (stopped_at t w1 x (c.shutdown t w1).0 refl))
  signal_at t sig w w1 x (err e) same no_error = absurd (no_error e refl)
  signal_at t sig w w1 x (panicked p) same no_error = panicked-Ends x p w w1 same

  ended-closes :
      (t : Time) (ending : Ending) (w : W) (x : Resource)
      → (c.wait w).0 ≡ ending
      → Ends held x (fewer x w) (ended c t ending (c.wait w).1).0 (ended c t ending (c.wait w).1).1
  unfolding ended fewer
  ended-closes t (server_error e) w x same = inl (laws.wait_error w e x same)
  ended-closes t (signal sig) w x same =
      let still = laws.wait_signal w sig x same in
      signal_at t sig w _ x _ (laws.info "shutdown" _ _ x ∙ still)
        (laws.info_returns "shutdown" _ _)

  listening-Keeps : (t : Time) (api : Server A) → Keeps held (listening c t api)
  unfolding listening fewer
  listening-Keeps t api w x =
      let up = laws.listen api w x in
      elim (ended-closes t (c.wait (c.listen api w)).0 (c.listen api w) x refl) [
        | inl down ↦ inl (omega arith)
        | inr p ↦ inr p
      ]

  abbrev status : String → M W (Unit {0})
  status what = c.info "startup" (Arg.string "status" ∷ Arg.string what ∷ [])

  serve-Keeps : (cfg : Config F) (db : D) (ks : KS) (tp : T) → Keeps held (serve c cfg db ks tp)
  unfolding serve
  serve-Keeps cfg db ks tp =
      after held (status "initializing V1 API support") _ (laws.info _ _) (λ _.
        after held c.notify _ laws.notify (λ _.
          after held (c.web_api cfg db ks tp) _ (laws.web_api cfg db ks tp) (λ handler.
            after held
              (c.info "startup" (
                Arg.string "status"
                ∷ Arg.string "api router started"
                ∷ Arg.string "host"
                ∷ Arg.string cfg.web.api_host
                ∷ []))
              (λ _. listening c cfg.web.shutdown_timeout _) (laws.info _ _)
              (λ _. listening-Keeps cfg.web.shutdown_timeout _))))

  with_keys-Keeps : (cfg : Config F) (db : D) (ks : KS) → Keeps held (with_keys c cfg db ks)
  unfolding with_keys
  with_keys-Keeps cfg db ks =
      after held (status "initializing tracing support") _ (laws.info _ _) (λ _.
        freed held provider "starting tracing" (λ x. x.1) (λ x. serve c cfg db ks x.0)
          (c.init_tracing _) (laws.init_tracing _) (λ x. serve-Keeps cfg db ks x.0))

  with_db-Keeps : (cfg : Config F) (db : D) → Keeps held (with_db c cfg db)
  unfolding with_db
  with_db-Keeps cfg db =
      after held (status "initializing authentication support") _ (laws.info _ _) (λ _ w x.
        steady_lem held _ w _ (with_keys c cfg db) x (laws.load_keys _ w x)
          (λ ks. with_keys-Keeps cfg db ks))

  start-Keeps : (cfg : Config F) → Keeps held (start c cfg)
  unfolding start
  start-Keeps cfg = after held c.build_info _ laws.build_info (λ _.
      after held (c.publish cfg.version.build) _ (laws.publish _) (λ _.
        after held
          (c.info "startup" (
            Arg.string "status"
            ∷ Arg.string "initializing database support"
            ∷ Arg.string "hostport"
            ∷ Arg.string cfg.db.host
            ∷ []))
          _ (laws.info _ _)
          (λ _.
            freed held database "connecting to db" c.close_db (with_db c cfg) (c.open_db _)
              (laws.open_db _) (with_db-Keeps cfg))))

  with_config-Keeps : (cfg : Config F) → Keeps held (with_config c cfg)
  unfolding with_config
  with_config-Keeps cfg =
      let version = Arg.string "version" in
      after held (c.info "startup" (version ∷ c.version_arg cfg.version ∷ [])) _ (laws.info _ _)
        (λ _.
          after held (c.info "startup" (Arg.string "config" ∷ Arg.string (c.print cfg) ∷ [])) _
            (laws.info _ _)
            (λ _.
              after held (c.info "starting service" (version ∷ Arg.string cfg.version.build ∷ [])) _
                (laws.info _ _)
                (λ _ w x.
                  deferred held (c.info "shutdown complete" []) (start c cfg)
                    (laws.info "shutdown complete" []) w x (held w x) (start-Keeps cfg w x))))

  -- However run ends, with an error at any step, an error of the server, a signal, or a panic of any
  -- call of its own goroutine, the database is closed and the provider of traces taken down if they were
  -- opened; and so is the server closed, unless run ends by a panic. The three calls that close
  -- something do what IsHolder says, and the calls that take nothing leave what is held.
  pub run-Keeps : (procs : ℕ) → Keeps held (run c procs)
  unfolding run
  run-Keeps procs =
      after held (c.info "startup" (Arg.string "GOMAXPROCS" ∷ Arg.other procs ∷ [])) _
        (laws.info _ _)
        (λ _ w x. steady_lem held _ w _ (with_config c) x (laws.process _ w x) with_config-Keeps)
