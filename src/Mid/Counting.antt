-- ===== src/Mid/Counting.antt =====
-- What Metrics and Panics count.
use spi_exata.Base.{
  suc, ◌+◌, ◌%◌, String, ◌≡◌, refl, ◌∙◌, ◌==◌, if◌then◌else◌, Bool-cases, inl, inr, arith,
}
use spi_exata.Base.Errors.{text}
use spi_exata.Errs.{errorf}
use spi_exata.Errs.Codes.{internal_only_log}
use spi_exata.Web.{Encoder, app_error, Answer, answer, panic, HandlerFunc}
use spi_exata.Mid.{
  Context, Request, is_failure, Metrics, Counted, set, add_goroutines, add_requests, add_errors,
  add_panics, count, metrics, panics,
}

module _ {W : Type 0} (counted : Counted W)
    (counters-put : (m : Metrics) (w : W) → counted.counters (counted.put m w) ≡ m) where
  -- the counters of an outcome's world
  abbrev pub after : Answer × W → Metrics
  after p = counted.counters p.1

  count-after :
      (ctx : Context) (resp : Encoder) (w : W)
      → ((after (count counted (set counted ctx) (answer resp, w))).requests
          ≡ suc (counted.counters w).requests)
        × ((after (count counted (set counted ctx) (answer resp, w))).errors
            ≡ (if is_failure resp then 1 else 0) + (counted.counters w).errors)
        × ((after (count counted (set counted ctx) (answer resp, w))).panics
            ≡ (counted.counters w).panics)
  unfolding count add_goroutines add_requests add_errors
  count-after ctx resp w =
      let w1 = add_requests counted (set counted ctx) w in
      elim (Bool-cases (is_failure resp)) [
        | inl f ↦ elim (Bool-cases ((counted.counters w1).requests % 1000 == 0)) [
          | inl t ↦ rw (f, t) (simp counters-put (refl, ground arith, refl))
          | inr t ↦ rw (f, t) (simp counters-put (refl, ground arith, refl))
        ]
        | inr f ↦ elim (Bool-cases ((counted.counters w1).requests % 1000 == 0)) [
          | inl t ↦ rw (f, t) (simp counters-put (refl, ground arith, refl))
          | inr t ↦ rw (f, t) (simp counters-put (refl, ground arith, refl))
        ]
      ]

  -- Metrics over Panics counts one request more than the handler leaves, one error more exactly if
  -- the answer is an error, and no panic, where the handler answers and the counters keep what is
  -- put into them.
  pub metrics-panics_of_answer :
      (next : HandlerFunc W Context Request) (ctx : Context) (r : Request) (w w' : W)
      (resp : Encoder)
      → next (set counted ctx) r w ≡ (answer resp, w')
      → ((after (metrics counted (panics counted next) ctx r w)).requests
          ≡ suc (counted.counters w').requests)
        × ((after (metrics counted (panics counted next) ctx r w)).errors
            ≡ (if is_failure resp then 1 else 0) + (counted.counters w').errors)
        × ((after (metrics counted (panics counted next) ctx r w)).panics
            ≡ (counted.counters w').panics)
  unfolding metrics panics
  metrics-panics_of_answer next ctx r w w' resp e = rw e (count-after ctx resp w')

  -- Where the handler panics, they count one request, one error and one panic, if the counters keep
  -- what is put into them.
  pub metrics-panics_of_panic :
      (next : HandlerFunc W Context Request) (ctx : Context) (r : Request) (w w' : W) (m : String)
      → next (set counted ctx) r w ≡ (panic m, w')
      → ((after (metrics counted (panics counted next) ctx r w)).requests
          ≡ suc (counted.counters w').requests)
        × ((after (metrics counted (panics counted next) ctx r w)).errors
            ≡ suc (counted.counters w').errors)
        × ((after (metrics counted (panics counted next) ctx r w)).panics
            ≡ suc (counted.counters w').panics)
  unfolding metrics panics add_panics
  metrics-panics_of_panic next ctx r w w' m e =
      let f =
        count-after ctx (app_error (errorf internal_only_log "PANIC" (text m)))
          (add_panics counted (set counted ctx) w') in
      let p : counted.counters (add_panics counted (set counted ctx) w')
          ≡ record (counted.counters w') { panics = suc (counted.counters w').panics } =
        counters-put _ w' in
      let g = rw p at f in rw e (g.0, g.1 ∙ omega arith, g.2)
