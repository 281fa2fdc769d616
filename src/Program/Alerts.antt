-- ===== src/Program/Alerts.antt =====
-- The logger that main of api/cmd/main.go makes, and its alert.
use spi_exata.Base.{◌≡◌, refl, ap, false, true, ℕ, zero, suc, String, some, List, []}
use spi_exata.User.{Time}
use spi_exata.Logger.{
  level_info, level_error, Level, Events, SlogRecord, Arg, Slog, with_attrs, enabled, handle,
}
use spi_exata.Logger.Writing.{Logger, new_with_events, no_events, info, error, entry, new, write}
use spi_exata.Logger.Laws.{json}

-- The logger of main, whose event function for errors uses it again: `depth` bounds how often.
module _ {W C H O : Type 0} (s : Slog W C H O) (stdout : O) (get_trace_id : C → String) where
  unfoldable pub main_log : ℕ → Logger W C H
  main_log zero =
      new_with_events s stdout level_info "SPI-EXATA" (some get_trace_id)
        (record no_events { error = some (λ ctx r w. w) })
  main_log (suc depth) =
      let log = main_log depth in
      new_with_events s stdout level_info "SPI-EXATA" (some get_trace_id) (record no_events {
        error = some (λ ctx r. info s log ctx "******* SEND ALERT *******" []);
      })

  abbrev quiet : Events W C
  quiet = record no_events { error = some (λ ctx r w. w) }

  -- The record of a message of main's logger, and the handler that it comes to.
  abbrev pub main_entry : C → Level → String → List Arg → Time → SlogRecord
  main_entry ctx level msg args time = entry s (main_log 0) ctx level 3 msg args time

  abbrev pub main_json : H
  main_json = json s stdout level_info "SPI-EXATA" (some get_trace_id) quiet

  -- A message at the level Info is logged once, at each depth.
  info_lem :
      (depth : ℕ) (ctx : C) (msg : String) (args : List Arg) (w : W)
      → s.is_discard stdout ≡ false
      → s.enabled main_json ctx level_info ≡ true
      → info s (main_log depth) ctx msg args w
        ≡ (s.handle main_json ctx (main_entry ctx level_info msg args (s.now w).0) (s.now w).1).1
  unfolding info main_log entry new write with_attrs enabled handle
  info_lem zero ctx msg args w out i = rw (out, i) refl
  info_lem (suc depth) ctx msg args w out i = rw (out, i) refl

  -- An error that main's logger is given is logged after one alert at the level Info, each once,
  -- however deep the calls of the event function may go, if the output is not io.Discard and the
  -- handler is enabled for both levels.
  pub error_alerts :
      (depth : ℕ) (ctx : C) (msg : String) (args : List Arg) (w : W)
      → s.is_discard stdout ≡ false
      → s.enabled main_json ctx level_info ≡ true
      → s.enabled main_json ctx level_error ≡ true
      → error s (main_log (suc depth)) ctx msg args w ≡ (
          let (failed_at, w1) = s.now w in
          let (alerted_at, w2) = s.now w1 in
          let alert = main_entry ctx level_info "******* SEND ALERT *******" [] alerted_at in
          let (dropped, w3) = s.handle main_json ctx alert w2 in
          (s.handle main_json ctx (main_entry ctx level_error msg args failed_at) w3).1)
  unfolding error main_log entry new write with_attrs enabled handle
  error_alerts depth ctx msg args w out i e =
      rw (out, e)
        (ap (λ v. (s.handle main_json ctx (main_entry ctx level_error msg args (s.now w).0) v).1)
          (info_lem depth ctx "******* SEND ALERT *******" [] (s.now w).1 out i))
