-- ===== src/Logger/Writing.antt =====
-- foundation/logger/logger.go: making a logger, and writing with it.
use spi_exata.Base.{
  ℕ, String, Bool, false, Option, none, some, List, [], ◌∷◌, ◌++◌, ◌||◌, is_some, if◌then◌else◌,
}
use spi_exata.Logger.{
  Level, level_debug, level_info, level_warn, level_error, Value, Arg, SlogRecord, Slog, Events,
  Handler, plain, log_handler, enabled, with_attrs, handle, replace_source,
}

pub record Logger (W C H : Type 0) : Type 0 where
  pub discard : Bool
  pub handler : Handler W C H
  pub trace_id_fn : Option (C → String)

abbrev pub no_events : {W C : Type 0} → Events W C
no_events = record { debug = none; info = none; warn = none; error = none }

abbrev pub has_event : {W C : Type 0} → Events W C → Bool
has_event events =
    is_some events.debug || is_some events.info || is_some events.warn || is_some events.error

-- the arguments with the trace id
abbrev pub traced : {C : Type 0} → Option (C → String) → C → List Arg → List Arg
traced none ctx args = args
traced (some f) ctx args = args ++ (Arg.string "trace_id" ∷ Arg.string (f ctx) ∷ [])

module _ {W C H O : Type 0} (s : Slog W C H O) where
  -- new
  unfoldable pub new : O → Level → String → Option (C → String) → Events W C → Logger W C H
  new out min_level service_name trace_id_fn events =
      let json = plain (s.json_handler out min_level (replace_source s)) in
      let handler = if has_event events then log_handler json events else json in
      record {
        discard = s.is_discard out;
        handler =
            with_attrs s handler
              (record { key = "service"; value = Value.string service_name } ∷ []);
        trace_id_fn = trace_id_fn;
      }

  -- New
  abbrev pub new_logger : O → Level → String → Option (C → String) → Logger W C H
  new_logger out min_level service_name trace_id_fn =
      new out min_level service_name trace_id_fn no_events

  -- NewWithEvents
  abbrev pub new_with_events : O → Level → String → Option (C → String) → Events W C → Logger W C H
  new_with_events = new

  -- NewWithHandler
  abbrev pub new_with_handler : Handler W C H → Logger W C H
  new_with_handler h = record { discard = false; handler = h; trace_id_fn = none }

  module _ (log : Logger W C H) (ctx : C) where
    -- slog.NewRecord, and r.Add of the arguments with the trace id
    unfoldable pub entry : Level → ℕ → String → List Arg → ℕ → SlogRecord
    entry level caller msg args time = record {
      time = time;
      message = msg;
      level = level;
      pc = s.callers caller;
      attrs = s.add (traced log.trace_id_fn ctx args);
    }

    -- write, told the depth of the caller; the error of the handler is dropped
    unfoldable pub write : Level → ℕ → String → List Arg → W → W
    write level caller msg args w =
        let (time, w1) = s.now w in
        let (dropped, w2) = handle s log.handler ctx (entry level caller msg args time) w1 in
        if enabled s log.handler ctx level then w2 else w

    abbrev unless_discarded : (W → W) → W → W
    unless_discarded f w = if log.discard then w else f w

    -- Debug, Debugc
    unfoldable pub debug : String → List Arg → W → W
    debug msg args = unless_discarded (write level_debug 3 msg args)

    unfoldable pub debugc : ℕ → String → List Arg → W → W
    debugc caller msg args = unless_discarded (write level_debug caller msg args)

    -- Info, Infoc
    unfoldable pub info : String → List Arg → W → W
    info msg args = unless_discarded (write level_info 3 msg args)

    unfoldable pub infoc : ℕ → String → List Arg → W → W
    infoc caller msg args = unless_discarded (write level_info caller msg args)

    -- Warn, Warnc
    unfoldable pub warn : String → List Arg → W → W
    warn msg args = unless_discarded (write level_warn 3 msg args)

    unfoldable pub warnc : ℕ → String → List Arg → W → W
    warnc caller msg args = unless_discarded (write level_warn caller msg args)

    -- Error, Errorc
    unfoldable pub error : String → List Arg → W → W
    error msg args = unless_discarded (write level_error 3 msg args)

    unfoldable pub errorc : ℕ → String → List Arg → W → W
    errorc caller msg args = unless_discarded (write level_error caller msg args)
