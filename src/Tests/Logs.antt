-- ===== src/Tests/Logs.antt =====
-- A logger whose handler keeps the records, over a clock that stands still.
use spi_exata.Base.{ℕ, String, ◌≡◌, refl, ap, true, false, none, some, List, [], ◌∷◌, lookup}
use spi_exata.Logger.{
  Value, Attr, Arg, SlogRecord, Slog, Events, level_info, level_error, to_record,
}
use spi_exata.Logger.Writing.{no_events, entry, write, new, error}
use spi_exata.Logger.Laws.{log, json, told, new-write, IsAdder, entry_trace_id}
use spi_exata.Logger.BuildInfo.{quote_key, quote_value}
use spi_exata.Program.Alerts.{main_log, main_entry, error_alerts}

-- the pairs of texts alone become attributes
unfoldable add : List Arg → List Attr
add (Arg.string k ∷ Arg.string v ∷ args) = record { key = k; value = Value.string v } ∷ add args
add (Arg.string k ∷ _ ∷ args) = add args
add (Arg.string k ∷ []) = []
add (_ ∷ args) = add args
add [] = []

abbrev slog : Slog (List SlogRecord) String ℕ ℕ
slog = record {
  json_handler = λ out level replace. 0;
  enabled = λ h ctx level. true;
  with_attrs = λ attrs h. h;
  with_group = λ name h. h;
  handle = λ h ctx r w. (none, r ∷ w);
  add = add;
  now = λ w. (7, w);
  callers = λ n. n;
  base = λ file. file;
  show = λ n. "1";
  is_discard = λ out. false;
}

abbrev events : Events (List SlogRecord) String
events = record no_events { error = some (λ ctx r w. []) }

new-write_example :
    write slog (log slog 0 level_info "s" (some (λ ctx. ctx)) events) "id" level_error 3 "m" [] []
    ≡ (slog.handle
        (json slog 0 level_info "s" (some (λ ctx. ctx)) events)
        "id"
        (told slog 0 level_info "s" (some (λ ctx. ctx)) events "id" level_error 3 "m" [] 7)
        []).1
new-write_example =
    new-write slog 0 level_info "s" (some (λ ctx. ctx)) events "id" level_error 3 "m" [] []

adds : IsAdder slog
unfolding add
adds [] k v p = refl
adds (Arg.string j ∷ []) k v p = cc
adds (Arg.string j ∷ Arg.string x ∷ args) k v p =
    ap (λ attrs. record { key = j; value = Value.string x } ∷ attrs) (adds args k v p)
adds (Arg.string j ∷ Arg.attr a ∷ args) k v p = adds args k v p
adds (Arg.string j ∷ Arg.other n ∷ args) k v p = adds args k v p
adds (Arg.attr a ∷ args) k v p = adds args k v p
adds (Arg.other n ∷ args) k v p = adds args k v p

abbrev forged : List Arg
forged = Arg.string "trace_id" ∷ Arg.string "forged" ∷ []

-- A trace id that a caller gives is replaced.
entry_trace_id_example :
    lookup "trace_id"
      (to_record (
        entry slog
          (log slog 0 level_info "s" (some (λ ctx. ctx)) events)
          "id"
          level_error
          3
          "m"
          forged
          7)).attributes
    ≡ some (Value.string "id")
unfolding new
entry_trace_id_example =
    entry_trace_id slog adds (log slog 0 level_info "s" (some (λ ctx. ctx)) events) (λ ctx. ctx)
      refl "id" level_error 3 "m" forged 7 refl

error_alerts_example :
    error slog (main_log slog 0 (λ ctx. ctx) 2) "id" "m" [] []
    ≡ main_entry slog 0 (λ ctx. ctx) "id" level_error "m" [] 7
      ∷ main_entry slog 0 (λ ctx. ctx) "id" level_info "******* SEND ALERT *******" [] 7
      ∷ []
error_alerts_example = error_alerts slog 0 (λ ctx. ctx) 1 "id" "m" [] [] refl refl refl

quoted :
    (quote_key "a=b" ≡ true)
    × (quote_value "a=b" ≡ false)
    × (quote_key "" ≡ true)
    × (quote_value "" ≡ false)
unfolding quote_key quote_value
quoted = (refl, refl, refl, refl)
