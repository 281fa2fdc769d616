-- ===== src/Logger/Laws.antt =====
-- What a logger does with a message, and what the functions for its level are told.
use spi_exata.Base.{
  ℕ, String, ◌≡◌, ◌∙◌, refl, Bool, true, false, Option, none, some, List, [], ◌∷◌, ◌++◌, inl, inr,
  lookup, arith, if◌then◌else◌, Bool-cases, Option-cases, ◌is◌, eq_refl,
}
use spi_exata.Base.Int.{pos, negsuc}
use spi_exata.Logger.{
  EventFn, same_level, Level, Value, Attr, Arg, SlogRecord, Slog, Events, fire, to_record, assign,
  collect, enabled, with_attrs, handle, replace_source,
}
use spi_exata.Logger.Writing.{Logger, has_event, new, entry, write}

-- The function for the records of a level.
abbrev pub function_for : {W C : Type 0} → Events W C → Level → Option (EventFn W C)
function_for events level =
    if same_level level (negsuc 3)
    then events.debug
    else if same_level level (pos 0)
    then events.info
    else if same_level level (pos 4)
    then events.warn
    else if same_level level (pos 8)
    then events.error
    else none

fire_lem :
    {W C : Type 0} (events : Events W C) (ctx : C) (r : SlogRecord) (w : W)
    → fire events ctx r w
      ≡ (elim (function_for events r.level) [ none ↦ w | some f ↦ f ctx (to_record r) w ])
fire_lem events ctx r w = ground arith

fire_of_none :
    {W C : Type 0} (events : Events W C) (ctx : C) (r : SlogRecord) (w : W)
    → has_event events ≡ false
    → fire events ctx r w ≡ w
fire_of_none events ctx r w h = ground arith

module _ {W C H O : Type 0} (s : Slog W C H O) (out : O) (min_level : Level) (service_name : String)
    (trace_id_fn : Option (C → String)) (events : Events W C) where
  abbrev pub log : Logger W C H
  log = new s out min_level service_name trace_id_fn events

  -- the handler of slog inside the logger
  abbrev pub json : H
  json =
      s.with_attrs (record { key = "service"; value = Value.string service_name } ∷ [])
        (s.json_handler out min_level (replace_source s))

  -- what a message is told as: the arguments with the trace id of the context at their end
  abbrev pub told : C → Level → ℕ → String → List Arg → ℕ → SlogRecord
  told ctx level caller msg args time = record {
    time = time;
    message = msg;
    level = level;
    pc = s.callers caller;
    attrs = s.add (elim trace_id_fn [
      | none ↦ args
      | some f ↦ args ++ (Arg.string "trace_id" ∷ Arg.string (f ctx) ∷ [])
    ]);
  }

  entry-told :
      (ctx : C) (level : Level) (caller : ℕ) (msg : String) (args : List Arg) (time : ℕ)
      → entry s log ctx level caller msg args time ≡ told ctx level caller msg args time
  unfolding entry new
  entry-told ctx level caller msg args time = elim (Option-cases trace_id_fn) [
    | inl e ↦ rw e refl
    | inr (f, e) ↦ rw e refl
  ]

  written :
      (ctx : C) (level : Level) (caller : ℕ) (msg : String) (args : List Arg) (w : W)
      → write s log ctx level caller msg args w ≡ (
          if s.enabled json ctx level
          then (s.handle json ctx
              (entry s log ctx level caller msg args (s.now w).0)
              (fire events ctx (entry s log ctx level caller msg args (s.now w).0) (s.now w).1)).1
          else w)
  unfolding write new enabled with_attrs handle
  written ctx level caller msg args w = elim (Bool-cases (has_event events)) [
    | inl some_event ↦ rw some_event refl
    | inr no_event ↦ rw (no_event, fire_of_none events ctx _ _ no_event) refl
  ]

  -- A logger that new makes of whatever events does nothing with a message of a level that its handler
  -- of slog is not enabled for. Otherwise it calls the function for the level, if there is one, with
  -- the record, and then the handler once, with the same record: the message, the time, the caller,
  -- and the arguments with the trace id after them. The functions for -4, 0, 4 and 8 are those for
  -- debugging, information, warnings and errors.
  pub new-write :
      (ctx : C) (level : Level) (caller : ℕ) (msg : String) (args : List Arg) (w : W)
      → write s log ctx level caller msg args w ≡ (
          if s.enabled json ctx level
          then (s.handle json ctx
              (told ctx level caller msg args (s.now w).0)
              (elim (function_for events level) [
                | none ↦ (s.now w).1
                | some f ↦
                    f ctx (to_record (told ctx level caller msg args (s.now w).0)) (s.now w).1
              ])).1
          else w)
  new-write ctx level caller msg args w =
      written ctx level caller msg args w
      ∙ rw
          (
            entry-told ctx level caller msg args (s.now w).0,
            fire_lem events ctx (told ctx level caller msg args (s.now w).0) (s.now w).1,
          )
          refl

lookup-assign :
    (k : String) (v : Value) (m : List (String × Value)) → lookup k (assign k v m) ≡ some v
unfolding assign
lookup-assign k v [] = rw (eq_refl k) refl
lookup-assign k v ((j, x) ∷ m) = elim (Bool-cases (j is k)) [
  | inl same ↦ rw same (rw same refl)
  | inr other ↦ rw other (rw other (lookup-assign k v m))
]

collect-++ :
    (xs : List Attr) (a : Attr) (m : List (String × Value))
    → collect (xs ++ (a ∷ [])) m ≡ assign a.key a.value (collect xs m)
unfolding collect
collect-++ [] a m = refl
collect-++ (x ∷ xs) a m = collect-++ xs a (assign x.key x.value m)

-- Each text of the arguments is followed by its value.
abbrev pub paired : List Arg → Bool
paired [] = true
paired (Arg.string k ∷ []) = false
paired (Arg.string k ∷ v ∷ args) = paired args
paired (_ ∷ args) = paired args

-- Record.Add makes an attribute of a text and the argument after it.
abbrev pub IsAdder : {W C H O : Type 0} → Slog W C H O → Type 0
IsAdder s =
    (args : List Arg) (k v : String)
    → paired args ≡ true
    → s.add (args ++ (Arg.string k ∷ Arg.string v ∷ []))
      ≡ s.add args ++ (record { key = k; value = Value.string v } ∷ [])

-- Whatever attributes a message comes with, an event function is told the trace id of the context
-- under "trace_id", if each text of the arguments is followed by its value and Record.Add makes an
-- attribute of such a pair.
pub entry_trace_id :
    {W C H O : Type 0} (s : Slog W C H O)
    → IsAdder s
    → (log : Logger W C H) (f : C → String) → log.trace_id_fn ≡ some f
    → (ctx : C) (level : Level) (caller : ℕ) (msg : String) (args : List Arg) (time : ℕ)
    → paired args ≡ true
    → lookup "trace_id" (to_record (entry s log ctx level caller msg args time)).attributes
      ≡ some (Value.string (f ctx))
unfolding entry
entry_trace_id s adds log f e ctx level caller msg args time p =
    rw
      (
        e,
        adds args "trace_id" (f ctx) p,
        collect-++ (s.add args) (record { key = "trace_id"; value = Value.string (f ctx) }) [],
      )
      (lookup-assign "trace_id" (Value.string (f ctx)) (collect (s.add args) []))
