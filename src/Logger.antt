-- ===== src/Logger.antt =====
-- foundation/logger: a logger over a handler of log/slog, and the functions that are called for the
-- records of a level. The handlers of slog, the clock, the stack of callers and the package that turns
-- arguments into attributes are parameters.
pub mod Writing
pub mod BuildInfo
pub mod Laws
use spi_exata.Base.{
  ℕ, String, Bool, Option, none, some, List, [], ◌∷◌, ◌is◌, ◌==◌, false, if◌then◌else◌,
}
use spi_exata.Base.Strings.{◌<>◌}
use spi_exata.Base.Int.{ℤ, pos, negsuc}
use spi_exata.User.{Time}

-- slog.Level
abbrev pub Level : Type 0
Level = ℤ

abbrev pub level_debug : Level
level_debug = negsuc 3

abbrev pub level_info : Level
level_info = pos 0

abbrev pub level_warn : Level
level_warn = pos 4

abbrev pub level_error : Level
level_error = pos 8

-- The value of an attribute: a text, a *slog.Source with its file and line, or another value.
pub data Value : Type 0 where
  string : String → Value
  source : String → ℕ → Value
  other : ℕ → Value

pub record Attr : Type 0 where
  pub key : String
  pub value : Value

-- An argument of a call: a text, an attribute, or another value.
pub data Arg : Type 0 where
  string : String → Arg
  attr : Attr → Arg
  other : ℕ → Arg

-- slog.Record
pub record SlogRecord : Type 0 where
  pub time : Time
  pub message : String
  pub level : Level
  pub pc : ℕ
  pub attrs : List Attr

-- Record, its map of attributes as a list that has each key once
pub record Record : Type 0 where
  pub time : Time
  pub message : String
  pub level : Level
  pub attributes : List (String × Value)

-- `atts[key] = value`
unfoldable pub assign : String → Value → List (String × Value) → List (String × Value)
assign key v [] = (key, v) ∷ []
assign key v ((k, x) ∷ m) =
    let rest = assign key v m in if k is key then (k, v) ∷ m else (k, x) ∷ rest

-- the function `f`, for each attribute in turn
unfoldable pub collect : List Attr → List (String × Value) → List (String × Value)
collect [] m = m
collect (a ∷ rest) m = collect rest (assign a.key a.value m)

abbrev pub to_record : SlogRecord → Record
to_record r = record {
  time = r.time;
  message = r.message;
  level = r.level;
  attributes = collect r.attrs [];
}

-- What the source takes from the package slog and the runtime, over handlers `H`, writers `O` and
-- contexts `C`; `add` is what Record.Add makes of arguments.
pub record Slog (W C H O : Type 0) : Type 0 where
  pub json_handler : O → Level → (Attr → Attr) → H
  pub enabled : H → C → Level → Bool
  pub with_attrs : List Attr → H → H
  pub with_group : String → H → H
  pub handle : H → C → SlogRecord → W → Option ℕ × W
  pub add : List Arg → List Attr
  pub now : W → Time × W
  pub callers : ℕ → ℕ
  pub base : String → String
  pub show : ℕ → String
  pub is_discard : O → Bool

-- EventFn
abbrev pub EventFn : Type 0 → Type 0 → Type 0
EventFn W C = C → Record → W → W

pub record Events (W C : Type 0) : Type 0 where
  pub debug : Option (EventFn W C)
  pub info : Option (EventFn W C)
  pub warn : Option (EventFn W C)
  pub error : Option (EventFn W C)

-- A slog.Handler: one of slog, or a logHandler around another one.
pub data Handler (W C H : Type 0) : Type 0 where
  plain : H → Handler W C H
  log_handler : Handler W C H → Events W C → Handler W C H

-- the call of an event function that is not nil
abbrev pub call : {W C : Type 0} → Option (EventFn W C) → C → Record → W → W
call none ctx r w = w
call (some f) ctx r w = f ctx r w

abbrev pub same_level : Level → Level → Bool
same_level (pos a) (pos b) = a == b
same_level (negsuc a) (negsuc b) = a == b
same_level _ _ = false

-- the `switch r.Level` of Handle: other levels have no function
abbrev pub fire : {W C : Type 0} → Events W C → C → SlogRecord → W → W
fire events ctx r w =
    if same_level r.level level_debug
    then call events.debug ctx (to_record r) w
    else if same_level r.level level_error
    then call events.error ctx (to_record r) w
    else if same_level r.level level_warn
    then call events.warn ctx (to_record r) w
    else if same_level r.level level_info
    then call events.info ctx (to_record r) w
    else w

module _ {W C H O : Type 0} (s : Slog W C H O) where
  -- Enabled
  unfoldable pub enabled : Handler W C H → C → Level → Bool
  enabled (plain h) ctx level = s.enabled h ctx level
  enabled (log_handler h events) ctx level = enabled h ctx level

  -- WithAttrs
  unfoldable pub with_attrs : Handler W C H → List Attr → Handler W C H
  with_attrs (plain h) attrs = plain (s.with_attrs attrs h)
  with_attrs (log_handler h events) attrs = log_handler (with_attrs h attrs) events

  -- WithGroup
  unfoldable pub with_group : Handler W C H → String → Handler W C H
  with_group (plain h) name = plain (s.with_group name h)
  with_group (log_handler h events) name = log_handler (with_group h name) events

  -- Handle
  unfoldable pub handle : Handler W C H → C → SlogRecord → W → Option ℕ × W
  handle (plain h) ctx r w = s.handle h ctx r w
  handle (log_handler h events) ctx r w = handle h ctx r (fire events ctx r w)

  -- the name of the file and the line, for a *slog.Source
  abbrev shorten : Value → Attr → Attr
  shorten (Value.source file line) a = record {
    key = "file";
    value = Value.string (s.base file <> (":" <> s.show line));
  }
  shorten _ a = a

  -- the function for ReplaceAttr: the name of the file and the line
  unfoldable pub replace_source : Attr → Attr
  replace_source a = if a.key is "source" then shorten a.value a else a
