-- ===== src/Tool/Options.antt =====
-- cli/options.h and cli/options.cpp: the arguments of the command-line client.
use wisp.Prelude.{
  ℕ, Bool, true, false, not, ◌&&◌, ◌||◌, Option, none, some, List, [], ◌∷◌, ◌++◌, ◌==◌, nat_eq, ltb,
  Bytes, bytes_eq, codes, if◌then◌else◌, length,
}
use wisp.Keys.{Origin}
use wisp.Beacon.{stoi}

pub data Command : Type 0 where
  publish subscribe request stats tap record_ replay : Command

pub data PayloadFormat : Type 0 where
  auto text hex raw : PayloadFormat

-- `double`: reading one, and whether it is below zero.
pub record Doubles (D : Type 0) : Type 0 where
  pub stod : Bytes → Option D
  pub is_negative : D → Bool
  pub one : D

-- No limit is `UNLIMITED_ARGS`.
pub record CommandSpec : Type 0 where
  pub name : Bytes
  pub command : Command
  pub min_args : ℕ
  pub max_args : Option ℕ

-- `spec` is the row of the command that was chosen; there is none before, where `command` is `None`.
pub record Options (D : Type 0) : Type 0 where
  pub spec : Option CommandSpec
  pub args : List Bytes
  pub address : Bytes
  pub client_id : Bytes
  pub format : PayloadFormat
  pub count : ℕ
  pub count_given : Bool
  pub timeout_ms : ℕ
  pub origin : Origin
  pub max_bytes : ℕ
  pub verbose : Bool
  pub help : Bool
  pub speed : D
  pub include_control : Bool
  pub preserve_uuids : Bool

-- The reasons in `outError`, by what they name.
pub data ParseError : Type 0 where
  needs_value : Bytes → ParseError
  at_least : Bytes → ℕ → Bytes → ParseError
  expects_number : Bytes → Bytes → ParseError
  negative_speed : Bytes → ParseError
  bad_speed : Bytes → ParseError
  bad_format : Bytes → ParseError
  bad_origin : Bytes → ParseError
  unknown_option : Bytes → ParseError
  unknown_command : Bytes → ParseError
  no_command : ParseError
  too_few : Command → ℕ → ParseError
  too_many : Command → Option ℕ → ParseError

pub data Outcome (D : Type 0) : Type 0 where
  refused : ParseError → Outcome D
  accepted : Options D → Outcome D

abbrev pub row : Bytes → Command → ℕ → Option ℕ → CommandSpec
row name command min_args max_args = record {
  name = name;
  command = command;
  min_args = min_args;
  max_args = max_args;
}

abbrev pub commands : List CommandSpec
commands =
    row (codes "pub") Command.publish 1 (some 2)
    ∷ row (codes "publish") Command.publish 1 (some 2)
    ∷ row (codes "sub") Command.subscribe 1 none
    ∷ row (codes "subscribe") Command.subscribe 1 none
    ∷ row (codes "req") Command.request 1 (some 2)
    ∷ row (codes "request") Command.request 1 (some 2)
    ∷ row (codes "stats") Command.stats 0 (some 0)
    ∷ row (codes "tap") Command.tap 0 (some 1)
    ∷ row (codes "record") Command.record_ 1 (some 2)
    ∷ row (codes "replay") Command.replay 1 (some 1)
    ∷ []

unfoldable pub find_in_rows : Bytes → List CommandSpec → Option CommandSpec
find_in_rows name [] = none
find_in_rows name (spec ∷ rows) = if spec.name == name then some spec else find_in_rows name rows

unfoldable pub find_command : Bytes → Option CommandSpec
unfolding find_in_rows
find_command name = find_in_rows name commands

abbrev pub is_named : Bytes → Bytes → Bytes → Bool
is_named arg short long = arg == short || arg == long

-- More than one byte, of which the first is a dash.
unfoldable pub is_option : Bytes → Bool
is_option [] = false
is_option (a ∷ []) = false
is_option (a ∷ b ∷ arg) = a == b'-'

-- The options that take a value.
unfoldable pub takes_value : Bytes → Bool
takes_value arg =
    is_named arg (codes "-a") (codes "--address")
    || (arg == codes "--id"
        || (is_named arg (codes "-f") (codes "--format")
            || (is_named arg (codes "-n") (codes "--count")
                || (is_named arg (codes "-t") (codes "--timeout")
                    || (arg == codes "--origin"
                        || (arg == codes "--max-bytes" || arg == codes "--speed"))))))

abbrev pub above : ℕ → Option ℕ → Bool
above n none = false
above n (some limit) = ltb limit n

-- One argument: `-h`, an option that waits for its value, or another argument and what comes of it.
pub data Reading (D : Type 0) : Type 0 where
  helps : Options D → Reading D
  goes_on : Outcome D → Reading D
  awaits : Reading D

module _ {D : Type 0} where
  -- The number of an `int` option, from its word.
  unfoldable pub int_of : Bytes → ℕ → Bytes → (ℕ → Options D) → Outcome D
  int_of option least word put = elim (stoi word) [
    | none ↦ Outcome.refused (ParseError.expects_number option word)
    | some value ↦
        if (value.negative && not (value.magnitude == 0)) || ltb value.magnitude least
        then Outcome.refused (ParseError.at_least option least word)
        else Outcome.accepted (put value.magnitude)
  ]

  unfoldable pub parse_speed : Doubles D → Bytes → Options D → Outcome D
  parse_speed doubles word o = elim (doubles.stod word) [
    | none ↦ Outcome.refused (ParseError.bad_speed word)
    | some value ↦
        if doubles.is_negative value
        then Outcome.refused (ParseError.negative_speed word)
        else Outcome.accepted (record o { speed = value })
  ]

  unfoldable pub parse_format : Bytes → Options D → Outcome D
  parse_format word o =
      if word == codes "auto"
      then Outcome.accepted (record o { format = PayloadFormat.auto })
      else if word == codes "text"
      then Outcome.accepted (record o { format = PayloadFormat.text })
      else if word == codes "hex"
      then Outcome.accepted (record o { format = PayloadFormat.hex })
      else if word == codes "raw"
      then Outcome.accepted (record o { format = PayloadFormat.raw })
      else Outcome.refused (ParseError.bad_format word)

  unfoldable pub parse_origin : Bytes → Options D → Outcome D
  parse_origin word o =
      if word == codes "any"
      then Outcome.accepted (record o { origin = Origin.any })
      else if word == codes "local"
      then Outcome.accepted (record o { origin = Origin.local })
      else if word == codes "mesh"
      then Outcome.accepted (record o { origin = Origin.mesh })
      else Outcome.refused (ParseError.bad_origin word)

  unfoldable pub with_value : Doubles D → Bytes → Bytes → Options D → Outcome D
  unfolding int_of parse_speed parse_format parse_origin
  with_value doubles arg value o =
      if is_named arg (codes "-a") (codes "--address")
      then Outcome.accepted (record o { address = value })
      else if arg == codes "--id"
      then Outcome.accepted (record o { client_id = value })
      else if is_named arg (codes "-f") (codes "--format")
      then parse_format value o
      else if is_named arg (codes "-n") (codes "--count")
      then int_of arg 0 value (λ n. record o { count = n; count_given = true })
      else if is_named arg (codes "-t") (codes "--timeout")
      then int_of arg 1 value (λ n. record o { timeout_ms = n })
      else if arg == codes "--origin"
      then parse_origin value o
      else if arg == codes "--max-bytes"
      then int_of arg 1 value (λ n. record o { max_bytes = n })
      else parse_speed doubles value o

  unfoldable pub with_flag : Bytes → Options D → Outcome D
  with_flag arg o =
      if arg == codes "--include-control"
      then Outcome.accepted (record o { include_control = true })
      else if arg == codes "--preserve-uuids"
      then Outcome.accepted (record o { preserve_uuids = true })
      else Outcome.refused (ParseError.unknown_option arg)

  -- The first argument that is no option is the command.
  unfoldable pub with_word : Bytes → Options D → Outcome D
  unfolding find_command
  with_word arg o = elim o.spec [
    | some spec ↦ Outcome.accepted (record o { args = o.args ++ arg ∷ [] })
    | none ↦ elim (find_command arg) [
      | none ↦ Outcome.refused (ParseError.unknown_command arg)
      | some spec ↦ Outcome.accepted (record o { spec = some spec })
    ]
  ]

  unfoldable pub finish : Bytes → Options D → Outcome D
  finish from_env o = elim o.spec [
    | none ↦ Outcome.refused ParseError.no_command
    | some spec ↦
        if ltb (length o.args) spec.min_args
        then Outcome.refused (ParseError.too_few spec.command spec.min_args)
        else if above (length o.args) spec.max_args
        then Outcome.refused (ParseError.too_many spec.command spec.max_args)
        else Outcome.accepted (if o.address == [] then record o { address = from_env } else o)
  ]

  unfoldable pub read_argument : Bytes → Options D → Reading D
  unfolding is_option takes_value with_flag with_word
  read_argument arg o =
      if is_named arg (codes "-h") (codes "--help")
      then Reading.helps (record o { help = true })
      else if is_named arg (codes "-v") (codes "--verbose")
      then Reading.goes_on (Outcome.accepted (record o { verbose = true }))
      else if is_option arg
      then (if takes_value arg then Reading.awaits else Reading.goes_on (with_flag arg o))
      else Reading.goes_on (with_word arg o)

  -- The loop over `argv`; the option, if any, is one that still waits for its value. `from_env` is
  -- WISP_ADDRESS, or the default address where it is not set.
  unfoldable pub parse_from : Doubles D → Bytes → Option Bytes → List Bytes → Options D → Outcome D
  unfolding read_argument with_value finish
  parse_from doubles from_env (some option) [] o = Outcome.refused (ParseError.needs_value option)
  parse_from doubles from_env none [] o = finish from_env o
  parse_from doubles from_env (some option) (arg ∷ argv) o =
      elim (with_value doubles option arg o) [
        | Outcome.refused e ↦ Outcome.refused e
        | Outcome.accepted o' ↦ parse_from doubles from_env none argv o'
      ]
  parse_from doubles from_env none (arg ∷ argv) o = elim (read_argument arg o) [
    | Reading.helps o' ↦ Outcome.accepted o'
    | Reading.awaits ↦ parse_from doubles from_env (some arg) argv o
    | Reading.goes_on (Outcome.refused e) ↦ Outcome.refused e
    | Reading.goes_on (Outcome.accepted o') ↦ parse_from doubles from_env none argv o'
  ]

  abbrev pub defaults : Doubles D → Options D
  defaults doubles = record {
    spec = none;
    args = [];
    address = [];
    client_id = [];
    format = PayloadFormat.auto;
    count = 0;
    count_given = false;
    timeout_ms = 5000;
    origin = Origin.any;
    max_bytes = 64;
    verbose = false;
    help = false;
    speed = doubles.one;
    include_control = false;
    preserve_uuids = false;
  }

  unfoldable pub parse_arguments : Doubles D → Bytes → List Bytes → Outcome D
  unfolding parse_from
  parse_arguments doubles from_env argv = parse_from doubles from_env none argv (defaults doubles)
