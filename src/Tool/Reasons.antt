-- ===== src/Tool/Reasons.antt =====
-- cli/options.cpp: what `parseArguments` accepts, and the reasons for which it refuses.
use wisp.Prelude.{
  Bool, if◌then◌else◌, ◌≡◌, ap, ◌⊎◌, true, false, not, ◌&&◌, ◌||◌, none, some, List, [], ◌∷◌, ◌++◌,
  ◌==◌, nat_eq, ltb, ◌≤◌, Bytes, bytes_eq, codes, length,
}
use wisp.Beacon.{Parsed, stoi}
use wisp.Tool.Options.{
  CommandSpec, Doubles, Options, ParseError, Outcome, find_command, is_named, is_option,
  takes_value, above,
}

-- An argument, one right behind another, and the last one.
abbrev pub Stands : Bytes → List Bytes → Type 0
Stands arg argv = (before after : List Bytes) × (argv ≡ before ++ arg ∷ after)

abbrev pub StandBehind : Bytes → Bytes → List Bytes → Type 0
StandBehind option value argv =
    (before after : List Bytes) × (argv ≡ before ++ option ∷ value ∷ after)

abbrev pub StandsLast : Bytes → List Bytes → Type 0
StandsLast arg argv = (before : List Bytes) × (argv ≡ before ++ arg ∷ [])

-- The words of a command line that are no options and no values of options, in order; the flag says
-- whether an option still waits for its value.
unfoldable pub words : Bool → List Bytes → List Bytes
words awaited [] = []
words true (value ∷ argv) = words false argv
words false (arg ∷ argv) =
    let rest = words false argv in
    let behind_value = words true argv in
    if is_option arg then (if takes_value arg then behind_value else rest) else arg ∷ rest

abbrev pub is_flag : Bytes → Bool
is_flag arg =
    is_named arg (codes "-h") (codes "--help")
    || (is_named arg (codes "-v") (codes "--verbose")
        || is_named arg (codes "--include-control") (codes "--preserve-uuids"))

-- The words are those of a command line.
module _ {D : Type 0} (doubles : Doubles D) (total : List Bytes) where
  -- What is wrong with the command line, by the error.
  abbrev pub Reason : List Bytes → ParseError → Type 0
  Reason argv (ParseError.needs_value option) = (takes_value option ≡ true) × StandsLast option argv
  Reason argv (ParseError.at_least option least value) =
      StandBehind option value argv
      × ((p : Parsed) × (stoi value ≡ some p)
          × ((p.negative && not (p.magnitude == 0)) || ltb p.magnitude least ≡ true))
  Reason argv (ParseError.expects_number option value) =
      StandBehind option value argv × (stoi value ≡ none)
  Reason argv (ParseError.negative_speed value) =
      Stands value argv × ((d : D) × (doubles.stod value ≡ some d) × (doubles.is_negative d ≡ true))
  Reason argv (ParseError.bad_speed value) = Stands value argv × (doubles.stod value ≡ none)
  Reason argv (ParseError.bad_format value) =
      Stands value argv
      × ((value == codes "auto"
            || (value == codes "text" || (value == codes "hex" || value == codes "raw")))
          ≡ false)
  Reason argv (ParseError.bad_origin value) =
      Stands value argv
      × ((value == codes "any" || (value == codes "local" || value == codes "mesh")) ≡ false)
  Reason argv (ParseError.unknown_option arg) =
      Stands arg argv × (is_option arg ≡ true) × (takes_value arg ≡ false) × (is_flag arg ≡ false)
  Reason argv (ParseError.unknown_command arg) = Stands arg argv × (find_command arg ≡ none)
  Reason argv ParseError.no_command = total ≡ []
  Reason argv (ParseError.too_few command least) =
      (name : Bytes) × (args : List Bytes) × (spec : CommandSpec) × (total ≡ name ∷ args)
      × (find_command name ≡ some spec)
      × (spec.command ≡ command)
      × (spec.min_args ≡ least)
      × (ltb (length args) least ≡ true)
  Reason argv (ParseError.too_many command most) =
      (name : Bytes) × (args : List Bytes) × (spec : CommandSpec) × (total ≡ name ∷ args)
      × (find_command name ≡ some spec)
      × (spec.command ≡ command)
      × (spec.max_args ≡ most)
      × (above (length args) most ≡ true)

  abbrev pub InRange : Options D → Type 0
  InRange o = (1 ≤ o.timeout_ms) × (1 ≤ o.max_bytes)

  -- Help was asked for, or the first word is the command that was chosen and the others are its
  -- arguments, as many as it takes.
  abbrev pub IsComplete : Options D → Type 0
  IsComplete o =
      (o.help ≡ true)
      ⊎ ((name : Bytes) × (spec : CommandSpec) × (total ≡ name ∷ o.args)
          × (find_command name ≡ some spec)
          × (o.spec ≡ some spec)
          × (spec.min_args ≤ length o.args)
          × (above (length o.args) spec.max_args ≡ false))

  -- The words that were read are the command, once there is one, and its arguments.
  abbrev pub IsRead : List Bytes → Options D → Type 0
  IsRead ws o =
      (ws ≡ []) × (o.spec ≡ none) × (o.args ≡ [])
      ⊎ ((name : Bytes) × (spec : CommandSpec) × (ws ≡ name ∷ o.args)
          × (find_command name ≡ some spec)
          × (o.spec ≡ some spec))

  abbrev pub IsGood : List Bytes → Options D → Type 0
  IsGood ws o = InRange o × IsRead ws o

  abbrev pub IsJustified : List Bytes → Outcome D → Type 0
  IsJustified argv (Outcome.refused e) = Reason argv e
  IsJustified argv (Outcome.accepted o) = InRange o × IsComplete o

  Stands-cons : (x arg : Bytes) (argv : List Bytes) → Stands arg argv → Stands arg (x ∷ argv)
  Stands-cons x arg argv (before, after, e) = (x ∷ before, after, ap (◌∷◌ x) e)

  StandBehind-cons :
      (x option value : Bytes) (argv : List Bytes)
      → StandBehind option value argv
      → StandBehind option value (x ∷ argv)
  StandBehind-cons x option value argv (before, after, e) = (x ∷ before, after, ap (◌∷◌ x) e)

  Reason-cons :
      (x : Bytes) (argv : List Bytes) (e : ParseError) → Reason argv e → Reason (x ∷ argv) e
  Reason-cons x argv (ParseError.needs_value option) (t, (before, e)) =
      (t, (x ∷ before, ap (◌∷◌ x) e))
  Reason-cons x argv (ParseError.at_least option least value) (s, r) =
      (StandBehind-cons x option value argv s, r)
  Reason-cons x argv (ParseError.expects_number option value) (s, r) =
      (StandBehind-cons x option value argv s, r)
  Reason-cons x argv (ParseError.negative_speed value) (s, r) = (Stands-cons x value argv s, r)
  Reason-cons x argv (ParseError.bad_speed value) (s, r) = (Stands-cons x value argv s, r)
  Reason-cons x argv (ParseError.bad_format value) (s, r) = (Stands-cons x value argv s, r)
  Reason-cons x argv (ParseError.bad_origin value) (s, r) = (Stands-cons x value argv s, r)
  Reason-cons x argv (ParseError.unknown_option arg) (s, i, t, f) =
      (Stands-cons x arg argv s, i, t, f)
  Reason-cons x argv (ParseError.unknown_command arg) (s, r) = (Stands-cons x arg argv s, r)
  Reason-cons x argv ParseError.no_command r = r
  Reason-cons x argv (ParseError.too_few command least) r = r
  Reason-cons x argv (ParseError.too_many command most) r = r

  pub IsJustified-cons :
      (x : Bytes) (argv : List Bytes) (r : Outcome D)
      → IsJustified argv r
      → IsJustified (x ∷ argv) r
  IsJustified-cons x argv (Outcome.refused e) h = Reason-cons x argv e h
  IsJustified-cons x argv (Outcome.accepted o) h = h
