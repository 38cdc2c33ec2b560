-- ===== src/Tool/Parsed.antt =====
-- cli/options.cpp: the loop of `parseArguments`.
use wisp.Prelude.{
  ◌≡◌, refl, inl, true, Option, none, some, List, [], ◌∷◌, Bytes, bytes_eq, codes, if_both, arith,
  false, Bool-cases, inr, ◌∙◌, sym, subst, ◌++◌, ◌==◌, ◌&&◌, ◌||◌, is_some, append-nil,
  append_assoc, if◌then◌else◌, bytes_beq_iff,
}
use wisp.Tool.Options.{
  Doubles, Options, Outcome, Reading, is_named, is_option, takes_value, with_value, read_argument,
  parse_from, parse_arguments, defaults,
}
use wisp.Tool.Reasons.{words, IsGood, InRange, IsJustified, IsJustified-cons}
use wisp.Tool.Checked.{
  Leads, with_value-Leads, with_flag-Leads, with_word-Leads, finish-IsJustified,
}

-- What holds of both ways to write the option.
by_verbose :
    (P : Bytes → Type 0) (arg : Bytes)
    → P (codes "-v")
    → P (codes "--verbose")
    → is_named arg (codes "-v") (codes "--verbose") ≡ true
    → P arg
by_verbose P arg p q h = elim (Bool-cases (arg == codes "-v")) [
  | inl e ↦ subst P (sym ((bytes_beq_iff arg (codes "-v")).0 e)) p
  | inr e ↦ subst P (sym ((bytes_beq_iff arg (codes "--verbose")).0 (ground (arith, h, e)))) q
]

verbose-is_option :
    (arg : Bytes) → is_named arg (codes "-v") (codes "--verbose") ≡ true → is_option arg ≡ true
unfolding is_option
verbose-is_option arg h = by_verbose (λ a. is_option a ≡ true) arg refl refl h

verbose-takes_value :
    (arg : Bytes) → is_named arg (codes "-v") (codes "--verbose") ≡ true → takes_value arg ≡ false
unfolding takes_value wisp.Prelude.bytes_beq
verbose-takes_value arg h = by_verbose (λ a. takes_value a ≡ false) arg refl refl h

module _ {D : Type 0} (doubles : Doubles D) (total : List Bytes) where
  -- What the reading of an argument says of it, behind these words.
  abbrev Reads : List Bytes → Bytes → List Bytes → Reading D → Type 0
  Reads ws arg argv (Reading.helps o) = InRange doubles total o × (o.help ≡ true)
  Reads ws arg argv (Reading.goes_on r) =
      Leads doubles total (ws ++ (if is_option arg then [] else arg ∷ [])) (arg ∷ argv) r
      × ((is_option arg && takes_value arg) ≡ false)
  Reads ws arg argv Reading.awaits = (is_option arg ≡ true) × (takes_value arg ≡ true)

  read_argument-Reads :
      (ws : List Bytes) (arg : Bytes) (argv : List Bytes) (o : Options D)
      → IsGood doubles total ws o
      → Reads ws arg argv (read_argument arg o)
  unfolding read_argument
  read_argument-Reads ws arg argv o good =
      if_both (Reads ws arg argv) (is_named arg (codes "-h") (codes "--help")) _ _
        (λ h. (good.0, refl))
        λ no_help.
          if_both (Reads ws arg argv) (is_named arg (codes "-v") (codes "--verbose")) _ _
            (λ v.
              rw (verbose-is_option arg v, verbose-takes_value arg v, append-nil ws) (good, refl))
            λ no_verbose.
              if_both (Reads ws arg argv) (is_option arg) _ _
                (λ i.
                  if_both (Reads ws arg argv) (takes_value arg) _ _ (λ t. (i, t))
                    (λ t.
                      rw (i, t, append-nil ws)
                        (
                          with_flag-Leads doubles total ws arg argv o i t no_help no_verbose good,
                          refl,
                        )))
                (λ word. rw word (with_word-Leads doubles total ws arg argv o good, refl))

  abbrev pending_argv : Option Bytes → List Bytes → List Bytes
  pending_argv none argv = argv
  pending_argv (some option) argv = option ∷ argv

  abbrev Awaits : Option Bytes → Type 0
  Awaits none = Unit {0}
  Awaits (some option) = takes_value option ≡ true

  -- Good options go on to the rest; an error is the end.
  after_value :
      (ws : List Bytes) (option value : Bytes) (argv : List Bytes) (r : Outcome D)
      (rest : Options D → Outcome D)
      → Leads doubles total ws (option ∷ value ∷ argv) r
      → ((o : Options D) → IsGood doubles total ws o → IsJustified doubles total argv (rest o))
      → IsJustified doubles total
          (option ∷ value ∷ argv)
          (elim r [ Outcome.refused e ↦ Outcome.refused e | Outcome.accepted o ↦ rest o ])
  after_value ws option value argv (Outcome.refused e) rest h k = h
  after_value ws option value argv (Outcome.accepted o) rest h k =
      IsJustified-cons doubles total option (value ∷ argv) (rest o)
        (IsJustified-cons doubles total value argv (rest o) (k o h))

  after_reading :
      (ws : List Bytes) (arg : Bytes) (argv : List Bytes) (reading : Reading D)
      (rest : Options D → Outcome D) (awaited : Outcome D)
      → Reads ws arg argv reading
      → ((o : Options D)
          → (is_option arg && takes_value arg) ≡ false
          → IsGood doubles total (ws ++ (if is_option arg then [] else arg ∷ [])) o
          → IsJustified doubles total argv (rest o))
      → (is_option arg ≡ true
          → takes_value arg ≡ true
          → IsJustified doubles total (arg ∷ argv) awaited)
      → IsJustified doubles total (arg ∷ argv) (elim reading [
        | Reading.helps o ↦ Outcome.accepted o
        | Reading.awaits ↦ awaited
        | Reading.goes_on (Outcome.refused e) ↦ Outcome.refused e
        | Reading.goes_on (Outcome.accepted o) ↦ rest o
      ])
  after_reading ws arg argv (Reading.helps o) rest awaited h k w = (h.0, inl h.1)
  after_reading ws arg argv Reading.awaits rest awaited h k w = w h.0 h.1
  after_reading ws arg argv (Reading.goes_on (Outcome.refused e)) rest awaited h k w = h.0
  after_reading ws arg argv (Reading.goes_on (Outcome.accepted o)) rest awaited h k w =
      IsJustified-cons doubles total arg argv (rest o) (k o h.1 h.0)

  words_behind :
      (ws : List Bytes) (arg : Bytes) (argv : List Bytes)
      → (is_option arg && takes_value arg) ≡ false
      → ws ++ words false (arg ∷ argv)
        ≡ (ws ++ (if is_option arg then [] else arg ∷ [])) ++ words false argv
  unfolding words
  words_behind ws arg argv h = elim (Bool-cases (is_option arg)) [
    | inl i ↦
        rw (i, append-nil ws) (let t : takes_value arg ≡ false = ground (arith, h, i) in rw t refl)
    | inr word ↦ rw word (sym (append_assoc ws (arg ∷ []) (words false argv)))
  ]

  awaited :
      (ws : List Bytes) (arg : Bytes) (argv : List Bytes)
      → is_option arg ≡ true
      → takes_value arg ≡ true
      → ws ++ words false (arg ∷ argv) ≡ ws ++ words true argv
  unfolding words
  awaited ws arg argv i t = rw (i, t) refl

  parse_from-IsJustified :
      (ws : List Bytes) (from_env : Bytes) (pending : Option Bytes) (argv : List Bytes)
      (o : Options D)
      → total ≡ ws ++ words (is_some pending) argv
      → Awaits pending
      → IsGood doubles total ws o
      → IsJustified doubles total
          (pending_argv pending argv)
          (parse_from doubles from_env pending argv o)
  unfolding parse_from words
  parse_from-IsJustified ws from_env (some option) [] o all w good = (w, ([], refl))
  parse_from-IsJustified ws from_env none [] o all w good =
      finish-IsJustified doubles total from_env [] o
        (subst (λ l. IsGood doubles total l o) (sym (append-nil ws) ∙ sym all) good)
  parse_from-IsJustified ws from_env (some option) (arg ∷ argv) o all w good =
      after_value ws option arg argv (with_value doubles option arg o)
        (λ o'. parse_from doubles from_env none argv o')
        (with_value-Leads doubles total ws option arg argv o good)
        (λ o' g. parse_from-IsJustified ws from_env none argv o' all tt g)
  parse_from-IsJustified ws from_env none (arg ∷ argv) o all w good =
      after_reading ws arg argv (read_argument arg o)
        (λ o'. parse_from doubles from_env none argv o')
        (parse_from doubles from_env (some arg) argv o) (read_argument-Reads ws arg argv o good)
        (λ o' plain g.
          parse_from-IsJustified (ws ++ (if is_option arg then [] else arg ∷ [])) from_env none argv
            o' (all ∙ words_behind ws arg argv plain) tt g)
        (λ i t.
          parse_from-IsJustified ws from_env (some arg) argv o (all ∙ awaited ws arg argv i t) t
            good)

-- Every command line is accepted or refused, and with reason. One that is accepted asks for help, or
-- its first word that is no option and no value of one is the name of the command that was chosen, and
-- its other such words are the arguments, as many as the command takes; its timeout and its width are at
-- least 1. One that is refused for its words has none, or has too few or too many of them behind the
-- name of a command. One that is refused for an argument holds that argument: an option that needs a
-- value is the last argument; a value that is too small or no number stands right behind its option; a
-- speed is no number or below zero; a format or an origin is none of the known ones, and so is an
-- unknown option or command.
pub parse_arguments-IsJustified :
    {D : Type 0} (doubles : Doubles D) (from_env : Bytes) (argv : List Bytes)
    → IsJustified doubles (words false argv) argv (parse_arguments doubles from_env argv)
unfolding parse_arguments
parse_arguments-IsJustified doubles from_env argv =
    parse_from-IsJustified doubles (words false argv) [] from_env none argv (defaults doubles) refl
      tt ((omega arith, omega arith), inl (refl, refl, refl))
