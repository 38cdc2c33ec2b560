-- ===== src/Tool/Checked.antt =====
-- cli/options.cpp: what one argument of `parseArguments` leads to, and the end of the arguments.
use wisp.Prelude.{
  ◌≡◌, refl, ap, inl, inr, Option-cases, ℕ, true, false, not, ◌&&◌, ◌||◌, List, [], ◌∷◌, ◌++◌, ◌==◌,
  nat_eq, ltb, ◌≤◌, Bytes, bytes_eq, codes, if_both, length, arith,
}
use wisp.Beacon.{stoi}
use wisp.Tool.Options.{
  Doubles, Options, Outcome, find_command, is_named, is_option, takes_value, above, int_of,
  parse_speed, parse_format, parse_origin, with_value, with_flag, with_word, finish,
}
use wisp.Tool.Reasons.{Reason, InRange, IsComplete, IsGood, IsJustified}

module _ {D : Type 0} (doubles : Doubles D) (total : List Bytes) where
  -- What one argument leads to, before the rest is read.
  abbrev pub Leads : List Bytes → List Bytes → Outcome D → Type 0
  Leads ws argv (Outcome.refused e) = Reason doubles total argv e
  Leads ws argv (Outcome.accepted o) = IsGood doubles total ws o

  module _ (ws : List Bytes) (option value : Bytes) (argv : List Bytes) where
    int_of-Leads :
        (least : ℕ) (put : ℕ → Options D)
        → ((n : ℕ) → least ≤ n → IsGood doubles total ws (put n))
        → Leads ws (option ∷ value ∷ argv) (int_of option least value put)
    unfolding int_of
    int_of-Leads least put good = elim (Option-cases (stoi value)) [
      | inl e ↦ rw (e, int_of) (([], argv, refl), e)
      | inr (p, e) ↦
          rw (e, int_of)
            (if_both (Leads ws (option ∷ value ∷ argv))
              ((p.negative && not (p.magnitude == 0)) || ltb p.magnitude least) _ _
              (λ small. (([], argv, refl), (p, e, small)))
              (λ fits. good p.magnitude (ground (arith, fits))))
    ]

    parse_speed-Leads :
        (o : Options D)
        → IsGood doubles total ws o
        → Leads ws (option ∷ value ∷ argv) (parse_speed doubles value o)
    unfolding parse_speed
    parse_speed-Leads o good = elim (Option-cases (doubles.stod value)) [
      | inl e ↦ rw (e, parse_speed) ((option ∷ [], argv, refl), e)
      | inr (d, e) ↦
          rw (e, parse_speed)
            (if_both (Leads ws (option ∷ value ∷ argv)) (doubles.is_negative d) _ _
              (λ neg. ((option ∷ [], argv, refl), (d, e, neg))) (λ pos. good))
    ]

    parse_format-Leads :
        (o : Options D)
        → IsGood doubles total ws o
        → Leads ws (option ∷ value ∷ argv) (parse_format value o)
    unfolding parse_format
    parse_format-Leads o good =
        if_both (Leads ws (option ∷ value ∷ argv)) (value == codes "auto") _ _ (λ h. good)
          λ a.
            if_both (Leads ws (option ∷ value ∷ argv)) (value == codes "text") _ _ (λ h. good)
              λ b.
                if_both (Leads ws (option ∷ value ∷ argv)) (value == codes "hex") _ _ (λ h. good)
                  λ c.
                    if_both (Leads ws (option ∷ value ∷ argv)) (value == codes "raw") _ _
                      (λ h. good) λ d. ((option ∷ [], argv, refl), ground (arith, a, b, c, d))

    parse_origin-Leads :
        (o : Options D)
        → IsGood doubles total ws o
        → Leads ws (option ∷ value ∷ argv) (parse_origin value o)
    unfolding parse_origin
    parse_origin-Leads o good =
        if_both (Leads ws (option ∷ value ∷ argv)) (value == codes "any") _ _ (λ h. good)
          λ a.
            if_both (Leads ws (option ∷ value ∷ argv)) (value == codes "local") _ _ (λ h. good)
              λ b.
                if_both (Leads ws (option ∷ value ∷ argv)) (value == codes "mesh") _ _ (λ h. good)
                  λ c. ((option ∷ [], argv, refl), ground (arith, a, b, c))

    pub with_value-Leads :
        (o : Options D)
        → IsGood doubles total ws o
        → Leads ws (option ∷ value ∷ argv) (with_value doubles option value o)
    unfolding with_value
    with_value-Leads o good =
        if_both P (is_named option (codes "-a") (codes "--address")) _ _ (λ h. good)
          λ a.
            if_both P (option == codes "--id") _ _ (λ h. good)
              λ b.
                if_both P (is_named option (codes "-f") (codes "--format")) _ _
                  (λ h. parse_format-Leads o good)
                  λ c.
                    if_both P (is_named option (codes "-n") (codes "--count")) _ _
                      (λ h. int_of-Leads 0 _ (λ n l. good))
                      λ d.
                        if_both P (is_named option (codes "-t") (codes "--timeout")) _ _
                          (λ h. int_of-Leads 1 _ (λ n l. ((l, good.0.1), good.1)))
                          λ e.
                            if_both P (option == codes "--origin") _ _
                              (λ h. parse_origin-Leads o good)
                              λ f.
                                if_both P (option == codes "--max-bytes") _ _
                                  (λ h. int_of-Leads 1 _ (λ n l. ((good.0.0, l), good.1)))
                                  λ g. parse_speed-Leads o good
      where
        P : Outcome D → Type 0
        P = Leads ws (option ∷ value ∷ argv)

  pub with_flag-Leads :
      (ws : List Bytes) (arg : Bytes) (argv : List Bytes) (o : Options D)
      → is_option arg ≡ true
      → takes_value arg ≡ false
      → is_named arg (codes "-h") (codes "--help") ≡ false
      → is_named arg (codes "-v") (codes "--verbose") ≡ false
      → IsGood doubles total ws o
      → Leads ws (arg ∷ argv) (with_flag arg o)
  unfolding with_flag
  with_flag-Leads ws arg argv o i t no_help no_verbose good =
      if_both (Leads ws (arg ∷ argv)) (arg == codes "--include-control") _ _ (λ h. good)
        λ a.
          if_both (Leads ws (arg ∷ argv)) (arg == codes "--preserve-uuids") _ _ (λ h. good)
            λ b. (([], argv, refl), i, t, ground (arith, no_help, no_verbose, a, b))

  pub with_word-Leads :
      (ws : List Bytes) (arg : Bytes) (argv : List Bytes) (o : Options D)
      → IsGood doubles total ws o
      → Leads (ws ++ arg ∷ []) (arg ∷ argv) (with_word arg o)
  unfolding with_word
  with_word-Leads ws arg argv o (range, inr (name, spec, w, f, e)) =
      rw (e, with_word) (range, inr (name, spec, ap (λ l. l ++ arg ∷ []) w, f, e))
  with_word-Leads ws arg argv o (range, inl (w, e, none_yet)) =
      elim (Option-cases (find_command arg)) [
        | inl f ↦ rw (e, with_word) (rw (f, with_word) (([], argv, refl), f))
        | inr (spec, f) ↦
            rw (e, with_word)
              (rw (f, with_word) (range, inr (arg, spec, rw (w, none_yet) refl, f, refl)))
      ]

  pub finish-IsJustified :
      (from_env : Bytes) (argv : List Bytes) (o : Options D)
      → IsGood doubles total total o
      → IsJustified doubles total argv (finish from_env o)
  unfolding finish
  finish-IsJustified from_env argv o (range, inl (w, e, none_yet)) = rw (e, finish) w
  finish-IsJustified from_env argv o (range, inr (name, spec, w, f, e)) =
      rw (e, finish)
        (if_both (IsJustified doubles total argv) (ltb (length o.args) spec.min_args) _ _
          (λ few. (name, o.args, spec, w, f, refl, refl, few))
          λ enough.
            if_both (IsJustified doubles total argv) (above (length o.args) spec.max_args) _ _
              (λ many. (name, o.args, spec, w, f, refl, refl, many))
              λ fits.
                if_both (λ (p : Options D). InRange doubles total p × IsComplete doubles total p)
                  (o.address == []) _ _
                  (λ unset. (range, inr (name, spec, w, f, e, ground (arith, enough), fits)))
                  (λ set. (range, inr (name, spec, w, f, e, ground (arith, enough), fits))))
