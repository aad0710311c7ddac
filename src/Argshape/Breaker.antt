-- ===== src/Argshape/Breaker.antt =====
-- The breaker of adapters/argshape/core.py: proofs about Outcomes and Plan.
use nervous_bus.Prelude.{
  ℕ, ◌<◌, ◌≡◌, String, true, false, Option, none, some, List, [], ◌∷◌, ◌++◌, Bool-cases, inl, inr,
  if_both, is_empty, lookup, arith, All, keep, ltb, lt→ltb,
}
use nervous_bus.Argshape.Fixes.{
  Config, Fix, FixKind, Spec, Mode, best_fix, effective_mode, lower_mode, mode_rank, lower_if,
}
use nervous_bus.Argshape.Outcomes.{
  Store, planned_mode, breaker_open, check_breaker, is_tripped, in_window,
}
use nervous_bus.Argshape.Plan.{
  Word, Known, Place, Verdict, is_correct, is_active, is_suspect, flag_verdict, advice, has_subcmds,
  subcmd_query, subcmd_verdict, rejected, plan_flags, plan_subcmd, plan_at, plan_segment, mode_of,
  option_words, positionals,
}

abbrev pub IsAdvice : Verdict → Type 0
IsAdvice (Verdict.advised token) = Unit
IsAdvice (Verdict.corrected f e) = ⊥

lower_mode-below : (a b : Mode) → is_correct a ≡ false → is_correct (lower_mode a b) ≡ false
unfolding lower_mode mode_rank
lower_mode-below a b h = ground arith

lower_mode-advise : (a : Mode) → is_correct (lower_mode a Mode.advise) ≡ false
unfolding lower_mode mode_rank
lower_mode-advise a = ground arith

lower_if-below :
    (o : Option Mode) (m : Mode) → is_correct m ≡ false → is_correct (lower_if o m) ≡ false
unfolding lower_if
lower_if-below none m h = h
lower_if-below (some a) m h = lower_mode-below m a h

mode_of-open :
    (k : Known) (base : String)
    → breaker_open k.now k.store ≡ true
    → is_correct (mode_of k base) ≡ false
unfolding mode_of effective_mode planned_mode
mode_of-open k base h = rw h (
    if_both (λ m. is_correct m ≡ false) (is_empty base) (lower_mode-advise k.cfg.mode)
      (lower_if-below (lookup base k.cfg.bins) _ (lower_mode-advise k.cfg.mode)))

module _ (k : Known) (p : Place) (h : is_correct p.mode ≡ false) where
  flag_verdict-IsAdvice :
      (opt : String) (w : Word) (o : Option Fix) → IsAdvice (flag_verdict p.mode opt w o)
  unfolding flag_verdict
  flag_verdict-IsAdvice opt w none = tt
  flag_verdict-IsAdvice opt w (some f) = rw h tt

  plan_flags-IsAdvice :
      (args : List Word) (ws : List (String × Word)) → All IsAdvice (plan_flags k p args ws)
  unfolding plan_flags
  plan_flags-IsAdvice args [] = tt
  plan_flags-IsAdvice args ((opt, w) ∷ ws) =
      let rest = plan_flags-IsAdvice args ws in
      if_both (All IsAdvice) (is_suspect k p args opt) (flag_verdict-IsAdvice opt w _, rest) rest

  advice-lem : (root : Option Spec) (w : Word) → All IsAdvice (advice root w)
  unfolding advice
  advice-lem root w = if_both (All IsAdvice) (has_subcmds root) (tt, tt) tt

  subcmd_verdict-IsAdvice :
      (root : Option Spec) (w : Word) (o : Option Fix)
      → All IsAdvice (subcmd_verdict p.mode root w o)
  unfolding subcmd_verdict
  subcmd_verdict-IsAdvice root w none = advice-lem root w
  subcmd_verdict-IsAdvice root w (some f) = rw h (advice-lem root w)

  plan_subcmd-IsAdvice : (ws : List Word) → All IsAdvice (plan_subcmd k p ws)
  unfolding plan_subcmd
  plan_subcmd-IsAdvice [] = tt
  plan_subcmd-IsAdvice (w ∷ ws) =
      let root = k.get_spec p.bin_key "" in
      elim (Bool-cases (rejected k p.bin_key "" FixKind.subcmd w.value)) [
        | inl e ↦
            rw e (
              subcmd_verdict-IsAdvice root w (best_fix (subcmd_query p w) root k.cfg k.store.fixes))
        | inr e ↦ rw e tt
      ]

  All-append : (vs us : List Verdict) → All IsAdvice vs → All IsAdvice us → All IsAdvice (vs ++ us)
  All-append [] us a b = b
  All-append (v ∷ vs) us a b = (a.0, All-append vs us a.1 b)

  plan_at-IsAdvice : (args : List Word) → All IsAdvice (plan_at k p args)
  unfolding plan_at
  plan_at-IsAdvice args =
      let flags = option_words p.spec args in
      let subs = positionals (k.get_spec p.bin_key "") args in
      elim (Bool-cases (is_active p.mode)) [
        | inl e ↦ rw e (
            All-append (plan_flags k p args flags) (plan_subcmd k p subs)
              (plan_flags-IsAdvice args flags) (plan_subcmd-IsAdvice subs))
        | inr e ↦ rw e tt
      ]

-- While the breaker is open nothing is corrected: every verdict on a simple command is an advice,
-- whatever the settings, the fixes and the command.
pub plan_segment-open :
    (k : Known) (base bin : String) (args : List Word)
    → breaker_open k.now k.store ≡ true
    → All IsAdvice (plan_segment k base bin args)
unfolding plan_segment
plan_segment-open k base bin args h = plan_at-IsAdvice k _ (mode_of-open k base h) args

-- The breaker opens as soon as enough of the corrections settled in the window went wrong, and then
-- stays open until the window has passed, whatever was its state.
pub check_breaker-open :
    (cfg : Config) (s : Store) (now : ℕ)
    → is_tripped cfg (keep (in_window now cfg.breaker_window) s.applied) ≡ true
    → 0 < cfg.breaker_window
    → breaker_open now (check_breaker cfg now s) ≡ true
unfolding check_breaker breaker_open
check_breaker-open cfg s now h w = elim (Bool-cases (ltb now s.breaker_until)) [
  | inl e ↦ rw (h, e) e
  | inr e ↦ rw (h, e) (lt→ltb _ _ (omega (arith, w)))
]
