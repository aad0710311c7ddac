-- ===== src/Router/Filing.antt =====
-- adapters/signal-router/router.py: what becomes of a signal and of a verdict.
use nervous_bus.Prelude.{
  ℕ, ◌+◌, ◌≤◌, String, ◌≡◌, sym, subst, refl, true, false, Option, none, some, List, [], ◌∷◌, ◌∙◌,
  ◌&&◌, not, lookup, str_eq, ltb, leb, arith, if◌then◌else◌, if_both, and_false, if_same, le→leb,
  ap,
}
use mathlib.Core.Option.{some-injective, none-ne-some}
use nervous_bus.Router.Calibration.{CalibrationState, Verdict, load_calibration}
use nervous_bus.Router.Route.{
  Signal, Store, channels_of, first_channel, on_some, tier2, route, remember, annotated,
  update_thresholds, update_by, file_signal, save_in, auto_create_bead, printed_failure,
  write_annotation, process_feedback, annotated_channels, judge_each, mark_dismissed_fps, dismisses,
}

-- The calibration a signal is routed by.
unfoldable pub calibration_of : Signal → Store → CalibrationState
calibration_of s st = load_calibration st.calibrations s.signal_type (first_channel (channels_of s))

-- What the thresholds and the annotation leave alone.
Keeps : Store → Store → Type 0
Keeps st st' =
    (st'.beads ≡ st.beads)
    × (st'.drafts ≡ st.drafts)
    × (st'.calibrations ≡ st.calibrations)
    × (st'.printed ≡ st.printed)

update_by-Keeps : (o : Option ℕ) (s : Signal) (st : Store) → Keeps st (update_by o s st)
unfolding update_by Keeps
update_by-Keeps none s st = (refl, refl, refl, refl)
update_by-Keeps (some dev) s st =
    if_both (Keeps st) (ltb s.confidence 500 && str_eq s.signal_type "anomaly")
      (refl, refl, refl, refl) (refl, refl, refl, refl)

annotated-Keeps : (now : ℕ) (s : Signal) (st : Store) → Keeps st (annotated now s st)
unfolding annotated write_annotation Keeps
annotated-Keeps now s st =
    if_both (Keeps st) (leb 500 s.confidence && not (str_eq s.signal_type "silence"))
      (refl, refl, refl, refl) (refl, refl, refl, refl)

on_some_inv :
    (f : Store → Store) (o : Option Store) (st' : Store)
    → on_some f o ≡ some st'
    → (st : Store) × (o ≡ some st) × (f st ≡ st')
unfolding on_some
on_some_inv f none st' h = absurd (none-ne-some _ h)
on_some_inv f (some st) st' h = (st, refl, some-injective _ _ h)

printed_failure_inv :
    (chs : Option (List String)) (st st' : Store)
    → printed_failure chs st ≡ some st'
    → record st { printed = st.printed + 1 } ≡ st'
unfolding printed_failure
printed_failure_inv none st st' h = some-injective _ _ h
printed_failure_inv (some []) st st' h = absurd (none-ne-some _ h)
printed_failure_inv (some (ch ∷ chs)) st st' h = some-injective _ _ h

routed-Keeps :
    (now : ℕ) (s : Signal) (st : Store) → Keeps st (annotated now s (update_thresholds s st))
unfolding Keeps update_thresholds
routed-Keeps now s st =
    let st₁ = update_thresholds s st in
    let (b, d, c, p) = annotated-Keeps now s st₁ in
    let (b', d', c', p') = update_by-Keeps s.deviation_sigma s st in
    (b ∙ b', d ∙ d', c ∙ c', p ∙ p')

file_signal_on :
    (s : Signal) (st : Store)
    → (calibration_of s st).auto_enabled ≡ true
    → file_signal s st ≡ on_some (save_in (calibration_of s st)) (printed_failure s.channels st)
unfolding file_signal calibration_of auto_create_bead
file_signal_on s st a = rw a refl

Lost : Store → Store → Type 0
Lost st st' = (st'.beads ≡ st.beads) × (st'.drafts ≡ st.drafts) × (st'.printed ≡ st.printed + 1)

file_signal_auto :
    (s : Signal) (st st' : Store)
    → (calibration_of s st).auto_enabled ≡ true
    → file_signal s st ≡ some st'
    → Lost st st'
unfolding save_in on_some_inv printed_failure Lost
file_signal_auto s st st' a h =
    let (st₂, e, f) =
      on_some_inv (save_in (calibration_of s st)) (printed_failure s.channels st) st'
        (sym (file_signal_on s st a) ∙ h) in
    let g = printed_failure_inv s.channels st st₂ e in
    let l : Lost st st₂ = subst (Lost st) g (unfold Lost in (refl, refl, refl)) in
    subst (Lost st) f l

below_tier : (t : String) (c : ℕ) → t ≡ "silence" → c ≤ 1000 → leb (tier2 t) c ≡ false
unfolding tier2
below_tier t c h b = rw h (ground arith)

is_silence : (t : String) → t ≡ "silence" → str_eq t "silence" ≡ true
is_silence t h = rw h refl

no_anomaly : (t : String) → t ≡ "silence" → str_eq t "anomaly" ≡ false
no_anomaly t h = rw h refl

update_silence :
    (o : Option ℕ) (s : Signal) (st : Store) → s.signal_type ≡ "silence" → update_by o s st ≡ st
unfolding update_by
update_silence none s st t = refl
update_silence (some dev) s st t =
    rw (no_anomaly s.signal_type t, and_false (ltb s.confidence 500)) refl

annotated_silence :
    (now : ℕ) (s : Signal) (st : Store) → s.signal_type ≡ "silence" → annotated now s st ≡ st
unfolding annotated
annotated_silence now s st t =
    rw (is_silence s.signal_type t, and_false (leb 500 s.confidence)) refl

-- A signal of silence with a confidence of at most 1 is neither annotated nor drafted nor filed: only
-- the recent signals of its channels change.
pub route_silence :
    (now : ℕ) (s : Signal) (st : Store)
    → s.signal_type ≡ "silence"
    → s.confidence ≤ 1000
    → route now s st ≡ some (remember now s st)
unfolding route update_thresholds on_some
route_silence now s st t c =
    rw
      (
        below_tier s.signal_type s.confidence t c,
        update_silence s.deviation_sigma s st t,
        annotated_silence now s st t,
      )
      refl

tier_reached :
    (t : String) (c : ℕ) (x y : Option Store) → tier2 t ≤ c → x ≡ (if leb (tier2 t) c then x else y)
tier_reached t c x y h = rw (le→leb (tier2 t) c h) refl

-- A signal that reaches its tier where the calibration files automatically leaves no draft and no
-- bead, whenever routing it does not raise.
pub route_auto :
    (now : ℕ) (s : Signal) (st st' : Store)
    → (calibration_of s st).auto_enabled ≡ true
    → tier2 s.signal_type ≤ s.confidence
    → route now s st ≡ some st'
    → (st'.beads ≡ st.beads) × (st'.drafts ≡ st.drafts) × (st'.printed ≡ st.printed + 1)
unfolding route remember Lost Keeps calibration_of
route_auto now s st st' a c h =
    let st₁ = annotated now s (update_thresholds s st) in
    let (st₂, e, f) =
      on_some_inv (remember now s)
        (if leb (tier2 s.signal_type) s.confidence then file_signal s st₁ else some st₁) st' h in
    let k = routed-Keeps now s st in
    let l =
      file_signal_auto s st₁ st₂
        (ap (λ cs. (load_calibration cs s.signal_type (first_channel (channels_of s))).auto_enabled)
            k.2
          ∙ a)
        (tier_reached s.signal_type s.confidence (file_signal s st₁) (some st₁) c ∙ e) in
    let m : Lost st₁ st' = subst (Lost st₁) f (l.0, l.1, l.2) in
    (m.0 ∙ k.0, m.1 ∙ k.1, m.2 ∙ ap (λ n. n + 1) k.3)

-- A feedback on a signal that has no annotation, or whose annotation names no channel, changes
-- nothing: no calibration counts its verdict.
pub process_feedback_lost :
    (now : ℕ) (signal_id signal_type : String) (v : Option Verdict) (st : Store)
    → annotated_channels (lookup signal_id st.annotations) ≡ []
    → process_feedback now signal_id signal_type v st ≡ st
unfolding process_feedback judge_each mark_dismissed_fps
process_feedback_lost now i t none st h = refl
process_feedback_lost now i t (some v) st h = rw (h, if_same (dismisses v) st.fingerprints) refl
