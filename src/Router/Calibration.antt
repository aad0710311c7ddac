-- ===== src/Router/Calibration.antt =====
-- adapters/signal-router/calibration.py: the verdicts on a type of signal, and when its signals are
-- filed without a human.
use nervous_bus.Prelude.{
  ℕ, ◌+◌, ◌-◌, ◌*◌, ◌/◌, ◌<◌, String, ◌≡◌, refl, Bool, true, false, none, some, List, [], ◌∷◌, ◌&&◌,
  Dict, lookup, insert, str_eq, str_append, leb, ltb, arith, if◌then◌else◌,
}

pub record CalibrationState : Type 0 where
  pub signal_type : String
  pub channel : String
  pub accept_count : ℕ
  pub reject_count : ℕ
  pub last_reject_idx : ℕ
  pub auto_enabled : Bool

-- The acceptance rate is in hundredths.
pub record Thresholds : Type 0 where
  pub verdicts : ℕ
  pub accept_rate : ℕ
  pub clean_gap : ℕ

unfoldable pub thresholds : String → Thresholds
thresholds signal_type =
    if str_eq signal_type "recovery"
    then record { verdicts = 8; accept_rate = 65; clean_gap = 2 }
    else if str_eq signal_type "silence"
    then record { verdicts = 999; accept_rate = 99; clean_gap = 999 }
    else record { verdicts = 15; accept_rate = 70; clean_gap = 3 }

-- `_key`
unfoldable pub key : String → String → String
key signal_type channel =
    let base = str_append "pattern:calibration:" signal_type in
    if str_eq channel "" then base else str_append base (str_append ":" channel)

abbrev pub fresh : String → String → CalibrationState
fresh signal_type channel = record {
  signal_type = signal_type;
  channel = channel;
  accept_count = 0;
  reject_count = 0;
  last_reject_idx = 0;
  auto_enabled = false;
}

-- The hash of the channel, else that of the type, else zeros. What comes from the hash of the type
-- is given the channel.
unfoldable pub load_calibration : Dict CalibrationState → String → String → CalibrationState
load_calibration hashes signal_type channel = elim (lookup (key signal_type channel) hashes) [
  | some s ↦ record s { signal_type = signal_type; channel = channel }
  | none ↦ elim (if str_eq channel "" then none else lookup (key signal_type "") hashes) [
    | some s ↦ record s { signal_type = signal_type; channel = channel }
    | none ↦ fresh signal_type channel
  ]
]

unfoldable pub save_calibration : CalibrationState → Dict CalibrationState → Dict CalibrationState
save_calibration s hashes = insert (key s.signal_type s.channel) s hashes

-- A rate below the threshold is tested without the division.
unfoldable pub should_auto_file : CalibrationState → Bool
should_auto_file s =
    let t = thresholds s.signal_type in
    let total = s.accept_count + s.reject_count in
    if ltb total t.verdicts
    then false
    else if ltb (100 * s.accept_count) (t.accept_rate * total)
    then false
    else if ltb (total - s.last_reject_idx) t.clean_gap
    then false
    else true

-- The strings "accept", "reject" and "modify", and any other.
pub data Verdict : Type 0 where
  accept reject modify other : Verdict

unfoldable pub counted : Verdict → CalibrationState → CalibrationState
counted accept s = record s { accept_count = s.accept_count + 1 }
counted reject s = record s {
  reject_count = s.reject_count + 1;
  last_reject_idx = s.accept_count + s.reject_count + 1;
}
counted modify s = record s {
  reject_count = s.reject_count + 1;
  last_reject_idx = s.accept_count + s.reject_count + 1;
}
counted other s = s

abbrev pub is_reject : Verdict → Bool
is_reject reject = true
is_reject v = false

unfoldable pub record_verdict : Verdict → CalibrationState → CalibrationState
record_verdict v s =
    let c = counted v s in
    let s' = record c { auto_enabled = should_auto_file c } in
    if is_reject v && s'.auto_enabled
    then record s' {
      auto_enabled = false;
      accept_count = (if ltb 10 (s'.accept_count / 2) then s'.accept_count / 2 else 10);
      reject_count = 0;
    }
    else s'

gap_pos : (t : String) → 0 < (thresholds t).clean_gap
unfolding thresholds
gap_pos t = ground arith

not_filed_at_reject :
    (s : CalibrationState)
    → s.last_reject_idx ≡ s.accept_count + s.reject_count
    → should_auto_file s ≡ false
unfolding should_auto_file
not_filed_at_reject s h = ground (arith, gap_pos s.signal_type)

counted_reject_not_filed : (s : CalibrationState) → should_auto_file (counted reject s) ≡ false
unfolding counted
counted_reject_not_filed s = not_filed_at_reject (counted reject s) (ground arith)

-- A rejection always leaves automatic filing off and counts one more rejection. The counts of
-- acceptances stay: the branch that would halve them is never taken, since a rejection itself breaks
-- the clean gap.
pub record_verdict_reject :
    (s : CalibrationState)
    → let s' = record_verdict reject s in
      (s'.auto_enabled ≡ false)
      × (s'.accept_count ≡ s.accept_count)
      × (s'.reject_count ≡ s.reject_count + 1)
unfolding record_verdict counted
record_verdict_reject s = rw (counted_reject_not_filed s) (refl, refl, refl)

-- The state after a history of verdicts, the latest one first.
unfoldable pub after : String → String → List Verdict → CalibrationState
after signal_type channel [] = fresh signal_type channel
after signal_type channel (v ∷ vs) = record_verdict v (after signal_type channel vs)

unfoldable pub accepts : List Verdict → ℕ
accepts [] = 0
accepts (accept ∷ vs) = 1 + accepts vs
accepts (v ∷ vs) = accepts vs

unfoldable pub rejects : List Verdict → ℕ
rejects [] = 0
rejects (reject ∷ vs) = 1 + rejects vs
rejects (modify ∷ vs) = 1 + rejects vs
rejects (v ∷ vs) = rejects vs

-- The acceptances since the last rejection or modification.
unfoldable pub streak : List Verdict → ℕ
streak [] = 0
streak (accept ∷ vs) = 1 + streak vs
streak (other ∷ vs) = streak vs
streak (v ∷ vs) = 0

-- What the calibration promises, on the history of verdicts.
unfoldable pub earned : String → List Verdict → Bool
earned signal_type vs =
    let t = thresholds signal_type in
    leb t.verdicts (accepts vs + rejects vs)
    && leb (t.accept_rate * (accepts vs + rejects vs)) (100 * accepts vs)
    && leb t.clean_gap (streak vs)

record Tells (signal_type : String) (vs : List Verdict) (s : CalibrationState) : Type 0 where
  of_type : s.signal_type ≡ signal_type
  accepted : s.accept_count ≡ accepts vs
  rejected : s.reject_count ≡ rejects vs
  since : s.last_reject_idx + streak vs ≡ accepts vs + rejects vs

counted-Tells :
    (signal_type : String) (v : Verdict) (vs : List Verdict) (s : CalibrationState)
    → Tells signal_type vs s
    → Tells signal_type (v ∷ vs) (counted v s)
unfolding counted accepts rejects streak
counted-Tells t accept vs s h = ground arith
counted-Tells t reject vs s h = ground arith
counted-Tells t modify vs s h = ground arith
counted-Tells t other vs s h = record {
  of_type = h.of_type;
  accepted = h.accepted;
  rejected = h.rejected;
  since = h.since;
}

gap-Tells :
    (signal_type : String) (vs : List Verdict) (s : CalibrationState)
    → Tells signal_type vs s
    → s.accept_count + s.reject_count - s.last_reject_idx ≡ streak vs
gap-Tells t vs s h = omega (arith, h.accepted, h.rejected, h.since)

should_auto_file-Tells :
    (signal_type : String) (vs : List Verdict) (s : CalibrationState)
    → Tells signal_type vs s
    → should_auto_file s ≡ earned signal_type vs
unfolding should_auto_file earned
should_auto_file-Tells t vs s h =
    rw (gap-Tells t vs s h, h.of_type, h.accepted, h.rejected) (ground arith)

-- No verdict takes the branch that disables again.
record_verdict_plain :
    (v : Verdict) (s : CalibrationState)
    → record_verdict v s ≡ (let c = counted v s in record c { auto_enabled = should_auto_file c })
unfolding record_verdict
record_verdict_plain accept s = refl
record_verdict_plain reject s = rw (counted_reject_not_filed s) refl
record_verdict_plain modify s = refl
record_verdict_plain other s = refl

record_verdict-Tells :
    (signal_type : String) (v : Verdict) (vs : List Verdict) (s : CalibrationState)
    → Tells signal_type vs s
    → Tells signal_type (v ∷ vs) (record_verdict v s)
record_verdict-Tells t v vs s h =
    let c = counted-Tells t v vs s h in
    rw (record_verdict_plain v s) (record {
      of_type = c.of_type;
      accepted = c.accepted;
      rejected = c.rejected;
      since = c.since;
    })

after-Tells :
    (signal_type channel : String) (vs : List Verdict)
    → Tells signal_type vs (after signal_type channel vs)
unfolding after accepts rejects streak
after-Tells t c [] = record { of_type = refl; accepted = refl; rejected = refl; since = refl }
after-Tells t c (v ∷ vs) = record_verdict-Tells t v vs (after t c vs) (after-Tells t c vs)

-- After any history of verdicts on a type of signal in a channel, automatic filing is on exactly
-- when the history earns it: enough verdicts, a high enough share of acceptances, and enough
-- acceptances since the last rejection or modification.
pub auto_enabled-after :
    (signal_type channel : String) (v : Verdict) (vs : List Verdict)
    → (after signal_type channel (v ∷ vs)).auto_enabled ≡ earned signal_type (v ∷ vs)
unfolding after
auto_enabled-after t c v vs =
    rw
      (
        record_verdict_plain v (after t c vs),
        should_auto_file-Tells t (v ∷ vs) (counted v (after t c vs))
            (counted-Tells t v vs (after t c vs) (after-Tells t c vs)),
      )
      refl
