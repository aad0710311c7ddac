-- ===== src/Pressure/Reminders.antt =====
-- How often `main` of adapters/system-pressure/watch.py publishes on one resource over its polls:
-- proofs about Poll.
use nervous_bus.Prelude.{
  ℕ, ◌+◌, ◌≤◌, String, ◌≡◌, Bool, true, false, not, some, List, [], ◌∷◌, ◌++◌, ◌&&◌, Dict, lookup,
  str_eq, if◌then◌else◌, All,
}
use nervous_bus.Pressure.Level.{Level}
use nervous_bus.Pressure.Poll.{
  Item, Finding, Event, pressure, notify, emits, next_item, events_of, poll,
}

-- Runs one after the other, at their times, with what each of them finds; each reads the state that the
-- one before saved.
unfoldable pub polls : List (ℕ × List Finding) → Dict Item → Dict Item × List Event
unfolding poll
polls [] items = (items, [])
polls ((now, fs) ∷ ps) items =
    let (items', sent) = poll now false fs items in
    let (end, rest) = polls ps items' in (end, sent ++ rest)

abbrev pub is_on : String → Event → Bool
is_on k (pressure key level before) = str_eq key k
is_on k (notify key) = false

-- The number of pressure events on a resource.
abbrev pub events_on : String → List Event → ℕ
events_on k [] = 0
events_on k (e ∷ es) = (if is_on k e then 1 else 0) + events_on k es

-- Findings without the resource.
abbrev pub Lacks : String → List Finding → Type 0
Lacks k fs = All (λ f. str_eq f.key k ≡ false) fs

-- Findings with the resource once, at a level.
abbrev pub MeasuredIf : Bool → Level → Level → Type 0 → Type 0 → Type 0
MeasuredIf true l l' lacks rest = (l' ≡ l) × lacks
MeasuredIf false l l' lacks rest = rest

abbrev pub IsMeasured : String → Level → List Finding → Type 0
IsMeasured k l [] = ⊥
IsMeasured k l (f ∷ fs) = MeasuredIf (str_eq f.key k) l f.level (Lacks k fs) (IsMeasured k l fs)

module _ (k : String) (now : ℕ) (before : Dict Item) where
  sent_after : Finding → List Event → List Event
  sent_after f sent =
      if emits now (lookup f.key before) f.level && not false
      then sent ++ events_of (lookup f.key before) f
      else sent

  abbrev next_of : Level → Item
  next_of l = next_item now (lookup k before) l

  -- What one poll leaves and publishes of a resource that it measures at a level.
  abbrev Polled : Level → List Event → Dict Item × List Event → Type 0
  Polled l sent r =
      (lookup k r.0 ≡ some (next_of l))
      × (events_on k r.1 ≡ events_on k sent + (if emits now (lookup k before) l then 1 else 0))

-- The polls come in order, from a time on and up to one.
abbrev pub InOrder : ℕ → List (ℕ × List Finding) → ℕ → Type 0
InOrder from [] until = from ≤ until
InOrder from ((now, fs) ∷ ps) until = (from ≤ now) × InOrder now ps until
