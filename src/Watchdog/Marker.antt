-- ===== src/Watchdog/Marker.antt =====
-- The markers of adapters/pattern-watchdog/watchdog.py, and what it means that they do not storm.
use nervous_bus.Prelude.{Bool, true, false, List, [], ◌∷◌}

-- `_publish_marker`: "error.spike"/"failed", or "quality.signal"/"accepted".
pub data Marker : Type 0 where
  problem recovery : Marker

-- Problems and recoveries take turns; the flag says whether a problem is open.
abbrev pub Alternates : Bool → List Marker → Type 0
Alternates alerted [] = Unit
Alternates false (problem ∷ ms) = Alternates true ms
Alternates false (recovery ∷ ms) = ⊥
Alternates true (problem ∷ ms) = ⊥
Alternates true (recovery ∷ ms) = Alternates false ms
