-- ===== src/Mirror/Accounts.antt =====
-- adapters/redis-mirror/mirror.py: the counters of the mirror against the lines it was given.
use nervous_bus.Prelude.{
  ℕ, ◌+◌, String, ◌≡◌, refl, true, Option, none, some, List, [], ◌∷◌, Dict, and_then, All, arith,
  if◌then◌else◌, not, and_false, false, if_both, Bool-cases, inl, inr,
}
use nervous_bus.Mirror.Redis.{Redis}
use nervous_bus.Mirror.Publish.{Reply, inserted, already_there, incompatible}
use nervous_bus.Mirror.Schemas.{Json}
use nervous_bus.Mirror.Event.{
  Config, Link, up, lost_before, lost_after, State, Surroundings, connect_redis, emit_dead_letter,
  redis_failed, answered, settle, publish, drop_violation, on_verdict, connected_event, wanted,
  is_text, is_key, given, has_any, prefix_raises, mirror_connected, mirror_lines, mirror_object,
  mirror_value, mirror_parsed, mirror_event,
}

module _ (R : Redis) (J : Json) where
  -- The lines a state has counted.
  unfoldable pub total : State R J → ℕ
  total s = s.events_mirrored + s.events_dropped + s.events_deduped

  connect_redis-total :
      (w : Surroundings R J) (s : State R J) → total (connect_redis R J w s) ≡ total s
  unfolding connect_redis total
  connect_redis-total w s = ground arith

  emit_dead_letter-total :
      (w : Surroundings R J) (t raw detail : String) (s : State R J)
      → total (emit_dead_letter R J w t raw detail s) ≡ total s
  unfolding emit_dead_letter total
  emit_dead_letter-total w t raw detail s = ground arith

  settle-total :
      (l : Link) (r : Reply) (d : R.Db) (s : State R J) → total (settle R J l r d s) ≡ total s + 1
  unfolding settle answered redis_failed total
  settle-total up inserted d s = omega arith
  settle-total up already_there d s = omega arith
  settle-total up incompatible d s = omega arith
  settle-total lost_before r d s = omega arith
  settle-total lost_after r d s = omega arith

  drop_violation-total :
      (w : Surroundings R J) (t raw detail : String) (s : State R J)
      → total (drop_violation R J w t raw detail s) ≡ total s + 1
  unfolding drop_violation total
  drop_violation-total w t raw detail s = omega (arith, emit_dead_letter-total w t raw detail s)

  on_verdict-total :
      (c : Config) (w : Surroundings R J) (raw : String) (event : Dict J.Value) (v : Option String)
      (s : State R J)
      → total (on_verdict R J c w raw event v s) ≡ total s + 1
  unfolding on_verdict publish
  on_verdict-total c w raw event none s = settle-total w.link _ _ s
  on_verdict-total c w raw event (some detail) s = drop_violation-total w _ raw detail s

  connected_event-total :
      (c : Config) (w : Surroundings R J) (raw : String) (envelope : J.Value) (event : Dict J.Value)
      (s : State R J)
      → total (connected_event R J c w raw envelope event s) ≡ total s + 1
  unfolding connected_event total
  connected_event-total c w raw envelope event s = on_verdict-total c w raw event _ _

  Counted : Config → ℕ → State R J → Option (State R J) → Type 0
  Counted c n s o = (s' : State R J) × (o ≡ some s') × (total s' ≡ total s + n)

  -- A type that is a text or missing, and so can be a key.
  abbrev pub HasTextType : Dict J.Value → Type 0
  HasTextType event =
      (is_text R J (given R J "type" event) ≡ true) × (is_key R J (given R J "type" event) ≡ true)

  no_raise :
      (c : Config) (event : Dict J.Value) → HasTextType event → prefix_raises R J c event ≡ false
  unfolding prefix_raises
  no_raise c event h = rw (h.0, and_false (has_any R J c.prefixes)) (and_false (not c.mirror_all))

  mirror_object-Counted :
      (c : Config) (w : Surroundings R J) (raw : String) (envelope : J.Value) (event : Dict J.Value)
      (s : State R J)
      → HasTextType event
      → Counted c
          (if wanted R J c event then 1 else 0)
          s
          (mirror_object R J c w raw envelope event s)
  unfolding mirror_object mirror_connected Counted total
  mirror_object-Counted c w raw envelope event s h =
      let s' = connect_redis R J w s in
      let same = connect_redis-total w s in
      elim (Bool-cases (wanted R J c event)) [
        | inr e ↦ rw (no_raise c event h, e) (s, refl, omega arith)
        | inl e ↦
            rw (no_raise c event h, e)
              (if_both (Counted c 1 s) s'.redis_connected
                (rw h.1 (
                  connected_event R J c w raw envelope event s',
                  refl,
                  omega (arith, connected_event-total c w raw envelope event s', same),
                ))
                (record s' { events_dropped = s'.events_dropped + 1 }, refl, omega (arith, same)))
      ]

  unfoldable pub object_wanted : Config → Option (Dict J.Value) → ℕ
  object_wanted c none = 0
  object_wanted c (some event) = if wanted R J c event then 1 else 0

  -- 1 for a line whose JSON is an object of a wanted type, else 0.
  unfoldable pub is_wanted : Config → Option J.Value → ℕ
  is_wanted c none = 0
  is_wanted c (some v) = object_wanted c (J.as_object v)

  abbrev pub ReadableObject : Option (Dict J.Value) → Type 0
  ReadableObject none = ⊥
  ReadableObject (some event) = HasTextType event

  -- A line that is not JSON at all, or is an object whose type is a text, missing or counts as false.
  unfoldable pub Readable : Option J.Value → Type 0
  Readable none = Unit
  Readable (some v) = ReadableObject (J.as_object v)

  unfoldable pub wanted_lines : Config → List (Surroundings R J × String) → ℕ
  wanted_lines c [] = 0
  wanted_lines c ((w, raw) ∷ ls) = is_wanted c (J.loads raw) + wanted_lines c ls

  mirror_value-Counted :
      (c : Config) (w : Surroundings R J) (raw : String) (v : J.Value) (o : Option (Dict J.Value))
      (s : State R J)
      → ReadableObject o
      → Counted c (object_wanted c o) s (mirror_value R J c w raw v o s)
  unfolding mirror_value object_wanted Counted
  mirror_value-Counted c w raw v none s h = absurd h
  mirror_value-Counted c w raw v (some event) s h = mirror_object-Counted c w raw v event s h

  mirror_parsed-Counted :
      (c : Config) (w : Surroundings R J) (raw : String) (o : Option J.Value) (s : State R J)
      → Readable o
      → Counted c (is_wanted c o) s (mirror_parsed R J c w raw o s)
  unfolding mirror_parsed is_wanted Counted Readable
  mirror_parsed-Counted c w raw none s h = (s, refl, omega arith)
  mirror_parsed-Counted c w raw (some v) s h = mirror_value-Counted c w raw v (J.as_object v) s h

  -- When each line of a reading is no JSON or an object with a text for its type, or none (null, say),
  -- the whole reading is processed and every line
  -- of a wanted type is counted exactly once, as mirrored, dropped or already there, whatever happens
  -- to the connection and in the schemas; no other line is counted.
  pub mirror_lines-accounted :
      (c : Config) (ls : List (Surroundings R J × String)) (s : State R J)
      → All (λ l. Readable (J.loads l.1)) ls
      → (s' : State R J) × (mirror_lines R J c ls s ≡ some s')
        × (total s' ≡ total s + wanted_lines c ls)
  unfolding mirror_lines wanted_lines mirror_event Counted and_then
  mirror_lines-accounted c [] s h = (s, refl, omega arith)
  mirror_lines-accounted c ((w, raw) ∷ ls) s (h, hs) =
      let (s₁, e, t) = mirror_parsed-Counted c w raw (J.loads raw) s h in
      let (s₂, e', t') = mirror_lines-accounted c ls s₁ hs in (s₂, rw e e', omega (arith, t, t'))

  -- A line whose JSON is no object ends the pass with an exception: the lines of the reading after it
  -- are not processed.
  pub mirror_lines_raises :
      (c : Config) (w : Surroundings R J) (raw : String) (v : J.Value)
      (ls : List (Surroundings R J × String)) (s : State R J)
      → J.loads raw ≡ some v
      → J.as_object v ≡ none
      → mirror_lines R J c ((w, raw) ∷ ls) s ≡ none
  unfolding mirror_lines mirror_event mirror_parsed mirror_value and_then
  mirror_lines_raises c w raw v ls s h k = rw (h, k) refl
