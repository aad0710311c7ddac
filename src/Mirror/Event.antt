-- ===== src/Mirror/Event.antt =====
-- adapters/redis-mirror/mirror.py: `mirror_event`, what becomes of one line of the log.
use nervous_bus.Prelude.{
  starts_with, ℕ, ◌+◌, ◌-◌, String, Bool, true, false, is_some, ◌&&◌, Option, none, some, List, [],
  ◌∷◌, ◌||◌, not, Dict, lookup, insert, codes, take_chars, str_eq, str_append, ltb, or_default,
  and_then, if◌then◌else◌,
}
use nervous_bus.Mirror.Redis.{Redis, max_len}
use nervous_bus.Mirror.Publish.{
  Reply, inserted, already_there, incompatible, Trimming, atomic_publish,
}
use nervous_bus.Mirror.Schemas.{Json, Registry, SchemaFile, maybe_reload, validate}

-- What a command meets on the way to the server: it is run and answered, never run, or run with its
-- answer lost.
pub data Link : Type 0 where
  up lost_before lost_after : Link

pub record Config : Type 0 where
  pub prefixes : List String
  pub mirror_all : Bool
  pub universal_stream : String
  pub trimming : Trimming

unfoldable pub matches_channel : String → List String → Bool
matches_channel event_type [] = false
matches_channel event_type (p ∷ ps) =
    starts_with (codes event_type) (codes p) || matches_channel event_type ps

module _ (R : Redis) (J : Json) where
  pub record State : Type 0 where
    pub db : R.Db
    pub registry : Registry J
    pub redis_connected : Bool
    pub last_connect_attempt : ℕ
    pub events_mirrored : ℕ
    pub events_dropped : ℕ
    pub events_deduped : ℕ
    pub redis_errors : ℕ

  -- What a line meets: the time, whether the server answers a ping, the link, the schema files, and
  -- the id, the time and the text of a letter of violation.
  pub record Surroundings : Type 0 where
    pub now : ℕ
    pub ping : Bool
    pub link : Link
    pub dirs : List (List (SchemaFile J))
    pub letter_id : String
    pub letter_time : String
    pub letter_raw : String → String → String → String

  unfoldable pub connect_redis : Surroundings → State → State
  connect_redis w s =
      if s.redis_connected
      then s
      else if ltb (w.now - s.last_connect_attempt) 5
      then s
      else record s { last_connect_attempt = w.now; redis_connected = w.ping }

  unfoldable pub letter_fields : Surroundings → String → String → String → List (String × String)
  letter_fields w event_type raw detail =
      (
        "_raw",
        take_chars 2000 (w.letter_raw event_type (take_chars 500 raw) (take_chars 500 detail)),
      )
      ∷ ("type", "bus.dead_letter")
      ∷ ("source", "/redis-mirror")
      ∷ ("timestamp", w.letter_time)
      ∷ ("event_id", w.letter_id)
      ∷ []

  unfoldable pub add_letter : Link → List (String × String) → R.Db → R.Db
  add_letter up fs d =
      R.xadd "nbus:all" max_len 50000 fs (R.xadd "nbus:bus.dead_letter" max_len 10000 fs d)
  add_letter lost_before fs d = d
  add_letter lost_after fs d = R.xadd "nbus:bus.dead_letter" max_len 10000 fs d

  unfoldable pub emit_dead_letter : Surroundings → String → String → String → State → State
  emit_dead_letter w event_type raw detail s =
      if s.redis_connected
      then record s { db = add_letter w.link (letter_fields w event_type raw detail) s.db }
      else s

  -- `event.get(key) or ""`: what does not count as true is left out.
  unfoldable pub given_if : Option J.Value → Option J.Value
  given_if none = none
  given_if (some v) = if J.truthy v then some v else none

  unfoldable pub given : String → Dict J.Value → Option J.Value
  unfolding lookup given_if
  given key event = given_if (lookup key event)

  unfoldable pub text_of_given : Option J.Value → String
  text_of_given none = ""
  text_of_given (some v) = or_default (J.as_text v) (J.str v)

  -- The type and the id of an envelope as an f-string prints them.
  unfoldable pub text_at : String → Dict J.Value → String
  unfolding given text_of_given
  text_at key event = text_of_given (given key event)

  -- A text, or nothing.
  unfoldable pub is_text : Option J.Value → Bool
  is_text none = true
  is_text (some v) = is_some (J.as_text v)

  unfoldable pub is_key : Option J.Value → Bool
  is_key none = true
  is_key (some v) = J.hashable v

  unfoldable pub has_any : List String → Bool
  has_any [] = false
  has_any (p ∷ ps) = true

  -- `event_type.startswith(prefix)` raises on what is no text, and a dictionary on what is no key.
  unfoldable pub prefix_raises : Config → Dict J.Value → Bool
  unfolding is_text has_any
  prefix_raises c event =
      not c.mirror_all && (has_any c.prefixes && not (is_text (given "type" event)))

  unfoldable pub printed : J.Value → String
  printed v = or_default (J.as_text v) (J.dumps v)

  unfoldable pub data_fields : Dict J.Value → Dict String → Dict String
  data_fields [] fs = fs
  data_fields ((k, v) ∷ d) fs = data_fields d (insert (str_append "data." k) (printed v) fs)

  unfoldable pub field : String → J.Value → Dict String → Dict String
  field key v fs =
      if str_eq key "data"
      then data_fields (or_default (J.as_object v) []) fs
      else if str_eq key "id"
      then insert "event_id" (J.str v) fs
      else if str_eq key "time"
      then insert "timestamp" (J.str v) fs
      else if str_eq key "type"
      then fs
      else insert key (printed v) fs

  unfoldable pub fields_of : Dict J.Value → Dict String → Dict String
  fields_of [] fs = fs
  fields_of ((k, v) ∷ d) fs = fields_of d (field k v fs)

  -- `except redis.RedisError`
  unfoldable pub redis_failed : State → State
  redis_failed s = record s {
    redis_connected = false;
    redis_errors = s.redis_errors + 1;
    events_dropped = s.events_dropped + 1;
  }

  unfoldable pub answered : Reply → State → State
  answered inserted s = record s { events_mirrored = s.events_mirrored + 1 }
  answered already_there s = record s { events_deduped = s.events_deduped + 1 }
  answered incompatible s = redis_failed s

  unfoldable pub settle : Link → Reply → R.Db → State → State
  settle up reply d s = answered reply (record s { db = d })
  settle lost_before reply d s = redis_failed s
  settle lost_after reply d s = redis_failed (record s { db = d })

  unfoldable pub publish : Config → Surroundings → String → Dict J.Value → State → State
  publish c w raw event s =
      let r =
        atomic_publish R c.trimming (text_at "id" event) (str_append "nbus:" (text_at "type" event))
          c.universal_stream (insert "_raw" raw (fields_of event [])) s.db in
      settle w.link r.0 r.1 s

  unfoldable pub drop_violation : Surroundings → String → String → String → State → State
  drop_violation w event_type raw detail s =
      let s' = emit_dead_letter w event_type raw detail s in
      record s' { events_dropped = s'.events_dropped + 1 }

  unfoldable pub on_verdict :
      Config → Surroundings → String → Dict J.Value → Option String → State → State
  on_verdict c w raw event none s = publish c w raw event s
  on_verdict c w raw event (some detail) s = drop_violation w (text_at "type" event) raw detail s

  unfoldable pub connected_event :
      Config → Surroundings → String → J.Value → Dict J.Value → State → State
  connected_event c w raw envelope event s =
      let r =
        validate J (text_at "type" event) envelope event (maybe_reload J w.now w.dirs s.registry) in
      on_verdict c w raw event r.0 (record s { registry = r.1 })

  unfoldable pub wanted : Config → Dict J.Value → Bool
  wanted c event = c.mirror_all || matches_channel (text_at "type" event) c.prefixes

  unfoldable pub mirror_connected :
      Config → Surroundings → String → J.Value → Dict J.Value → State → Option State
  unfolding is_key
  mirror_connected c w raw envelope event s =
      if is_key (given "type" event) then some (connected_event c w raw envelope event s) else none

  unfoldable pub mirror_object :
      Config → Surroundings → String → J.Value → Dict J.Value → State → Option State
  unfolding prefix_raises
  mirror_object c w raw envelope event s =
      let s' = connect_redis w s in
      if prefix_raises c event
      then none
      else if not (wanted c event)
      then some s
      else if s'.redis_connected
      then mirror_connected c w raw envelope event s'
      else some (record s' { events_dropped = s'.events_dropped + 1 })

  -- A line that is JSON but no object raises: `none`.
  unfoldable pub mirror_value :
      Config → Surroundings → String → J.Value → Option (Dict J.Value) → State → Option State
  mirror_value c w raw envelope none s = none
  mirror_value c w raw envelope (some event) s = mirror_object c w raw envelope event s

  unfoldable pub mirror_parsed :
      Config → Surroundings → String → Option J.Value → State → Option State
  mirror_parsed c w raw none s = some s
  mirror_parsed c w raw (some v) s = mirror_value c w raw v (J.as_object v) s

  unfoldable pub mirror_event : Config → Surroundings → String → State → Option State
  mirror_event c w raw s = mirror_parsed c w raw (J.loads raw) s

  -- The lines of one reading, each with what it meets; a line that raises ends the pass.
  unfoldable pub mirror_lines : Config → List (Surroundings × String) → State → Option State
  mirror_lines c [] s = some s
  mirror_lines c ((w, raw) ∷ ls) s = and_then (mirror_event c w raw s) (mirror_lines c ls)
