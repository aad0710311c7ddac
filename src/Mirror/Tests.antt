-- ===== src/Mirror/Tests.antt =====
-- adapters/redis-mirror run on small inputs, against a server that only keeps the names of the rows
-- and the markers, and a JSON of two values.
use nervous_bus.Prelude.{
  ℕ, ◌+◌, ◌-◌, ltb, lt→ltb, insert, lookup-insert, String, ◌≡◌, ◌≢◌, refl, sym, true, false, Option,
  none, some, List, [], ◌∷◌, Dict, lookup, one_of, str_eq, eq_refl, eq_iff, arith, if◌then◌else◌,
  Bool-cases, inl, inr, ◌⊎◌,
}
use nervous_bus.Mirror.Redis.{Redis, stream, max_len}
use nervous_bus.Mirror.Publish.{
  Trimming, inserted, already_there, atomic_publish, atomic_publish_all_or_nothing, script, seen,
  compatible, streamable, dedup_key,
}
use nervous_bus.Mirror.Window.{Between, published, passed, happen, atomic_publish_twice}
use nervous_bus.Mirror.Schemas.{
  Json, SchemaFile, load, load_lem, last_schema, all_files, any_envelope,
}
use nervous_bus.Mirror.Event.{
  Config, State, Surroundings, up, lost_before, mirror_lines, given, is_text, is_key,
}
use nervous_bus.Mirror.Accounts.{total, wanted_lines, mirror_lines-accounted, Readable}
use nervous_bus.Mirror.Tail.{
  Round, follow, clean, all_written, log_at, reader_at, Fresh, FreshRotation,
}
use nervous_bus.Mirror.Follow.{follow_lem}

abbrev rows : String → List String → ℕ
rows k [] = 0
rows k (j ∷ js) = (if str_eq j k then 1 else 0) + rows k js

-- The names of the rows, and the markers with their time to live.
abbrev Server : Type 0
Server = List String × Dict ℕ

rows_here : (k : String) (js : List String) → rows k (k ∷ js) ≡ rows k js + 1
rows_here k js = rw (eq_refl k) (omega arith)

rows_other : (j k : String) (js : List String) → j ≢ k → rows j (k ∷ js) ≡ rows j js
rows_other j k js h = elim (Bool-cases (str_eq k j)) [
  | inl e ↦ absurd (h (sym ((eq_iff k j).0 e)))
  | inr e ↦ rw e (omega arith)
]

abbrev left : Option ℕ → ℕ
left none = 0
left (some n) = n

unfoldable age : ℕ → Dict ℕ → Dict ℕ
age s [] = []
age s ((k, n) ∷ d) = (k, n - s) ∷ age s d

left_age : (k : String) (s : ℕ) (d : Dict ℕ) → left (lookup k (age s d)) ≡ left (lookup k d) - s
unfolding lookup age
left_age k s [] = omega arith
left_age k s ((j, n) ∷ d) = elim (Bool-cases (str_eq j k)) [
  | inl e ↦ rw e refl
  | inr e ↦ rw e (left_age k s d)
]

left_insert : (k : String) (n : ℕ) (d : Dict ℕ) → left (lookup k (insert k n d)) ≡ n
left_insert k n d = rw (lookup-insert k k n d, eq_refl k) refl

left_insert_other :
    (j k : String) (n : ℕ) (d : Dict ℕ) → j ≢ k → left (lookup j (insert k n d)) ≡ left (lookup j d)
left_insert_other j k n d h = elim (Bool-cases (str_eq k j)) [
  | inl e ↦ absurd (h (sym ((eq_iff k j).0 e)))
  | inr e ↦ rw (lookup-insert k j n d, e) refl
]

abbrev server : Redis
server = record {
  Db = Server;
  exists_key = λ k d. ltb 0 (left (lookup k d.1));
  key_type = λ k d. stream;
  xadd = λ k t n fs d. (k ∷ d.0, d.1);
  set_ex = λ k n d. (d.0, insert k n d.1);
  later = λ s d. (d.0, age s d.1);
  entries = λ k d. rows k d.0;
  ttl = λ k d. left (lookup k d.1);
  entries-xadd = λ k t n fs d h. rows_here k d.0;
  entries-xadd_other = λ j k t n fs d h e. rows_other j k d.0 h;
  key_type-xadd_other = λ j k t n fs d h. refl;
  key_type-xadd = λ k t n fs d h. refl;
  entries-set_ex = λ j k n d. refl;
  exists_key-ttl = λ k d h. lt→ltb 0 (left (lookup k d.1)) h;
  ttl-set_ex = λ k n d. left_insert k n d.1;
  ttl-set_ex_other = λ j k n d h. left_insert_other j k n d.1 h;
  ttl-xadd = λ j k t n fs d h. refl;
  ttl-later = λ k s d. left_age k s d.1;
}

data Toy : Type 0 where
  word : String → Toy
  event schema : Toy

abbrev loads_toy : String → Option Toy
loads_toy raw =
    if str_eq raw "event" then some event else if str_eq raw "3" then some (word "3") else none

abbrev text_of : Toy → Option String
text_of (word s) = some s
text_of v = none

abbrev object_of : Toy → Option (Dict Toy)
object_of (word s) = none
object_of event = some (("type", word "bus.a") ∷ ("id", word "e1") ∷ [])
object_of schema = some []

abbrev json : Json
json = record {
  Value = Toy;
  loads = loads_toy;
  dumps = λ v. "";
  str = λ v. "";
  as_text = text_of;
  truthy = λ v. true;
  hashable = λ v. true;
  as_object = object_of;
  empty_object = schema;
  requires_specversion = λ v. true;
  violation = λ v s. none;
}

abbrev trimming : Trimming
trimming = record { strategy = max_len; maxlen = 10; min_idle_ms = 0; universal_maxlen = 20 }

abbrev config : Config
config = record {
  prefixes = "bus." ∷ [];
  mirror_all = false;
  universal_stream = "nbus:all";
  trimming = trimming;
}

abbrev around : Surroundings server json
around = record {
  now = 100;
  ping = true;
  link = up;
  dirs = [];
  letter_id = "l1";
  letter_time = "now";
  letter_raw = λ a b c. a;
}

abbrev start : State server json
start = record {
  db = ([], []);
  registry = record { schemas = []; envelope_types = []; last_load = 90; unknown_channels = [] };
  redis_connected = false;
  last_connect_attempt = 0;
  events_mirrored = 0;
  events_dropped = 0;
  events_deduped = 0;
  redis_errors = 0;
}

module _ (s t : String) where
  differ : str_eq s t ≡ false → s ≢ t
  differ h p = let f : str_eq s t ≡ true = (eq_iff s t).1 p in cc

-- Nine minutes pass, and another event comes in.
abbrev meanwhile : List Between
meanwhile = passed 300 ∷ published trimming "e2" "nbus:bus.a" "" [] ∷ passed 240 ∷ []

atomic_publish_twice_example :
    let d' =
      happen server meanwhile
        (atomic_publish server trimming "e1" "nbus:bus.a" "nbus:all" [] ([], [])).1 in
    atomic_publish server trimming "e1" "nbus:bus.b" "" [] d' ≡ (already_there, d')
unfolding atomic_publish script seen compatible streamable dedup_key lookup
atomic_publish_twice_example =
    atomic_publish_twice server trimming trimming "e1" "nbus:bus.a" "nbus:bus.b" "nbus:all" "" [] []
      meanwhile ([], []) (differ "e1" "" refl) (omega arith) refl

atomic_publish_all_or_nothing_example :
    let r = atomic_publish server trimming "e1" "nbus:bus.a" "nbus:all" [] ([], []) in
    ((r.0 ≡ inserted) × (rows "nbus:bus.a" r.1.0 ≡ 0 + 1) × (rows "nbus:all" r.1.0 ≡ 0 + 1))
    ⊎ ((r.0 ≢ inserted) × (r.1 ≡ ([], [])))
atomic_publish_all_or_nothing_example =
    atomic_publish_all_or_nothing server trimming "e1" "nbus:bus.a" "nbus:all" [] ([], [])
      (differ "nbus:bus.a" "nbus:all" refl) (differ "nbus:all" "" refl)

abbrev dirs : List (List (SchemaFile json))
dirs = (("bus.a", some event) ∷ ("bus.b", none) ∷ []) ∷ (("bus.a", some schema) ∷ []) ∷ []

load_lem_example :
    (lookup "bus.a" (load json 5 dirs []).schemas ≡ last_schema json "bus.a" (all_files json dirs))
    × (one_of "bus.a" (load json 5 dirs []).envelope_types
        ≡ any_envelope json "bus.a" (all_files json dirs))
load_lem_example = load_lem json 5 dirs [] "bus.a"

overridden : last_schema json "bus.a" (all_files json dirs) ≡ some schema
unfolding last_schema all_files
overridden = refl

abbrev two_lines : List (Surroundings server json × String)
two_lines =
    (around, "event")
    ∷ (around, "junk")
    ∷ (around, "event")
    ∷ (record around { link = lost_before }, "event")
    ∷ []

mirror_lines-accounted_example :
    (s' : State server json) × (mirror_lines server json config two_lines start ≡ some s')
    × (total server json s' ≡ total server json start + wanted_lines server json config two_lines)
unfolding Readable given is_text is_key lookup
mirror_lines-accounted_example =
    mirror_lines-accounted server json config two_lines start
      ((refl, refl), (tt, ((refl, refl), ((refl, refl), tt))))

abbrev rounds : List Round
rounds =
    record { before = (97 ∷ 32 ∷ []) ∷ (32 ∷ []) ∷ []; rotation = some (2, (98 ∷ []) ∷ []) }
    ∷ record { before = (99 ∷ []) ∷ []; rotation = none }
    ∷ []

follow_lem_example :
    follow 1 rounds (log_at 1 (λ j. [])) (reader_at 1 0 0 none) ≡ clean (all_written rounds)
unfolding Fresh FreshRotation
follow_lem_example = follow_lem 1 rounds (λ j. []) 0 none ((λ p. omega (arith, p)), (tt, tt))
