-- ===== src/Mirror/Schemas.antt =====
-- adapters/redis-mirror/mirror.py: `SchemaRegistry`, which says whether an event fits its channel.
use nervous_bus.Prelude.{
  ℕ, ◌+◌, ◌-◌, String, ◌≡◌, refl, Bool, true, false, Option, none, some, List, [], ◌∷◌, ◌&&◌, ◌||◌,
  Dict, ◌++◌, ◌∙◌, sym, ap, lookup, insert, lookup-insert, str_eq, one_of, leb, or_default, arith,
  if◌then◌else◌, first_some, first_some-none, if_same,
}

-- What the mirror uses of Python's `json` and of `jsonschema`. `loads` is `none` where it raises, a
-- value is an object or not, counts as true or not and can be a key or not, and `violation` is the message the validator raises, cut as the mirror
-- cuts it.
pub record Json : Type 1 where
  pub Value : Type 0
  pub loads : String → Option Value
  pub dumps : Value → String
  pub str : Value → String
  pub as_text : Value → Option String
  pub truthy : Value → Bool
  pub hashable : Value → Bool
  pub as_object : Value → Option (Dict Value)
  pub empty_object : Value
  pub requires_specversion : Value → Bool
  pub violation : Value → Value → Option String

module _ (J : Json) where
  -- The file of a channel: no schema when it cannot be read.
  abbrev pub SchemaFile : Type 0
  SchemaFile = String × Option J.Value

  pub record Registry : Type 0 where
    pub schemas : Dict J.Value
    pub envelope_types : List String
    pub last_load : ℕ
    pub unknown_channels : Dict ℕ

  unfoldable pub load_file : SchemaFile → Registry → Registry
  load_file (channel, none) r = r
  load_file (channel, some schema) r = record r {
    schemas = insert channel schema r.schemas;
    envelope_types =
        (if J.requires_specversion schema then channel ∷ r.envelope_types else r.envelope_types);
  }

  unfoldable pub load_files : List SchemaFile → Registry → Registry
  load_files [] r = r
  load_files (f ∷ fs) r = load_files fs (load_file f r)

  -- A directory that is not there has no files. The directories come one after the other.
  unfoldable pub load_dirs : List (List SchemaFile) → Registry → Registry
  load_dirs [] r = r
  load_dirs (d ∷ ds) r = load_dirs ds (load_files d r)

  unfoldable pub load : ℕ → List (List SchemaFile) → Dict ℕ → Registry
  load now dirs unknown =
      load_dirs dirs
        (record { schemas = []; envelope_types = []; last_load = now; unknown_channels = unknown })

  unfoldable pub maybe_reload : ℕ → List (List SchemaFile) → Registry → Registry
  maybe_reload now dirs r =
      if leb 300 (now - r.last_load) then load now dirs r.unknown_channels else r

  -- The payload of an envelope, an empty object where it has none.
  unfoldable pub data_of : Dict J.Value → J.Value
  data_of event = or_default (lookup "data" event) J.empty_object

  unfoldable pub judge :
      Option J.Value → String → J.Value → Dict J.Value → Registry → Option String × Registry
  judge none event_type envelope event r = (
    none,
    record r {
      unknown_channels =
          insert event_type (or_default (lookup event_type r.unknown_channels) 0 + 1)
            r.unknown_channels;
    },
  )
  judge (some schema) event_type envelope event r = (
    J.violation (if one_of event_type r.envelope_types then envelope else data_of event) schema,
    r,
  )

  unfoldable pub validate : String → J.Value → Dict J.Value → Registry → Option String × Registry
  validate event_type envelope event r =
      judge (lookup event_type r.schemas) event_type envelope event r

  -- All the files, in the order they are read.
  unfoldable pub all_files : List (List SchemaFile) → List SchemaFile
  all_files [] = []
  all_files (d ∷ ds) = d ++ all_files ds

  -- The last file of a channel that can be read.
  unfoldable pub last_schema : String → List SchemaFile → Option J.Value
  last_schema c [] = none
  last_schema c ((k, o) ∷ fs) = first_some (last_schema c fs) (if str_eq k c then o else none)

  -- Whether any file of a channel is that of an envelope.
  unfoldable pub any_envelope : String → List SchemaFile → Bool
  any_envelope c [] = false
  any_envelope c ((k, none) ∷ fs) = any_envelope c fs
  any_envelope c ((k, some schema) ∷ fs) =
      any_envelope c fs || str_eq c k && J.requires_specversion schema

  load_files-append :
      (fs gs : List SchemaFile) (r : Registry)
      → load_files (fs ++ gs) r ≡ load_files gs (load_files fs r)
  unfolding load_files
  load_files-append [] gs r = refl
  load_files-append (f ∷ fs) gs r = load_files-append fs gs (load_file f r)

  load_dirs-files :
      (ds : List (List SchemaFile)) (r : Registry) → load_dirs ds r ≡ load_files (all_files ds) r
  unfolding load_dirs all_files load_files
  load_dirs-files [] r = refl
  load_dirs-files (d ∷ ds) r =
      load_dirs-files ds (load_files d r) ∙ sym (load_files-append d (all_files ds) r)

  some_first {ℓ} :
      {A : Type ℓ} (b : Bool) (x : A) (o : Option A)
      → (if b then some x else o) ≡ first_some (if b then some x else none) o
  some_first true x o = refl
  some_first false x o = refl

  or_envelope :
      (a q : Bool) (c k : String) (es : List String)
      → (a || one_of c (if q then k ∷ es else es)) ≡ ((a || str_eq c k && q) || one_of c es)
  unfolding one_of
  or_envelope a true c k es = ground arith
  or_envelope a false c k es = ground arith

  load_file-schemas :
      (c : String) (f : SchemaFile) (r : Registry)
      → lookup c (load_file f r).schemas
        ≡ first_some (if str_eq f.0 c then f.1 else none) (lookup c r.schemas)
  unfolding load_file
  load_file-schemas c (k, none) r = rw (if_same {A = Option J.Value} (str_eq k c) none) refl
  load_file-schemas c (k, some schema) r =
      lookup-insert k c schema r.schemas ∙ some_first (str_eq k c) schema (lookup c r.schemas)

  first_some_assoc {ℓ} :
      {A : Type ℓ} (a b c : Option A)
      → first_some a (first_some b c) ≡ first_some (first_some a b) c
  first_some_assoc none b c = refl
  first_some_assoc (some a) b c = refl

  load_files-schemas :
      (c : String) (fs : List SchemaFile) (r : Registry)
      → lookup c (load_files fs r).schemas ≡ first_some (last_schema c fs) (lookup c r.schemas)
  unfolding load_files last_schema
  load_files-schemas c [] r = refl
  load_files-schemas c ((k, o) ∷ fs) r =
      load_files-schemas c fs (load_file (k, o) r)
      ∙ ap (first_some (last_schema c fs)) (load_file-schemas c (k, o) r)
      ∙ first_some_assoc (last_schema c fs) (if str_eq k c then o else none) (lookup c r.schemas)

  load_files-envelope_types :
      (c : String) (fs : List SchemaFile) (r : Registry)
      → one_of c (load_files fs r).envelope_types ≡ (any_envelope c fs || one_of c r.envelope_types)
  unfolding load_files any_envelope load_file one_of
  load_files-envelope_types c [] r = refl
  load_files-envelope_types c ((k, none) ∷ fs) r = load_files-envelope_types c fs r
  load_files-envelope_types c ((k, some schema) ∷ fs) r =
      load_files-envelope_types c fs (load_file (k, some schema) r)
      ∙ or_envelope (any_envelope c fs) (J.requires_specversion schema) c k r.envelope_types

  or_false : (b : Bool) → (b || false) ≡ b
  or_false true = refl
  or_false false = refl

  -- After a load the schema of a channel is that of the last file of the channel that could be read,
  -- in the order of the directories, and the channel counts as an envelope's when any of its files,
  -- the overridden ones too, requires `specversion`.
  pub load_lem :
      (now : ℕ) (dirs : List (List SchemaFile)) (unknown : Dict ℕ) (c : String)
      → (lookup c (load now dirs unknown).schemas ≡ last_schema c (all_files dirs))
        × (one_of c (load now dirs unknown).envelope_types ≡ any_envelope c (all_files dirs))
  unfolding load lookup one_of
  load_lem now dirs unknown c =
      let start : Registry = record {
        schemas = [];
        envelope_types = [];
        last_load = now;
        unknown_channels = unknown;
      } in
      rw (load_dirs-files dirs start) (
        load_files-schemas c (all_files dirs) start
            ∙ first_some-none (last_schema c (all_files dirs)),
        load_files-envelope_types c (all_files dirs) start
            ∙ or_false (any_envelope c (all_files dirs)),
      )
