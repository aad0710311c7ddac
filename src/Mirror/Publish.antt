-- ===== src/Mirror/Publish.antt =====
-- adapters/redis-mirror/mirror.py: `ATOMIC_PUBLISH_LUA` and `atomic_publish`.
use nervous_bus.Prelude.{
  ℕ, ◌+◌, String, ◌≡◌, ◌≢◌, ◌∙◌, sym, ap, refl, Bool, true, false, ◌&&◌, List, str_eq, str_append,
  if◌then◌else◌, Bool-cases, ◌⊎◌, inl, inr, eq_iff, both_true,
}
use text.Mathlib.TextLemmas.{append-eq-nil_iff}
use nervous_bus.Mirror.Redis.{Redis, KeyType, missing, stream, other, Trim, min_id, max_len}

-- The reply of the script.
pub data Reply : Type 0 where
  inserted already_there incompatible : Reply

-- How the rows are trimmed and how long a marker lives.
pub record Trimming : Type 0 where
  pub strategy : Trim
  pub maxlen : ℕ
  pub min_idle_ms : ℕ
  pub universal_maxlen : ℕ

abbrev pub dedup_ttl_s : ℕ
dedup_ttl_s = 600

unfoldable pub streamable : KeyType → Bool
streamable missing = true
streamable stream = true
streamable other = false

unfoldable pub threshold : Trimming → ℕ
threshold t = elim t.strategy [ min_id ↦ t.min_idle_ms | max_len ↦ t.maxlen ]

-- `nbus:dedup:<id>`, or no key at all for an event without an id.
unfoldable pub dedup_key : String → String
dedup_key event_id = if str_eq event_id "" then "" else str_append "nbus:dedup:" event_id

module _ (R : Redis) where
  unfoldable pub seen : String → R.Db → Bool
  seen marker d = if str_eq marker "" then false else R.exists_key marker d

  -- Both streams can be written: an empty name stands for no universal stream.
  unfoldable pub compatible : String → String → R.Db → Bool
  compatible channel universal d =
      streamable (R.key_type channel d)
      && (if str_eq universal "" then true else streamable (R.key_type universal d))

  unfoldable pub add_universal : Trimming → String → List (String × String) → R.Db → R.Db
  add_universal t universal fields d =
      if str_eq universal "" then d else R.xadd universal max_len t.universal_maxlen fields d

  unfoldable pub set_marker : String → R.Db → R.Db
  set_marker marker d = if str_eq marker "" then d else R.set_ex marker dedup_ttl_s d

  unfoldable pub script :
      Trimming → String → String → String → List (String × String) → R.Db → Reply × R.Db
  script t marker channel universal fields d =
      if seen marker d
      then (already_there, d)
      else if compatible channel universal d
      then (
        inserted,
        set_marker marker
            (add_universal t universal fields (R.xadd channel t.strategy (threshold t) fields d)),
      )
      else (incompatible, d)

  unfoldable pub atomic_publish :
      Trimming → String → String → String → List (String × String) → R.Db → Reply × R.Db
  atomic_publish t event_id channel universal fields d =
      script t (dedup_key event_id) channel universal fields d

  streamable_type : (k : KeyType) → streamable k ≡ true → k ≢ other
  unfolding streamable
  streamable_type missing h p = cc
  streamable_type stream h p = cc
  streamable_type other h p = cc

  pub named : (s : String) → s ≢ "" → str_eq s "" ≡ false
  named s h = elim (Bool-cases (str_eq s "")) [ inl e ↦ absurd (h ((eq_iff s "").0 e)) | inr e ↦ e ]

  pub marker_named : (event_id : String) → event_id ≢ "" → str_eq (dedup_key event_id) "" ≡ false
  unfolding dedup_key
  marker_named i h = rw (named i h) (
      named (str_append "nbus:dedup:" i)
        (λ e. let f : false ≡ true = ap (λ s. str_eq s "") (append-eq-nil_iff.0 e).0 in cc))

  module _ (t : Trimming) (m c u : String) (fs : List (String × String)) (d : R.Db) where
    unfoldable pub written : R.Db
    written = add_universal t u fs (R.xadd c t.strategy (threshold t) fs d)

    pub script-seen : seen m d ≡ true → script t m c u fs d ≡ (already_there, d)
    unfolding script
    script-seen h = rw h refl

    pub script_inserts :
        seen m d ≡ false
        → compatible c u d ≡ true
        → script t m c u fs d ≡ (inserted, set_marker m written)
    unfolding script written
    script_inserts h k = rw (h, k) refl

    pub script_refuses :
        seen m d ≡ false → compatible c u d ≡ false → script t m c u fs d ≡ (incompatible, d)
    unfolding script
    script_refuses h k = rw (h, k) refl

    entries-set_marker : (j : String) (d' : R.Db) → R.entries j (set_marker m d') ≡ R.entries j d'
    unfolding set_marker
    entries-set_marker j d' = elim (Bool-cases (str_eq m "")) [
      | inl e ↦ rw e refl
      | inr e ↦ rw e (R.entries-set_ex j m dedup_ttl_s d')
    ]

    pub channel_type : compatible c u d ≡ true → R.key_type c d ≢ other
    unfolding compatible
    channel_type e =
        streamable_type (R.key_type c d) (both_true (streamable (R.key_type c d)) _ e).0

    pub universal_type : u ≢ "" → compatible c u d ≡ true → R.key_type u d ≢ other
    unfolding compatible
    universal_type k e =
        streamable_type (R.key_type u d)
          (rw (named u k) at (both_true (streamable (R.key_type c d)) _ e).1)

    entries_written :
        c ≢ u
        → u ≢ ""
        → compatible c u d ≡ true
        → (R.entries c written ≡ R.entries c d + 1) × (R.entries u written ≡ R.entries u d + 1)
    unfolding written add_universal
    entries_written n k e =
        let d' = R.xadd c t.strategy (threshold t) fs d in
        let still : R.key_type u d' ≢ other = λ p.
          universal_type k e
            (sym (R.key_type-xadd_other u c t.strategy (threshold t) fs d (λ q. n (sym q))) ∙ p) in
        rw (named u k) (
          R.entries-xadd_other c u max_len t.universal_maxlen fs d' n still
              ∙ R.entries-xadd c t.strategy (threshold t) fs d (channel_type e),
          R.entries-xadd u max_len t.universal_maxlen fs d' still
              ∙ ap (λ e. e + 1)
                  (R.entries-xadd_other u c t.strategy (threshold t) fs d (λ q. n (sym q))
                    (channel_type e)),
        )

    script_all_or_nothing :
        c ≢ u
        → u ≢ ""
        → let r = script t m c u fs d in
          ((r.0 ≡ inserted)
            × (R.entries c r.1 ≡ R.entries c d + 1)
            × (R.entries u r.1 ≡ R.entries u d + 1))
          ⊎ ((r.0 ≢ inserted) × (r.1 ≡ d))
    script_all_or_nothing n k = elim (Bool-cases (seen m d)) [
      | inl s ↦ rw (script-seen s) (inr ((λ e. cc), refl))
      | inr s ↦ elim (Bool-cases (compatible c u d)) [
        | inl e ↦
            let (x, y) = entries_written n k e in
            rw (script_inserts s e)
              (inl (refl, entries-set_marker c written ∙ x, entries-set_marker u written ∙ y))
        | inr e ↦ rw (script_refuses s e) (inr ((λ e. cc), refl))
      ]
    ]

  -- Publishing is all or nothing: when the script replies that it inserted the event, the stream of
  -- the channel and the universal stream each have one more row, and any other reply leaves the
  -- server as it is.
  pub atomic_publish_all_or_nothing :
      (t : Trimming) (event_id c u : String) (fs : List (String × String)) (d : R.Db)
      → c ≢ u
      → u ≢ ""
      → let r = atomic_publish t event_id c u fs d in
        ((r.0 ≡ inserted)
          × (R.entries c r.1 ≡ R.entries c d + 1)
          × (R.entries u r.1 ≡ R.entries u d + 1))
        ⊎ ((r.0 ≢ inserted) × (r.1 ≡ d))
  unfolding atomic_publish
  atomic_publish_all_or_nothing t i c u fs d n m =
      script_all_or_nothing t (dedup_key i) c u fs d n m
