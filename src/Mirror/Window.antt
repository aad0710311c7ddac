-- ===== src/Mirror/Window.antt =====
-- The markers of `atomic_publish` in adapters/redis-mirror/mirror.py: within their time to live, an
-- event is not added again.
use nervous_bus.Prelude.{
  ℕ, ◌+◌, ◌-◌, ◌≤◌, ◌<◌, String, ◌≡◌, ◌≢◌, ◌∙◌, sym, subst, ap, true, false, List, [], ◌∷◌, str_eq,
  Bool-cases, inl, inr, eq_iff, arith,
}
use nervous_bus.Mirror.Redis.{Redis, other, max_len}
use nervous_bus.Mirror.Publish.{
  Trimming, inserted, already_there, dedup_ttl_s, dedup_key, threshold, seen, compatible,
  add_universal, set_marker, script, atomic_publish, written, marker_named, script-seen,
  script_inserts, script_refuses, channel_type, universal_type,
}

-- What happens to the server between two calls: another publication, or seconds that pass.
pub data Between : Type 0 where
  published : Trimming → String → String → String → List (String × String) → Between
  passed : ℕ → Between

module _ (R : Redis) where
  unfoldable pub happen : List Between → R.Db → R.Db
  happen [] d = d
  happen (published t i c u fs ∷ bs) d = happen bs (atomic_publish R t i c u fs d).1
  happen (passed s ∷ bs) d = happen bs (R.later s d)

  abbrev pub time_of : List Between → ℕ
  time_of [] = 0
  time_of (published t i c u fs ∷ bs) = time_of bs
  time_of (passed s ∷ bs) = s + time_of bs

  ttl-set_marker :
      (m k : String) (n : ℕ) (d : R.Db)
      → n ≤ dedup_ttl_s
      → n ≤ R.ttl m d
      → n ≤ R.ttl m (set_marker R k d)
  unfolding set_marker
  ttl-set_marker m k n d a b = elim (Bool-cases (str_eq k "")) [
    | inl e ↦ rw e b
    | inr e ↦ rw e (elim (Bool-cases (str_eq m k)) [
      | inl same ↦
          subst (λ (j : String). n ≤ R.ttl j (R.set_ex k dedup_ttl_s d)) (sym ((eq_iff m k).0 same))
            (rw (R.ttl-set_ex k dedup_ttl_s d) a)
      | inr differs ↦
          rw
            (R.ttl-set_ex_other m k dedup_ttl_s d
              (λ p. let f : str_eq m k ≡ true = (eq_iff m k).1 p in cc))
            b
    ])
  ]

  second_type :
      (t : Trimming) (m c u : String) (fs : List (String × String)) (d : R.Db)
      → u ≢ ""
      → compatible R c u d ≡ true
      → R.key_type u (R.xadd c t.strategy (threshold t) fs d) ≢ other
  second_type t m c u fs d k e p = elim (Bool-cases (str_eq u c)) [
    | inl same ↦
        let new = R.key_type-xadd c t.strategy (threshold t) fs d (channel_type R t m c u fs d e) in
        let at_c =
          subst (λ (j : String). R.key_type j (R.xadd c t.strategy (threshold t) fs d) ≡ other)
            ((eq_iff u c).0 same) p in
        cc
    | inr differs ↦
        let ne : u ≢ c = λ q. let f : str_eq u c ≡ true = (eq_iff u c).1 q in cc in
        universal_type R t m c u fs d k e
          (sym (R.key_type-xadd_other u c t.strategy (threshold t) fs d ne) ∙ p)
  ]

  ttl-written :
      (t : Trimming) (m k c u : String) (fs : List (String × String)) (d : R.Db)
      → compatible R c u d ≡ true
      → R.ttl m (written R t k c u fs d) ≡ R.ttl m d
  unfolding written
  ttl-written t m k c u fs d e =
      let d' = R.xadd c t.strategy (threshold t) fs d in
      let first = R.ttl-xadd m c t.strategy (threshold t) fs d (channel_type R t k c u fs d e) in
      elim (Bool-cases (str_eq u "")) [
        | inl none_named ↦ unfold add_universal in rw none_named first
        | inr is_named ↦
            let ne : u ≢ "" = λ p. let f : str_eq u "" ≡ true = (eq_iff u "").1 p in cc in
            unfold add_universal in
            rw is_named (
              R.ttl-xadd m u max_len t.universal_maxlen fs d' (second_type t k c u fs d ne e)
              ∙ first)
      ]

  script-ttl :
      (t : Trimming) (m k c u : String) (fs : List (String × String)) (d : R.Db) (n : ℕ)
      → n ≤ dedup_ttl_s
      → n ≤ R.ttl m d
      → n ≤ R.ttl m (script R t k c u fs d).1
  script-ttl t m k c u fs d n a b = elim (Bool-cases (seen R k d)) [
    | inl s ↦ rw (script-seen R t k c u fs d s) b
    | inr s ↦ elim (Bool-cases (compatible R c u d)) [
      | inl e ↦
          rw (script_inserts R t k c u fs d s e)
            (ttl-set_marker m k n (written R t k c u fs d) a (rw (ttl-written t m k c u fs d e) b))
      | inr e ↦ rw (script_refuses R t k c u fs d s e) b
    ]
  ]

  happen-ttl :
      (bs : List Between) (m : String) (d : R.Db) (n : ℕ)
      → n ≤ dedup_ttl_s
      → n ≤ R.ttl m d
      → n - time_of bs ≤ R.ttl m (happen bs d)
  unfolding happen atomic_publish
  happen-ttl [] m d n a b = omega (arith, b)
  happen-ttl (published t i c u fs ∷ bs) m d n a b =
      happen-ttl bs m (script R t (dedup_key i) c u fs d).1 n a
        (script-ttl t m (dedup_key i) c u fs d n a b)
  happen-ttl (passed s ∷ bs) m d n a b =
      let ih =
        happen-ttl bs m (R.later s d) (n - s) (omega (arith, a))
          (rw (R.ttl-later m s d) (omega (arith, b))) in
      omega (arith, ih)

  inserted-ttl :
      (t : Trimming) (m c u : String) (fs : List (String × String)) (d : R.Db)
      → str_eq m "" ≡ false
      → (script R t m c u fs d).0 ≡ inserted
      → R.ttl m (script R t m c u fs d).1 ≡ dedup_ttl_s
  inserted-ttl t m c u fs d n h = elim (Bool-cases (seen R m d)) [
    | inl s ↦ absurd (let e = ap (λ r. r.0) (script-seen R t m c u fs d s) in cc)
    | inr s ↦ elim (Bool-cases (compatible R c u d)) [
      | inl e ↦
          rw (script_inserts R t m c u fs d s e)
            (unfold set_marker in rw n (R.ttl-set_ex m dedup_ttl_s (written R t m c u fs d)))
      | inr e ↦ absurd (let f = ap (λ r. r.0) (script_refuses R t m c u fs d s e) in cc)
    ]
  ]

  -- Within ten minutes of its insertion an event with an id is not added again, whatever other
  -- publications there are in between: a second publication under the id, whatever its fields, its
  -- streams and its trimming, replies that the event is there and leaves the server as it is.
  pub atomic_publish_twice :
      (t t' : Trimming) (event_id c c' u u' : String) (fs fs' : List (String × String))
      (bs : List Between) (d : R.Db)
      → event_id ≢ ""
      → time_of bs < 600
      → (atomic_publish R t event_id c u fs d).0 ≡ inserted
      → let d' = happen bs (atomic_publish R t event_id c u fs d).1 in
        atomic_publish R t' event_id c' u' fs' d' ≡ (already_there, d')
  unfolding atomic_publish
  atomic_publish_twice t t' i c c' u u' fs fs' bs d h soon first =
      let m = dedup_key i in
      let d₁ = (script R t m c u fs d).1 in
      let full = inserted-ttl t m c u fs d (marker_named R i h) first in
      let left = happen-ttl bs m d₁ dedup_ttl_s (omega arith) (omega (arith, full)) in
      script-seen R t' m c' u' fs' (happen bs d₁) (
        unfold seen in
        rw (marker_named R i h) (R.exists_key-ttl m (happen bs d₁) (omega (arith, left, soon))))
