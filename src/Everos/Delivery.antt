-- ===== src/Everos/Delivery.antt =====
-- adapters/everos-watch/everos_watch.py: what is published of a file, and what is kept private.
use mathlib.Core.List.{append-nil, append_assoc}
use nervous_bus.Prelude.{
  ℕ, zero, suc, ◌+◌, ◌<◌, ◌≡◌, subst, length, arith, ◌⊎◌, ◌∙◌, inl, inr, refl, sym, String, Bool,
  true, false, some, List, [], ◌∷◌, ◌++◌, Dict, lookup, lookup-insert, eq_refl, one_of, take,
  Bool-cases,
}
use nervous_bus.Everos.Files.{FileInfo, Node, Change, Event, event, redact_owner}
use nervous_bus.Everos.Watcher.{
  File, Surroundings, Watch, publish_all, keep_file, take_file, diff, old_nodes,
}

-- An event of a private app says nothing of the owner and the session: it is the same whatever the
-- owner, the owner's part of the path and the session are.
pub event-private :
    (private_apps : List String) (change : Change) (info : FileInfo) (eid session session' : String)
    (owner owner' a b c part part' : String) (rest : List String)
    → one_of info.app_id private_apps ≡ true
    → event private_apps change
        (record info { owner_id = owner })
        eid
        session
        (a ∷ b ∷ c ∷ part ∷ rest)
      ≡ event private_apps change
          (record info { owner_id = owner' })
          eid
          session'
          (a ∷ b ∷ c ∷ part' ∷ rest)
unfolding event redact_owner
event-private ps change info eid s s' o o' a b c p p' rest h = rw h refl

-- The n-th event of the list is the first that is not accepted: those before it went out.
abbrev pub FailsAt : Surroundings → List Event → Watch → Watch → ℕ → Type 0
FailsAt w es d d' n =
    (n < length es)
    × (w.accepts (d.tried + n) ≡ false)
    × ((i : ℕ) → i < n → w.accepts (d.tried + i) ≡ true)
    × (d'.delivered ≡ d.delivered ++ take n es)

-- Every event of the list is accepted, and all of them went out.
abbrev pub Delivers : Surroundings → List Event → Watch → Watch → Type 0
Delivers w es d d' =
    ((i : ℕ) → i < length es → w.accepts (d.tried + i) ≡ true) × (d'.delivered ≡ d.delivered ++ es)

-- What publishing comes to: all of the events, or those before the first that is not accepted.
Published : Surroundings → List Event → Watch → Bool × Watch → Type 0
Published w es d r =
    (r.1.state ≡ d.state)
    × (((r.0 ≡ true) × Delivers w es d r.1) ⊎ ((r.0 ≡ false) × ((n : ℕ) × FailsAt w es d r.1 n)))

-- The first event was accepted, and those after it as the function says.
accepted_before :
    (w : Surroundings) (t n : ℕ)
    → w.accepts t ≡ true
    → ((i : ℕ) → i < n → w.accepts (t + 1 + i) ≡ true)
    → (i : ℕ) → i < suc n
    → w.accepts (t + i) ≡ true
accepted_before w t n a h zero l = subst (λ m. w.accepts m ≡ true) (omega arith) a
accepted_before w t n a h (suc i) l =
    subst (λ m. w.accepts m ≡ true) (omega arith) (h i (omega (arith, l)))

publish_all-Published :
    (w : Surroundings) (es : List Event) (d : Watch) → Published w es d (publish_all w es d)
unfolding publish_all Published
publish_all-Published w [] d =
    (refl, inl (refl, ((λ i l. absurd (omega (arith, l))), sym (append-nil d.delivered))))
publish_all-Published w (e ∷ es) d =
    let d' : Watch = record d { delivered = d.delivered ++ (e ∷ []); tried = d.tried + 1 } in
    let ih = publish_all-Published w es d' in
    elim (Bool-cases (w.accepts d.tried)) [
      | inr k ↦ rw k (
        refl,
        inr (
          refl,
          (
            zero,
            (
              omega arith,
              subst (λ m. w.accepts m ≡ false) (omega arith) k,
              (λ i l. absurd (omega (arith, l))),
              sym (append-nil d.delivered),
            ),
          ),
        ),
      )
      | inl k ↦ rw k (
        ih.0,
        elim ih.1 [
          | inl (t, (h, p)) ↦ inl (
            t,
            (accepted_before w d.tried (length es) k h, p ∙ append_assoc d.delivered (e ∷ []) es),
          )
          | inr (t, (n, (l, f, h, p))) ↦ inr (
            t,
            (
              suc n,
              (
                omega (arith, l),
                subst (λ m. w.accepts m ≡ false) (omega arith) f,
                accepted_before w d.tried n k h,
                p ∙ append_assoc d.delivered (e ∷ []) (take n es),
              ),
            ),
          )
        ],
      )
    ]

-- What becomes of a file that was read: every event of the difference between its nodes and those kept
-- is accepted and the new ones are kept, or an event of the difference is not accepted, only those
-- before the first such are published and nothing kept changes.
pub Handled : Surroundings → FileInfo → File → ℕ × ℕ → Dict Node → Watch → Watch → Type 0
Handled w info f sig nodes d d' =
    let es = diff w info f.parts (old_nodes (lookup f.key d.state)) nodes in
    ((lookup f.key d'.state ≡ some (record { sig = sig; nodes = nodes })) × Delivers w es d d')
    ⊎ ((d'.state ≡ d.state) × ((n : ℕ) × FailsAt w es d d' n))

keep_file-Handled :
    (w : Surroundings) (info : FileInfo) (f : File) (sig : ℕ × ℕ) (nodes : Dict Node) (d : Watch)
    (r : Bool × Watch)
    → Published w (diff w info f.parts (old_nodes (lookup f.key d.state)) nodes) d r
    → Handled w info f sig nodes d (keep_file f.key (record { sig = sig; nodes = nodes }) r)
unfolding keep_file Handled Published
keep_file-Handled w info f sig nodes d (true, d') (s, inl (t, p)) = inl (
  lookup-insert f.key f.key (record { sig = sig; nodes = nodes }) d'.state
      ∙ rw (eq_refl f.key) refl,
  p,
)
keep_file-Handled w info f sig nodes d (false, d') (s, inr (t, p)) = inr (s, p)
keep_file-Handled w info f sig nodes d (false, d') (s, inl (t, p)) = absurd cc
keep_file-Handled w info f sig nodes d (true, d') (s, inr (t, p)) = absurd cc

-- Reading a file leaves it handled: either every event of its difference is accepted, all of them are
-- published and its new nodes are kept, or an event of it is not accepted, exactly those before the
-- first such are published and the state is as before.
pub take_file-Handled :
    (w : Surroundings) (info : FileInfo) (f : File) (sig : ℕ × ℕ) (nodes : Dict Node) (d : Watch)
    → Handled w info f sig nodes d (take_file w info f sig (some nodes) d)
unfolding take_file
take_file-Handled w info f sig nodes d =
    let es = diff w info f.parts (old_nodes (lookup f.key d.state)) nodes in
    keep_file-Handled w info f sig nodes d (publish_all w es d) (publish_all-Published w es d)
