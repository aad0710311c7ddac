-- ===== src/Bundler/Balance.antt =====
-- The loop of adapters/pattern-bundler loses no event: proofs about Loop.
use nervous_bus.Prelude.{
  ℕ, zero, suc, ◌+◌, ◌≡◌, refl, ◌∙◌, Bool, List, [], ◌∷◌, ◌++◌, Bool-cases, inl, inr, All, Dict,
  sum_values, arith,
}
use nervous_bus.Bundler.Window.{Config, Window, fresh, should_close, Entry}
use nervous_bus.Bundler.Loop.{
  Moment, Core, take_bus, take_log, read_some, Bundle, bundle_of, close_due, Bundler, read_bus,
  read_logs, check_windows, arrive, turn, turns,
}
use nervous_bus.Bundler.Accounts.{count_of, total, Answers, weight, total-take_bus, total-take_log}

abbrev pub weigh_all : {E : Type 0} → (E → ℕ) → List E → ℕ
weigh_all f [] = 0
weigh_all f (e ∷ es) = f e + weigh_all f es

weigh_all-append :
    {E : Type 0} (f : E → ℕ) (xs ys : List E)
    → weigh_all f (xs ++ ys) ≡ weigh_all f xs + weigh_all f ys
weigh_all-append f [] ys = omega arith
weigh_all-append f (x ∷ xs) ys = omega (arith, weigh_all-append f xs ys)

-- What is read goes into the windows, also when an entry raises.
read_some-accounted :
    {E : Type 0} (step : E → Core → Core × Bool) (f : E → ℕ)
    → ((e : E) (c : Core) → total (step e c).0 ≡ total c + f e)
    → (n : ℕ) (es : List E) (c : Core)
    → total (read_some step n es c).core + weigh_all f (read_some step n es c).left
      ≡ total c + weigh_all f es
unfolding read_some
read_some-accounted step f h zero es c = refl
read_some-accounted step f h (suc n) [] c = refl
read_some-accounted step f h (suc n) (e ∷ es) c = elim (Bool-cases (step e c).1) [
  | inl r ↦ rw r (omega (arith, h e c))
  | inr r ↦ rw r (omega (arith, h e c, read_some-accounted step f h n es (step e c).0))
]

abbrev size : Bundle → ℕ
size b = b.event_count

close_due-accounted :
    (cfg : Config) (m : Moment) (d : Dict Window)
    → sum_values count_of (close_due cfg m d).windows + weigh_all size (close_due cfg m d).bundles
      ≡ sum_values count_of d
unfolding close_due bundle_of fresh
close_due-accounted cfg m [] = refl
close_due-accounted cfg m ((k, w) ∷ d) = elim (Bool-cases (should_close m.now w)) [
  | inl s ↦ elim (Bool-cases (m.emits k)) [
    | inl e ↦ rw (s, e) (omega (arith, close_due-accounted cfg m d))
    | inr e ↦ rw (s, e) (omega arith)
  ]
  | inr s ↦ rw s (omega (arith, close_due-accounted cfg m d))
]

abbrev one : Entry → ℕ
one e = 1

-- The events in emitted bundles, in open windows and still in the streams.
abbrev pub events_of : Bundler → ℕ
events_of b =
    weigh_all size b.bundles + total b.core + weigh_all weight b.bus + weigh_all one b.logs

abbrev pub arrived : Moment → ℕ
arrived m = weigh_all weight m.bus_arrivals + weigh_all one m.logs_arrivals

module _ (cfg : Config) (m : Moment) (a : Answers m) where
  read_bus-accounted : (b : Bundler) → events_of (read_bus cfg m b).0 ≡ events_of b
  unfolding read_bus
  read_bus-accounted b = elim (Bool-cases m.bus_answers) [
    | inl e ↦ rw e (
        omega (
          arith,
          read_some-accounted (take_bus cfg m) weight (total-take_bus cfg m a) 100 b.bus b.core,
        ))
    | inr e ↦ rw e refl
  ]

  read_logs-accounted : (b : Bundler) → events_of (read_logs cfg m b).0 ≡ events_of b
  unfolding read_logs
  read_logs-accounted b = elim (Bool-cases m.logs_answers) [
    | inl e ↦ rw e (
        omega (
          arith,
          read_some-accounted (take_log cfg m) one (total-take_log cfg m a) 200 b.logs b.core,
        ))
    | inr e ↦ rw e refl
  ]

  check_windows-accounted : (b : Bundler) → events_of (check_windows cfg m b) ≡ events_of b
  unfolding check_windows
  check_windows-accounted b =
      let closed = close_due cfg m b.core.windows in
      omega (
        arith,
        weigh_all-append size b.bundles closed.bundles,
        close_due-accounted cfg m b.core.windows,
      )

  arrive-accounted : (b : Bundler) → events_of (arrive m b) ≡ events_of b + arrived m
  unfolding arrive
  arrive-accounted b = omega (
    arith,
    weigh_all-append weight b.bus m.bus_arrivals,
    weigh_all-append one b.logs m.logs_arrivals,
  )

  turn-accounted : (b : Bundler) → events_of (turn cfg m b) ≡ events_of b + arrived m
  unfolding turn
  turn-accounted b =
      let bus = read_bus cfg m (arrive m b) in
      let logs = read_logs cfg m bus.0 in
      let read = read_bus-accounted (arrive m b) ∙ arrive-accounted b in
      elim (Bool-cases bus.1) [
        | inl r ↦ rw r read
        | inr r ↦ elim (Bool-cases logs.1) [
          | inl q ↦ rw (r, q) (read_logs-accounted bus.0 ∙ read)
          | inr q ↦ rw (r, q) (check_windows-accounted logs.0 ∙ read_logs-accounted bus.0 ∙ read)
        ]
      ]

abbrev AllAnswer : List Moment → Type 0
AllAnswer ms = All Answers ms

-- Whatever passes of the loop are made, from any state, and wherever reads, bundles or bad entries end
-- them early: while Redis answers the calls that set a new window up, no event is lost and none is
-- counted twice. Those in the emitted bundles, in the open windows and still unread in the streams are
-- together those there were before and those that have arrived.
pub turns-accounted :
    (cfg : Config) (ms : List Moment) (b : Bundler)
    → AllAnswer ms
    → events_of (turns cfg ms b) ≡ events_of b + weigh_all arrived ms
unfolding turns
turns-accounted cfg [] b a = omega arith
turns-accounted cfg (m ∷ ms) b a =
    omega (arith, turns-accounted cfg ms (turn cfg m b) a.1, turn-accounted cfg m a.0 b)
