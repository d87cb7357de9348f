-- ===== src/Doubling/Resources.antt =====
-- The resources of `double_numbers` (errors.c) on every path.
use programming_with_c.Base.{
  ℕ, suc, ◌≡◌, ◌⊎◌, refl, Bool, true, false, List, [], ◌∷◌, Option, none, some, if◌then◌else◌,
  arith, length, Bool-cases, Option-cases, inl, inr,
}
use programming_with_c.Base.Streams.{Stream}
use programming_with_c.Base.Lines.{lines}
use programming_with_c.Doubling.Reading.{Right, HasLarge, double_lines-Right}
use programming_with_c.Doubling.{
  FcStatus, State, Ending, double_lines, System, Event, Outcome, cleanup, settle, failed,
  double_numbers,
}

-- What a list of events, read from its end, holds at its front: the input, the output, the buffer;
-- `none` if something is closed or freed that is not held, or acquired twice.
pub record Held : Type 0 where
  pub input : Bool
  pub output : Bool
  pub buffer : Bool

abbrev pub acquire : Event → Held → Option Held
acquire Event.opens_input h = if h.input then none else some (record h { input = true })
acquire Event.opens_output h = if h.output then none else some (record h { output = true })
acquire Event.allocates h = if h.buffer then none else some (record h { buffer = true })
acquire Event.closes_input h = if h.input then some (record h { input = false }) else none
acquire Event.closes_output h = if h.output then some (record h { output = false }) else none
acquire Event.frees h = if h.buffer then some (record h { buffer = false }) else none

abbrev pub held : List Event → Option Held
held [] = some (record { input = false; output = false; buffer = false })
held (e ∷ es) = elim (held es) [ none ↦ none | some h ↦ acquire e h ]

abbrev pub nothing : Held
nothing = record { input = false; output = false; buffer = false }

-- What a caller can rely on: nothing is held; success comes with the number of lines of the input; and
-- if the output can be closed, the counter is written only on success.
pub record Clean (w : System) (o : Outcome) : Type 0 where
  pub released : held o.events ≡ some nothing
  pub counted :
      o.status ≡ FcStatus.ok
      → (s : Stream) × (w.input ≡ some s) × (o.lines_out ≡ some (length (lines s.bytes)))
  pub untouched : w.closes ≡ true → (n : ℕ) → o.lines_out ≡ some n → o.status ≡ FcStatus.ok

settle-events :
    (r : Ending × State) (events : List Event) (o : Outcome)
    → settle r events ≡ some o
    → o.events ≡ events
settle-events (Ending.no_line true, s) events o h = ground (arith, h)
settle-events (Ending.no_line false, s) events o h = ground (arith, h)
settle-events (Ending.stopped status, s) events o h = ground (arith, h)
settle-events (Ending.undefined, s) events o h = cc h
settle-events (Ending.out_of_fuel, s) events o h = cc h

not_ok :
    (n : ℕ) (ls : List (List ℕ)) (st : State) (status : FcStatus)
    → Right n ls (Ending.stopped status, st)
    → status ≡ FcStatus.ok
    → ⊥
not_ok n ls st FcStatus.ok k e = k
not_ok n ls st FcStatus.errno k e = cc e
not_ok n ls st FcStatus.bad_format k e = cc e
not_ok n ls st FcStatus.too_long k e = cc e
not_ok n ls st FcStatus.no_memory k e = cc e

-- The number of lines goes out exactly with success.
settled :
    (ls : List (List ℕ)) (r : Ending × State) (events : List Event) (o : Outcome)
    → Right 0 ls r
    → settle r events ≡ some o
    → (o.status ≡ FcStatus.ok → o.lines_out ≡ some (length ls))
      × ((n : ℕ) → o.lines_out ≡ some n → o.status ≡ FcStatus.ok)
settled ls (Ending.no_line true, s) events o k h =
    (λ e. absurd (ground (arith, h, e)), λ n e. absurd (ground (arith, h, e)))
settled ls (Ending.no_line false, s) events o k h =
    (λ e. ground (arith, h, k), λ n e. ground (arith, h))
settled ls (Ending.stopped status, s) events o k h = (
  λ e. absurd (not_ok 0 ls s status k (ground (arith, h, e))),
  λ n e. absurd (ground (arith, h, e)),
)
settled ls (Ending.undefined, s) events o k h = cc h
settled ls (Ending.out_of_fuel, s) events o k h = cc h

unsettled :
    (ls : List (List ℕ)) (r : Ending × State) (events : List Event)
    → Right 0 ls r
    → settle r events ≡ none
    → HasLarge ls
unsettled ls (Ending.no_line true, s) events k h = cc h
unsettled ls (Ending.no_line false, s) events k h = cc h
unsettled ls (Ending.stopped status, s) events k h = cc h
unsettled ls (Ending.undefined, s) events k h = k
unsettled ls (Ending.out_of_fuel, s) events k h = absurd k

-- The four ways through `double_numbers` have these events in front of `cleanup`.
cleanup-Clean :
    (w : System) (i out buffer : Bool) (o : Outcome)
    → held (cleanup w.closes i out buffer o).events ≡ some nothing
    → (o.status ≡ FcStatus.ok
        → (s : Stream) × (w.input ≡ some s) × (o.lines_out ≡ some (length (lines s.bytes))))
    → ((n : ℕ) → o.lines_out ≡ some n → o.status ≡ FcStatus.ok)
    → Clean w (cleanup w.closes i out buffer o)
unfolding cleanup
cleanup-Clean w i out buffer o h k l = record {
  released = h;
  counted = λ e. k (ground (arith, e));
  untouched = λ e n p. ground (arith, e, l n p);
}

failed-Clean :
    (w : System) (i out : Bool) (status : FcStatus) (events : List Event)
    → (status ≡ FcStatus.ok → ⊥)
    → held (cleanup w.closes i out false (failed status events)).events ≡ some nothing
    → Clean w (cleanup w.closes i out false (failed status events))
failed-Clean w i out status events k h =
    cleanup-Clean w i out false (failed status events) h (λ e. absurd (k e)) (λ n p. cc p)

-- Whatever fails, `double_numbers` ends, unless the input has a line with a number whose double does not
-- fit a `long`; and then all that was opened or allocated has been closed or freed once; success comes
-- with the number of lines of the input; and without a failure to close the output, the caller's counter
-- is written only on success.
pub double_numbers-Clean :
    (w : System)
    → ((o : Outcome) × (double_numbers w ≡ some o) × Clean w o)
      ⊎ ((s : Stream) × (w.input ≡ some s) × HasLarge (lines s.bytes))
unfolding double_numbers
double_numbers-Clean w = elim (Option-cases w.input) [
  | inl n ↦ inl (
    cleanup w.closes false false false (failed FcStatus.errno []),
    ground (arith, n),
    failed-Clean w false false FcStatus.errno [] (λ e. cc e) refl,
  )
  | inr (s, p) ↦ elim (Bool-cases w.output) [
    | inr f ↦ inl (
      cleanup w.closes true false false (failed FcStatus.errno (Event.opens_input ∷ [])),
      ground (arith, p, f),
      failed-Clean w true false FcStatus.errno (Event.opens_input ∷ []) (λ e. cc e) refl,
    )
    | inl t ↦ elim (Bool-cases w.memory) [
      | inr g ↦ inl (
        cleanup w.closes true true false (failed FcStatus.no_memory opened),
        ground (arith, p, t, g),
        failed-Clean w true true FcStatus.no_memory opened (λ e. cc e) refl,
      )
      | inl u ↦
          let right : Right 0 (lines s.bytes) (ran s) =
            double_lines-Right (suc (length s.bytes)) s.bytes s.broken begun (omega arith) in
          elim (Option-cases (settle (ran s) acquired)) [
            | inl n ↦ inr (s, p, unsettled (lines s.bytes) (ran s) acquired right n)
            | inr (q, e) ↦
                let k = settled (lines s.bytes) (ran s) acquired q right e in
                inl (
                  cleanup w.closes true true true q,
                  ground (arith, p, t, u, e),
                  cleanup-Clean w true true true q (released q (settle-events (ran s) acquired q e))
                      (λ o. (s, p, k.0 o)) k.1,
                )
          ]
    ]
  ]
]
  where
    begun : State
    begun = record { out = []; lines = 0; writes = w.writes }

    ran : Stream → Ending × State
    ran s = double_lines (suc (length s.bytes)) s begun

    opened : List Event
    opened = Event.opens_output ∷ (Event.opens_input ∷ [])

    acquired : List Event
    acquired = Event.allocates ∷ opened

    released :
        (q : Outcome)
        → q.events ≡ acquired
        → held (cleanup w.closes true true true q).events ≡ some nothing
    released q e = rw e refl
