-- ===== src/Reload/Transaction.antt =====
-- A reload is all or nothing, and gives back what it took.
use programming_with_c.Base.{
  ℕ, ◌≡◌, ◌⊎◌, refl, Bool, true, false, not, ◌&&◌, ◌||◌, List, [], ◌∷◌, Option, none, some,
  if◌then◌else◌, arith, Bool-cases, Option-cases, inl, inr,
}
use programming_with_c.Base.Int.{ℤ}
use programming_with_c.Reload.{
  Config, System, Event, Outcome, free_old, read_failed, parse_file, config_reload,
}

-- Whether the file, the buffer, the new configuration and the one that was installed are held.
pub record Held : Type 0 where
  pub file : Bool
  pub buffer : Bool
  pub fresh : Bool
  pub old : Bool

abbrev pub step : Event → Held → Option Held
step Event.opens h = if h.file then none else some (record h { file = true })
step Event.closes h = if h.file then some (record h { file = false }) else none
step Event.takes_buffer h = if h.buffer then none else some (record h { buffer = true })
step Event.frees_buffer h = if h.buffer then some (record h { buffer = false }) else none
step Event.takes_fresh h = if h.fresh then none else some (record h { fresh = true })
step Event.frees_fresh h = if h.fresh then some (record h { fresh = false }) else none
step Event.frees_old h = if h.old then some (record h { old = false }) else none

abbrev pub is_some : Option Config → Bool
is_some none = false
is_some (some _) = true

-- What is held behind a list of events, the last one in front; `none` if something is given back that
-- is not held, or taken twice.
abbrev pub held : Option Config → List Event → Option Held
held old [] = some (record { file = false; buffer = false; fresh = false; old = is_some old })
held old (e ∷ es) = elim (held old es) [ none ↦ none | some h ↦ step e h ]

-- The configuration that a reload comes to: there is none if the file cannot be opened, an allocation
-- or the reading fails, or a line is refused.
abbrev pub loaded : (List ℕ → Option ℤ) → System → Option Config
loaded parse_long w = elim w.file [
  | none ↦ none
  | some s ↦ if w.buffer && (w.fresh && not (read_failed s)) then parse_file parse_long s else none
]

-- There was nothing to install, and nothing was changed: only the old configuration is held.
pub record IsUnchanged (parse_long : List ℕ → Option ℤ) (w : System) (old : Option Config)
    (o : Outcome) : Type 0 where
  pub refused : loaded parse_long w ≡ none
  pub failed : o.success ≡ false
  pub kept : o.installed ≡ old
  pub released :
      held old o.events
      ≡ some (record { file = false; buffer = false; fresh = false; old = is_some old })

-- What was loaded is installed: only the new configuration is held.
pub record IsReplaced (parse_long : List ℕ → Option ℤ) (w : System) (old : Option Config)
    (o : Outcome) : Type 0 where
  pub succeeded : o.success ≡ true
  pub installed : (c : Config) × (loaded parse_long w ≡ some c) × (o.installed ≡ some c)
  pub released :
      held old o.events ≡ some (record { file = false; buffer = false; fresh = true; old = false })

-- For every answer of the system, every contents of the file and every `parse_long`: if the file cannot
-- be opened, an allocation or the reading fails, or `parse_file` refuses a line among the first 8191
-- bytes, a reload fails, keeps the installed configuration and has given back the file and both blocks
-- that it took, each once; otherwise it succeeds, has installed what `parse_file` makes of these bytes,
-- and has given back the file, the buffer and the old configuration, each once.
pub config_reload-IsReplaced :
    (parse_long : List ℕ → Option ℤ) (w : System) (old : Option Config)
    → IsUnchanged parse_long w old (config_reload parse_long w old)
      ⊎ IsReplaced parse_long w old (config_reload parse_long w old)
unfolding config_reload
config_reload-IsReplaced parse_long w old = elim (Option-cases w.file) [
  | inl n ↦ rw n (inl (record { refused = refl; failed = refl; kept = refl; released = refl }))
  | inr (s, p) ↦ elim (Bool-cases w.buffer) [
    | inr f ↦
        rw (p, f) (inl (record { refused = refl; failed = refl; kept = refl; released = refl }))
    | inl t ↦ elim (Bool-cases (read_failed s || not w.fresh)) [
      | inl g ↦
          rw (p, t, g)
            (inl
              (record { refused = ground (arith, g); failed = refl; kept = refl; released = refl }))
      | inr g ↦ elim (Option-cases (parse_file parse_long s)) [
        | inl n ↦
            rw (p, t, g, n)
              (inl (record {
                refused = ground (arith, g, n);
                failed = refl;
                kept = refl;
                released = refl;
              }))
        | inr (c, q) ↦
            rw (p, t, g, q)
              (inr (record {
                succeeded = refl;
                installed = (c, ground (arith, g, q), refl);
                released = released old;
              }))
      ]
    ]
  ]
]
  where
    released :
        (old : Option Config)
        → held old (
            Event.closes
            ∷ (Event.frees_buffer
                ∷ free_old old (Event.takes_fresh ∷ (Event.takes_buffer ∷ (Event.opens ∷ [])))))
          ≡ some (record { file = false; buffer = false; fresh = true; old = false })
    released none = refl
    released (some c) = refl
