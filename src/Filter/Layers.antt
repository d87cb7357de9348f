-- ===== src/Filter/Layers.antt =====
-- The layers of the configuration of filter.c: defaults, environment, options.
use programming_with_c.Base.{
  ℕ, ◌≡◌, ◌⊎◌, refl, ap, ◌∙◌, Bool, ◌||◌, List, [], ◌∷◌, some, ◌==◌, if◌then◌else◌, arith, inl, inr,
}
use programming_with_c.Base.Int.{pos, ◌≤ℤ◌}
use programming_with_c.Filter.{
  Config, Message, Parsed, parse_count, Choice, go_on, stop, apply_option, apply_options,
}

-- What the argument of the last option of a kind is read as, or what a lower layer says.
abbrev pub last_argument {ℓ} : {A : Type ℓ} → ℕ → (List ℕ → A) → List Parsed → A → A
last_argument o read [] lower = lower
last_argument o read (p ∷ ps) lower =
    last_argument o read ps (if p.opt == o then read p.optarg else lower)

abbrev pub given : ℕ → List Parsed → Bool → Bool
given o [] lower = lower
given o (p ∷ ps) lower = given o ps (p.opt == o || lower)

-- The layers above a configuration.
pub record Layered (ps : List Parsed) (c c' : Config) : Type 0 where
  pub prefix : c'.prefix ≡ last_argument b'p' (λ text. text) ps c.prefix
  pub verbose : c'.verbose ≡ given b'v' ps c.verbose
  pub output_path : c'.output_path ≡ last_argument b'o' some ps c.output_path
  pub maximum : some c'.maximum ≡ last_argument b'n' parse_count ps (some c.maximum)
  pub count : pos 0 ≤ℤ c.maximum → pos 0 ≤ℤ c'.maximum

one_option : (p : Parsed) (c c' : Config) → apply_option p c ≡ go_on c' → Layered (p ∷ []) c c'
unfolding apply_option
one_option p c c' h = ground (arith, h)

Choice-cases :
    (x : Choice)
    → ((c : Config) × (x ≡ go_on c)) ⊎ ((n : ℕ) × (ms : List Message) × (x ≡ stop n ms))
Choice-cases (go_on c) = inl (c, refl)
Choice-cases (stop n ms) = inr (n, ms, refl)

both_layers :
    (p : Parsed) (ps : List Parsed) (c m c' : Config)
    → Layered (p ∷ []) c m
    → Layered ps m c'
    → Layered (p ∷ ps) c c'
both_layers p ps c m c' h k = record {
  prefix = k.prefix ∙ ap (last_argument b'p' (λ text. text) ps) h.prefix;
  output_path = k.output_path ∙ ap (last_argument b'o' some ps) h.output_path;
  maximum = k.maximum ∙ ap (last_argument b'n' parse_count ps) h.maximum;
  verbose = k.verbose ∙ ap (given b'v' ps) h.verbose;
  count = λ n. k.count (h.count n);
}

-- If the options are accepted, the prefix is that of the last `-p`, the output that of the last `-o` and
-- the limit the number in the last `-n`, each else that of the layer below; the program is verbose if a
-- `-v` stands among them or the layer below says so; and a limit that is not negative is followed by one
-- that is not.
pub apply_options-Layered :
    (ps : List Parsed) (c c' : Config) → apply_options ps c ≡ go_on c' → Layered ps c c'
unfolding apply_options
apply_options-Layered [] c c' h = ground (arith, h)
apply_options-Layered (p ∷ ps) c c' h = elim (Choice-cases (apply_option p c)) [
  | inl (m, q) ↦
      both_layers p ps c m c' (one_option p c m q) (apply_options-Layered ps m c' (accepted m q))
  | inr (n, ms, q) ↦ absurd (ground (arith, h, q))
]
  where
    accepted : (m : Config) → apply_option p c ≡ go_on m → apply_options ps m ≡ go_on c'
    accepted m q = ground (arith, h, q)
