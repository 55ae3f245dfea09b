-- ===== src/Api/Config/Load.antt =====
-- When the configuration of the API service loads.
use payment_orchestrator.Base.{
  ℕ, ◌*◌, ◌%◌, ◌≡◌, refl, String, Bool, true, false, Option, none, some, List, [], ◌∷◌, str_eq,
  if◌then◌else◌, Bool-cases, Option-cases, inl, inr, ◌⊎◌,
}
use payment_orchestrator.Base.Words.{two64}
use payment_orchestrator.Api.Config.{
  Loaded, loaded, load_failed, bind_loaded, Environment, Config, second, get_duration_env, load,
}

module _ {F : Type 0} (e : Environment F) where
  -- The variable is not set, or is a duration or a number of seconds.
  unfoldable pub is_readable : String → Bool
  is_readable key =
      if str_eq (e.getenv key) "" then true else elim (e.parse_duration (e.getenv key)) [
        | some d ↦ true
        | none ↦ elim (e.atoi (e.getenv key)) [ some n ↦ true | none ↦ false ]
      ]

  -- The first of the variables that is not readable.
  unfoldable pub first_unreadable : List String → Option String
  unfolding is_readable
  first_unreadable [] = none
  first_unreadable (key ∷ keys) =
      let rest = first_unreadable keys in if is_readable key then rest else some key

  abbrev pub timeout_keys : List String
  timeout_keys =
      "API_READ_TIMEOUT" ∷ "API_READ_HEADER_TIMEOUT" ∷ "API_WRITE_TIMEOUT" ∷ "API_IDLE_TIMEOUT"
      ∷ "API_SHUTDOWN_TIMEOUT" ∷ []

  unfoldable pub Loads : Option String → Loaded (Config F) → Type 0
  Loads none r = (c : Config F) × (r ≡ loaded c)
  Loads (some key) r = r ≡ load_failed key

  duration_cases :
      (key : String) (fallback : ℕ)
      → ((is_readable key ≡ true) × (d : ℕ) × (get_duration_env e key fallback ≡ loaded d))
        ⊎ ((is_readable key ≡ false) × (get_duration_env e key fallback ≡ load_failed key))
  unfolding is_readable get_duration_env
  duration_cases key fallback = elim (Bool-cases (str_eq (e.getenv key) "")) [
    | inl unset ↦ inl (rw unset refl, fallback, rw unset refl)
    | inr given ↦ elim (Option-cases (e.parse_duration (e.getenv key))) [
      | inr (d, parsed) ↦ inl (rw (given, parsed) refl, d, rw (given, parsed) refl)
      | inl unparsed ↦ elim (Option-cases (e.atoi (e.getenv key))) [
        | inr (n, number) ↦ inl (
          rw (given, unparsed, number) refl,
          (n * second) % two64,
          rw (given, unparsed, number) refl,
        )
        | inl no_number ↦
            inr (rw (given, unparsed, no_number) refl, rw (given, unparsed, no_number) refl)
      ]
    ]
  ]

  step :
      (key : String) (fallback : ℕ) (keys : List String) (f : ℕ → Loaded (Config F))
      → ((d : ℕ) → Loads (first_unreadable keys) (f d))
      → Loads (first_unreadable (key ∷ keys)) (bind_loaded (get_duration_env e key fallback) f)
  unfolding Loads first_unreadable
  step key fallback keys f rest = elim (duration_cases key fallback) [
    | inl (readable, d, gave) ↦ rw (readable, gave) (rest d)
    | inr (unreadable, failed) ↦ rw (unreadable, failed) refl
  ]

  at_end : (c : Config F) → Loads (first_unreadable []) (loaded c)
  unfolding Loads first_unreadable
  at_end c = (c, refl)

  -- The configuration loads exactly if every timeout that is set is a duration or a whole number of
  -- seconds; otherwise the error names the first that is not. A rate or a burst that does not parse
  -- is no error.
  pub load-Loads : (ten : F) → Loads (first_unreadable timeout_keys) (load e ten)
  unfolding load
  load-Loads ten = step "API_READ_TIMEOUT" (5 * second) _ _ (λ read_timeout.
      step "API_READ_HEADER_TIMEOUT" (2 * second) _ _ (λ read_header_timeout.
        step "API_WRITE_TIMEOUT" (10 * second) _ _ (λ write_timeout.
          step "API_IDLE_TIMEOUT" (30 * second) _ _ (λ idle_timeout.
            step "API_SHUTDOWN_TIMEOUT" (10 * second) _ _ (λ shutdown_timeout. at_end _)))))
