-- ===== src/Provider/Registry/Laws.antt =====
-- What the registry's operations do to the providers that are selected for a rail.
use payment_orchestrator.Base.{
  ◌≡◌, refl, Bool, false, not, Option, none, some, List, [], ◌∷◌, ◌++◌, arith, str_eq, str_eq_iff,
  filter, if◌then◌else◌, Bool-cases, inl, inr, All,
}
use mathlib.Core.Path.{subst}
use payment_orchestrator.Domain.{Rail, Provider, ProviderMeta}
use payment_orchestrator.Provider.Client.{Client}
use payment_orchestrator.Provider.Registry.{
  ProviderWithMeta, RailEntry, Registry, entries_of, set_entries, entries_or_nil, active_of,
  register_with_meta, is_active, get_providers, has_name, set_first, store_entries, set_active,
}

module _ {E : Type 0} where
  entries_of-set_entries :
      (k j : Rail) (es : List (ProviderWithMeta E)) (m : List (RailEntry E))
      → entries_of j (set_entries k es m) ≡ (if str_eq k j then some es else entries_of j m)
  entries_of-set_entries k j es [] = refl
  entries_of-set_entries k j es ((i, old) ∷ m) =
      ground
        (arith, str_eq_iff k j, str_eq_iff i k, str_eq_iff i j, entries_of-set_entries k j es m)

  filter-append :
      (p : ProviderWithMeta E → Bool) (xs ys : List (ProviderWithMeta E))
      → filter p (xs ++ ys) ≡ filter p xs ++ filter p ys
  filter-append p [] ys = refl
  filter-append p (x ∷ xs) ys = ground (arith, filter-append p xs ys)

  active_of-append :
      (o : Option (List (ProviderWithMeta E))) (new : ProviderWithMeta E)
      → filter is_active (entries_or_nil o ++ new ∷ [])
        ≡ active_of o ++ (if new.meta.is_active then new ∷ [] else [])
  active_of-append none new = ground arith
  active_of-append (some es) new = rw (filter-append is_active es (new ∷ [])) (ground arith)

  -- A provider that is registered for a rail comes last in the rail's selection if it is active,
  -- and is left out if it is not; the selection of every other rail stays.
  pub get_providers-register_with_meta :
      (r : Registry E) (rail rail' : Rail) (client : Client E) (meta : ProviderMeta)
      → get_providers (register_with_meta r rail client meta) rail' ≡ (
          if str_eq rail rail'
          then get_providers r rail'
            ++ (if meta.is_active then record { client = client; meta = meta } ∷ [] else [])
          else get_providers r rail')
  unfolding get_providers register_with_meta
  get_providers-register_with_meta r rail rail' client meta =
      simp entries_of-set_entries (elim (Bool-cases (str_eq rail rail')) [
        | inr differ ↦ rw differ
        | inl same ↦
            rw (same, (str_eq_iff rail rail').0 same)
              (active_of-append (entries_of rail' r.providers)
                (record { client = client; meta = meta }))
      ])

  -- No two entries of the list have one name.
  abbrev pub HasDistinctNames : List (ProviderWithMeta E) → Type 0
  HasDistinctNames [] = Unit
  HasDistinctNames (e ∷ es) = All (λ x. has_name e.meta.provider x ≡ false) es × HasDistinctNames es

  abbrev pub other_than : Provider → ProviderWithMeta E → Bool
  other_than p e = not (has_name p e)

  other_than_none :
      (p : Provider) (es : List (ProviderWithMeta E))
      → All (λ x. has_name p x ≡ false) es
      → filter (other_than p) (filter is_active es) ≡ filter is_active es
  other_than_none p [] h = refl
  other_than_none p (e ∷ es) h = ground (arith, other_than_none p es h.1)

  -- The outcome of the loop of `SetActive` with `active = false` on the entries of a rail.
  abbrev SwitchesOff :
      Provider → List (ProviderWithMeta E) → Option (List (ProviderWithMeta E)) → Type 0
  SwitchesOff p es none = filter (other_than p) (filter is_active es) ≡ filter is_active es
  SwitchesOff p es (some es') = filter is_active es' ≡ filter (other_than p) (filter is_active es)

  set_first-SwitchesOff :
      (p : Provider) (es : List (ProviderWithMeta E))
      → HasDistinctNames es
      → SwitchesOff p es (set_first p false es)
  set_first-SwitchesOff p [] h = refl
  set_first-SwitchesOff p (e ∷ es) h = elim (Bool-cases (has_name p e)) [
    | inl named ↦
        let absent = other_than_none p es (
          subst (λ q. All (λ x. has_name q x ≡ false) es) ((str_eq_iff e.meta.provider p).0 named)
            h.0) in
        rw named (ground arith)
    | inr other ↦ rw other (passed (set_first p false es) other (set_first-SwitchesOff p es h.1))
  ]
    where
      passed :
          (o : Option (List (ProviderWithMeta E)))
          → has_name p e ≡ false
          → SwitchesOff p es o
          → SwitchesOff p (e ∷ es) (elim o [ none ↦ none | some es' ↦ some (e ∷ es') ])
      passed none other ih = ground arith
      passed (some es') other ih = ground arith

  active_of-entries :
      (o : Option (List (ProviderWithMeta E))) → filter is_active (entries_or_nil o) ≡ active_of o
  active_of-entries none = refl
  active_of-entries (some es) = refl

  store_entries-SwitchesOff :
      (r : Registry E) (rail rail' : Rail) (p : Provider) (o : Option (List (ProviderWithMeta E)))
      → SwitchesOff p (entries_or_nil (entries_of rail r.providers)) o
      → active_of (entries_of rail' (store_entries r rail o).0.providers) ≡ (
          if str_eq rail rail'
          then filter (other_than p) (active_of (entries_of rail' r.providers))
          else active_of (entries_of rail' r.providers))
  store_entries-SwitchesOff r rail rail' p none h =
      ground (arith, str_eq_iff rail rail', active_of-entries (entries_of rail r.providers))
  store_entries-SwitchesOff r rail rail' p (some es) h =
      simp entries_of-set_entries
        (ground (arith, str_eq_iff rail rail', active_of-entries (entries_of rail r.providers)))

  -- Switching a provider of a rail off, where the rail names no provider twice, takes exactly that
  -- provider out of the rail's selection and keeps the order of the others; the selections of the
  -- other rails stay.
  pub get_providers-set_active_off :
      (r : Registry E) (rail rail' : Rail) (p : Provider)
      → HasDistinctNames (entries_or_nil (entries_of rail r.providers))
      → get_providers (set_active r rail p false).0 rail' ≡ (
          if str_eq rail rail'
          then filter (other_than p) (get_providers r rail')
          else get_providers r rail')
  unfolding get_providers set_active
  get_providers-set_active_off r rail rail' p h =
      let es = entries_or_nil (entries_of rail r.providers) in
      store_entries-SwitchesOff r rail rail' p (set_first p false es) (set_first-SwitchesOff p es h)
