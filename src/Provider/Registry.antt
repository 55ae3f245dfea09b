-- ===== src/Provider/Registry.antt =====
-- The registry of providers per rail (provider/registry.go). The Go map is an association list
-- with one entry for a rail; ranging over it visits the entries in an order that Go leaves open,
-- which is an argument of `get_by_provider`.
pub mod Laws
use payment_orchestrator.Base.{
  String, Bool, true, false, Option, none, some, List, [], ◌∷◌, ◌++◌, str_eq, filter, if◌then◌else◌,
}
use payment_orchestrator.Base.Int.{pos}
use payment_orchestrator.Domain.{Rail, Provider, ProviderMeta}
use payment_orchestrator.Provider.Client.{Client}

pub record ProviderWithMeta (E : Type 0) : Type 0 where
  pub client : Client E
  pub meta : ProviderMeta

abbrev pub RailEntry : Type 0 → Type 0
RailEntry E = Rail × List (ProviderWithMeta E)

pub record Registry (E : Type 0) : Type 0 where
  pub providers : List (RailEntry E)

module _ {E : Type 0} where
  unfoldable pub new_registry : Registry E
  new_registry = record { providers = [] }

  -- `r.providers[rail]`
  abbrev pub entries_of : Rail → List (RailEntry E) → Option (List (ProviderWithMeta E))
  entries_of rail [] = none
  entries_of rail ((k, es) ∷ m) =
      let rest = entries_of rail m in if str_eq k rail then some es else rest

  -- `r.providers[rail] = es`
  abbrev pub set_entries :
      Rail → List (ProviderWithMeta E) → List (RailEntry E) → List (RailEntry E)
  set_entries rail es [] = (rail, es) ∷ []
  set_entries rail es ((k, old) ∷ m) =
      let rest = set_entries rail es m in if str_eq k rail then (k, es) ∷ m else (k, old) ∷ rest

  -- A missing key reads as the nil slice.
  abbrev pub entries_or_nil : Option (List (ProviderWithMeta E)) → List (ProviderWithMeta E)
  entries_or_nil none = []
  entries_or_nil (some es) = es

  unfoldable pub register_with_meta : Registry E → Rail → Client E → ProviderMeta → Registry E
  register_with_meta r rail client meta = record {
    providers =
        set_entries rail
          (entries_or_nil (entries_of rail r.providers)
            ++ record { client = client; meta = meta } ∷ [])
          r.providers;
  }

  unfoldable pub register : Registry E → Rail → Client E → Registry E
  unfolding register_with_meta
  register r rail client =
      register_with_meta r rail client (record { provider = ""; is_active = true; weight = pos 0 })

  abbrev pub is_active : ProviderWithMeta E → Bool
  is_active e = e.meta.is_active

  abbrev pub active_of : Option (List (ProviderWithMeta E)) → List (ProviderWithMeta E)
  active_of none = []
  active_of (some es) = filter is_active es

  unfoldable pub get_providers : Registry E → Rail → List (ProviderWithMeta E)
  get_providers r rail = active_of (entries_of rail r.providers)

  unfoldable pub get : Registry E → Rail → Option (Client E)
  unfolding get_providers
  get r rail = elim (get_providers r rail) [ [] ↦ none | e ∷ _ ↦ some e.client ]

  abbrev pub has_name : Provider → ProviderWithMeta E → Bool
  has_name p e = str_eq e.meta.provider p

  -- The loop of `SetActive`: the first entry of the name is changed; `none` if there is none.
  abbrev pub set_first :
      Provider → Bool → List (ProviderWithMeta E) → Option (List (ProviderWithMeta E))
  set_first p active [] = none
  set_first p active (e ∷ es) =
      let rest = set_first p active es in
      if has_name p e
      then some (record { client = e.client; meta = record (e.meta) { is_active = active } } ∷ es)
      else elim rest [ none ↦ none | some es' ↦ some (e ∷ es') ]

  -- What `SetActive` does with the outcome of its loop.
  abbrev pub store_entries :
      Registry E → Rail → Option (List (ProviderWithMeta E)) → Registry E × Bool
  store_entries r rail none = (r, false)
  store_entries r rail (some es) = (record { providers = set_entries rail es r.providers }, true)

  -- A rail that is not registered has no entries to search, so the answer is `false`.
  unfoldable pub set_active : Registry E → Rail → Provider → Bool → Registry E × Bool
  set_active r rail p active =
      store_entries r rail (set_first p active (entries_or_nil (entries_of rail r.providers)))

  abbrev pub first_named : Provider → List (ProviderWithMeta E) → Option (Client E)
  first_named p [] = none
  first_named p (e ∷ es) =
      let rest = first_named p es in if has_name p e then some e.client else rest

  -- `order` is the map's entries in the order in which `range` visits them.
  unfoldable pub get_by_provider : List (RailEntry E) → Provider → Option (Client E)
  get_by_provider [] p = none
  get_by_provider ((_, es) ∷ order) p =
      let rest = get_by_provider order p in
      elim (first_named p es) [ some c ↦ some c | none ↦ rest ]
