-- ===== src/Service/Get/Reads.antt =====
-- What `GetPayout` answers.
use payment_orchestrator.Base.{
  ◌≡◌, refl, String, Option, some, arith, Bool-cases, Option-cases, inl, inr, sym, ap, ◌∙◌, str_eq,
}
use payment_orchestrator.Domain.{Uuid, Payout, state_string}
use payment_orchestrator.Persistence.Result.{Result, ok, err, is_not_found}
use payment_orchestrator.Persistence.Queries.{PayoutRow, Db, find_payout}
use payment_orchestrator.Persistence.Repo
use payment_orchestrator.Persistence.Repo.{to_domain_payout, or_empty}
use payment_orchestrator.Persistence.Repo.Find.{IsStored, get_payout_row}
use payment_orchestrator.Persistence.Repo.Valid.{get_payout_tables}
use payment_orchestrator.Service.Types.{Reply, reply, World}
use payment_orchestrator.Service.Get.{GetPayoutResponse, get_reply, get_payout}

-- The answer shows the row.
abbrev pub Shows : (Uuid → String) → PayoutRow → GetPayoutResponse → Type 0
Shows uuid_string row a = a ≡ record {
  payout_id = uuid_string row.id;
  status = state_string row.state;
  amount = row.amount_cents;
  currency = row.currency;
  provider = or_empty row.provider;
  rail = row.rail;
  external_id = or_empty row.external_id;
}

abbrev shown : (Uuid → String) → Payout → GetPayoutResponse
shown uuid_string q = record {
  payout_id = uuid_string q.id;
  status = state_string q.state;
  amount = q.amount_cents;
  currency = q.currency;
  provider = q.provider;
  rail = q.rail;
  external_id = or_empty q.external_id;
}

answer_eq :
    {a b : GetPayoutResponse} → ◌≡◌ {A = Reply GetPayoutResponse} (reply a) (reply b) → a ≡ b
answer_eq h = ground arith

module _ (uuid_string : Uuid → String) (parse_uuid : String → Option Uuid) {E : Type 0} where
  -- No table and no provider changed, and an answer shows the row whose id was asked for.
  pub record Reads (asked : Option Uuid) (w : World E) (o : Reply GetPayoutResponse × World E)
      : Type 0 where
    pub tables_kept : o.1.db.tables ≡ w.db.tables
    pub env_kept : o.1.env ≡ w.env
    pub shows_row :
        (a : GetPayoutResponse)
        → o.0 ≡ reply a
        → (row : PayoutRow) × (asked ≡ some row.id)
          × (find_payout row.id w.db.tables.payouts ≡ some row)
          × Shows uuid_string row a

  get_reply-Reads :
      (id : Uuid) (w : World E) (o : Result Payout × Db)
      → o.1.tables ≡ w.db.tables
      → ((p : Payout) → o.0 ≡ ok p → (row : PayoutRow) × (row.id ≡ id) × IsStored w.db.tables p row)
      → Reads (some id) w (get_reply uuid_string parse_uuid w o)
  unfolding to_domain_payout
  get_reply-Reads id w (err e, db) same stored = elim (Bool-cases (is_not_found e)) [
    | inl missing ↦
        rw missing (record { tables_kept = same; env_kept = refl; shows_row = λ a h. ground arith })
    | inr other ↦
        rw other (record { tables_kept = same; env_kept = refl; shows_row = λ a h. ground arith })
  ]
  get_reply-Reads id w (ok p, db) same stored = record {
    tables_kept = same;
    env_kept = refl;
    shows_row = λ a h.
        let (row, named, is_stored) = stored p refl in
        (
          row,
          ap (λ i. some i) (sym named),
          is_stored.0,
          sym (answer_eq h) ∙ ap (λ (q : Payout). shown uuid_string q) is_stored.1,
        );
  }

  -- `GetPayout` changes no table and no provider, for any faults of the database, and when it
  -- answers, the request parses to the id of a stored payout, and the answer shows the row of that
  -- payout.
  pub get_payout-Reads :
      (payout_id : String) (w : World E)
      → Reads (parse_uuid payout_id) w (get_payout uuid_string parse_uuid payout_id w)
  unfolding get_payout
  get_payout-Reads payout_id w = elim (Bool-cases (str_eq payout_id "")) [
    | inl empty ↦
        rw empty (record { tables_kept = refl; env_kept = refl; shows_row = λ a h. ground arith })
    | inr given ↦ elim (Option-cases (parse_uuid payout_id)) [
      | inl unparsed ↦
          rw (given, unparsed)
            (record { tables_kept = refl; env_kept = refl; shows_row = λ a h. ground arith })
      | inr (id, parsed) ↦
          rw (given, parsed)
            (get_reply-Reads id w (Repo.get_payout id w.db) (get_payout_tables id w.db)
              (λ p h. get_payout_row id w.db p h))
    ]
  ]
