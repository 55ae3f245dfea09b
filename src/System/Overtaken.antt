-- ===== src/System/Overtaken.antt =====
-- A cancellation that is stored while a provider is sending the payout.
use payment_orchestrator.Base.{
  ℕ, ◌≡◌, refl, String, Bool, true, false, Option, some, List, arith, str_eq, ==_refl,
}
use payment_orchestrator.Domain.{Uuid, Time, Payout, sent}
use payment_orchestrator.Persistence.Queries
use payment_orchestrator.Persistence.Queries.{
  PayoutRow, Tables, Db, find_payout, canceled_row, is_in, replace_row,
}
use payment_orchestrator.Persistence.Queries.Rows.{find_payout-id, find_payout-replace_row}
use payment_orchestrator.Persistence.Repo
use payment_orchestrator.Persistence.Repo.{to_domain_payout, nullable}
use payment_orchestrator.Provider.Registry.{Registry, RailEntry}
use payment_orchestrator.Provider.SuccessTracker.{SuccessTracker, Float64}
use payment_orchestrator.Provider.Orchestrator.{Orchestrator, SendPayoutResult}
use payment_orchestrator.Service.Types.{Reply, reply, World}
use payment_orchestrator.Service.Create.{after_sending}
use payment_orchestrator.Service.Create.Repeat.{working}
use payment_orchestrator.Service.Cancel.{cancel_payout}
use payment_orchestrator.Service.Cancel.Why.{Cancelable, Cancelable-is_in, canceled_tables, cancels}
use payment_orchestrator.Persistence.Queries.Runs.{is_storable}

-- The row once it is marked as sent.
abbrev pub sent_version : SendPayoutResult → Time → PayoutRow → PayoutRow
sent_version result now row = record row {
  state = sent;
  external_id = some result.external_id;
  provider = nullable result.used_provider;
  updated_at = now;
}

canceled_found :
    (id : Uuid) (row : PayoutRow) (t : Tables) (now : Time)
    → find_payout id t.payouts ≡ some row
    → find_payout id (canceled_tables now row t).payouts ≡ some (canceled_row now row)
canceled_found id row t now found = ground (
  arith,
  found,
  find_payout-id id t.payouts row found,
  ==_refl id,
  find_payout-replace_row (canceled_row now row) id t.payouts,
)

module _ (fl : Float64) (intn : ℕ → ℕ) (uuid_string : Uuid → String)
    (parse_uuid : String → Option Uuid) {E : Type 0} (iteration : Registry E → List (RailEntry E))
    (o : Orchestrator E) where
  marks :
      (p : Payout) (result : SendPayoutResult) (row : PayoutRow) (w : World E) (t : Tables)
      (gen : ℕ → Uuid) (drawn : ℕ) (now : Time) (tracker : SuccessTracker) (env : E)
      → w.db ≡ working t gen drawn now
      → find_payout p.id t.payouts ≡ some row
      → result.success ≡ true
      → is_storable (sent_version result now row) t ≡ true
      → let a = after_sending fl intn now uuid_string (some o) p w (some (result, tracker, env)) in
        (a.0 ≡ some (to_domain_payout (sent_version result now row)))
        × (find_payout p.id a.1.db.tables.payouts ≡ some (sent_version result now row))
  unfolding Repo.update_payout_state Queries.update_payout_state to_domain_payout
  marks p result row w t gen drawn now tracker env here found success storable =
      let same = find_payout-id p.id t.payouts row found in
      (
        ground (arith, here, found, success, storable),
        ground (
          arith,
          here,
          found,
          success,
          storable,
          same,
          ==_refl p.id,
          find_payout-replace_row (sent_version result now row) p.id t.payouts,
        ),
      )

  -- The caller of `CancelPayout` was told that the payout is canceled, and its row said so; the
  -- payout that was sent then ends in state sent, and so does its row.
  pub record CanceledThenSent (p : Payout) (result : SendPayoutResult) (row : PayoutRow)
      (now : Time) (canceling : Reply Bool × World E) (sending : Option Payout × World E)
      : Type 0 where
    pub told_canceled : canceling.0 ≡ reply true
    pub was_canceled : find_payout p.id canceling.1.db.tables.payouts ≡ some (canceled_row now row)
    pub returned_sent : sending.0 ≡ some (to_domain_payout (sent_version result now row))
    pub ends_sent :
        find_payout p.id sending.1.db.tables.payouts ≡ some (sent_version result now row)

  -- On a database that works, when a payout is canceled while a provider is sending it with
  -- success, where the canceled row and then the sent one meet the constraints of the table:
  -- `CancelPayout` answers true and stores the payout as canceled, and what follows the sending
  -- then stores it as sent.
  pub overtaken_cancel :
      (payout_id : String) (p : Payout) (result : SendPayoutResult) (row : PayoutRow) (t : Tables)
      (gen : ℕ → Uuid) (drawn : ℕ) (now : Time) (tracker tracker' : SuccessTracker) (env env' : E)
      → str_eq payout_id "" ≡ false
      → parse_uuid payout_id ≡ some p.id
      → find_payout p.id t.payouts ≡ some row
      → Cancelable row.state
      → is_storable (canceled_row now row) t ≡ true
      → result.success ≡ true
      → is_storable (sent_version result now row) (canceled_tables now row t) ≡ true
      → let canceling =
          cancel_payout iteration parse_uuid
            (some o)
            payout_id
            (record { db = working t gen drawn now; tracker = tracker; env = env }) in
        CanceledThenSent p result row now canceling (
          after_sending fl intn now uuid_string
            (some o)
            p
            canceling.1
            (some (result, tracker', env')))
  overtaken_cancel payout_id p result row t gen drawn now tracker tracker' env env' given parsed
        found cancelable storable success sendable =
      let listed = Cancelable-is_in row.state cancelable in
      let (told, left) =
        cancels iteration parse_uuid (some o) payout_id p.id row
          (record { db = working t gen drawn now; tracker = tracker; env = env }) given parsed found
          listed storable refl in
      let canceling =
        cancel_payout iteration parse_uuid (some o) payout_id
          (record { db = working t gen drawn now; tracker = tracker; env = env }) in
      let was = canceled_found p.id row t now found in
      let (returned, ends) =
        marks p result (canceled_row now row) canceling.1 (canceled_tables now row t) gen drawn now
          tracker' env' left was success sendable in
      record {
        told_canceled = told;
        was_canceled = rw left was;
        returned_sent = returned;
        ends_sent = ends;
      }
