-- ===== src/System/Overlapping.antt =====
-- Calls of `CreatePayout` that overlap, each with what it remembers: the payout that it committed
-- and has yet to send, or the result of the sending, which it has yet to store.
pub mod Alone
use mathlib.Core.Path.{subst}
use payment_orchestrator.Base.{
  ℕ, ◌+◌, ◌≤◌, ◌≡◌, String, Bool, true, false, ◌&&◌, some, List, [], ◌∷◌, ◌++◌, arith, inl, inr,
  ◌⊎◌, ap, str_eq, if◌then◌else◌,
}
use payment_orchestrator.Domain.{Payout, Time}
use payment_orchestrator.Persistence.Queries.{Tables, Db}
use payment_orchestrator.Persistence.Repo.{run_in_tx}
use payment_orchestrator.Provider.SuccessTracker.{SuccessTracker, Float64}
use payment_orchestrator.Provider.Orchestrator.{
  Orchestrator, SendPayoutResult, send_payout_with_fallback,
}
use payment_orchestrator.Service.Types.{World}
use payment_orchestrator.Service.Create.{
  CreatePayoutRequest, no_tx_result, create_in_tx, store_result,
}
use payment_orchestrator.Service.Create.Transaction.{create_tx_cases}
use payment_orchestrator.Service.Create.Cases.{store_result_keys}
use payment_orchestrator.System.Asked.{committed}
use payment_orchestrator.System.Interleaved.{
  Piece, StoredAfter, creates_StoredAfter, Piece-StoredAfter, commits_of, same_keys,
}

-- A call of `CreatePayout` that is under way, with its idempotency key.
pub data Call : Type 0 where
  to_send : String → Payout → Call
  to_store : String → Payout → SendPayoutResult → Call

pub record Shared (E : Type 0) : Type 0 where
  pub world : World E
  pub calls : List Call

-- The transaction of a call. If it commits, the call goes on to send; otherwise it only answers.
abbrev pub begun : {E : Type 0} → CreatePayoutRequest → Shared E → Shared E
begun req s =
    let o = run_in_tx no_tx_result (create_in_tx req) s.world.db in
    record {
      world = record s.world { db = o.1 };
      calls =
          if committed o.0.1
          then to_send req.idempotency_key o.0.0.new_payout ∷ s.calls
          else s.calls;
    }

module _ (fl : Float64) {E : Type 0} (o : Orchestrator E) where
  -- A call begins; a call sends its payout; a call stores the result; something else changes the
  -- tracker and the providers; or a statement of another call, or of a call that then ends, changes
  -- the database.
  pub data Move (s : Shared E) : Shared E → Type 0 where
    begins : (req : CreatePayoutRequest) → Move s (begun req s)
    sends :
        (intn : ℕ → ℕ) (now : Time) (earlier later : List Call) (key : String) (p : Payout)
        (result : SendPayoutResult) (tracker : SuccessTracker) (env : E)
        → s.calls ≡ earlier ++ to_send key p ∷ later
        → send_payout_with_fallback fl intn now o p s.world.tracker s.world.env
          ≡ some (result, tracker, env)
        → Move s (record {
          world = record { db = s.world.db; tracker = tracker; env = env };
          calls = earlier ++ to_store key p result ∷ later;
        })
    stores :
        (earlier later : List Call) (key : String) (p : Payout) (result : SendPayoutResult)
        → s.calls ≡ earlier ++ to_store key p result ∷ later
        → Move s (record {
          world = record s.world { db = (store_result p result s.world.db).1 };
          calls = earlier ++ later;
        })
    outside :
        (tracker : SuccessTracker) (env : E)
        → Move s (record s { world = record { db = s.world.db; tracker = tracker; env = env } })
    others : {d : Db} → Piece s.world.db d → Move s (record s { world = record s.world { db = d } })

  pub data Moves (s : Shared E) : Shared E → Type 0 where
    here : Moves s s
    next : {u v : Shared E} → Moves s u → Move u v → Moves s v

  -- How often a payout is sent under the key.
  abbrev pub sent_of : {u v : Shared E} → String → Move u v → ℕ
  sent_of key (begins req) = 0
  sent_of key (sends intn now earlier later k p result tracker env found sent) =
      if str_eq k key then 1 else 0
  sent_of key (stores earlier later k p result found) = 0
  sent_of key (outside tracker env) = 0
  sent_of key (others piece) = 0

  abbrev pub sent_count : {s v : Shared E} → String → Moves s v → ℕ
  sent_count key here = 0
  sent_count key (next r m) = sent_count key r + sent_of key m

-- How many calls under way have yet to send a payout under the key.
abbrev pub waiting : String → List Call → ℕ
waiting key [] = 0
waiting key (to_send k p ∷ cs) = (if str_eq k key then 1 else 0) + waiting key cs
waiting key (to_store k p r ∷ cs) = waiting key cs

waiting-append :
    (key : String) (xs ys : List Call) → waiting key (xs ++ ys) ≡ waiting key xs + waiting key ys
waiting-append key [] ys = omega arith
waiting-append key (to_send k p ∷ xs) ys = omega (arith, waiting-append key xs ys)
waiting-append key (to_store k p r ∷ xs) ys = waiting-append key xs ys

few : (n : ℕ) → n ≤ 1 → (n ≡ 0) ⊎ (n ≡ 1)
few n le = ground arith

StoredAfter-less :
    (key : String) (t : Tables) (n m : ℕ) → n ≤ m → StoredAfter key t m → StoredAfter key t n
StoredAfter-less key t n m le (inl zero_sent) = inl (omega arith)
StoredAfter-less key t n m le (inr (one_sent, k, stored)) = elim (few n (omega arith)) [
  | inl none_yet ↦ inl none_yet
  | inr one ↦ inr (one, k, stored)
]

begun_waiting :
    (key k : String) (p : Payout) (cs : List Call) (c : Bool)
    → waiting key (if c then to_send k p ∷ cs else cs)
      ≡ waiting key cs + (if str_eq k key && c then 1 else 0)
begun_waiting key k p cs true = ground arith
begun_waiting key k p cs false = ground arith

module _ (fl : Float64) {E : Type 0} (o : Orchestrator E) where
  -- The key is stored once a payout waits to be sent under it, or was sent.
  abbrev Once : String → Shared E → ℕ → Type 0
  Once key s n = StoredAfter key s.world.db.tables (n + waiting key s.calls)

  moved :
      {u v : Shared E} (key : String) (n : ℕ) (m : Move fl o u v)
      → Once key u n
      → Once key v (n + sent_of fl o key m)
  moved {u} key n (begins req) once =
      let tx = run_in_tx no_tx_result (create_in_tx req) u.world.db in
      subst (StoredAfter key tx.1.tables)
        (omega (
          arith,
          begun_waiting key req.idempotency_key tx.0.0.new_payout u.calls (committed tx.0.1),
        ))
        (creates_StoredAfter key req u.world.db.tables (n + waiting key u.calls) tx
          (create_tx_cases req u.world.db) once)
  moved {u} key n (sends intn now earlier later k p result tracker env found sent) once =
      subst (StoredAfter key u.world.db.tables)
        (omega (
          arith,
          ap (waiting key) found,
          waiting-append key earlier (to_send k p ∷ later),
          waiting-append key earlier (to_store k p result ∷ later),
        ))
        once
  moved {u} key n (stores earlier later k p result found) once =
      let t' = (store_result p result u.world.db).1.tables in
      subst (StoredAfter key t')
        (omega (
          arith,
          ap (waiting key) found,
          waiting-append key earlier (to_store k p result ∷ later),
          waiting-append key earlier later,
        ))
        (same_keys key u.world.db.tables t' (n + waiting key u.calls)
          (store_result_keys p result u.world.db) once)
  moved {u} key n (outside tracker env) once =
      subst (StoredAfter key u.world.db.tables) (omega arith) once
  moved {u} {v} key n (others piece) once =
      StoredAfter-less key v.world.db.tables (n + 0 + waiting key u.calls)
        (n + waiting key u.calls + commits_of key piece) (omega arith)
        (Piece-StoredAfter key (n + waiting key u.calls) piece once)

  moves-Once :
      {s v : Shared E} (key : String) (r : Moves fl o s v)
      → s.calls ≡ []
      → Once key v (sent_count fl o key r)
  moves-Once {s} key here idle = inl (omega (arith, ap (waiting key) idle))
  moves-Once key (next r m) idle = moved key (sent_count fl o key r) m (moves-Once key r idle)

  -- From a state in which no call of `CreatePayout` is under way, however calls overlap, whatever
  -- fails, wherever a call is broken off and whatever the providers do, a payout is sent to the
  -- providers at most once under one idempotency key.
  pub sent_count-le-one :
      {s v : Shared E} (key : String) (r : Moves fl o s v)
      → s.calls ≡ []
      → sent_count fl o key r ≤ 1
  sent_count-le-one key r idle = elim (moves-Once key r idle) [
    | inl zero_sent ↦ omega arith
    | inr (one_sent, _, _) ↦ omega arith
  ]
