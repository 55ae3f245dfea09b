-- ===== src/Provider/Orchestrator/Fallback.antt =====
-- The fallback, against a description by the answers of the providers.
use payment_orchestrator.Base.{
  ℕ, ◌≡◌, refl, String, Bool, true, false, some, List, [], ◌∷◌, ◌++◌, map, arith, if◌then◌else◌,
  Bool-cases, inl, inr,
}
use mathlib.Core.List.{append_assoc, append-nil}
use payment_orchestrator.Domain.{Time, Provider, Payout}
use payment_orchestrator.Provider.Client.{GoError, Sent, ok, err, is_retryable}
use payment_orchestrator.Provider.Registry.{ProviderWithMeta}
use payment_orchestrator.Provider.SuccessTracker.{
  SuccessTracker, Float64, record_success, record_failure,
}
use payment_orchestrator.Provider.Router.{selected, select_providers}
use payment_orchestrator.Provider.Orchestrator.{
  Orchestrator, SendPayoutResult, not_sent, send_loop, send_payout_with_fallback,
}

-- A provider and its answer.
abbrev pub Answer : Type 0
Answer = Provider × Sent

-- Whether the next provider is asked after this answer.
abbrev pub goes_on : Sent → Bool
goes_on (ok _) = false
goes_on (err e) = is_retryable e

abbrev pub names : List Answer → List Provider
names given = map (λ a. a.0) given

-- What is recorded of an answer.
abbrev pub note_answer : Time → String → SuccessTracker → Answer → SuccessTracker
note_answer now rail t (p, ok _) = record_success t now rail p
note_answer now rail t (p, err _) = record_failure t now rail p

abbrev pub note_all : Time → String → SuccessTracker → List Answer → SuccessTracker
note_all now rail t [] = t
note_all now rail t (a ∷ given) = note_all now rail (note_answer now rail t a) given

-- The verdict on the payout: the acceptance among the answers, if there is one.
abbrev pub verdict : List Provider → List Answer → SendPayoutResult
verdict tried [] = not_sent tried
verdict tried ((p, ok x) ∷ given) = record {
  external_id = x;
  used_provider = p;
  tried_providers = tried;
  success = true;
}
verdict tried ((p, err _) ∷ given) = verdict tried given

module _ {E : Type 0} (payout : Payout) where
  -- The answers of the providers asked in order, up to and with the first that ends the sending,
  -- and the world after them.
  unfoldable pub answers : List (ProviderWithMeta E) → E → List Answer × E
  answers [] w = ([], w)
  answers (p ∷ ps) w =
      let (sent, w') = p.client.send_payout payout w in
      let (later, w'') = answers ps w' in
      if goes_on sent
      then ((p.meta.provider, sent) ∷ later, w'')
      else ((p.meta.provider, sent) ∷ [], w')

  send_loop-answers :
      (now : Time) (ps : List (ProviderWithMeta E)) (tried : List Provider) (t : SuccessTracker)
      (w : E)
      → let (given, w') = answers ps w in
        send_loop now payout ps tried t w
        ≡ (verdict (tried ++ names given) given, note_all now payout.rail t given, w')
  unfolding send_loop answers
  send_loop-answers now [] tried t w = rw (append-nil tried)
  send_loop-answers now (p ∷ ps) tried t w =
      let name = p.meta.provider in
      let w' = (p.client.send_payout payout w).1 in
      ground (
        arith,
        send_loop-answers now ps (tried ++ name ∷ []) (record_failure t now payout.rail name) w',
        append_assoc tried (name ∷ []) (names (answers ps w').0),
      )

-- How the providers are asked: in order, each in the world that the one before left. The first
-- that accepts, or that gives an error which is not retryable, is the last; after a retryable error
-- the next is asked.
pub data Asked {E : Type 0} (payout : Payout)
    : List (ProviderWithMeta E) → E → List Answer → E → Type 0 where
  none_left : {w : E} → Asked payout [] w [] w
  accepted :
      {p : ProviderWithMeta E} {ps : List (ProviderWithMeta E)} {w w' : E} {x : String}
      → p.client.send_payout payout w ≡ (ok x, w')
      → Asked payout (p ∷ ps) w ((p.meta.provider, ok x) ∷ []) w'
  refused :
      {p : ProviderWithMeta E} {ps : List (ProviderWithMeta E)} {w w' : E} {e : GoError}
      → p.client.send_payout payout w ≡ (err e, w')
      → is_retryable e ≡ false
      → Asked payout (p ∷ ps) w ((p.meta.provider, err e) ∷ []) w'
  retried :
      {p : ProviderWithMeta E} {ps : List (ProviderWithMeta E)} {w w' w'' : E} {e : GoError}
      {given : List Answer}
      → p.client.send_payout payout w ≡ (err e, w')
      → is_retryable e ≡ true
      → Asked payout ps w' given w''
      → Asked payout (p ∷ ps) w ((p.meta.provider, err e) ∷ given) w''

module _ {E : Type 0} (payout : Payout) where
  answers-Asked :
      (ps : List (ProviderWithMeta E)) (w : E)
      → Asked payout ps w (answers payout ps w).0 (answers payout ps w).1
  unfolding answers
  answers-Asked [] w = none_left
  answers-Asked (p ∷ ps) w =
      let later = answers-Asked ps (p.client.send_payout payout w).1 in
      go (p.client.send_payout payout w).0 refl later
    where
      go :
          (s : Sent)
          → (p.client.send_payout payout w).0 ≡ s
          → Asked payout ps
              (p.client.send_payout payout w).1
              (answers payout ps (p.client.send_payout payout w).1).0
              (answers payout ps (p.client.send_payout payout w).1).1
          → Asked payout (p ∷ ps) w (answers payout (p ∷ ps) w).0 (answers payout (p ∷ ps) w).1
      go (ok x) e later = rw (e, answers) (accepted (ground arith))
      go (err x) e later = elim (Bool-cases (is_retryable x)) [
        | inl again ↦ rw (e, again, answers) (retried (ground arith) again later)
        | inr final ↦ rw (e, final, answers) (refused (ground arith) final)
      ]

module _ (fl : Float64) (intn : ℕ → ℕ) (now : Time) {E : Type 0} where
  -- When the router selects providers for the payout, the result, the counts of the tracker and
  -- the world are those of asking the selected providers in order, as `Asked` describes it: the
  -- providers tried are those asked, the payout counts as sent exactly if one accepted, with that
  -- provider and its reference, and each answer is recorded once.
  pub send_payout_with_fallback-Asked :
      (o : Orchestrator E) (payout : Payout) (t : SuccessTracker) (w : E)
      (ps : List (ProviderWithMeta E))
      → select_providers fl intn t o.min_samples o.registry payout.rail o.routing_algo ≡ selected ps
      → (given : List Answer) × (w' : E) × (send_payout_with_fallback fl intn now o payout t w
          ≡ some (verdict (names given) given, note_all now payout.rail t given, w'))
        × Asked payout ps w given w'
  unfolding send_payout_with_fallback
  send_payout_with_fallback-Asked o payout t w ps h =
      let (given, w') = answers payout ps w in
      (
        given,
        w',
        rw (h, send_payout_with_fallback, send_loop-answers payout now ps [] t w),
        answers-Asked payout ps w,
      )
