-- ===== src/Api/Canonical.antt =====
-- `canonicalHash` (services/api/internal/http/router.go). `%d`, `%q` and SHA-256 are parameters.
use Prim.Native.String.{◌++◌}
use text.Mathlib.TextLemmas.{append_cancel_left}
use payment_orchestrator.Base.{◌≡◌, String}
use payment_orchestrator.Base.Int.{ℤ}

-- `fmt`'s `%d` and `%q`, and the hexadecimal form of the SHA-256 sum of a text.
pub record Formats : Type 0 where
  pub decimal : ℤ → String
  pub quoted : String → String
  pub sha256_hex : String → String

-- What the canonical form needs of the formats: a decimal ends before a comma and tells its
-- number, and a quoted text tells where it ends and what it quotes.
pub record FormatLaws (f : Formats) : Type 0 where
  pub decimal-inj :
      (a b : ℤ) (s t : String)
      → f.decimal a ++ ("," ++ s) ≡ f.decimal b ++ ("," ++ t)
      → (a ≡ b) × (s ≡ t)
  pub quoted-inj : (a b s t : String) → f.quoted a ++ s ≡ f.quoted b ++ t → (a ≡ b) × (s ≡ t)

module _ (f : Formats) where
  unfoldable pub canonical : ℤ → String → String → String
  canonical amount currency rail =
      "{\"amount\":"
      ++ (f.decimal amount
          ++ (","
              ++ ("\"currency\":"
                  ++ (f.quoted currency ++ (",\"rail\":" ++ (f.quoted rail ++ "}"))))))

  unfoldable pub canonical_hash : ℤ → String → String → String
  canonical_hash amount currency rail = f.sha256_hex (canonical amount currency rail)

  -- Two requests have one canonical form only if they agree in amount, currency and rail.
  pub canonical-inj :
      (a b : ℤ) (c d r s : String)
      → FormatLaws f
      → canonical a c r ≡ canonical b d s
      → (a ≡ b) × (c ≡ d) × (r ≡ s)
  unfolding canonical
  canonical-inj a b c d r s laws h =
      let after_brace = append_cancel_left "{\"amount\":" _ _ h in
      let (amounts, after_comma) = laws.decimal-inj a b _ _ after_brace in
      let after_name = append_cancel_left "\"currency\":" _ _ after_comma in
      let (currencies, after_currency) = laws.quoted-inj c d _ _ after_name in
      let after_rail = append_cancel_left ",\"rail\":" _ _ after_currency in
      let (rails, _) = laws.quoted-inj r s _ _ after_rail in (amounts, currencies, rails)
