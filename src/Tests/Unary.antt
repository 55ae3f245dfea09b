-- ===== src/Tests/Unary.antt =====
-- Formats of the canonical form that write numbers in unary, and texts after their length.
use Prim.Native.String.{◌++◌, count}
use text.Mathlib.TextLemmas.{append_cancel_left, append_assoc, append_inj, nil-append}
use payment_orchestrator.Base.{ℕ, zero, suc, ◌≡◌, refl, String, arith, str_eq, sym, ap, ◌∙◌}
use payment_orchestrator.Base.Int.{ℤ, pos, negsuc}
use payment_orchestrator.Api.Canonical.{Formats, FormatLaws}
use payment_orchestrator.Tests.Limiter.{ones}

one_apart : (s t : String) → "," ++ s ≡ "1" ++ t → ⊥
one_apart s t h = ground (arith, ap (str_eq ",") (append_inj h refl).0)

-- A unary number tells where it ends.
ones-inj :
    (a b : ℕ) (s t : String) → ones a ++ ("," ++ s) ≡ ones b ++ ("," ++ t) → (a ≡ b) × (s ≡ t)
ones-inj zero zero s t h =
    (refl, append_cancel_left "," s t (sym (nil-append ("," ++ s)) ∙ h ∙ nil-append ("," ++ t)))
ones-inj zero (suc b) s t h = absurd (
    one_apart s (ones b ++ ("," ++ t))
      (sym (nil-append ("," ++ s)) ∙ h ∙ append_assoc "1" (ones b) ("," ++ t)))
ones-inj (suc a) zero s t h = absurd (
    one_apart t (ones a ++ ("," ++ s))
      (sym (nil-append ("," ++ t)) ∙ sym h ∙ append_assoc "1" (ones a) ("," ++ s)))
ones-inj (suc a) (suc b) s t h =
    let rest =
      append_cancel_left "1" (ones a ++ ("," ++ s)) (ones b ++ ("," ++ t))
        (sym (append_assoc "1" (ones a) ("," ++ s)) ∙ h ∙ append_assoc "1" (ones b) ("," ++ t)) in
    let (same, ends) = ones-inj a b s t rest in (ap suc same, ends)

abbrev unary_int : ℤ → String
unary_int (pos n) = "p" ++ ones n
unary_int (negsuc n) = "n" ++ ones n

-- A text after its length.
abbrev counted_text : String → String
counted_text s = ones (count s) ++ ("," ++ s)

abbrev pub unary : Formats
unary = record { decimal = unary_int; quoted = counted_text; sha256_hex = λ s. s }

signs_apart : (s t : String) → "p" ++ s ≡ "n" ++ t → ⊥
signs_apart s t h = ground (arith, ap (str_eq "p") (append_inj h refl).0)

unary_int-inj :
    (a b : ℤ) (s t : String)
    → unary_int a ++ ("," ++ s) ≡ unary_int b ++ ("," ++ t)
    → (a ≡ b) × (s ≡ t)
unary_int-inj (pos n) (pos m) s t h =
    let (same, ends) = ones-inj n m s t (
      append_cancel_left "p" (ones n ++ ("," ++ s)) (ones m ++ ("," ++ t))
        (sym (append_assoc "p" (ones n) ("," ++ s)) ∙ h ∙ append_assoc "p" (ones m) ("," ++ t))) in
    (ap pos same, ends)
unary_int-inj (negsuc n) (negsuc m) s t h =
    let (same, ends) = ones-inj n m s t (
      append_cancel_left "n" (ones n ++ ("," ++ s)) (ones m ++ ("," ++ t))
        (sym (append_assoc "n" (ones n) ("," ++ s)) ∙ h ∙ append_assoc "n" (ones m) ("," ++ t))) in
    (ap negsuc same, ends)
unary_int-inj (pos n) (negsuc m) s t h = absurd (
    signs_apart (ones n ++ ("," ++ s)) (ones m ++ ("," ++ t))
      (sym (append_assoc "p" (ones n) ("," ++ s)) ∙ h ∙ append_assoc "n" (ones m) ("," ++ t)))
unary_int-inj (negsuc n) (pos m) s t h = absurd (
    signs_apart (ones m ++ ("," ++ t)) (ones n ++ ("," ++ s))
      (sym (append_assoc "p" (ones m) ("," ++ t)) ∙ sym h ∙ append_assoc "n" (ones n) ("," ++ s)))

apart_of : (a s : String) → counted_text a ++ s ≡ ones (count a) ++ ("," ++ (a ++ s))
apart_of a s =
    append_assoc (ones (count a)) ("," ++ a) s
    ∙ ap (λ x. ones (count a) ++ x) (append_assoc "," a s)

counted_text-inj :
    (a b s t : String) → counted_text a ++ s ≡ counted_text b ++ t → (a ≡ b) × (s ≡ t)
counted_text-inj a b s t h =
    let (counts, ends) =
      ones-inj (count a) (count b) (a ++ s) (b ++ t) (sym (apart_of a s) ∙ h ∙ apart_of b t) in
    append_inj ends counts

pub unary-FormatLaws : FormatLaws unary
unary-FormatLaws = record { decimal-inj = unary_int-inj; quoted-inj = counted_text-inj }
