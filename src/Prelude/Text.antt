-- ===== src/Prelude/Text.antt =====
-- Texts as lists of code points, with Python's `==`, `str` of a natural number, and `int` on the
-- plain decimals that `str` writes.
use Prim.Native.Nat.{ℕ, zero, suc, ◌+◌, ◌-◌, ◌*◌, ◌/◌, ◌%◌, ◌<◌}
use mathlib.Core.Path.{◌≡◌, refl, ap, ◌∙◌}
use mathlib.Core.Logic.{◌↔◌, ◌≢◌, inl, inr}
use mathlib.Core.Bool.{Bool, true, false, ◌&&◌}
use mathlib.Core.Option.{Option, none, some}
use mathlib.Core.List.{List, [], ◌∷◌}
use native.Mathlib.Omega.{arith}
use diggy.Prelude.Tests.{ltb, leb, ◌==◌, if◌then◌else◌, Bool-cases}

abbrev pub Text : Type 0
Text = List ℕ

abbrev pub text_eq : Text → Text → Bool
text_eq [] [] = true
text_eq (a ∷ s) (b ∷ t) = a == b && text_eq s t
text_eq _ _ = false

pub text_eq_iff : (s t : Text) → (text_eq s t ≡ true) ↔ (s ≡ t)
text_eq_iff [] [] = ground arith
text_eq_iff [] (b ∷ t) = ground arith
text_eq_iff (a ∷ s) [] = ground arith
text_eq_iff (a ∷ s) (b ∷ t) = ground (arith, text_eq_iff s t)

pub text_eq_refl : (s : Text) → text_eq s s ≡ true
text_eq_refl s = (text_eq_iff s s).1 refl

-- the digits of `n`, last first, in front of `out`; `fuel` bounds their number
digits : ℕ → ℕ → Text → Text
digits zero n out = out
digits (suc fuel) n out =
    let more = digits fuel (n / 10) ((b'0' + n % 10) ∷ out) in
    if ltb n 10 then (b'0' + n) ∷ out else more

-- `str(n)`; a number has no more digits than `n + 1`
unfoldable pub str : ℕ → Text
unfolding digits
str n = digits (suc n) n []

scan : Text → ℕ → Option ℕ
scan [] n = some n
scan (c ∷ s) n =
    let rest = scan s (n * 10 + (c - b'0')) in if leb b'0' c && leb c b'9' then rest else none

-- `int(s)`, `none` for ValueError
unfoldable pub int_of : Text → Option ℕ
unfolding scan
int_of [] = none
int_of (c ∷ s) = scan (c ∷ s) 0

scan-digits : (fuel n : ℕ) (out : Text) → n < fuel → scan (digits fuel n out) 0 ≡ scan out n
unfolding digits scan
scan-digits zero n out h = absurd (omega arith)
scan-digits (suc fuel) n out h = ground (arith, scan-digits fuel (n / 10) ((b'0' + n % 10) ∷ out))

digits-ne-nil : (fuel n : ℕ) (out : Text) → out ≢ [] → digits fuel n out ≢ []
unfolding digits
digits-ne-nil zero n out h = h
digits-ne-nil (suc fuel) n out h =
    ground (arith, digits-ne-nil fuel (n / 10) ((b'0' + n % 10) ∷ out))

int_of-eq-scan : (s : Text) → s ≢ [] → int_of s ≡ scan s 0
unfolding int_of
int_of-eq-scan [] h = absurd (h refl)
int_of-eq-scan (c ∷ s) h = refl

str-ne-nil : (n : ℕ) → str n ≢ []
unfolding str
str-ne-nil n = ground (arith, digits-ne-nil n (n / 10) ((b'0' + n % 10) ∷ []))

pub int_of-str : (n : ℕ) → int_of (str n) ≡ some n
unfolding scan str
int_of-str n = int_of-eq-scan (str n) (str-ne-nil n) ∙ scan-digits (suc n) n [] (omega arith)

pub str_inj : (m n : ℕ) → str m ≡ str n → m ≡ n
str_inj m n h = cc (int_of-str m, int_of-str n, ap int_of h)

-- two ids are equal exactly if their keys are
pub text_eq-str : (m n : ℕ) → text_eq (str m) (str n) ≡ (m == n)
text_eq-str m n = elim (Bool-cases (m == n)) [
  | inl e ↦ rw e (let p : m ≡ n = ground arith in rw p (text_eq_refl (str n)))
  | inr e ↦ rw e (ground (arith, text_eq_iff (str m) (str n), str_inj m n))
]
