-- ===== src/Sets/Levenshtein/Bounds.antt =====
-- The similarity of two texts as a score.
use diggy.Prelude.{ℕ, ◌-◌, ◌≤◌, ◌≡◌, ◌↔◌, refl, sym, ap, ◌∙◌, subst, max, [], ◌∷◌, length, arith}
use diggy.Prelude.Text.{Text}
use diggy.Sets.Ratio.{Ratio}
use diggy.Sets.Levenshtein.{levenshtein, levenshtein_ratio}
use diggy.Sets.Levenshtein.Distance.{onto, levenshtein-eq-dist, dist_comm, dist-le, length-onto}
use diggy.Sets.Levenshtein.Distance.Script.{
  Script, finish, keep, replace, insert, delete, levenshtein-shortest,
}

pub levenshtein_comm : (a b : Text) → levenshtein a b ≡ levenshtein b a
levenshtein_comm a b =
    levenshtein-eq-dist a b ∙ dist_comm (onto a []) (onto b []) ∙ sym (levenshtein-eq-dist b a)

pub levenshtein-le : (a b : Text) → levenshtein a b ≤ max (length a) (length b)
levenshtein-le a b = omega (
  arith,
  levenshtein-eq-dist a b,
  dist-le (onto a []) (onto b []),
  length-onto a [],
  length-onto b [],
)

no_edit : {a b : Text} {n : ℕ} → Script a b n → n ≡ 0 → a ≡ b
no_edit finish h = refl
no_edit (keep c s) h = ap (λ r. c ∷ r) (no_edit s h)
no_edit (replace c d s) h = absurd (omega arith)
no_edit (insert d s) h = absurd (omega arith)
no_edit (delete c s) h = absurd (omega arith)

kept : (a : Text) → Script a a 0
kept [] = finish
kept (c ∷ a) = keep c (kept a)

pub levenshtein_zero_iff : (a b : Text) → (levenshtein a b ≡ 0) ↔ (a ≡ b)
levenshtein_zero_iff a b = (
  λ h. no_edit (levenshtein-shortest a b).0 h,
  λ e.
      let k = (levenshtein-shortest a a).1 0 (kept a) in
      subst (λ c. levenshtein a c ≡ 0) e (omega (arith, k)),
)

abbrev ratio_of : ℕ → ℕ → ℕ → Ratio
ratio_of m n k = record { num = max m n - k; den = max m n }

ratio_of_comm : (m n k : ℕ) → ratio_of m n k ≡ ratio_of n m k
ratio_of_comm m n k =
    let e : max m n ≡ max n m = omega arith in ap (λ x. record { num = x - k; den = x }) e

pub record IsScore (a b : Text) (r : Ratio) : Type 0 where
  pub positive : 1 ≤ r.den
  pub bounded : r.num ≤ r.den
  pub perfect : (r.num ≡ r.den) ↔ (a ≡ b)

-- The ratio is a similarity: it lies between 0 and 1, it is 1 exactly if the texts are equal, and
-- it does not depend on which text comes first.
pub levenshtein_ratio-IsScore :
    (a b : Text)
    → IsScore a b (levenshtein_ratio a b) × (levenshtein_ratio a b ≡ levenshtein_ratio b a)
unfolding levenshtein_ratio
levenshtein_ratio-IsScore [] [] = (
  record { positive = omega arith; bounded = omega arith; perfect = (λ h. refl, λ h. refl) },
  refl,
)
levenshtein_ratio-IsScore [] (d ∷ b) = (
  record {
    positive = omega arith;
    bounded = omega arith;
    perfect = (λ h. absurd (omega arith), λ h. cc);
  },
  refl,
)
levenshtein_ratio-IsScore (c ∷ a) [] = (
  record {
    positive = omega arith;
    bounded = omega arith;
    perfect = (λ h. absurd (omega arith), λ h. cc);
  },
  refl,
)
levenshtein_ratio-IsScore (c ∷ a) (d ∷ b) =
    let low = levenshtein-le (c ∷ a) (d ∷ b) in
    let (to, from) = levenshtein_zero_iff (c ∷ a) (d ∷ b) in
    let flip = levenshtein_comm (c ∷ a) (d ∷ b) in
    (
      record {
        positive = omega arith;
        bounded = omega arith;
        perfect = (λ h. to (omega arith), λ h. let z = from h in omega (arith, z));
      },
      ap (λ n. ratio_of (length (c ∷ a)) (length (d ∷ b)) n) flip
          ∙ ratio_of_comm (length (c ∷ a)) (length (d ∷ b)) (levenshtein (d ∷ b) (c ∷ a)),
    )
