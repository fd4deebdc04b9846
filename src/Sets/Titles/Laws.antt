-- ===== src/Sets/Titles/Laws.antt =====
-- The similarity of two titles by their words.
use diggy.Prelude.{ℕ, ◌+◌, ◌-◌, ◌≤◌, ◌≡◌, refl, ap, ◌∙◌, List, [], ◌∷◌, length, arith}
use diggy.Prelude.Text.{Text, text_eq, text_eq_iff}
use diggy.Prelude.Distinct.{
  common, HasNoRepeats, first_seen-HasNoRepeats, length-common_comm, length-common-le,
}
use diggy.Sets.Ratio.{Ratio}
use diggy.Sets.Titles.{split_from, tokens, jaccard, token_set_ratio}

tokens-HasNoRepeats : (s : Text) → HasNoRepeats text_eq (tokens s)
unfolding tokens
tokens-HasNoRepeats s = first_seen-HasNoRepeats text_eq text_eq_iff [] (split_from [] s)

abbrev jaccard_of : ℕ → ℕ → ℕ → Ratio
jaccard_of m n shared = record { num = shared; den = m + n - shared }

jaccard_of_comm : (m n k : ℕ) → jaccard_of m n k ≡ jaccard_of n m k
jaccard_of_comm m n k =
    let e : m + n - k ≡ n + m - k = omega arith in ap (λ d. record { num = k; den = d }) e

jaccard-bounds :
    (a b : List Text)
    → HasNoRepeats text_eq a
    → HasNoRepeats text_eq b
    → (jaccard a b ≡ jaccard b a)
      × ((jaccard a b).num ≤ (jaccard a b).den)
      × (1 ≤ (jaccard a b).den)
jaccard-bounds [] [] u v = (refl, omega arith, omega arith)
jaccard-bounds [] (t ∷ b) u v = (refl, omega arith, omega arith)
jaccard-bounds (s ∷ a) [] u v = (refl, omega arith, omega arith)
jaccard-bounds (s ∷ a) (t ∷ b) u v =
    let flip = length-common_comm text_eq text_eq_iff (s ∷ a) (t ∷ b) u v in
    let low = length-common-le text_eq text_eq_iff (s ∷ a) (t ∷ b) u v in
    (
      ap (λ k. jaccard_of (length (s ∷ a)) (length (t ∷ b)) k) flip
          ∙ jaccard_of_comm (length (s ∷ a)) (length (t ∷ b))
              (length (common text_eq (t ∷ b) (s ∷ a))),
      omega (arith, low),
      omega (arith, low),
    )

-- The similarity of two titles lies between 0 and 1 and is the same both ways.
pub token_set_ratio-bounds :
    (a b : Text)
    → (token_set_ratio a b ≡ token_set_ratio b a)
      × ((token_set_ratio a b).num ≤ (token_set_ratio a b).den)
      × (1 ≤ (token_set_ratio a b).den)
unfolding token_set_ratio
token_set_ratio-bounds a b =
    jaccard-bounds (tokens a) (tokens b) (tokens-HasNoRepeats a) (tokens-HasNoRepeats b)
