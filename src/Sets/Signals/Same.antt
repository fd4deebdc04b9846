-- ===== src/Sets/Signals/Same.antt =====
-- Two uploads on which the same tracks were identified in the same order.
use mathlib.Core.List.{Memᴰ}
use diggy.Prelude.{
  ℕ, zero, suc, ◌-◌, ◌*◌, ◌≤◌, ◌≡◌, refl, sym, ap, ◌∙◌, subst, min, Bool, true, false, Option, List,
  [], ◌∷◌, arith, leb, ltb, ◌==◌, length, filter, All, All-of,
}
use diggy.Prelude.Int.{sub_ℕ}
use diggy.Prelude.Distinct.{has, unseen, first_seen, common, HasNoRepeats}
use diggy.Sets.Ratio.{at_least, corr_at_least}
use diggy.Sets.Verdict.{auto_attach, same_order, separated, identical_tracklist, decide_verdict}
use diggy.Sets.Signals.{
  SetData, index_of, distance, squares, spearman, order_correlation, overlap_of, compute_signals,
}

unseen_tail :
    (x : ℕ) (seen xs : List ℕ)
    → has ◌==◌ x xs ≡ false
    → All (λ y. has ◌==◌ y seen ≡ false) xs
    → All (λ y. has ◌==◌ y (x ∷ seen) ≡ false) xs
unseen_tail x seen [] h k = tt
unseen_tail x seen (y ∷ ys) h (k, ks) = (ground arith, unseen_tail x seen ys (ground arith) ks)

unseen_same :
    (seen xs : List ℕ)
    → HasNoRepeats ◌==◌ xs
    → All (λ y. has ◌==◌ y seen ≡ false) xs
    → unseen ◌==◌ seen xs ≡ xs
unseen_same seen [] u k = refl
unseen_same seen (x ∷ xs) (fresh, u) (k, ks) =
    rw k (ap (λ ys. x ∷ ys) (unseen_same (x ∷ seen) xs u (unseen_tail x seen xs fresh ks)))

has-mem : (x : ℕ) (xs : List ℕ) → Memᴰ x xs → has ◌==◌ x xs ≡ true
has-mem x [] m = elim m [ ]
has-mem x (y ∷ ys) (Memᴰ.head p) = ground arith
has-mem x (y ∷ ys) (Memᴰ.tail m) = ground (arith, has-mem x ys m)

filter_same : (p : ℕ → Bool) (xs : List ℕ) → All (λ x. p x ≡ true) xs → filter p xs ≡ xs
filter_same p [] h = refl
filter_same p (x ∷ xs) (h, hs) = rw h (ap (λ ys. x ∷ ys) (filter_same p xs hs))

squares_same : (by xs : List ℕ) → squares by by xs ≡ 0
squares_same by [] = refl
squares_same by (m ∷ ms) =
    let d : distance (index_of m by) (index_of m by) ≡ 0 = omega arith in
    let k = squares_same by ms in rw d (omega (arith, k))

same_tracks : (ms : List ℕ) → HasNoRepeats ◌==◌ ms → common ◌==◌ (first_seen ◌==◌ ms) ms ≡ ms
same_tracks ms u =
    ap (λ xs. common ◌==◌ xs ms) (unseen_same [] ms u (All-of _ ms (λ x m. refl)))
    ∙ filter_same (λ x. has ◌==◌ x ms) ms (All-of _ ms (λ x m. has-mem x ms m))

no_loss : (m : ℕ) → corr_at_least (record { num = sub_ℕ m (6 * 0); den = m }) 95 100 ≡ true
unfolding corr_at_least
no_loss m = ground arith

perfect_order : (n : ℕ) → corr_at_least (spearman n 0) 95 100 ≡ true
unfolding corr_at_least
perfect_order n = no_loss (n * (n * n - 1))

order_correlation_same :
    (ms : List ℕ)
    → HasNoRepeats ◌==◌ ms
    → 6 ≤ length ms
    → same_order (order_correlation ms ms) ≡ true
unfolding order_correlation
order_correlation_same ms u long =
    let p = same_tracks ms u in
    let few : ltb (length ms) 3 ≡ false = ground arith in
    rw (p, few, squares_same ms ms) (perfect_order (length ms))

whole_overlap : (n : ℕ) → 6 ≤ n → at_least (overlap_of n (min n n)) 95 100 ≡ true
unfolding at_least
whole_overlap zero h = ground arith
whole_overlap (suc n) h =
    let p : min (suc n) (suc n) ≡ suc n = omega arith in
    let k : at_least (overlap_of (suc n) (suc n)) 95 100 ≡ true = ground arith in
    subst (λ m. at_least (overlap_of (suc n) m) 95 100 ≡ true) (sym p) k

identical_evidence :
    (weight : ℕ → ℕ) (a b : SetData)
    → a.identified_mtids ≡ b.identified_mtids
    → HasNoRepeats ◌==◌ a.identified_mtids
    → 6 ≤ length a.identified_mtids
    → identical_tracklist (compute_signals weight a b (length a.identified_mtids)) ≡ true
unfolding identical_tracklist compute_signals
identical_evidence weight a b same u long =
    let ms = a.identified_mtids in
    let overlap : at_least (overlap_of (length ms) (min (length ms) (length b.identified_mtids))) 95
          100
        ≡ true =
      subst (λ xs. at_least (overlap_of (length ms) (min (length ms) (length xs))) 95 100 ≡ true)
        same (whole_overlap (length ms) long) in
    let order : same_order (order_correlation ms b.identified_mtids) ≡ true =
      subst (λ xs. same_order (order_correlation ms xs) ≡ true) same
        (order_correlation_same ms u long) in
    let many : leb 6 (length ms) ≡ true = ground arith in rw (overlap, order, many) refl

-- Two sets with the same tracklist, of at least six different tracks, are attached: no title, no
-- date of upload and no confidence prevents it, short of a rule that separates them.
pub compute_signals-attach :
    (weight : ℕ → ℕ) (a b : SetData) (confidence : ℕ) (part_a part_b : Option ℕ)
    → a.identified_mtids ≡ b.identified_mtids
    → HasNoRepeats ◌==◌ a.identified_mtids
    → 6 ≤ length a.identified_mtids
    → separated (compute_signals weight a b (length a.identified_mtids)) part_a part_b ≡ false
    → (decide_verdict
        (compute_signals weight a b (length a.identified_mtids))
        confidence
        part_a
        part_b).verdict
      ≡ auto_attach
unfolding decide_verdict
compute_signals-attach weight a b confidence part_a part_b same u long apart =
    let evidence = identical_evidence weight a b same u long in rw (apart, evidence) refl
