-- ===== src/Catalog/Canonical/Least.antt =====
-- `pick_canonical` returns the least row, whatever the order of the duplicates.
use mathlib.Core.List.{Memᴰ}
use diggy.Prelude.{
  ◌≡◌, inl, inr, refl, subst, Bool, true, false, some, List, [], ◌∷◌, arith, if◌then◌else◌,
  Bool-cases, All, All-at,
}
use diggy.Catalog.Rows.{CatalogEntry}
use diggy.Catalog.Canonical.{SortKey, canonical_sort_key, key_lt, least_from, pick_canonical}

key_lt_trans_false :
    (a b c : SortKey) → key_lt a b ≡ false → key_lt b c ≡ false → key_lt a c ≡ false
unfolding key_lt
key_lt_trans_false a b c p q = ground arith

key_lt_asymm : (a b : SortKey) → key_lt a b ≡ true → key_lt b a ≡ false
unfolding key_lt
key_lt_asymm a b p = ground arith

key_lt_total : (a b : SortKey) → key_lt a b ≡ false → key_lt b a ≡ false → a.id ≡ b.id
unfolding key_lt
key_lt_total a b p q = ground arith

key_lt_irrefl : (a : SortKey) → key_lt a a ≡ false
unfolding key_lt
key_lt_irrefl a = ground arith

sort_id :
    (r s : CatalogEntry)
    → key_lt (canonical_sort_key r) (canonical_sort_key s) ≡ false
    → key_lt (canonical_sort_key s) (canonical_sort_key r) ≡ false
    → r.id ≡ s.id
unfolding canonical_sort_key
sort_id r s p q = key_lt_total (canonical_sort_key r) (canonical_sort_key s) p q

-- Nothing in `xs` sorts before `r`.
abbrev pub IsLeast : CatalogEntry → List CatalogEntry → Type 0
IsLeast r xs = All (λ x. key_lt (canonical_sort_key x) (canonical_sort_key r) ≡ false) xs

abbrev better : CatalogEntry → CatalogEntry → CatalogEntry
better best e = if key_lt (canonical_sort_key e) (canonical_sort_key best) then e else best

module _ (best e r : CatalogEntry) where
  better-le :
      key_lt (canonical_sort_key (better best e)) (canonical_sort_key r) ≡ false
      → (key_lt (canonical_sort_key best) (canonical_sort_key r) ≡ false)
        × (key_lt (canonical_sort_key e) (canonical_sort_key r) ≡ false)
  better-le h =
      let kb = canonical_sort_key best in
      let ke = canonical_sort_key e in
      let kr = canonical_sort_key r in
      elim (Bool-cases (key_lt ke kb)) [
        | inl p ↦
            let h' : key_lt ke kr ≡ false = (rw p at h) in
            (key_lt_trans_false kb ke kr (key_lt_asymm ke kb p) h', h')
        | inr p ↦
            let h' : key_lt kb kr ≡ false = (rw p at h) in (h', key_lt_trans_false ke kb kr p h')
      ]

least_from-IsLeast :
    (best : CatalogEntry) (es : List CatalogEntry) → IsLeast (least_from best es) (best ∷ es)
unfolding least_from
least_from-IsLeast best [] = (key_lt_irrefl (canonical_sort_key best), tt)
least_from-IsLeast best (e ∷ es) =
    let ih = least_from-IsLeast (better best e) es in
    let here = better-le best e (least_from (better best e) es) ih.0 in (here.0, (here.1, ih.1))

least_from-mem :
    (best : CatalogEntry) (es : List CatalogEntry) → Memᴰ (least_from best es) (best ∷ es)
unfolding least_from
least_from-mem best [] = Memᴰ.head refl
least_from-mem best (e ∷ es) =
    go (key_lt (canonical_sort_key e) (canonical_sort_key best)) (least_from-mem best es)
      (least_from-mem e es)
  where
    go :
        (b : Bool)
        → Memᴰ (least_from best es) (best ∷ es)
        → Memᴰ (least_from e es) (e ∷ es)
        → Memᴰ (least_from (if b then e else best) es) (best ∷ e ∷ es)
    go true _ m = Memᴰ.tail m
    go false (Memᴰ.head p) _ = Memᴰ.head p
    go false (Memᴰ.tail m) _ = Memᴰ.tail (Memᴰ.tail m)

-- The row returned is one of the duplicates, and none of them sorts before it.
pub pick_canonical-IsLeast :
    (entries : List CatalogEntry) (r : CatalogEntry)
    → pick_canonical entries ≡ some r
    → IsLeast r entries × Memᴰ r entries
unfolding pick_canonical
pick_canonical-IsLeast [] r h = cc
pick_canonical-IsLeast (e ∷ es) r h =
    let p : least_from e es ≡ r = cc in
    subst (λ s. IsLeast s (e ∷ es) × Memᴰ s (e ∷ es)) p
      (least_from-IsLeast e es, least_from-mem e es)

-- Ids are a primary key: two rows of the list with one id are one row.
abbrev pub HasDistinctIds : List CatalogEntry → Type 0
HasDistinctIds xs = (x y : CatalogEntry) → Memᴰ x xs → Memᴰ y xs → x.id ≡ y.id → x ≡ y

-- The rows of two lists are the same, in whatever order and number.
abbrev pub SameRows : List CatalogEntry → List CatalogEntry → Type 0
SameRows xs ys =
    ((x : CatalogEntry) → Memᴰ x xs → Memᴰ x ys) × ((x : CatalogEntry) → Memᴰ x ys → Memᴰ x xs)

-- For rows with distinct ids the choice depends only on which rows are given: two lists of the
-- same rows, in any order, yield the same canonical row.
pub pick_canonical_unordered :
    (xs ys : List CatalogEntry) (r s : CatalogEntry)
    → HasDistinctIds xs
    → SameRows xs ys
    → pick_canonical xs ≡ some r
    → pick_canonical ys ≡ some s
    → r ≡ s
pick_canonical_unordered xs ys r s distinct same p q =
    let (r_least, r_in) = pick_canonical-IsLeast xs r p in
    let (s_least, s_in) = pick_canonical-IsLeast ys s q in
    let s_in_xs = same.1 s s_in in
    distinct r s r_in s_in_xs
      (sort_id r s (All-at _ ys s_least r (same.0 r r_in)) (All-at _ xs r_least s s_in_xs))
