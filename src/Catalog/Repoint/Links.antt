-- ===== src/Catalog/Repoint/Links.antt =====
-- Repointing moves every link of the loser to the canonical and makes no second copy of a key.
use diggy.Prelude.{
  ℕ, ap, delete_where_none, ◌+◌, ◌≡◌, ◌≢◌, refl, ◌∙◌, Bool, true, false, ◌&&◌, ◌||◌, List, [], ◌∷◌,
  arith, ◌==◌, Bool-cases, inl, inr, any, any-delete_where, any-update_where, if◌then◌else◌, count,
  delete_where, update_where,
}
use diggy.Catalog.Rows.{Reference}
use diggy.Catalog.Repoint.{Linked, linked, repoint_composite, refers, repoint_simple}

module _ {R : Type 0} (t : Linked R) where
  -- The key of a row: no other row has its owner and its `other`.
  abbrev pub HasUniqueKeys : List R → Type 0
  HasUniqueKeys [] = Unit
  HasUniqueKeys (r ∷ rows) =
      ((c : ℕ) → t.owns c r ≡ true → linked t c (t.other r) rows ≡ false) × HasUniqueKeys rows

module _ {R : Type 0} (t : Linked R) (canonical loser : ℕ) where
  -- The links of any owner after the merge.
  abbrev pub link_after : List R → ℕ → ℕ → Bool
  link_after rows a o =
      if a == canonical
      then linked t canonical o rows || linked t loser o rows
      else (if a == loser then false else linked t a o rows)

module _ {R : Type 0} (t : Linked R) (canonical loser : ℕ) (apart : canonical ≢ loser) where
  -- The two statements over any snapshot `all` of the table, for the induction over its rows.
  abbrev pub swept : List R → List R → List R
  swept all rows =
      update_where (t.owns loser) (λ r. t.set_owner r canonical)
        (delete_where (λ r. t.owns loser r && linked t canonical (t.other r) all) rows)

  swept_owned : (all rows : List R) → any (t.owns loser) (swept all rows) ≡ false
  swept_owned all [] = refl
  swept_owned all (r ∷ rows) =
      ground (arith, swept_owned all rows, t.owns_set r loser canonical loser)

  swept_other :
      (all rows : List R) (c o : ℕ)
      → c ≢ canonical
      → c ≢ loser
      → linked t c o (swept all rows) ≡ linked t c o rows
  swept_other all [] c o h k = refl
  swept_other all (r ∷ rows) c o h k =
      ground
        (arith, swept_other all rows c o h k, t.owns_set r loser canonical c, t.owns_one r loser c)

  -- Where the canonical has the link, the loser's copies go.
  swept_taken :
      (all rows : List R) (o : ℕ)
      → linked t canonical o all ≡ true
      → linked t canonical o (swept all rows) ≡ linked t canonical o rows
  swept_taken all [] o h = refl
  swept_taken all (r ∷ rows) o h = ground (
    arith,
    swept_taken all rows o h,
    t.owns_set r loser canonical canonical,
    t.owns_one r loser canonical,
    t.other_set r canonical,
  )

  -- Where it has not, they move.
  swept_free :
      (all rows : List R) (o : ℕ)
      → linked t canonical o all ≡ false
      → linked t canonical o (swept all rows) ≡ linked t canonical o rows || linked t loser o rows
  swept_free all [] o h = refl
  swept_free all (r ∷ rows) o h = ground (
    arith,
    swept_free all rows o h,
    t.owns_set r loser canonical canonical,
    t.owns_one r loser canonical,
    t.other_set r canonical,
  )

  -- `all` holds every link of the canonical that `rows` holds.
  abbrev Holds : List R → List R → Type 0
  Holds all rows = (o : ℕ) → linked t canonical o rows ≡ true → linked t canonical o all ≡ true

  Holds-tail : (all rows : List R) (r : R) → Holds all (r ∷ rows) → Holds all rows
  Holds-tail all rows r inside o h = ground (arith, inside o)

  -- A row that stays keeps its key fresh,
  fresh_kept :
      (all rows : List R) (r : R)
      → Holds all (r ∷ rows)
      → t.owns loser r ≡ false
      → ((c : ℕ) → t.owns c r ≡ true → linked t c (t.other r) rows ≡ false)
      → (c : ℕ) → t.owns c r ≡ true
      → linked t c (t.other r) (swept all rows) ≡ false
  fresh_kept all rows r inside kept fresh c own = elim (Bool-cases (c == canonical)) [
    | inl same ↦ ground (arith, inside (t.other r), fresh c own, swept_taken all rows (t.other r))
    | inr not_same ↦ ground (arith, fresh c own, swept_other all rows c (t.other r))
  ]

  -- and so does a row that moves.
  fresh_moved :
      (all rows : List R) (r : R)
      → Holds all (r ∷ rows)
      → t.owns loser r ≡ true
      → linked t canonical (t.other r) all ≡ false
      → ((c : ℕ) → t.owns c r ≡ true → linked t c (t.other r) rows ≡ false)
      → (c : ℕ) → t.owns c (t.set_owner r canonical) ≡ true
      → linked t c (t.other (t.set_owner r canonical)) (swept all rows) ≡ false
  fresh_moved all rows r inside owned free fresh c own = rw t.other_set (
      ground (
        arith,
        t.owns_set r loser canonical c owned,
        inside (t.other r),
        fresh loser owned,
        swept_free all rows (t.other r) free,
      ))

  swept-HasUniqueKeys :
      (all rows : List R) → Holds all rows → HasUniqueKeys t rows → HasUniqueKeys t (swept all rows)
  swept-HasUniqueKeys all [] inside u = tt
  swept-HasUniqueKeys all (r ∷ rows) inside (fresh, u) =
      let ih = swept-HasUniqueKeys all rows (Holds-tail all rows r inside) u in
      elim (Bool-cases (t.owns loser r)) [
        | inl owned ↦ elim (Bool-cases (linked t canonical (t.other r) all)) [
          | inl taken ↦ rw (owned, taken) ih
          | inr free ↦ rw (owned, free, owned) (fresh_moved all rows r inside owned free fresh, ih)
        ]
        | inr kept ↦ rw (kept, kept) (fresh_kept all rows r inside kept fresh, ih)
      ]

  pub repoint-unowned :
      (rows : List R) → any (t.owns loser) (repoint_composite t canonical loser rows) ≡ false
  unfolding repoint_composite
  repoint-unowned rows = swept_owned rows rows

  pub repoint-linked :
      (rows : List R) (o : ℕ)
      → linked t canonical o (repoint_composite t canonical loser rows)
        ≡ linked t canonical o rows || linked t loser o rows
  unfolding repoint_composite
  repoint-linked rows o = elim (Bool-cases (linked t canonical o rows)) [
    | inl taken ↦ ground (arith, swept_taken rows rows o taken)
    | inr free ↦ swept_free rows rows o free
  ]

  pub repoint-linked_other :
      (rows : List R) (c o : ℕ)
      → c ≢ canonical
      → c ≢ loser
      → linked t c o (repoint_composite t canonical loser rows) ≡ linked t c o rows
  unfolding repoint_composite
  repoint-linked_other rows c o h k = swept_other rows rows c o h k

  unowned-linked :
      (rows : List R) (o : ℕ) → any (t.owns loser) rows ≡ false → linked t loser o rows ≡ false
  unowned-linked [] o h = refl
  unowned-linked (r ∷ rows) o h = ground (arith, unowned-linked rows o)

  pub repoint-link_after :
      (rows : List R) (a o : ℕ)
      → linked t a o (repoint_composite t canonical loser rows)
        ≡ link_after t canonical loser rows a o
  repoint-link_after rows a o = elim (Bool-cases (a == canonical)) [
    | inl e ↦
        let p : a ≡ canonical = ground arith in
        rw e (
          ap (λ i. linked t i o (repoint_composite t canonical loser rows)) p
          ∙ repoint-linked rows o)
    | inr e ↦ elim (Bool-cases (a == loser)) [
      | inl f ↦
          let p : a ≡ loser = ground arith in
          rw (e, f)
            (ap (λ i. linked t i o (repoint_composite t canonical loser rows)) p
              ∙ unowned-linked _ o (repoint-unowned rows))
      | inr f ↦ rw (e, f) (repoint-linked_other rows a o (ground arith) (ground arith))
    ]
  ]

  -- The DELETE of the loser takes no link with it.
  pub delete-link_after :
      (rows : List R) (a o : ℕ)
      → linked t a o (delete_where (t.owns loser) (repoint_composite t canonical loser rows))
        ≡ link_after t canonical loser rows a o
  delete-link_after rows a o =
      ap (linked t a o) (delete_where_none (t.owns loser) _ (repoint-unowned rows))
      ∙ repoint-link_after rows a o

  pub repoint-HasUniqueKeys :
      (rows : List R)
      → HasUniqueKeys t rows
      → HasUniqueKeys t (repoint_composite t canonical loser rows)
  unfolding repoint_composite
  repoint-HasUniqueKeys rows u = swept-HasUniqueKeys rows rows (λ o h. h) u

module _ {R : Type 0} (t : Linked R) where
  pub HasUniqueKeys-delete_where :
      (p : R → Bool) (rows : List R) → HasUniqueKeys t rows → HasUniqueKeys t (delete_where p rows)
  HasUniqueKeys-delete_where p [] u = tt
  HasUniqueKeys-delete_where p (r ∷ rows) (fresh, u) =
      let ih = HasUniqueKeys-delete_where p rows u in
      elim (Bool-cases (p r)) [
        | inl gone ↦ rw gone ih
        | inr kept ↦ rw kept (
          λ c own.
              any-delete_where p (λ q. t.owns c q && t.other q == t.other r) rows (fresh c own),
          ih,
        )
      ]

  -- An update that leaves the keys alone.
  pub HasUniqueKeys-update_where :
      (p : R → Bool) (f : R → R)
      → ((r : R) (c : ℕ) → t.owns c (f r) ≡ t.owns c r)
      → ((r : R) → t.other (f r) ≡ t.other r)
      → (rows : List R) → HasUniqueKeys t rows
      → HasUniqueKeys t (update_where p f rows)
  HasUniqueKeys-update_where p f same_owner same_other [] u = tt
  HasUniqueKeys-update_where p f same_owner same_other (r ∷ rows) (fresh, u) = (
    λ c own.
        any-update_where p (λ q. t.owns c q && t.other q == t.other (if p r then f r else r)) f rows
          (λ x. ground (arith, same_owner x c, same_other x))
        ∙ ground (arith, same_owner r c, same_other r, fresh c),
    HasUniqueKeys-update_where p f same_owner same_other rows u,
  )

module _ (canonical loser : ℕ) (apart : canonical ≢ loser) where
  pub repoint_simple-unreferred :
      (rows : List Reference) → any (refers loser) (repoint_simple canonical loser rows) ≡ false
  unfolding repoint_simple
  repoint_simple-unreferred [] = refl
  repoint_simple-unreferred (r ∷ rows) = ground (arith, repoint_simple-unreferred rows)

  pub count-repoint_simple :
      (rows : List Reference)
      → count (refers canonical) (repoint_simple canonical loser rows)
        ≡ count (refers canonical) rows + count (refers loser) rows
  unfolding repoint_simple
  count-repoint_simple [] = refl
  count-repoint_simple (r ∷ rows) = ground (arith, count-repoint_simple rows)
