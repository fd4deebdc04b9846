-- ===== src/Twins/Search/Rows.antt =====
-- What the search brings are rows of the database, and candidates of the set.
use diggy.Prelude.{
  ℕ, ◌≤◌, ◌≡◌, refl, Bool, true, false, Option, none, some, List, [], ◌∷◌, ◌++◌, arith,
  if◌then◌else◌, find?, filter, count, All, All-imp, All-filter, All-filter_self, All-both,
  All-take, All-append, Bool-cases, inl, inr, Option-cases,
}
use diggy.Prelude.Text.{Text}
use diggy.Prelude.Distinct.{has, unseen}
use diggy.Prelude.Sort.{All-sort_by}
use diggy.Families.Rows.{DjSet, FamilyDb, has_id, get_set}
use diggy.Families.Forest.{shapes, is_at}
use diggy.Twins.Rules.{TwinEnv}
use diggy.Twins.Choice.{Evaluated, is_youtube}
use diggy.Twins.Search.{
  id_le, is_candidate, base, given_text, given_number, video_candidates, date_candidates, on_date,
  on_channel, channel_candidates, is_truncated, same_row, search_candidates, same_parent,
  is_decided, decide_rows, evaluated_of, evaluate,
}

abbrev HasUniqueIds : List DjSet → Type 0
HasUniqueIds xs = (i : ℕ) → count (is_at i) (shapes xs) ≤ 1

found_counted :
    (i : ℕ) (xs : List DjSet) (s : DjSet)
    → find? (has_id i) xs ≡ some s
    → 1 ≤ count (is_at i) (shapes xs)
found_counted i [] s h = ground arith
found_counted i (x ∷ xs) s h = ground (arith, found_counted i xs s)

in_front :
    (x s : DjSet) (xs : List DjSet)
    → count (is_at s.id) (shapes (x ∷ xs)) ≤ 1
    → find? (has_id s.id) xs ≡ some s
    → find? (has_id s.id) (x ∷ xs) ≡ some s
in_front x s xs u h = ground (arith, found_counted s.id xs s h)

-- where ids are unique, each row is the one that its id finds
pub self_found :
    (xs : List DjSet)
    → ((i : ℕ) → count (is_at i) (shapes xs) ≤ 1)
    → All (λ s. find? (has_id s.id) xs ≡ some s) xs
self_found [] u = tt
self_found (x ∷ xs) u = (
  ground arith,
  All-imp (λ s. find? (has_id s.id) xs ≡ some s) _ xs (λ s h. in_front x s xs (u s.id) h)
      (self_found xs (λ i. ground (arith, u i))),
)

All-unseen {ℓ} :
    (P : DjSet → Type ℓ) (seen xs : List DjSet) → All P xs → All P (unseen same_row seen xs)
All-unseen P seen [] h = tt
All-unseen P seen (x ∷ xs) (h, hs) = elim (Bool-cases (has same_row x seen)) [
  | inl e ↦ rw e (All-unseen P seen xs hs)
  | inr e ↦ rw e (h, All-unseen P (x ∷ seen) xs hs)
]

module _ {ℓ} (P : DjSet → Type ℓ) (env : TwinEnv) (row : DjSet) (db : FamilyDb) where
  All-video_candidates : All P (base row db) → All P (video_candidates env row db)
  unfolding video_candidates
  All-video_candidates h = elim (Bool-cases (is_youtube row)) [
    | inl y ↦ rw y (elim (Option-cases (given_text row.external_id)) [
      | inl e ↦ rw e tt
      | inr (v, e) ↦ rw e (All-take P 50 _ (All-filter P _ (base row db) h))
    ])
    | inr n ↦ rw n (elim (Option-cases (given_text (env.video_id_from_url row.source_url))) [
      | inl e ↦ rw e tt
      | inr (v, e) ↦ rw e (All-take P 50 _ (All-filter P _ (base row db) h))
    ])
  ]

  All-on_date : (d e : Option ℕ) → All P (base row db) → All P (on_date row d e db)
  All-on_date (some d) (some e) h = All-take P 200 _ (All-filter P _ (base row db) h)
  All-on_date (some d) none h = tt
  All-on_date none e h = tt

  All-on_channel :
      (d : Option ℕ) (t : Option Text) → All P (base row db) → All P (on_channel row d t db)
  All-on_channel (some d) (some t) h = All-take P 10001 _ (All-filter P _ (base row db) h)
  All-on_channel (some d) none h = tt
  All-on_channel none t h = tt

  All-listed :
      (truncated : Bool)
      → All P (base row db)
      → All P (if truncated then [] else channel_candidates row db)
  unfolding channel_candidates
  All-listed true h = tt
  All-listed false h =
      All-on_channel (given_number row.duration_ms) (given_text row.channel_canonical) h

  All-dates : All P (base row db) → All P (date_candidates row db)
  unfolding date_candidates
  All-dates h = All-on_date (given_number row.duration_ms) row.event_date h

  All-search_candidates : All P (base row db) → All P (search_candidates env row db)
  unfolding search_candidates
  All-search_candidates h =
      let channels = if is_truncated row db then [] else channel_candidates row db in
      All-unseen P [] (video_candidates env row db ++ date_candidates row db ++ channels) (
        All-append P (video_candidates env row db ++ date_candidates row db) channels
          (All-append P (video_candidates env row db) (date_candidates row db)
            (All-video_candidates h) (All-dates h))
          (All-listed (is_truncated row db) h))

-- a row of the database that the set can be compared with
pub record IsCandidateRow (row : DjSet) (db : FamilyDb) (s : DjSet) : Type 0 where
  pub found : get_set s.id db ≡ some s
  pub candidate : is_candidate row s ≡ true

base-IsCandidateRow :
    (row : DjSet) (db : FamilyDb) → HasUniqueIds db.sets → All (IsCandidateRow row db) (base row db)
base-IsCandidateRow row db u =
    All-sort_by id_le (IsCandidateRow row db) (filter (is_candidate row) db.sets) (
      All-imp (λ s. (get_set s.id db ≡ some s) × (is_candidate row s ≡ true)) _
        (filter (is_candidate row) db.sets) (λ s h. record { found = h.0; candidate = h.1 })
        (All-both (λ s. get_set s.id db ≡ some s) (λ s. is_candidate row s ≡ true)
          (filter (is_candidate row) db.sets)
          (All-filter (λ s. get_set s.id db ≡ some s) (is_candidate row) db.sets
            (self_found db.sets u))
          (All-filter_self (is_candidate row) db.sets)))

-- an evaluated candidate, which is in no family with the set
pub record IsEvaluated (env : TwinEnv) (row : DjSet) (db : FamilyDb) (e : Evaluated) : Type 0 where
  pub row_of : IsCandidateRow row db e.row
  pub decided : e.decision ≡ decide_rows env row e.row
  pub apart : same_parent row.parent_set_id e.row.parent_set_id ≡ false

evaluated_of-IsEvaluated :
    (env : TwinEnv) (row : DjSet) (db : FamilyDb) (cs : List DjSet)
    → All (IsCandidateRow row db) cs
    → All (IsEvaluated env row db) (evaluated_of env row cs)
unfolding evaluated_of
evaluated_of-IsEvaluated env row db [] h = tt
evaluated_of-IsEvaluated env row db (c ∷ cs) (h, hs) =
    elim (Bool-cases (same_parent row.parent_set_id c.parent_set_id)) [
      | inl e ↦ rw e (evaluated_of-IsEvaluated env row db cs hs)
      | inr e ↦ rw e (elim (Bool-cases (is_decided (decide_rows env row c))) [
        | inl k ↦ rw k (
          record { row_of = h; decided = refl; apart = e },
          evaluated_of-IsEvaluated env row db cs hs,
        )
        | inr k ↦ rw k (evaluated_of-IsEvaluated env row db cs hs)
      ])
    ]

pub evaluate-IsEvaluated :
    (env : TwinEnv) (row : DjSet) (db : FamilyDb)
    → ((i : ℕ) → count (is_at i) (shapes db.sets) ≤ 1)
    → All (IsEvaluated env row db) (evaluate env row db)
unfolding evaluate
evaluate-IsEvaluated env row db u =
    evaluated_of-IsEvaluated env row db (search_candidates env row db)
      (All-search_candidates (IsCandidateRow row db) env row db (base-IsCandidateRow row db u))
