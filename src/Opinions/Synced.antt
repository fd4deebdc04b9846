-- ===== src/Opinions/Synced.antt =====
-- What the tables say of a track once its opinion is synchronised.
use diggy.Prelude.{
  ℕ, String, ◌≡◌, refl, ◌∙◌, sym, ap, Bool, true, false, ◌&&◌, Option, none, some, List, [], ◌∷◌,
  ◌++◌, arith, ◌==◌, any, find?, find?-any, find?-delete_where_disjoint, any-delete_where_self,
  delete_where, update_where, Bool-cases, Option-cases, inl, inr,
}
use diggy.Prelude.Text.{text_eq, text_eq_refl, text_eq_iff, str, str_inj}
use diggy.Catalog.Rows.{UserOpinion, UserTrack, UserRadarState, track}
use diggy.Opinions.{
  OpinionTables, radar_status, put_row, of_opinion, of_track, of_radar, with_opinion,
  sync_track_opinion,
}

abbrev put_value {ℓ} : {A : Type ℓ} → (A → A) → A → Option A → A
put_value f new none = new
put_value f new (some x) = f x

module _ {ℓ} {A : Type ℓ} where
  find?-put_row :
      (q : A → Bool) (f : A → A) (new : A) (rows : List A)
      → ((x : A) → q (f x) ≡ q x)
      → q new ≡ true
      → find? q (put_row q f new rows) ≡ some (put_value f new (find? q rows))
  find?-put_row q f new [] h k = ground (arith, k)
  find?-put_row q f new (x ∷ xs) h k = elim (Bool-cases (q x)) [
    | inl e ↦ ground (arith, e, h x)
    | inr e ↦ elim (Bool-cases (any q xs)) [
      | inl a ↦ ground (arith, e, a, find?-put_row q f new xs h k)
      | inr a ↦ ground (arith, e, a, find?-put_row q f new xs h k)
    ]
  ]

  find?-update_other :
      (q r : A → Bool) (f : A → A) (rows : List A)
      → ((x : A) → r (f x) ≡ r x)
      → ((x : A) → r x ≡ true → q x ≡ false)
      → find? r (update_where q f rows) ≡ find? r rows
  find?-update_other q r f [] h d = refl
  find?-update_other q r f (x ∷ xs) h d = ground (arith, h x, d x, find?-update_other q r f xs h d)

  find?-append_other :
      (r : A → Bool) (new : A) (rows : List A)
      → r new ≡ false
      → find? r (rows ++ new ∷ []) ≡ find? r rows
  find?-append_other r new [] k = ground (arith, k)
  find?-append_other r new (x ∷ xs) k = ground (arith, find?-append_other r new xs k)

  -- a key that the written one is not
  find?-put_other :
      (q r : A → Bool) (f : A → A) (new : A) (rows : List A)
      → ((x : A) → r (f x) ≡ r x)
      → ((x : A) → r x ≡ true → q x ≡ false)
      → r new ≡ false
      → find? r (put_row q f new rows) ≡ find? r rows
  find?-put_other q r f new rows h d k = elim (Bool-cases (any q rows)) [
    | inl e ↦ rw e (find?-update_other q r f rows h d)
    | inr e ↦ rw e (find?-append_other r new rows k)
  ]

  -- an update of a row that is there
  find?-update_self :
      (q : A → Bool) (f : A → A) (rows : List A)
      → ((x : A) → q (f x) ≡ q x)
      → find? q (update_where q f rows) ≡ elim (find? q rows) [ none ↦ none | some x ↦ some (f x) ]
  find?-update_self q f [] h = refl
  find?-update_self q f (x ∷ xs) h = elim (Bool-cases (q x)) [
    | inl e ↦ ground (arith, e, h x)
    | inr e ↦ ground (arith, e, h x, find?-update_self q f xs h)
  ]

-- what the tables say of the track `c` for the user `u`
abbrev pub said : Option UserOpinion → Option String
said none = none
said (some r) = some r.opinion

abbrev pub opinion_of : ℕ → ℕ → OpinionTables → Option String
opinion_of u c db = said (find? (of_opinion u c) db.user_opinions)

abbrev pub avis : Option UserTrack → Option (Option String)
avis none = none
avis (some r) = some r.avis

abbrev pub avis_of : ℕ → ℕ → OpinionTables → Option (Option String)
avis_of u c db = avis (find? (of_track u c) db.user_tracks)

abbrev pub status : Option UserRadarState → Option String
status none = none
status (some r) = some r.status

abbrev pub status_of : ℕ → ℕ → OpinionTables → Option String
status_of u c db = status (find? (of_radar u c) db.user_radar_state)

-- the three tables agree on one opinion; the track has an avis only where the user owns it
pub record IsSynced (u c : ℕ) (o : Option String) (before after : OpinionTables) : Type 0 where
  pub opinion : opinion_of u c after ≡ o
  pub avis : avis_of u c after ≡ elim (avis_of u c before) [ none ↦ none | some a ↦ some o ]
  pub status : status_of u c after ≡ some (radar_status o)

-- another track, or another user
pub record SameFor (u c : ℕ) (before after : OpinionTables) : Type 0 where
  pub opinion : opinion_of u c after ≡ opinion_of u c before
  pub avis : avis_of u c after ≡ avis_of u c before
  pub status : status_of u c after ≡ status_of u c before

with_opinion-said :
    (u c : ℕ) (o : Option String) (rows : List UserOpinion)
    → said (find? (of_opinion u c) (with_opinion u c o rows)) ≡ o
with_opinion-said u c none rows = ap said (
    find?-any (of_opinion u c) (delete_where (of_opinion u c) rows)
      (any-delete_where_self (of_opinion u c) rows))
with_opinion-said u c (some o) rows =
    let put =
      find?-put_row (of_opinion u c) (λ r. record r { opinion = o })
        (record { user_id = u; entity_type = track; entity_key = str c; opinion = o }) rows
        (λ x. refl) (ground (arith, text_eq_refl (str c))) in
    elim (Option-cases (find? (of_opinion u c) rows)) [
      | inl e ↦ ap said put ∙ rw e refl
      | inr (r, e) ↦ ap said put ∙ rw e refl
    ]

opinion_apart :
    (u c v d : ℕ) (x : UserOpinion)
    → (v == u && d == c) ≡ false
    → of_opinion v d x ≡ true
    → of_opinion u c x ≡ false
opinion_apart u c v d x n h = elim (Bool-cases (text_eq x.entity_key (str c))) [
  | inl e ↦
      let p : str d ≡ str c =
        sym ((text_eq_iff x.entity_key (str d)).0 (ground arith))
        ∙ (text_eq_iff x.entity_key (str c)).0 e in
      ground (arith, str_inj d c p)
  | inr e ↦ ground (arith, e)
]

with_opinion-other :
    (u c v d : ℕ) (o : Option String) (rows : List UserOpinion)
    → (v == u && d == c) ≡ false
    → find? (of_opinion v d) (with_opinion u c o rows) ≡ find? (of_opinion v d) rows
with_opinion-other u c v d none rows n =
    find?-delete_where_disjoint (of_opinion u c) (of_opinion v d) rows (λ x h.
      elim (Bool-cases (of_opinion v d x)) [
        | inl e ↦ absurd (ground (arith, h, opinion_apart u c v d x n e))
        | inr e ↦ e
      ])
with_opinion-other u c v d (some o) rows n =
    find?-put_other (of_opinion u c) (of_opinion v d) (λ r. record r { opinion = o })
      (record { user_id = u; entity_type = track; entity_key = str c; opinion = o }) rows
      (λ x. refl) (λ x h. opinion_apart u c v d x n h)
      (elim (Bool-cases (text_eq (str c) (str d))) [
        | inl e ↦ ground (arith, str_inj c d ((text_eq_iff (str c) (str d)).0 e))
        | inr e ↦ ground (arith, e)
      ])

sync_track_opinion-this :
    (now u c : ℕ) (o : Option String) (db : OpinionTables)
    → IsSynced u c o db (sync_track_opinion now u c o db)
unfolding sync_track_opinion
sync_track_opinion-this now u c o db =
    let s = radar_status o in
    let owned =
      find?-update_self (of_track u c) (λ r. record r { avis = o }) db.user_tracks (λ x. refl) in
    let radar =
      find?-put_row (of_radar u c) (λ r. record r { status = s; updated_at = some now })
        (record { user_id = u; catalog_id = c; status = s; updated_at = some now })
        db.user_radar_state (λ x. refl) (ground arith) in
    record {
      opinion = with_opinion-said u c o db.user_opinions;
      avis = elim (Option-cases (find? (of_track u c) db.user_tracks)) [
        | inl e ↦ ap avis owned ∙ rw e refl
        | inr (r, e) ↦ ap avis owned ∙ rw e refl
      ];
      status = elim (Option-cases (find? (of_radar u c) db.user_radar_state)) [
        | inl e ↦ ap status radar ∙ rw e refl
        | inr (r, e) ↦ ap status radar ∙ rw e refl
      ];
    }

sync_track_opinion-others :
    (now u c v d : ℕ) (o : Option String) (db : OpinionTables)
    → (v == u && d == c) ≡ false
    → SameFor v d db (sync_track_opinion now u c o db)
unfolding sync_track_opinion
sync_track_opinion-others now u c v d o db n =
    let s = radar_status o in
    record {
      opinion = ap said (with_opinion-other u c v d o db.user_opinions n);
      avis = ap avis (
          find?-update_other (of_track u c) (of_track v d) (λ r. record r { avis = o })
            db.user_tracks (λ x. refl) (λ x h. ground arith));
      status = ap status (
          find?-put_other (of_radar u c) (of_radar v d)
            (λ r. record r { status = s; updated_at = some now })
            (record { user_id = u; catalog_id = c; status = s; updated_at = some now })
            db.user_radar_state (λ x. refl) (λ x h. ground arith) (ground arith));
    }

-- After the synchronisation of a track's opinion the opinion, the avis of an owned track and the
-- radar status of the track agree for the user, whatever they were; what the tables say of another
-- track or to another user has not changed.
pub sync_track_opinion-IsSynced :
    (now u c : ℕ) (o : Option String) (db : OpinionTables)
    → IsSynced u c o db (sync_track_opinion now u c o db)
      × ((v d : ℕ) → (v == u && d == c) ≡ false → SameFor v d db (sync_track_opinion now u c o db))
sync_track_opinion-IsSynced now u c o db =
    (sync_track_opinion-this now u c o db, λ v d n. sync_track_opinion-others now u c v d o db n)
