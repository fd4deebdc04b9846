-- ===== src/Twins/Search.antt =====
-- The search for the candidates of a set, and their decisions
-- (server/api/services/set_twin_service.py).
pub mod Rows
use diggy.Prelude.{
  ℕ, zero, suc, ◌+◌, ◌-◌, ◌*◌, ◌/◌, min, max, Bool, true, false, not, ◌&&◌, ◌||◌, Option, none,
  some, List, [], ◌∷◌, ◌++◌, map, ltb, leb, ◌==◌, if◌then◌else◌, is_some, get_or, or_else, length,
  filter, take,
}
use diggy.Prelude.Text.{Text, text_eq}
use diggy.Prelude.Sort.{sort_by}
use diggy.Prelude.Distinct.{has, first_seen}
use diggy.Families.Rows.{
  DjSet, SetFlag, SetFlagStatus, pending, attached, duplicate_candidate, FamilyDb, Env, Error,
  value_error, Result, ok, err, ◌>>=◌, has_id, get_set,
}
use diggy.Families.Parents.{Parent, attach_pair}
use diggy.Families.Flags.{with_flag}
use diggy.Twins.Rules.{
  TwinEnv, TwinInput, TwinVerdict, attach, review, nothing, TwinStep, video, Reason, ambiguous,
  already_in_family, youtube_side_truncated, TwinSignals, TwinDecision,
}
use diggy.Twins.Rules.Decision.{decide_twin}
use diggy.Twins.Choice.{Evaluated, Choice, is_youtube, family, to_input, rank, choose}
use diggy.Twins.Urls.{canonical_video_urls}

abbrev id_le : DjSet → DjSet → Bool
id_le a b = leb a.id b.id

abbrev pub is_candidate : DjSet → DjSet → Bool
is_candidate row c =
    not (c.id == row.id)
    && not c.is_virtual
    && not c.unreliable
    && (if is_youtube row then not (is_youtube c) else is_youtube c)

-- the query that all searches start from
abbrev pub base : DjSet → FamilyDb → List DjSet
base row db = sort_by id_le (filter (is_candidate row) db.sets)

abbrev given_text : Option Text → Option Text
given_text none = none
given_text (some []) = none
given_text (some (c ∷ t)) = some (c ∷ t)

abbrev holds_text : (Text → Bool) → Option Text → Bool
holds_text p none = false
holds_text p (some t) = p t

abbrev holds_number : (ℕ → Bool) → Option ℕ → Bool
holds_number p none = false
holds_number p (some n) = p n

-- TWIN_VIDEO_CANDIDATE_LIMIT is 50
unfoldable pub video_candidates : TwinEnv → DjSet → FamilyDb → List DjSet
video_candidates env row db =
    if is_youtube row
    then elim (given_text row.external_id) [
      | none ↦ []
      | some v ↦ take 50 (
          filter (λ c. holds_text (λ u. has text_eq u (canonical_video_urls v)) c.source_url)
            (base row db))
    ]
    else elim (given_text (env.video_id_from_url row.source_url)) [
      | none ↦ []
      | some v ↦ take 50 (filter (λ c. holds_text (λ u. text_eq u v) c.external_id) (base row db))
    ]

-- _duration_window for a gap of `p` in 100: floor(d * (1 - gap)) and ceil(d / (1 - gap))
unfoldable pub in_duration_window : ℕ → ℕ → ℕ → Bool
in_duration_window p d e =
    let keep = 100 - p in leb (d * keep / 100) e && leb e ((d * 100 + (keep - 1)) / keep)

abbrev given_number : Option ℕ → Option ℕ
given_number none = none
given_number (some zero) = none
given_number (some (suc n)) = some (suc n)

abbrev same_date_rows : DjSet → ℕ → ℕ → FamilyDb → List DjSet
same_date_rows row d e db =
    filter
      (λ c.
        holds_number (λ x. x == e) c.event_date
        && holds_number (in_duration_window 5 d) c.duration_ms)
      (base row db)

-- TWIN_DATE_CANDIDATE_LIMIT is 200
abbrev pub on_date : DjSet → Option ℕ → Option ℕ → FamilyDb → List DjSet
on_date row (some d) (some e) db = take 200 (same_date_rows row d e db)
on_date row _ _ db = []

unfoldable pub date_candidates : DjSet → FamilyDb → List DjSet
date_candidates row db = on_date row (given_number row.duration_ms) row.event_date db

abbrev same_channel_rows : DjSet → ℕ → Text → FamilyDb → List DjSet
same_channel_rows row d t db =
    filter
      (λ c.
        holds_text (λ x. text_eq x t) c.channel_canonical
        && holds_number (in_duration_window 2 d) c.duration_ms)
      (base row db)

-- TWIN_CHANNEL_CANDIDATE_CAP is 10000
abbrev pub on_channel : DjSet → Option ℕ → Option Text → FamilyDb → List DjSet
on_channel row (some d) (some t) db = take 10001 (same_channel_rows row d t db)
on_channel row _ _ db = []

unfoldable pub channel_candidates : DjSet → FamilyDb → List DjSet
channel_candidates row db =
    on_channel row (given_number row.duration_ms) (given_text row.channel_canonical) db

unfoldable pub is_truncated : DjSet → FamilyDb → Bool
is_truncated row db = ltb 10000 (length (channel_candidates row db))

abbrev same_row : DjSet → DjSet → Bool
same_row a b = a.id == b.id

-- the dictionary `found`, each row once
unfoldable pub search_candidates : TwinEnv → DjSet → FamilyDb → List DjSet
search_candidates env row db = first_seen same_row (
    video_candidates env row db
    ++ date_candidates row db
    ++ (if is_truncated row db then [] else channel_candidates row db))

abbrev pub same_parent : Option ℕ → Option ℕ → Bool
same_parent (some p) (some q) = p == q
same_parent _ _ = false

unfoldable pub decide_rows : TwinEnv → DjSet → DjSet → TwinDecision
decide_rows env row c =
    if is_youtube row
    then decide_twin env (to_input row) (to_input c)
    else decide_twin env (to_input c) (to_input row)

abbrev pub is_decided : TwinDecision → Bool
is_decided d = elim d.verdict [ nothing ↦ false | _ ↦ true ]

unfoldable pub evaluated_of : TwinEnv → DjSet → List DjSet → List Evaluated
evaluated_of env row [] = []
evaluated_of env row (c ∷ cs) =
    let rest = evaluated_of env row cs in
    let d = decide_rows env row c in
    if same_parent row.parent_set_id c.parent_set_id
    then rest
    else (if is_decided d then record { row = c; decision = d } ∷ rest else rest)

unfoldable pub evaluate : TwinEnv → DjSet → FamilyDb → List Evaluated
evaluate env row db = evaluated_of env row (search_candidates env row db)
