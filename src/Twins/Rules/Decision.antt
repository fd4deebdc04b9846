-- ===== src/Twins/Rules/Decision.antt =====
-- `decide_twin`: the steps, from the strongest evidence to the weakest.
pub mod Evidence
use diggy.Prelude.{
  ℕ, zero, suc, ◌+◌, ◌-◌, ◌*◌, min, max, Bool, true, false, not, ◌&&◌, ◌||◌, Option, none, some,
  List, [], ◌∷◌, ◌++◌, map, ltb, leb, ◌==◌, if◌then◌else◌, is_some, get_or, or_else, length, filter,
  any, all,
}
use diggy.Prelude.Int.{ℤ, pos, negsuc, sub_ℕ, ltb_ℤ, pos_part, neg_part}
use diggy.Prelude.Text.{Text, text_eq}
use diggy.Prelude.Distinct.{has, first_seen, common}
use diggy.Prelude.Sort.{sort_by}
use diggy.Sets.Ratio.{Ratio, at_least}
use diggy.Sets.Levenshtein.{levenshtein_ratio}
use diggy.Sets.Signals.{DateSignature, same_set, nonempty, share}
use diggy.Twins.Dates.{signature_dates}
use diggy.Twins.Words.{collab_words}
use diggy.Twins.Rules.{
  TwinInput, ParsedTitle, TwinEnv, TwinVerdict, attach, review, nothing, TwinStep, video, date,
  channel, no_step, Reason, other_is_unreliable, same_video_id, collaboration_marker,
  number_in_one_title, same_date_contained, same_date_near_identical, each_has_own_words,
  before_the_event, long_after_the_event, short_title, one_word_same_duration,
  one_word_close_duration, same_channel_contained, not_enough_evidence, TwinSignals, TwinDecision,
  channel_words, significant_words, digit_words, own_words_pair_up, minus, agrees, is_same_channel,
  same_given, known, share_a_date, separation_reason,
}

-- the order of `sorted` on str
abbrev text_le : Text → Text → Bool
text_le [] t = true
text_le (a ∷ s) [] = false
text_le (a ∷ s) (b ∷ t) = ltb a b || a == b && text_le s t

-- " ".join(sorted(words))
abbrev joined : List Text → Text
joined [] = []
joined (w ∷ []) = w
joined (w ∷ v ∷ ws) = w ++ b' ' ∷ joined (v ∷ ws)

-- What the two titles have in common, and what each has of its own.
pub record Comparison : Type 0 where
  pub title_yt : ParsedTitle
  pub title_other : ParsedTitle
  pub words_yt : List Text
  pub words_other : List Text
  pub shortest : ℕ
  pub cont : Ratio
  pub dd : Option Ratio
  pub own_yt : List Text
  pub own_other : List Text
  pub same_date : Bool
  pub same_channel : Bool

-- abs(a - b) / max(a, b)
abbrev gap : Option ℕ → Option ℕ → Option Ratio
gap (some (suc a)) (some (suc b)) =
    some (record { num = max (suc a) (suc b) - min (suc a) (suc b); den = max (suc a) (suc b) })
gap _ _ = none

unfoldable pub compare : TwinEnv → TwinInput → TwinInput → Comparison
compare env yt other =
    let title_yt = env.parse_title yt.title in
    let title_other = env.parse_title other.title in
    let excluded =
      channel_words env
        (yt.channel ∷ yt.channel_canonical ∷ other.channel ∷ other.channel_canonical ∷ []) in
    let words_yt = significant_words env excluded title_yt.residue in
    let words_other = significant_words env excluded title_other.residue in
    let shortest = min (length words_yt) (length words_other) in
    record {
      title_yt = title_yt;
      title_other = title_other;
      words_yt = words_yt;
      words_other = words_other;
      shortest = shortest;
      cont = share (length (common text_eq words_yt words_other)) shortest;
      dd = gap yt.duration_ms other.duration_ms;
      own_yt = minus words_yt words_other;
      own_other = minus words_other words_yt;
      same_date =
          share_a_date title_yt.dates title_other.dates || agrees yt.event_date other.event_date;
      same_channel = is_same_channel env yt other;
    }

abbrev extras : Comparison → List Text
extras c = c.own_yt ++ c.own_other

abbrev pub collaboration : Comparison → List Text
collaboration c = common text_eq (extras c) collab_words

abbrev pub both_own : Comparison → Bool
both_own c = nonempty c.own_yt && nonempty c.own_other

-- dd <= n / d; past the separation, dd is known
abbrev at_most : Option Ratio → ℕ → ℕ → Bool
at_most none n d = false
at_most (some r) n d = leb (d * r.num) (n * r.den)

unfoldable pub gap_at_most : Comparison → ℕ → ℕ → Bool
gap_at_most c n d = at_most c.dd n d

unfoldable pub contained : Comparison → ℕ → ℕ → Bool
contained c n d = at_least c.cont n d

unfoldable pub words_ratio : Comparison → Ratio
words_ratio c =
    levenshtein_ratio (joined (sort_by text_le c.words_yt)) (joined (sort_by text_le c.words_other))

-- the last test of the date step
unfoldable pub near_identical : Comparison → Bool
near_identical c =
    nonempty c.words_yt
    && nonempty c.words_other
    && at_least (words_ratio c) 90 100
    && same_set text_eq (digit_words c.words_yt) (digit_words c.words_other)
    && own_words_pair_up c.own_yt c.own_other
    && own_words_pair_up c.own_other c.own_yt

abbrev pub on_same_date : Comparison → Bool
on_same_date c = c.same_date && gap_at_most c 5 100

-- `signals["lev"]` is written where the date step comes to the ratio.
unfoldable pub lev_signal : Comparison → Option Ratio
lev_signal c =
    if on_same_date c
      && not (nonempty (collaboration c) && contained c 8 10)
      && not (contained c 8 10 && not (both_own c))
      && nonempty c.words_yt
      && nonempty c.words_other
    then some (words_ratio c)
    else none

-- `before` is what the steps before have written
abbrev pub signals_of : Comparison → Option Ratio → Option ℤ → TwinSignals
signals_of c lev delta = record {
  cont = c.cont;
  dd = c.dd;
  both_own = both_own c;
  same_date = c.same_date;
  same_channel = c.same_channel;
  lev = lev;
  upload_delta_days = delta;
}

abbrev decision : TwinSignals → TwinVerdict → TwinStep → Reason → Option TwinDecision
decision s v step reason = some (record { verdict = v; step = step; reason = reason; signals = s })

unfoldable pub date_step : Comparison → TwinSignals → Option TwinDecision
date_step c s =
    if not (on_same_date c)
    then none
    else (if nonempty (collaboration c) && contained c 8 10
        then decision s review date (collaboration_marker (sort_by text_le (collaboration c)))
        else (if contained c 8 10 && not (both_own c)
            then decision s attach date same_date_contained
            else (if near_identical c
                then decision s attach date same_date_near_identical
                else (if contained c 8 10
                    then decision s review date each_has_own_words
                    else none))))

abbrev abs : ℤ → ℕ
abs z = pos_part z + neg_part z

-- min(deltas, key=abs), the first of the least
abbrev closest : ℤ → List ℤ → ℤ
closest best [] = best
closest best (z ∷ zs) = closest (if ltb (abs z) (abs best) then z else best) zs

abbrev all_dates : List DateSignature → List ℕ
all_dates [] = []
all_dates (s ∷ ss) = signature_dates s ++ all_dates ss

abbrev known_date : Option ℕ → List ℕ
known_date none = []
known_date (some d) = d ∷ []

abbrev closest_of : List ℤ → Option ℤ
closest_of [] = none
closest_of (z ∷ zs) = some (closest z zs)

abbrev delta_days : ℕ → List ℕ → Option ℤ
delta_days upload dates =
    closest_of (map (λ d. sub_ℕ upload d) (sort_by leb (first_seen ◌==◌ dates)))

abbrev upload_of : TwinInput → Comparison → Option ℕ
upload_of yt c = if is_some yt.event_date || nonempty c.title_yt.dates then none else yt.upload_date

unfoldable pub upload_delta_days : TwinInput → TwinInput → Comparison → Option ℤ
upload_delta_days yt other c = elim (upload_of yt c) [
  | none ↦ none
  | some upload ↦ delta_days upload (known_date other.event_date ++ all_dates c.title_other.dates)
]

-- The publication window of an undated YouTube set; -7 is `negsuc 6`.
abbrev pub window : TwinSignals → Option ℤ → Option TwinDecision
window s none = none
window s (some z) =
    if ltb_ℤ z (negsuc 6)
    then decision s nothing no_step before_the_event
    else (if ltb_ℤ (pos 90) z
        then decision s nothing no_step long_after_the_event
        else (if ltb_ℤ (pos 30) z then decision s review channel long_after_the_event else none))

abbrev pub digit_extras : Comparison → List Text
digit_extras c = digit_words (extras c)

unfoldable pub channel_words_step : Comparison → TwinSignals → Option TwinDecision
channel_words_step c s =
    if nonempty (collaboration c)
    then decision s review channel (collaboration_marker (sort_by text_le (collaboration c)))
    else (if nonempty (digit_extras c)
        then decision s review channel (number_in_one_title (sort_by text_le (digit_extras c)))
        else (if leb c.shortest 2 && nonempty (extras c)
            then decision s review channel short_title
            else (if leb c.shortest 1
                then (if gap_at_most c 5 1000
                    then decision s attach channel one_word_same_duration
                    else decision s review channel one_word_close_duration)
                else decision s attach channel same_channel_contained)))

abbrev pub on_same_channel : Comparison → Bool
on_same_channel c = c.same_channel && contained c 99 100 && gap_at_most c 2 100

unfoldable pub channel_step :
    TwinInput → TwinInput → Comparison → Option Ratio → Option TwinDecision
channel_step yt other c lev =
    if not (on_same_channel c)
    then none
    else (let delta = upload_delta_days yt other c in
        let s = signals_of c lev delta in or_else (window s delta) (channel_words_step c s))

-- the steps past the separation
unfoldable pub match_steps : TwinInput → TwinInput → Comparison → TwinDecision
match_steps yt other c =
    let s = signals_of c (lev_signal c) none in
    get_or (or_else (date_step c s) (channel_step yt other c (lev_signal c)))
      (record { verdict = nothing; step = no_step; reason = not_enough_evidence; signals = s })

unfoldable pub twin_separation : TwinEnv → TwinInput → TwinInput → Comparison → Option Reason
twin_separation env yt other c = separation_reason env yt other c.title_yt c.title_other

abbrev pub same_video : TwinEnv → TwinInput → TwinInput → Bool
same_video env yt other = same_given yt.external_id (env.video_id_from_url other.source_url)

abbrev pub past_separation : TwinInput → TwinInput → Comparison → Option Reason → TwinDecision
past_separation yt other c none = match_steps yt other c
past_separation yt other c (some reason) = record {
  verdict = nothing;
  step = no_step;
  reason = reason;
  signals = signals_of c none none;
}

unfoldable pub decide_twin : TwinEnv → TwinInput → TwinInput → TwinDecision
decide_twin env yt other =
    let c = compare env yt other in
    let s = signals_of c none none in
    if other.unreliable
    then record { verdict = nothing; step = no_step; reason = other_is_unreliable; signals = s }
    else (if same_video env yt other
        then record { verdict = attach; step = video; reason = same_video_id; signals = s }
        else past_separation yt other c (twin_separation env yt other c))
