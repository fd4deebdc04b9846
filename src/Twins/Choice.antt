-- ===== src/Twins/Choice.antt =====
-- `_choose` of server/api/services/set_twin_service.py: the single outcome among the decided
-- candidates.
pub mod OneFamily
pub mod Target
use diggy.Prelude.{
  ℕ, zero, suc, ◌+◌, ◌-◌, min, max, Bool, true, false, not, ◌&&◌, ◌||◌, Option, none, some, List,
  [], ◌∷◌, map, ltb, leb, ◌==◌, str_eq, if◌then◌else◌, get_or, or_else, length, filter,
}
use diggy.Prelude.Distinct.{first_seen}
use diggy.Families.Rows.{DjSet}
use diggy.Twins.Rules.{
  TwinInput, TwinVerdict, attach, review, nothing, TwinStep, video, date, channel, no_step, Reason,
  ambiguous, TwinDecision,
}

pub record Evaluated : Type 0 where
  pub row : DjSet
  pub decision : TwinDecision

pub record Choice : Type 0 where
  pub target : Evaluated
  pub attached : Bool
  pub reason : Reason
  pub contested : List Evaluated

unfoldable pub is_youtube : DjSet → Bool
is_youtube row = str_eq row.source "youtube"

abbrev pub family : DjSet → ℕ
family row = get_or row.parent_set_id row.id

-- Only the publication date of a YouTube set is read.
unfoldable pub to_input : DjSet → TwinInput
to_input row = record {
  title = some row.title;
  channel = row.channel;
  channel_canonical = row.channel_canonical;
  duration_ms = row.duration_ms;
  event_date = row.event_date;
  part_number = row.part_number;
  source_url = row.source_url;
  external_id = row.external_id;
  unreliable = row.unreliable;
  upload_date = if is_youtube row then row.played_date else none;
}

-- _STEP_RANK; a decision to attach or to review has a step
abbrev pub rank : Evaluated → ℕ
rank e = elim e.decision.step [ video ↦ 0 | date ↦ 1 | channel ↦ 2 | no_step ↦ 3 ]

abbrev pub attaches : Evaluated → Bool
attaches e = elim e.decision.verdict [ attach ↦ true | _ ↦ false ]

abbrev pub reviews : Evaluated → Bool
reviews e = elim e.decision.verdict [ review ↦ true | _ ↦ false ]

-- min(items, key=…), the first of the least by the order `lt` of keys
abbrev pub least : (Evaluated → Evaluated → Bool) → Evaluated → List Evaluated → Evaluated
least lt best [] = best
least lt best (e ∷ es) = least lt (if lt e best then e else best) es

abbrev pub lower_id : Evaluated → Evaluated → Bool
lower_id a b = ltb a.row.id b.row.id

unfoldable pub lowest_id : Evaluated → List Evaluated → Evaluated
lowest_id e es = least lower_id e es

-- abs(e.row.duration_ms - row.duration_ms)
abbrev distance : DjSet → Evaluated → ℕ
distance row e =
    let a = get_or e.row.duration_ms 0 in let b = get_or row.duration_ms 0 in max a b - min a b

abbrev pub closer : DjSet → Evaluated → Evaluated → Bool
closer row a b =
    ltb (distance row a) (distance row b) || distance row a == distance row b && lower_id a b

abbrev pub attach_to : List Evaluated → Option Choice
attach_to [] = none
attach_to (e ∷ es) =
    let target = lowest_id e es in
    some (record {
      target = target;
      attached = true;
      reason = target.decision.reason;
      contested = target ∷ [];
    })

abbrev best_rank_of : ℕ → List Evaluated → ℕ
best_rank_of r [] = r
best_rank_of r (e ∷ es) = best_rank_of (min r (rank e)) es

abbrev pub of_best_rank : List Evaluated → List Evaluated
of_best_rank [] = []
of_best_rank (e ∷ es) = filter (λ x. rank x == best_rank_of (rank e) es) (e ∷ es)

abbrev pub several_families : List Evaluated → Bool
several_families contested = leb 2 (length (first_seen ◌==◌ (map (λ e. family e.row) contested)))

abbrev pub ambiguous_choice : DjSet → List Evaluated → Option Choice
ambiguous_choice row [] = none
ambiguous_choice row (e ∷ es) = some (record {
  target = least (closer row) e es;
  attached = false;
  reason = ambiguous;
  contested = e ∷ es;
})

unfoldable pub contend : DjSet → List Evaluated → Option Choice
contend row contested =
    if several_families contested
    then ambiguous_choice row contested
    else attach_to (of_best_rank contested)

abbrev pub review_of : List Evaluated → Option Choice
review_of [] = none
review_of (e ∷ es) =
    let target = lowest_id e es in
    some (record {
      target = target;
      attached = false;
      reason = target.decision.reason;
      contested = target ∷ [];
    })

abbrev pub by_video : List Evaluated → List Evaluated
by_video items = filter (λ e. rank e == 0) items

abbrev pub by_date : List Evaluated → List Evaluated
by_date items = filter (λ e. rank e == 1) items

abbrev pub by_channel : List Evaluated → List Evaluated
by_channel items = filter (λ e. rank e == 2) items

-- the candidates to attach to that contend with one another
unfoldable pub contested_of : DjSet → List Evaluated → List Evaluated
contested_of row found = if is_youtube row then by_channel found else found

unfoldable pub choose : DjSet → List Evaluated → Option Choice
choose row evaluated =
    let found = filter attaches evaluated in
    or_else (attach_to (by_video found)) (
      or_else (if is_youtube row then attach_to (by_date found) else none) (
        or_else (contend row (contested_of row found))
          (review_of (of_best_rank (filter reviews evaluated)))))
