-- ===== src/Twins/Rules/Decision/Evidence.antt =====
-- What stands behind a decision to attach.
use diggy.Prelude.{
  ◌≡◌, ◌⊎◌, refl, Bool, true, false, not, ◌&&◌, ◌||◌, Option, none, some, arith, is_some, get_or,
  or_else, leb, Bool-cases, Option-cases, inl, inr,
}
use diggy.Prelude.Int.{ℤ, pos, negsuc, leb_ℤ}
use diggy.Sets.Ratio.{Ratio}
use diggy.Sets.Signals.{nonempty}
use diggy.Twins.Rules.{
  TwinInput, TwinEnv, TwinVerdict, attach, nothing, Reason, TwinSignals, TwinDecision,
}
use diggy.Twins.Rules.Decision.{
  Comparison, compare, collaboration, extras, gap_at_most, both_own, contained, near_identical,
  on_same_date, lev_signal, signals_of, date_step, upload_delta_days, window, digit_extras,
  channel_words_step, on_same_channel, channel_step, match_steps, twin_separation, same_video,
  past_separation, decide_twin,
}

abbrev pub is_attach : TwinVerdict → Bool
is_attach attach = true
is_attach _ = false

abbrev pub is_nothing : TwinVerdict → Bool
is_nothing nothing = true
is_nothing _ = false

-- an upload from a week before the event to a month after it, or one that tells nothing
abbrev pub in_window : Option ℤ → Bool
in_window none = true
in_window (some z) = leb_ℤ (negsuc 6) z && leb_ℤ z (pos 30)

-- the same date and durations within 5 %, and one title holds four fifths of the other's words
-- without any of its own or a collaboration, or the two are the same but for spelling
pub record HasDateEvidence (c : Comparison) : Type 0 where
  pub date : on_same_date c ≡ true
  pub words :
      ((contained c 8 10 && not (both_own c) && not (nonempty (collaboration c)))
        || near_identical c)
      ≡ true

-- the same channel, one title in the other, durations within 2 %, no collaboration or number in
-- one title only, no word in one title only where the shorter has two words at most, durations
-- within a half percent where it has one, and an upload that fits the event
pub record HasChannelEvidence (yt other : TwinInput) (c : Comparison) : Type 0 where
  pub channel : on_same_channel c ≡ true
  pub no_collaboration : nonempty (collaboration c) ≡ false
  pub no_number : nonempty (digit_extras c) ≡ false
  pub not_short : (leb c.shortest 2 && nonempty (extras c)) ≡ false
  pub one_word_duration : (leb c.shortest 1 && not (gap_at_most c 5 1000)) ≡ false
  pub upload : in_window (upload_delta_days yt other c) ≡ true

abbrev attaches : Option TwinDecision → Bool
attaches none = false
attaches (some d) = is_attach d.verdict

date_step-HasDateEvidence :
    (c : Comparison) (s : TwinSignals) → attaches (date_step c s) ≡ true → HasDateEvidence c
unfolding date_step
date_step-HasDateEvidence c s h = record { date = ground arith; words = ground arith }

channel_words_step-attaches :
    (c : Comparison) (s : TwinSignals)
    → attaches (channel_words_step c s) ≡ true
    → (nonempty (collaboration c) ≡ false)
      × (nonempty (digit_extras c) ≡ false)
      × ((leb c.shortest 2 && nonempty (extras c)) ≡ false)
      × ((leb c.shortest 1 && not (gap_at_most c 5 1000)) ≡ false)
unfolding channel_words_step
channel_words_step-attaches c s h = (ground arith, ground arith, ground arith, ground arith)

window-attaches :
    (s : TwinSignals) (delta : Option ℤ) (rest : Option TwinDecision)
    → attaches (or_else (window s delta) rest) ≡ true
    → (in_window delta ≡ true) × (attaches rest ≡ true)
window-attaches s none rest h = (refl, h)
window-attaches s (some z) rest h = (ground arith, ground arith)

channel_step-HasChannelEvidence :
    (yt other : TwinInput) (c : Comparison) (lev : Option Ratio)
    → attaches (channel_step yt other c lev) ≡ true
    → HasChannelEvidence yt other c
unfolding channel_step
channel_step-HasChannelEvidence yt other c lev h =
    let delta = upload_delta_days yt other c in
    let s = signals_of c lev delta in
    let on : on_same_channel c ≡ true = ground arith in
    let rest : attaches (or_else (window s delta) (channel_words_step c s)) ≡ true =
      ground (arith, on) in
    let w = window-attaches s delta (channel_words_step c s) rest in
    let k = channel_words_step-attaches c s w.1 in
    record {
      channel = on;
      no_collaboration = k.0;
      no_number = k.1;
      not_short = k.2;
      one_word_duration = k.3;
      upload = w.0;
    }

attaches_or :
    (first second : Option TwinDecision) (last : TwinDecision)
    → is_attach (get_or (or_else first second) last).verdict ≡ true
    → is_attach last.verdict ≡ false
    → (attaches first ≡ true) ⊎ (attaches second ≡ true)
attaches_or none none last h k = ground arith
attaches_or none (some d) last h k = inr h
attaches_or (some d) second last h k = inl h

match_steps_attaches :
    (yt other : TwinInput) (c : Comparison)
    → is_attach (match_steps yt other c).verdict ≡ true
    → HasDateEvidence c ⊎ HasChannelEvidence yt other c
unfolding match_steps
match_steps_attaches yt other c h =
    elim (attaches_or (date_step c (signals_of c (lev_signal c) none))
      (channel_step yt other c (lev_signal c)) _ h refl) [
        | inl k ↦ inl (date_step-HasDateEvidence c _ k)
        | inr k ↦ inr (channel_step-HasChannelEvidence yt other c (lev_signal c) k)
      ]

-- what a decision to attach rests on: the same video, or nothing that separates the two and
-- evidence by date or by channel
pub data HasTwinEvidence (env : TwinEnv) (yt other : TwinInput) : Type 0 where
  by_video : same_video env yt other ≡ true → HasTwinEvidence env yt other
  by_words :
      twin_separation env yt other (compare env yt other) ≡ none
      → HasDateEvidence (compare env yt other) ⊎ HasChannelEvidence yt other (compare env yt other)
      → HasTwinEvidence env yt other

past_separation_attaches :
    (env : TwinEnv) (yt other : TwinInput) (reason : Option Reason)
    → twin_separation env yt other (compare env yt other) ≡ reason
    → is_attach (past_separation yt other (compare env yt other) reason).verdict ≡ true
    → HasTwinEvidence env yt other
past_separation_attaches env yt other none e h =
    by_words e (match_steps_attaches yt other (compare env yt other) h)
past_separation_attaches env yt other (some reason) e h = ground arith

-- A decision to attach is never made with an unreliable set, and rests on the same video, or on
-- nothing that separates the two sets together with the same date and near titles or the same
-- channel, a contained title that is not too short and an upload that fits the event.
pub decide_twin-HasTwinEvidence :
    (env : TwinEnv) (yt other : TwinInput)
    → is_attach (decide_twin env yt other).verdict ≡ true
    → (other.unreliable ≡ false) × HasTwinEvidence env yt other
unfolding decide_twin
decide_twin-HasTwinEvidence env yt other h =
    let reliable : other.unreliable ≡ false = ground arith in
    (
      reliable,
      elim (Bool-cases (same_video env yt other)) [
        | inl e ↦ by_video e
        | inr e ↦
            past_separation_attaches env yt other
              (twin_separation env yt other (compare env yt other)) refl
              (ground (arith, reliable, e))
      ],
    )

-- A set that is unreliable, or that something separates from a YouTube set of another video, is
-- neither attached nor put up for review.
pub decide_twin_separated :
    (env : TwinEnv) (yt other : TwinInput)
    → (other.unreliable
        || not (same_video env yt other)
          && is_some (twin_separation env yt other (compare env yt other)))
      ≡ true
    → is_nothing (decide_twin env yt other).verdict ≡ true
unfolding decide_twin
decide_twin_separated env yt other h =
    elim (Option-cases (twin_separation env yt other (compare env yt other))) [
      | inl e ↦ ground (arith, e)
      | inr (reason, e) ↦ ground (arith, e)
    ]
