-- ===== src/Sets/Titles.antt =====
-- `token_set_ratio` and `_title_number_set` of server/api/services/set_dedup_service.py. The texts
-- are code points; of the decimal digits that Python's \d takes, those of ASCII.
pub mod Laws
use diggy.Prelude.{
  ℕ, zero, suc, ◌+◌, ◌-◌, ◌*◌, Bool, true, false, not, ◌&&◌, ◌||◌, Option, none, some, List, [],
  ◌∷◌, ◌++◌, leb, ltb, ◌==◌, if◌then◌else◌, any, length, filter,
}
use diggy.Prelude.Text.{Text, text_eq}
use diggy.Prelude.Distinct.{first_seen, common}
use diggy.Sets.Ratio.{Ratio}

-- str.isspace
abbrev pub is_space : ℕ → Bool
is_space c =
    leb 9 c && leb c 13
    || leb 28 c && leb c 32
    || c == 133
    || c == 160
    || c == 5760
    || leb 8192 c && leb c 8202
    || c == 8232
    || c == 8233
    || c == 8239
    || c == 8287
    || c == 12288

abbrev pub with_word : Text → List Text → List Text
with_word [] words = words
with_word (c ∷ w) words = (c ∷ w) ∷ words

-- s.split(), from a word that has begun
unfoldable pub split_from : Text → Text → List Text
split_from word [] = with_word word []
split_from word (c ∷ s) =
    let next = split_from [] s in
    let longer = split_from (word ++ c ∷ []) s in if is_space c then with_word word next else longer

-- set(s.split())
unfoldable pub tokens : Text → List Text
tokens s = first_seen text_eq (split_from [] s)

abbrev pub jaccard : List Text → List Text → Ratio
jaccard [] [] = record { num = 1; den = 1 }
jaccard [] (t ∷ b) = record { num = 0; den = 1 }
jaccard (s ∷ a) [] = record { num = 0; den = 1 }
jaccard (s ∷ a) (t ∷ b) =
    let shared = length (common text_eq (s ∷ a) (t ∷ b)) in
    record { num = shared; den = length (s ∷ a) + length (t ∷ b) - shared }

unfoldable pub token_set_ratio : Text → Text → Ratio
token_set_ratio a b = jaccard (tokens a) (tokens b)

abbrev pub is_digit : ℕ → Bool
is_digit c = leb b'0' c && leb c b'9'

abbrev pub number : Text → ℕ → ℕ
number [] n = n
number (c ∷ s) n = number s (n * 10 + (c - b'0'))

abbrev pub is_year : Text → Bool
is_year run = length run == 4 && leb 1990 (number run 0) && leb (number run 0) 2035

-- a run of two digits or more that is no year
abbrev pub with_run : Text → List Text → List Text
with_run run runs = if leb 2 (length run) && not (is_year run) then run ∷ runs else runs

unfoldable pub digit_runs : Text → Text → List Text
digit_runs run [] = with_run run []
digit_runs run (c ∷ s) =
    let next = digit_runs [] s in
    let longer = digit_runs (run ++ c ∷ []) s in if is_digit c then longer else with_run run next

unfoldable pub title_number_set : Option Text → List Text
title_number_set none = []
title_number_set (some title) = first_seen text_eq (digit_runs [] title)
