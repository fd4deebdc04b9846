-- ===== src/Families/Duplicates/Tracklist.antt =====
-- What `_merge_duplicates` makes of the tracks of all children.
use diggy.Prelude.{
  ℕ, ◌≡◌, refl, Bool, true, false, Option, List, [], arith, any, count, All, All-of,
}
use mathlib.Core.List.{Memᴰ}
use diggy.Prelude.Text.{Text}
use diggy.Prelude.Int.{ℤ}
use diggy.Prelude.Sort.{IsSorted, sort_by-IsSorted, count-sort_by, All-sort_by}
use diggy.Families.Rows.{DjSet, Track, Env}
use diggy.Families.Duplicates.{
  has_mtid, by_mtid, has_key, by_key, timecode_le, track_le, all_tracks, deduped, merge_duplicates,
}
use diggy.Families.Duplicates.Passes.{IsOnce, All-by_mtid, count-by_mtid, unidentified}
use diggy.Families.Duplicates.Keys.{All-by_key, count-by_key_le, count-by_key, unnamed}

timecode_total : (a b : Option ℤ) → timecode_le a b ≡ false → timecode_le b a ≡ true
timecode_total a b h = ground arith

timecode_trans :
    (a b c : Option ℤ) → timecode_le a b ≡ true → timecode_le b c ≡ true → timecode_le a c ≡ true
timecode_trans a b c h k = ground arith

-- `result` has each identified track once and each named track once, holds nothing but tracks of
-- `all`, and is in the order of the timecodes, unknown ones last.
pub record IsTracklist (env : Env) (all result : List Track) : Type 0 where
  pub once_by_mtid : (m : ℕ) → IsOnce (has_mtid m) result
  pub once_by_key : (k : Text) → IsOnce (has_key env k) result
  pub in_order : IsSorted track_le result
  pub from_all : All (λ t. Memᴰ t all) result

-- Between `all` and `result` stands a pool of tracks of `all`, one of each id in `all` and all that
-- are unidentified; `result` holds tracks of the pool, one of each key in the pool and all that are
-- unnamed.
pub record IsComplete (env : Env) (all pool result : List Track) : Type 0 where
  pub pool_from_all : All (λ t. Memᴰ t all) pool
  pub pool_once : (m : ℕ) → IsOnce (has_mtid m) pool
  pub from_pool : All (λ t. Memᴰ t pool) result
  pub result_once : (k : Text) → IsOnce (has_key env k) result
  pub same_mtids : (m : ℕ) → any (has_mtid m) pool ≡ any (has_mtid m) all
  pub same_unidentified :
      (q : Track → Bool) → count (unidentified q) pool ≡ count (unidentified q) all
  pub same_keys : (k : Text) → any (has_key env k) result ≡ any (has_key env k) pool
  pub same_unnamed : (q : Track → Bool) → count (unnamed env q) result ≡ count (unnamed env q) pool

module _ (env : Env) where
  deduped-IsTracklist : (all : List Track) → IsTracklist env all (deduped env all)
  unfolding deduped
  deduped-IsTracklist all =
      let pool = by_mtid [] [] all in
      let best = by_key env [] pool in
      record {
        once_by_mtid = λ m. omega (
          arith,
          count-sort_by track_le (has_mtid m) best,
          count-by_key_le env (has_mtid m) pool [],
          count-by_mtid m all [] [] refl (omega arith),
        );
        once_by_key = λ k. omega (
          arith,
          count-sort_by track_le (has_key env k) best,
          count-by_key env k pool [] (omega arith),
        );
        in_order =
            sort_by-IsSorted track_le (λ x y. timecode_total x.timecode_ms y.timecode_ms)
              (λ x y z. timecode_trans x.timecode_ms y.timecode_ms z.timecode_ms) best;
        from_all =
            All-sort_by track_le (λ t. Memᴰ t all) best
              (All-by_key env (λ t. Memᴰ t all) pool [] tt
                (All-by_mtid (λ t. Memᴰ t all) all [] [] tt tt
                  (All-of (λ t. Memᴰ t all) all (λ x m. m))));
      }

  -- The merged tracklist of duplicates has no identified track twice and no named track twice, is
  -- in the order of the timecodes, with unknown ones last, and holds only tracks of the children on
  -- the clock of the one that identifies most.
  pub merge_duplicates-IsTracklist :
      (tracks : ℕ → List Track) (c : DjSet) (cs : List DjSet)
      → IsTracklist env (all_tracks tracks c cs) (merge_duplicates env tracks c cs)
  unfolding merge_duplicates
  merge_duplicates-IsTracklist tracks c cs = deduped-IsTracklist (all_tracks tracks c cs)
