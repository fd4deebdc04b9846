-- ===== src/Radar/Batch.antt =====
-- `_select_crawl_batch` of server/workers/tasks/radar.py. A playlist without a date of change or
-- creation sorts as the oldest.
use diggy.Prelude.{
  ℕ, zero, suc, ◌+◌, ◌-◌, ◌≤◌, ◌≡◌, refl, sym, ap, subst, ◌∙◌, Bool, true, false, not, ◌||◌, Option,
  none, some, List, [], ◌∷◌, arith, ltb, leb, if◌then◌else◌, or_else, inl, inr, Bool-cases, filter,
  take, drop, count, min, length, All, All-filter_self, All-take, length-take, length-filter,
}
use diggy.Prelude.Sort.{sort_by, sort_by-IsSorted, length-sort_by, All-sort_by, take-before-drop}
use diggy.Radar.Cadence.{Decision, crawl, wait, crawl_decision}

pub record Playlist : Type 0 where
  pub id : ℕ
  pub has_followers : Bool
  pub last_changed_at : Option ℕ
  pub created_at : Option ℕ
  pub last_crawled_at : Option ℕ

abbrev pub is_crawl : Decision → Bool
is_crawl crawl = true
is_crawl wait = false

unfoldable pub is_due : ℕ → Playlist → Bool
is_due now pl =
    is_crawl
      (crawl_decision now pl.has_followers pl.last_changed_at pl.created_at pl.last_crawled_at)

-- no date sorts below every date
abbrev pub oldest_first : Option ℕ → Option ℕ → Bool
oldest_first none b = true
oldest_first (some a) none = false
oldest_first (some a) (some b) = leb a b

-- eligible.sort(key=..., reverse=True)
unfoldable pub newest_first : Playlist → Playlist → Bool
newest_first a b =
    oldest_first (or_else b.last_changed_at b.created_at) (or_else a.last_changed_at a.created_at)

-- eligible.sort(key=lambda pl: not pl["has_followers"])
unfoldable pub followed_first : Playlist → Playlist → Bool
followed_first a b = a.has_followers || not b.has_followers

pub record CrawlBatch : Type 0 where
  pub batch : List Playlist
  pub skipped_cadence : ℕ
  pub dropped_by_cap : ℕ

abbrev pub by_priority : ℕ → List Playlist → List Playlist
by_priority now playlists =
    sort_by followed_first (sort_by newest_first (filter (is_due now) playlists))

unfoldable pub select_crawl_batch : List Playlist → ℕ → ℕ → CrawlBatch
select_crawl_batch playlists now max_dispatch =
    let eligible = by_priority now playlists in
    record {
      batch = if ltb max_dispatch (length eligible) then take max_dispatch eligible else eligible;
      skipped_cadence = count (λ pl. not (is_due now pl)) playlists;
      dropped_by_cap =
          if ltb max_dispatch (length eligible) then length eligible - max_dispatch else 0;
    }

followed_first_total : (a b : Playlist) → followed_first a b ≡ false → followed_first b a ≡ true
unfolding followed_first
followed_first_total a b h = ground arith

followed_first_trans :
    (a b c : Playlist)
    → followed_first a b ≡ true
    → followed_first b c ≡ true
    → followed_first a c ≡ true
unfolding followed_first
followed_first_trans a b c h k = ground arith

take_short : (n : ℕ) (xs : List Playlist) → length xs ≤ n → take n xs ≡ xs
take_short zero [] h = refl
take_short zero (x ∷ xs) h = absurd (omega arith)
take_short (suc n) [] h = refl
take_short (suc n) (x ∷ xs) h = ap (λ ys. x ∷ ys) (take_short n xs (omega arith))

batch-eq-take :
    (playlists : List Playlist) (now n : ℕ)
    → (select_crawl_batch playlists now n).batch ≡ take n (by_priority now playlists)
unfolding select_crawl_batch
batch-eq-take playlists now n = elim (Bool-cases (ltb n (length (by_priority now playlists)))) [
  | inl e ↦ rw e refl
  | inr e ↦ rw e (sym (take_short n (by_priority now playlists) (ground arith)))
]

count_split :
    (p : Playlist → Bool) (xs : List Playlist) → count p xs + count (λ x. not (p x)) xs ≡ length xs
count_split p [] = omega arith
count_split p (x ∷ xs) = ground (arith, count_split p xs)

dropped-eq :
    (playlists : List Playlist) (now n : ℕ)
    → (select_crawl_batch playlists now n).dropped_by_cap ≡ length (by_priority now playlists) - n
unfolding select_crawl_batch
dropped-eq playlists now n = elim (Bool-cases (ltb n (length (by_priority now playlists)))) [
  | inl e ↦ rw e refl
  | inr e ↦ rw e (ground arith)
]

skipped-eq :
    (playlists : List Playlist) (now n : ℕ)
    → (select_crawl_batch playlists now n).skipped_cadence
      ≡ count (λ pl. not (is_due now pl)) playlists
unfolding select_crawl_batch
skipped-eq playlists now n = refl

length-by_priority :
    (playlists : List Playlist) (now : ℕ)
    → length (by_priority now playlists) ≡ count (is_due now) playlists
length-by_priority playlists now =
    let due = filter (is_due now) playlists in
    length-sort_by followed_first (sort_by newest_first due)
    ∙ length-sort_by newest_first due
    ∙ length-filter (is_due now) playlists

-- What is crawled in a run: every playlist of the batch is due, no more than the cap are, every
-- playlist is in the batch or counted as skipped or as dropped, and while a playlist that someone
-- follows is dropped none is crawled that nobody follows.
pub select_crawl_batch-bounds :
    (playlists : List Playlist) (now n : ℕ)
    → let r = select_crawl_batch playlists now n in
      All (λ pl. is_due now pl ≡ true) r.batch
      × (length r.batch ≤ n)
      × (length r.batch + r.skipped_cadence + r.dropped_by_cap ≡ length playlists)
      × All
          (λ pl. All (λ other. followed_first pl other ≡ true) (drop n (by_priority now playlists)))
          r.batch
select_crawl_batch-bounds playlists now n =
    let due = filter (is_due now) playlists in
    let newest = sort_by newest_first due in
    let all = by_priority now playlists in
    let is : Playlist → Type 0 = λ pl. is_due now pl ≡ true in
    let all_due =
      All-sort_by followed_first is newest
        (All-sort_by newest_first is due (All-filter_self (is_due now) playlists)) in
    let sorted = sort_by-IsSorted followed_first followed_first_total followed_first_trans newest in
    let e = batch-eq-take playlists now n in
    let size : length (select_crawl_batch playlists now n).batch ≡ min n (length all) =
      ap length e ∙ length-take n all in
    let whole = length-by_priority playlists now in
    let split = count_split (is_due now) playlists in
    let dropped = dropped-eq playlists now n in
    let skipped = skipped-eq playlists now n in
    (
      subst (λ xs. All is xs) (sym e) (All-take is n all all_due),
      omega (arith, size),
      omega (arith, size, whole, split, dropped, skipped),
      subst (λ xs. All (λ pl. All (λ other. followed_first pl other ≡ true) (drop n all)) xs)
          (sym e) (take-before-drop followed_first n all sorted),
    )
