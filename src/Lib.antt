-- ===== src/Lib.antt =====
-- Verification of the core rules of diggy, a DJ's radar of new releases and his catalog of tracks,
-- artists and DJ sets. The program is a web API (server/api) and a set of Celery workers
-- (server/workers) over one PostgreSQL database, in Python. Crawls bring tracks into playlists
-- (the radar) and into a catalog, where duplicates are merged; sets from several sources are
-- matched with one another; a cohort of artists is recomputed each night and followed for
-- releases; sets that are one performance come under a virtual parent, by a matching of tracklists
-- or by the rules for twins; and every request to an outside service passes a rate limiter.
--
-- The files, by part:
--
-- - Prelude and its children are shared: Boolean tests over the native ℕ, lists and their lemmas
--   (Lists), sets of ids (Sets), distinct elements (Distinct), an insertion sort with its laws
--   (Sort), integers (Int), membership (Members), and characters, words and decimals (Text).
--
-- - Catalog models server/workers/catalog_merge.py with the models in server/api/models. Rows
--   holds the tables that reference catalog.id, and Db, a record of one list of rows per table.
--   Canonical is pick_canonical (the sort key, and the least row under it). Repoint is
--   _repoint_composite and _repoint_simple over any table with an owner and a second column, an
--   interface (Linked) that Keys fills for each table. Absorb is the part of merge_catalog_entries
--   that fills the columns of the canonical from the loser, the unique ones last. Merge is
--   merge_catalog_entries: repoint_all has the statements in the code's order, delete_entry is the
--   DELETE with the ON DELETE rules of the foreign keys, and an Outcome tells a ValueError or an
--   integrity error from a finished merge. Dedup is server/workers/catalog_dedup.py, the guard
--   that merges a row into one that has its platform id already, with same_track.
--
-- - Artists models server/workers/artist_merge.py, merge_artist_into, over every table that
--   references artists.id and the two that name an artist without a foreign key, with the two
--   linked tables of the catalog merge again (Catalog.Repoint) and the moves of the aliases. Moved
--   is about the links, Names about the names an artist is found under, and Unique about the
--   UNIQUE constraint on the aliases. normalize of server/api/utils.py is a parameter.
--
-- - Cohort models server/workers/cohort.py and server/api/services/cohort_service.py. Signals is
--   the collection of the signals from the tables, Tier is compute_tier, Recompute is
--   recompute_cohort (the upsert loop, the sweep and the statistics; its child Flush adds the
--   foreign key to the artists, which the flush checks), Due is select_due_cohort_ids, and Service
--   is set_override and list_cohort. The state is the list of cohort rows.
--
-- - Sets models server/api/services/set_dedup_service.py. Ratio holds exact fractions, Titles is
--   token_set_ratio and _title_number_set, Levenshtein is _levenshtein_ratio row by row, Signals
--   is compute_signals and its helpers, Confidence is compute_confidence, and Verdict is
--   decide_verdict with its thresholds. Signals, Confidence and Verdict are run in this order on
--   each pair of sets.
--
-- - Families models the second half of server/api/services/set_dedup_service.py over the tables of
--   sets, their tracks, artists and flags (Rows, FamilyDb); a call returns a Result, which is a
--   value or what was raised. Duplicates is _merge_duplicates, Parts is _same_track and
--   _merge_parts, Metadata is sync_parent_metadata with its helpers, Parents is
--   find_or_create_virtual_parent, materialize_parent, attach_pair, _attach_group_members and
--   detach_set_from_parent, and Flags is attach_flag, reject_flag, group_dates_coherent and
--   apply_match_results. The children of Parents and Flags are about what a call leaves alone,
--   those of Forest about the shape of the families: the ids, the parents and which sets are
--   virtual.
--
-- - Twins models server/api/services/set_twin_rules.py and set_twin_service.py, on top of
--   Families. Dates is the calendar that _signature_dates uses, Words and Urls hold the constants,
--   Rules the comparison of two sets and Rules.Decision is decide_twin step by step; Search is
--   _search_candidates and _evaluate, Choice is _choose, and Reconcile is _families_with_decision,
--   plan_twin_for_set, apply_twin_plan, reconcile_twins_for_set and reconcile_twins_best_effort.
--   An attachment is a call of attach_pair of Families.
--
-- - Opinions models server/api/services/opinion_sync.py over the tables of opinions, owned tracks,
--   radar states and follows.
--
-- - Limits models server/workers/rate_limiter.py: Bucket is the token bucket of a process, and
--   Window the window that all processes share, each as a sequence of turns.
--
-- - Radar models server/workers/tasks/radar.py (Cadence is the adaptive cadence of a playlist,
--   Batch the choice of the playlists of a run) and bulk_insert_radar_tracks of
--   server/workers/db.py (Diff).
--
-- Conventions. A table is a list of its rows, in an order that no result depends on unless the
-- code sorts; a query is a filter, and an UPDATE or DELETE acts on every row that its WHERE holds
-- of. Optional columns are Option. Times and dates are ℕ (seconds, hundredths or days, as each
-- file says). Scores that the code keeps as floats are exact fractions, or numbers of ten-
-- thousandths where the code rounds to four places, so that what a float would lose is outside the
-- model. Subtraction on ℕ stops at zero where the code's result cannot be negative; a rank
-- correlation, which can be, is an integer over a natural number.
--
-- Every function is total, as the language demands. All loops are structural recursion except the
-- printing of a decimal (Prelude.Text), which takes the number plus one as its fuel: each step
-- divides by ten, so that it is always enough.
--
-- Parameters. Redis is an interface (Limits.Window.Redis) whose laws are those of INCR; the weight
-- of a track in the overlap of two sets is a function on track ids; the catalog id of a crawled
-- track is a function on source tracks. Families.Rows.Env holds normalize, str.isalpha, the
-- pattern of a raw channel id, the dates in a title and whether the copy of an image succeeds;
-- Twins.Rules.TwinEnv holds _parse_title, _fold_title, _episode_number and video_id_from_url.
-- Catalog.Dedup takes normalize_track_title. No theorem assumes anything of these.
--
-- Not modelled: regular expressions and Unicode tables (normalize_track_title, search_fold, the
-- dates in a title), whose results are part of the data; how match_set and score_pair fetch what
-- they compare; the transactions of the database, but for the savepoint of
-- reconcile_twins_best_effort, concurrent workers apart from the shared window, and the task
-- queue; the clients of outside services; the frontend and the migrations.
pub mod Prelude
pub mod Artists
pub mod Catalog
pub mod Cohort
pub mod Families
pub mod Limits
pub mod Opinions
pub mod Radar
pub mod Sets
pub mod Twins
