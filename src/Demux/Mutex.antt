-- ===== src/Demux/Mutex.antt =====
-- What each call on feeds leaves of the semaphore and of the list of active feeds.
use tuxbox_git_driver.Common.{
  ℕ, ◌≡◌, inl, inr, refl, List, [], ◌∷◌, Bool, true, false, some, arith, ltb, get_elem?, Bool-cases,
  Option-cases,
}
use tuxbox_git_driver.Demux.Types.{DemuxFilter, DemuxFeed, Demux}
use tuxbox_git_driver.Demux.Filter.{prepare_filter}
use tuxbox_git_driver.Demux.Calls.{
  Call, done, hangs, faults, Driver, down_interruptible, put_feed, put_filter, feed_add, feed_del,
  feed_alloc, filter_alloc, feed_find, unlink,
}
use tuxbox_git_driver.Demux.Search.{feed_alloc-some, filter_alloc-some}
use tuxbox_git_driver.Demux.TsFeed
use tuxbox_git_driver.Demux.SecFeed
use tuxbox_git_driver.Demux.TsFeed.{
  max_pid, TsParams, claim_decoder, allocate_ts_feed, ts_feed_set, ts_feed_start_filtering,
  ts_feed_stop_filtering, free_first, release_ts_feed, set_fields,
}
use tuxbox_git_driver.Demux.SecFeed.{
  allocate_section_feed, allocate_filter, section_feed_set, section_feed_start_filtering,
  section_feed_stop_filtering, drop_filter, release_filter, release_section_feed,
  prepare_secfilters,
}

-- No feed stands twice in a list.
abbrev pub Distinct : List ℕ → Type 0
Distinct [] = Unit {0}
Distinct (i ∷ l) = (feed_find i l ≡ false) × Distinct l

feed_find-unlink_ne :
    (i j : ℕ) (l : List ℕ) → feed_find j l ≡ false → feed_find j (unlink i l) ≡ false
unfolding feed_find unlink
feed_find-unlink_ne i j [] h = refl
feed_find-unlink_ne i j (k ∷ l) h = ground (arith, feed_find-unlink_ne i j l)

unlink-Distinct : (i : ℕ) (l : List ℕ) → Distinct l → Distinct (unlink i l)
unfolding unlink
unlink-Distinct i [] h = h
unlink-Distinct i (j ∷ l) h = ground (arith, unlink-Distinct i l h.1, feed_find-unlink_ne i j l h.0)

pub feed_find-unlink_self : (i : ℕ) (l : List ℕ) → Distinct l → feed_find i (unlink i l) ≡ false
unfolding unlink feed_find
feed_find-unlink_self i [] h = refl
feed_find-unlink_self i (j ∷ l) h = ground (arith, feed_find-unlink_self i l h.1)

-- The call returns, with the semaphore at m and no feed listed twice. It neither waits for good nor
-- follows a pointer outside the arrays.
abbrev pub Orderly : ℕ → Call → Type 0
Orderly m (done ret d) = (d.mutex ≡ m) × Distinct d.feed_list
Orderly m (hangs d) = ⊥
Orderly m (faults d) = ⊥

down_interruptible-Orderly :
    (signal : Bool) (d : Demux) (follows : Demux → Call)
    → d.mutex ≡ 1
    → Orderly 1 (follows (record d { mutex = 0 }))
    → Orderly 1 (down_interruptible signal d follows)
unfolding down_interruptible
down_interruptible-Orderly signal d follows h b = ground (arith, b)

feed_add-Orderly :
    (i : ℕ) (d : Demux)
    → Distinct d.feed_list
    → ((feed_add i d).mutex ≡ d.mutex) × Distinct (feed_add i d).feed_list
unfolding feed_add
feed_add-Orderly i d h = ground arith

feed_del-Orderly :
    (i : ℕ) (d : Demux)
    → Distinct d.feed_list
    → ((feed_del i d).mutex ≡ d.mutex) × Distinct (feed_del i d).feed_list
unfolding feed_del
feed_del-Orderly i d h = ground (arith, unlink-Distinct i d.feed_list h)

module _ (signal : Bool) (d : Demux) (open_mutex : d.mutex ≡ 1)
    (distinct : Distinct d.feed_list) where
  pub allocate_ts_feed-Orderly : Orderly 1 (allocate_ts_feed signal d)
  unfolding allocate_ts_feed
  allocate_ts_feed-Orderly =
      let inside : Demux = record d { mutex = 0 } in
      down_interruptible-Orderly signal d _ open_mutex (elim (Option-cases (feed_alloc inside)) [
        | inl e ↦ ground arith
        | inr (i, e) ↦
            let (feed, at) = feed_alloc-some inside i e in
            elim (Option-cases (filter_alloc inside)) [
              | inl e' ↦ ground arith
              | inr (j, e') ↦ ground (arith, filter_alloc-some inside j e')
            ]
      ])

  pub allocate_section_feed-Orderly : Orderly 1 (allocate_section_feed signal d)
  unfolding allocate_section_feed
  allocate_section_feed-Orderly =
      let inside : Demux = record d { mutex = 0 } in
      down_interruptible-Orderly signal d _ open_mutex (elim (Option-cases (feed_alloc inside)) [
        | inl e ↦ ground arith
        | inr (i, e) ↦ ground (arith, feed_alloc-some inside i e)
      ])

module _ (signal : Bool) (d : Demux) (open_mutex : d.mutex ≡ 1) (distinct : Distinct d.feed_list)
    (i : ℕ) (feed : DemuxFeed) (known : get_elem? d.feed i ≡ some feed) where
  pub allocate_filter-Orderly : Orderly 1 (allocate_filter signal i d)
  unfolding allocate_filter
  allocate_filter-Orderly =
      let inside : Demux = record d { mutex = 0 } in
      down_interruptible-Orderly signal d _ open_mutex (elim (Option-cases (filter_alloc inside)) [
        | inl e ↦ ground arith
        | inr (j, e) ↦ ground (arith, filter_alloc-some inside j e)
      ])

  pub ts_feed_set-Orderly : (q : TsParams) → Orderly 1 (ts_feed_set signal i q d)
  unfolding ts_feed_set TsFeed.set_locked claim_decoder feed_add
  ts_feed_set-Orderly q = elim (Bool-cases (ltb max_pid q.pid)) [
    | inl high ↦ rw high (open_mutex, distinct)
    | inr fits ↦
        rw fits
          (down_interruptible-Orderly signal d (TsFeed.set_locked i q) open_mutex (ground arith))
  ]

  pub section_feed_set-Orderly :
      (pid size : ℕ) (descramble check_crc : Bool)
      → Orderly 1 (section_feed_set signal i pid size descramble check_crc d)
  unfolding section_feed_set SecFeed.set_locked feed_add
  section_feed_set-Orderly pid size descramble check_crc = elim (Bool-cases (ltb 0x1fff pid)) [
    | inl high ↦ rw high (open_mutex, distinct)
    | inr fits ↦ rw fits (
        down_interruptible-Orderly signal d (SecFeed.set_locked i pid size descramble check_crc)
          open_mutex (ground arith))
  ]

  pub release_ts_feed-Orderly :
      (j : ℕ) (more : List ℕ) (filter : DemuxFilter)
      → feed.filter ≡ j ∷ more
      → get_elem? d.filter j ≡ some filter
      → Orderly 1 (release_ts_feed signal i d)
  unfolding release_ts_feed feed_del free_first
  release_ts_feed-Orderly j more filter first held =
      down_interruptible-Orderly signal d _ open_mutex
        (ground (arith, unlink-Distinct i d.feed_list distinct))

  pub release_section_feed-Orderly : Orderly 1 (release_section_feed signal i d)
  unfolding release_section_feed feed_del
  release_section_feed-Orderly =
      down_interruptible-Orderly signal d _ open_mutex
        (ground (arith, unlink-Distinct i d.feed_list distinct))

prepare_secfilters-Orderly :
    (l : List ℕ) (d : Demux)
    → Distinct d.feed_list
    → let d' = prepare_secfilters l d in (d'.mutex ≡ d.mutex) × Distinct d'.feed_list
unfolding prepare_secfilters
prepare_secfilters-Orderly [] d h = (refl, h)
prepare_secfilters-Orderly (j ∷ l) d h = elim (Option-cases (get_elem? d.filter j)) [
  | inl e ↦ ground (arith, prepare_secfilters-Orderly l d h)
  | inr (f, e) ↦ ground (arith, prepare_secfilters-Orderly l (put_filter d j (prepare_filter f)) h)
]

module _ (driver : Driver) (signal : Bool) (d : Demux) (open_mutex : d.mutex ≡ 1)
    (distinct : Distinct d.feed_list) (i : ℕ) (feed : DemuxFeed)
    (known : get_elem? d.feed i ≡ some feed) where
  pub ts_start-Orderly : Orderly 1 (ts_feed_start_filtering driver signal i d)
  unfolding ts_feed_start_filtering
  ts_start-Orderly = down_interruptible-Orderly signal d _ open_mutex (ground arith)

  pub ts_stop-Orderly : Orderly 1 (ts_feed_stop_filtering driver signal i d)
  unfolding ts_feed_stop_filtering
  ts_stop-Orderly = down_interruptible-Orderly signal d _ open_mutex (ground arith)

  pub sec_stop-Orderly : Orderly 1 (section_feed_stop_filtering driver signal i d)
  unfolding section_feed_stop_filtering
  sec_stop-Orderly = down_interruptible-Orderly signal d _ open_mutex (ground arith)

  pub sec_start-Orderly : Orderly 1 (section_feed_start_filtering driver signal i d)
  unfolding section_feed_start_filtering
  sec_start-Orderly = down_interruptible-Orderly signal d _ open_mutex (
      ground (
        arith,
        prepare_secfilters-Orderly feed.filter
            (put_feed (record d { mutex = 0 }) i (SecFeed.rewound feed)) distinct,
      ))

  -- With the feed not filtering.
  pub release_filter-Orderly :
      (j : ℕ) (filter : DemuxFilter)
      → get_elem? d.filter j ≡ some filter
      → feed_find j feed.filter ≡ true
      → feed.is_filtering ≡ false
      → Orderly 1 (release_filter driver signal i j d)
  unfolding release_filter drop_filter
  release_filter-Orderly j filter held listed idle =
      down_interruptible-Orderly signal d _ open_mutex (ground arith)
