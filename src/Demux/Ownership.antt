-- ===== src/Demux/Ownership.antt =====
-- Which feed an allocation takes, and what is left of a feed after its release.
use tuxbox_git_driver.Common.{
  ℕ, ◌+◌, ◌-◌, ◌≡◌, List, [], ◌∷◌, Bool, true, false, none, some, arith, ◌⊎◌, get_elem?,
  Option-cases, Bool-cases, inl, inr,
}
use tuxbox_git_driver.Common.Int.{pos}
use tuxbox_git_driver.Kernel.{ebusy}
use tuxbox_git_driver.Demux.Types.{DemuxFeed, Demux}
use tuxbox_git_driver.Demux.Calls.{
  done, down_interruptible, put_feed, is_free, feed_alloc, free_feed, feed_del, feed_find,
}
use tuxbox_git_driver.Demux.TsFeed.{release_ts_feed, free_first}
use tuxbox_git_driver.Demux.SecFeed.{allocate_section_feed, release_section_feed, fresh_sec}
use tuxbox_git_driver.Demux.Search.{free_feed-some}
use tuxbox_git_driver.Demux.Mutex.{Distinct, feed_find-unlink_self}

-- No feed is in state DMX_STATE_FREE.
abbrev pub AllTaken : List DemuxFeed → Type 0
AllTaken [] = Unit {0}
AllTaken (f ∷ fs) = (is_free f.state ≡ false) × AllTaken fs

free_feed-none : (fs : List DemuxFeed) (i : ℕ) → free_feed fs i ≡ none → AllTaken fs
unfolding free_feed
free_feed-none [] i e = tt
free_feed-none (g ∷ fs) i e = elim (Bool-cases (is_free g.state)) [
  | inl h ↦ ground arith
  | inr h ↦ (h, free_feed-none fs (i + 1) (ground arith))
]

allocate_taken :
    (signal : Bool) (d : Demux) (k : ℕ) (f : DemuxFeed)
    → d.mutex ≡ 1
    → free_feed d.feed 0 ≡ some k
    → get_elem? d.feed k ≡ some f
    → allocate_section_feed signal d ≡ done (pos 0) (put_feed d k (fresh_sec f))
unfolding allocate_section_feed down_interruptible feed_alloc
allocate_taken signal d k f m e at = ground arith

-- With the semaphore free, dvbdmx_allocate_section_feed either returns -EBUSY, with no feed in
-- state DMX_STATE_FREE, and changes nothing, or it returns 0 and takes a feed that was free, which
-- is then allocated, stopped, without filters and on no PID, and changes nothing else.
pub allocate_section_feed_lem :
    (signal : Bool) (d : Demux)
    → d.mutex ≡ 1
    → ((allocate_section_feed signal d ≡ done ebusy d) × AllTaken d.feed)
      ⊎ ((i : ℕ) × (f : DemuxFeed) × (get_elem? d.feed i ≡ some f)
          × (is_free f.state ≡ true)
          × (allocate_section_feed signal d ≡ done (pos 0) (put_feed d i (fresh_sec f))))
unfolding allocate_section_feed down_interruptible feed_alloc
allocate_section_feed_lem signal d m = elim (Option-cases (free_feed d.feed 0)) [
  | inl e ↦ inl (ground arith, free_feed-none d.feed 0 e)
  | inr (k, e) ↦
      let (f, _, at, fr) = free_feed-some d.feed 0 k e in
      let here : get_elem? d.feed k ≡ some f = let z : k - 0 ≡ k = omega arith in rw z at at in
      inr (k, f, here, fr, allocate_taken signal d k f m e here)
]

-- With the semaphore free and no feed listed twice, a feed that dvbdmx_release_ts_feed or
-- dvbdmx_release_section_feed released is not in the list of active feeds any more.
pub release_unlisted :
    (signal : Bool) (i : ℕ) (d d' : Demux)
    → d.mutex ≡ 1
    → Distinct d.feed_list
    → (release_ts_feed signal i d ≡ done (pos 0) d')
      ⊎ (release_section_feed signal i d ≡ done (pos 0) d')
    → feed_find i d'.feed_list ≡ false
unfolding release_ts_feed release_section_feed down_interruptible feed_del free_first
release_unlisted signal i d d' m h (inl e) = ground (arith, feed_find-unlink_self i d.feed_list h)
release_unlisted signal i d d' m h (inr e) = ground (arith, feed_find-unlink_self i d.feed_list h)
