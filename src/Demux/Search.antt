-- ===== src/Demux/Search.antt =====
-- The searches of dvb_dmx_feed_alloc and dvb_dmx_filter_alloc find entries of the arrays.
use tuxbox_git_driver.Common.{
  ℕ, suc, ◌+◌, ◌-◌, ◌≤◌, ◌≡◌, List, [], ◌∷◌, true, some, arith, get_elem?, Bool-cases, inl, inr,
}
use tuxbox_git_driver.Demux.Types.{DemuxFilter, DemuxFeed, Demux}
use tuxbox_git_driver.Demux.Calls.{is_free, free_feed, free_filter, feed_alloc, filter_alloc}

-- The loop stops at a free feed, or there is none.
pub free_feed-some :
    (fs : List DemuxFeed) (i k : ℕ)
    → free_feed fs i ≡ some k
    → (f : DemuxFeed) × (i ≤ k) × (get_elem? fs (k - i) ≡ some f) × (is_free f.state ≡ true)
unfolding free_feed
free_feed-some [] i k e = cc
free_feed-some (f ∷ fs) i k e = elim (Bool-cases (is_free f.state)) [
  | inl h ↦
      let same : i ≡ k = ground arith in
      let at : k - i ≡ 0 = omega arith in (f, omega arith, rw at, h)
  | inr h ↦
      let (g, le, at, fr) = free_feed-some fs (i + 1) k (ground arith) in
      let next : k - i ≡ suc (k - (i + 1)) = omega arith in (g, omega arith, rw next at, fr)
]

-- The loop stops at a free filter, or there is none.
pub free_filter-some :
    (fs : List DemuxFilter) (i k : ℕ)
    → free_filter fs i ≡ some k
    → (f : DemuxFilter) × (i ≤ k) × (get_elem? fs (k - i) ≡ some f) × (is_free f.state ≡ true)
unfolding free_filter
free_filter-some [] i k e = cc
free_filter-some (f ∷ fs) i k e = elim (Bool-cases (is_free f.state)) [
  | inl h ↦
      let same : i ≡ k = ground arith in
      let at : k - i ≡ 0 = omega arith in (f, omega arith, rw at, h)
  | inr h ↦
      let (g, le, at, fr) = free_filter-some fs (i + 1) k (ground arith) in
      let next : k - i ≡ suc (k - (i + 1)) = omega arith in (g, omega arith, rw next at, fr)
]

-- What the searches give is in the arrays.
pub feed_alloc-some :
    (d : Demux) (k : ℕ) → feed_alloc d ≡ some k → (f : DemuxFeed) × (get_elem? d.feed k ≡ some f)
unfolding feed_alloc
feed_alloc-some d k e =
    let (f, _, at, _) = free_feed-some d.feed 0 k e in
    let z : k - 0 ≡ k = omega arith in (f, rw z at at)

pub filter_alloc-some :
    (d : Demux) (k : ℕ)
    → filter_alloc d ≡ some k
    → (f : DemuxFilter) × (get_elem? d.filter k ≡ some f)
unfolding filter_alloc
filter_alloc-some d k e =
    let (f, _, at, _) = free_filter-some d.filter 0 k e in
    let z : k - 0 ≡ k = omega arith in (f, rw z at at)
