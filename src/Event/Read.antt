-- ===== src/Event/Read.antt =====
-- event_read against a queue of events.
use tuxbox_git_driver.Common.{
  ℕ, ◌+◌, ◌-◌, ◌≤◌, ◌<◌, ◌≡◌, refl, ap, ◌∙◌, List, [], ◌∷◌, ◌++◌, Bool, true, false, ◌==◌, Option,
  none, some, arith, ltb, if◌then◌else◌, length, get_or, take,
}
use tuxbox_git_driver.Common.Int.{ℤ, pos}
use tuxbox_git_driver.Kernel.{eagain, erestartsys}
use tuxbox_git_driver.Circular.{wrap}
use tuxbox_git_driver.Circular.Counted.{pop_from}
use tuxbox_git_driver.Event.{
  EventPrivate, Nap, buffer_size, event_size, try_read, event_read_loop, event_read, write_each,
}
use tuxbox_git_driver.Event.Queue.{IsValid, waiting, length-waiting, keep, write_each_lem}

-- What a reader of a queue should get: the oldest event, at once or behind a sleep, unless it does not
-- want to wait or a signal comes. While it sleeps, the wanted events come in, up to the capacity.
pub spec_read : Bool → ℕ → List Nap → List ℕ → Option (ℤ × List ℕ × List ℕ)
spec_read non_blocking filter naps (ev ∷ queue) = some (pos event_size, ev ∷ [], queue)
spec_read non_blocking filter [] [] = if non_blocking then some (eagain, [], []) else none
spec_read non_blocking filter (nap ∷ naps) [] =
    let rest = spec_read non_blocking filter naps (take buffer_size (keep filter nap.brought)) in
    if non_blocking
    then some (eagain, [], [])
    else if nap.signal
    then some (erestartsys, [], [])
    else rest

-- The result with the queue that the structure stands for.
abbrev pub seen : Option (ℤ × List ℕ × EventPrivate) → Option (ℤ × List ℕ × List ℕ)
seen none = none
seen (some (ret, out, e)) = some (ret, out, waiting e)

popped : EventPrivate → EventPrivate
popped e = record e {
  event_free = e.event_free + 1;
  event_read_ptr = if e.event_read_ptr + 1 == buffer_size then 0 else e.event_read_ptr + 1;
}

-- A full structure gives its oldest event.
popped_lem :
    {e : EventPrivate}
    → IsValid e
    → 0 < length (waiting e)
    → (waiting e ≡ get_or e.event e.event_read_ptr 0 ∷ waiting (popped e)) × IsValid (popped e)
unfolding popped
popped_lem {e} v some_wait =
    let next : (if e.event_read_ptr + 1 == buffer_size then 0 else e.event_read_ptr + 1)
        ≡ wrap buffer_size (e.event_read_ptr + 1) =
      ground arith in
    let n : buffer_size - (e.event_free + 1) ≡ buffer_size - e.event_free - 1 = omega arith in
    (
      rw (next, n)
          (pop_from 0 e.event buffer_size e.event_read_ptr (buffer_size - e.event_free)
            (omega arith) v.read_ptr_in (omega (arith, length-waiting v)) (omega arith)),
      ground (arith, length-waiting v),
    )

module _ (non_blocking : Bool) where
  try_some :
      {e : EventPrivate} {ev : ℕ} {queue : List ℕ}
      → IsValid e
      → waiting e ≡ ev ∷ queue
      → (e' : EventPrivate) × (try_read true non_blocking e ≡ some (pos event_size, ev ∷ [], e'))
        × (waiting e' ≡ queue)
        × IsValid e'
  unfolding try_read popped
  try_some {e} {ev} {queue} v w =
      let (split, v') = popped_lem v (omega (arith, ap length w)) in
      let there : (e.event_free == buffer_size) ≡ false =
        ground (arith, length-waiting v, ap length w) in
      let oldest : get_or e.event e.event_read_ptr 0 ≡ ev = cc (split, w) in
      (popped e, rw (there, oldest) refl, cc (split, w), v')

  read_some :
      (naps : List Nap) {e : EventPrivate} {ev : ℕ} {queue : List ℕ}
      → IsValid e
      → waiting e ≡ ev ∷ queue
      → seen (event_read_loop true non_blocking naps e) ≡ some (pos event_size, ev ∷ [], queue)
  unfolding event_read_loop
  read_some [] v w = let (e', run, left, _) = try_some v w in rw (run, left) refl
  read_some (nap ∷ naps) v w = let (e', run, left, _) = try_some v w in ground (arith, run, left)

  read_none :
      {e : EventPrivate}
      → IsValid e
      → waiting e ≡ []
      → try_read true non_blocking e ≡ (if non_blocking then some (eagain, [], e) else none)
  unfolding try_read
  read_none {e} v w =
      let empty : (e.event_free == buffer_size) ≡ true =
        ground (arith, length-waiting v, ap length w) in
      rw empty refl

  loop_refines :
      (naps : List Nap) (queue : List ℕ) {e : EventPrivate}
      → IsValid e
      → waiting e ≡ queue
      → seen (event_read_loop true non_blocking naps e)
        ≡ spec_read non_blocking e.event_filter naps queue
  unfolding spec_read event_read_loop
  loop_refines [] (ev ∷ queue) v w = read_some [] v w
  loop_refines (nap ∷ naps) (ev ∷ queue) v w = read_some (nap ∷ naps) v w
  loop_refines [] [] v w = ground (arith, read_none v w, w)
  loop_refines (nap ∷ naps) [] {e} v w =
      let (came, v', same) = write_each_lem nap.brought v in
      let queue = take buffer_size (keep e.event_filter nap.brought) in
      let w' : waiting (write_each nap.brought e) ≡ queue =
        came ∙ ap (λ q. q ++ take (buffer_size - length q) (keep e.event_filter nap.brought)) w in
      let rest = loop_refines naps queue v' w' in
      let rest' : seen (event_read_loop true non_blocking naps (write_each nap.brought e))
          ≡ spec_read non_blocking e.event_filter naps queue =
        cc (rest, same) in
      ground (arith, read_none v w, w, rest')

-- event_read, where put_user succeeds, for at least the size of an event: on a well-formed structure it
-- does what a reader of a queue should get, on every path, and through any number of sleeps.
pub event_read_refines :
    (non_blocking : Bool) (count : ℕ) (naps : List Nap) {e : EventPrivate}
    → IsValid e
    → event_size ≤ count
    → seen (event_read true non_blocking count naps e)
      ≡ spec_read non_blocking e.event_filter naps (waiting e)
unfolding event_read
event_read_refines non_blocking count naps {e} v enough =
    let fits : ltb count event_size ≡ false = ground arith in
    rw fits (loop_refines non_blocking naps (waiting e) v refl)
