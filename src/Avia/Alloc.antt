-- ===== src/Avia/Alloc.antt =====
-- avia_gt_dmx_alloc_queue and _user: the allocation of queues. Registers are left out.
use tuxbox_git_driver.Common.{
  ℕ, zero, suc, ◌+◌, ◌<◌, ◌≤◌, ◌≡◌, refl, sym, subst, List, Bool, true, false, not, ◌||◌, Option,
  none, some, arith, leb, if◌then◌else◌, set, inl, inr, Bool-cases, ℕ_discrete, ◌⊎◌,
}
use tuxbox_git_driver.Common.Int.{ℤ, pos}
use tuxbox_git_driver.Kernel.{einval, efault}
use tuxbox_git_driver.Avia.{Queue, at, queue_message, queue_count, user_start}

-- avia_gt_dmx_alloc_queue, without the registers; the result is whether there is a queue.
unfoldable pub alloc_queue : Option ℕ → Option ℕ → ℕ → List Queue → Bool × List Queue
alloc_queue irq_proc cb_proc n queue_list =
    let q = at queue_list n in
    if leb queue_count n || q.busy then (false, queue_list) else (
      true,
      set queue_list n (record q {
        busy = true;
        cb_proc = cb_proc;
        irq_proc = irq_proc;
        hw_read_pos = 0;
        hw_write_pos = 0;
        read_pos = 0;
        write_pos = 0;
      }),
    )

-- avia_gt_dmx_free_queue, without the interrupt.
unfoldable pub free_queue : ℕ → List Queue → ℤ × List Queue
free_queue n queue_list =
    let q = at queue_list n in
    if leb queue_count n
    then (einval, queue_list)
    else if not q.busy
    then (efault, queue_list)
    else (pos 0, set queue_list n (record q { busy = false; cb_proc = none; irq_proc = none }))

-- The loop of avia_gt_dmx_alloc_queue_user over `left` queues from `n` on: the first that is not busy.
unfoldable pub find_user : ℕ → ℕ → List Queue → Option ℕ
find_user zero n queue_list = none
find_user (suc left) n queue_list =
    let rest = find_user left (n + 1) queue_list in if (at queue_list n).busy then rest else some n

-- avia_gt_dmx_alloc_queue_user behind its search.
unfoldable pub alloc_found : Option ℕ → Option ℕ → Option ℕ → List Queue → Option ℕ × List Queue
alloc_found irq_proc cb_proc none queue_list = (none, queue_list)
alloc_found irq_proc cb_proc (some n) queue_list =
    let r = alloc_queue irq_proc cb_proc n queue_list in (if r.0 then some n else none, r.1)

-- The queues for users are 3 to 30.
unfoldable pub alloc_queue_user : Option ℕ → Option ℕ → List Queue → Option ℕ × List Queue
alloc_queue_user irq_proc cb_proc queue_list =
    alloc_found irq_proc cb_proc (find_user 28 user_start queue_list) queue_list

find_user_lem :
    (left n : ℕ) (queue_list : List Queue)
    → ((i : ℕ) × (find_user left n queue_list ≡ some i)
        × (n ≤ i)
        × (i < n + left)
        × ((at queue_list i).busy ≡ false))
      ⊎ ((find_user left n queue_list ≡ none)
          × ((i : ℕ) → n ≤ i → i < n + left → (at queue_list i).busy ≡ true))
unfolding find_user
find_user_lem zero n queue_list = inr (refl, λ i h k. absurd (omega arith))
find_user_lem (suc left) n queue_list = elim (Bool-cases (at queue_list n).busy) [
  | inr idle ↦ inl (n, rw idle refl, omega arith, omega arith, idle)
  | inl busy ↦ rw busy (elim (find_user_lem left (n + 1) queue_list) [
    | inl (i, e, h, k, idle) ↦ inl (i, e, omega arith, omega arith, idle)
    | inr (e, all) ↦ inr (
      e,
      λ i h k. elim (ℕ_discrete i n) [
        | yes same ↦ rw same busy
        | no other ↦ all i (omega arith) (omega arith)
      ],
    )
  ])
]

-- A user queue that was not busy is taken, or all are busy.
abbrev pub Allocated : Option ℕ → Option ℕ → List Queue → Option ℕ × List Queue → Type 0
Allocated irq_proc cb_proc queue_list (got, queue_list') =
    ((n : ℕ) × (got ≡ some n)
      × (user_start ≤ n)
      × (n < queue_message)
      × ((at queue_list n).busy ≡ false)
      × (queue_list'
          ≡ set queue_list n (record (at queue_list n) {
            busy = true;
            cb_proc = cb_proc;
            irq_proc = irq_proc;
            hw_read_pos = 0;
            hw_write_pos = 0;
            read_pos = 0;
            write_pos = 0;
          })))
    ⊎ ((got ≡ none)
        × (queue_list' ≡ queue_list)
        × ((n : ℕ) → user_start ≤ n → n < queue_message → (at queue_list n).busy ≡ true))

-- avia_gt_dmx_alloc_queue_user: either it takes a user queue that was not busy, which is then busy, empty
-- and has the two callbacks, or all the user queues are busy and nothing changes.
pub alloc_queue_user_lem :
    (irq_proc cb_proc : Option ℕ) (queue_list : List Queue)
    → Allocated irq_proc cb_proc queue_list (alloc_queue_user irq_proc cb_proc queue_list)
unfolding alloc_queue_user alloc_found alloc_queue
alloc_queue_user_lem irq_proc cb_proc queue_list =
    let P = λ (found : Option ℕ).
      Allocated irq_proc cb_proc queue_list (alloc_found irq_proc cb_proc found queue_list) in
    elim (find_user_lem 28 user_start queue_list) [
      | inl (n, e, h, k, idle) ↦
          let inside : leb queue_count n ≡ false = ground arith in
          subst P (sym e) (rw (inside, idle) (inl (n, refl, h, k, idle, refl)))
      | inr (e, all) ↦ subst P (sym e) (inr (refl, refl, all))
    ]
