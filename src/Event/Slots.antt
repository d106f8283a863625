-- ===== src/Event/Slots.antt =====
-- The slots of the open files and the private structures behind them.
use tuxbox_git_driver.Common.{
  ℕ, ◌+◌, ◌-◌, ◌≤◌, ◌<◌, ◌≡◌, ◌⊎◌, inl, inr, refl, ap, subst, ◌∙◌, List, [], ◌∷◌, ◌++◌, Bool, true,
  false, ◌||◌, ◌==◌, Option, none, some, arith, if◌then◌else◌, length, take, ℕ_discrete,
  length-replicate,
}
use tuxbox_git_driver.Common.Int.{ℤ, pos, ◌+ℤ◌, ◌-ℤ◌}
use tuxbox_git_driver.Kernel.{emfile}
use tuxbox_git_driver.Event.{
  EventPrivate, Events, max_open, buffer_size, put, write_one, write_each, each_slot,
  event_write_message, done, take_slot, clear_slot, event_open, event_release, fresh, is_max,
}
use tuxbox_git_driver.Event.Queue
use tuxbox_git_driver.Event.Queue.{waiting, write_one_lem, write_each_lem, keep}

abbrev pub holds : ℕ → List (Option ℕ) → Bool
holds a [] = false
holds a (none ∷ slots) = holds a slots
holds a (some b ∷ slots) = b == a || holds a slots

-- The number of files that have a slot.
abbrev pub taken : List (Option ℕ) → ℕ
taken [] = 0
taken (none ∷ slots) = taken slots
taken (some a ∷ slots) = taken slots + 1

-- Every slot that is not NULL points to a structure in use, which is well formed.
abbrev pub Live : (ℕ → Option EventPrivate) → List (Option ℕ) → Type 0
Live heap [] = Unit {0}
Live heap (none ∷ slots) = Live heap slots
Live heap (some a ∷ slots) =
    ((e : EventPrivate) × (heap a ≡ some e) × Queue.IsValid e) × Live heap slots

-- No two slots are one file's.
abbrev pub Distinct : List (Option ℕ) → Type 0
Distinct [] = Unit {0}
Distinct (none ∷ slots) = Distinct slots
Distinct (some a ∷ slots) = (holds a slots ≡ false) × Distinct slots

pub record IsValid (s : Events) : Type 0 where
  pub slot_count : length s.slots ≡ max_open
  pub handles : s.open_handle ≡ pos (taken s.slots)
  pub live : Live s.heap s.slots
  pub distinct : Distinct s.slots

abbrev pub touch : (EventPrivate → EventPrivate) → Option EventPrivate → Option EventPrivate
touch f none = none
touch f (some e) = some (f e)

untouched : (h : Bool) (o : Option EventPrivate) → o ≡ (if h then touch (write_each []) o else o)
unfolding write_each
untouched false o = refl
untouched true none = refl
untouched true (some e) = refl

touched_twice :
    (ev : ℕ) (events : List ℕ) (h : Bool) (o : Option EventPrivate)
    → (let o' = if h then touch (write_one ev) o else o in
        if h then touch (write_each events) o' else o')
      ≡ (if h then touch (write_each (ev ∷ events)) o else o)
unfolding write_each
touched_twice ev events false o = refl
touched_twice ev events true none = refl
touched_twice ev events true (some e) = refl

Live-touched :
    (f : EventPrivate → EventPrivate) (slots : List (Option ℕ))
    (heap heap' : ℕ → Option EventPrivate)
    → ((e : EventPrivate) → Queue.IsValid e → Queue.IsValid (f e))
    → ((b : ℕ) → holds b slots ≡ true → heap' b ≡ touch f (heap b))
    → Live heap slots
    → Live heap' slots
Live-touched f [] heap heap' good same l = tt
Live-touched f (none ∷ slots) heap heap' good same l = Live-touched f slots heap heap' good same l
Live-touched f (some a ∷ slots) heap heap' good same ((e, at, v), l) = (
  (f e, same a (ground arith) ∙ ap (touch f) at, good e v),
  Live-touched f slots heap heap' good (λ b h. same b (ground arith)) l,
)

Live-put :
    (a : ℕ) (o : Option EventPrivate) (slots : List (Option ℕ)) (heap : ℕ → Option EventPrivate)
    → holds a slots ≡ false
    → Live heap slots
    → Live (put heap a o) slots
Live-put a o [] heap h l = tt
Live-put a o (none ∷ slots) heap h l = Live-put a o slots heap h l
Live-put a o (some b ∷ slots) heap h ((e, at, v), l) =
    ((e, ground (arith, at), v), Live-put a o slots heap (ground arith) l)

each_slot_lem :
    (ev : ℕ) (slots : List (Option ℕ)) (heap : ℕ → Option EventPrivate)
    → Live heap slots
    → Distinct slots
    → (heap' : ℕ → Option EventPrivate) × (each_slot ev slots heap ≡ some heap')
      × ((b : ℕ) → heap' b ≡ (if holds b slots then touch (write_one ev) (heap b) else heap b))
unfolding each_slot
each_slot_lem ev [] heap l d = (heap, refl, λ b. refl)
each_slot_lem ev (none ∷ slots) heap l d = each_slot_lem ev slots heap l d
each_slot_lem ev (some a ∷ slots) heap ((e, at, v), l) (apart, d) =
    let heap₁ = put heap a (some (write_one ev e)) in
    let (heap', run, all) =
      each_slot_lem ev slots heap₁ (Live-put a (some (write_one ev e)) slots heap apart l) d in
    (
      heap',
      ground (arith, at, run),
      λ b. elim (ℕ_discrete a b) [
        | yes same ↦
            subst
              (λ k.
                heap' k
                ≡ (if holds k (some a ∷ slots) then touch (write_one ev) (heap k) else heap k))
              same (ground (arith, all a, at))
        | no other ↦ ground (arith, all b)
      ],
    )

-- The message goes to every structure in a slot, and to no other; no pointer to freed memory is
-- followed.
event_write_message_lem :
    (events : List ℕ) {s : Events}
    → IsValid s
    → (s' : Events) × (event_write_message events s ≡ some s')
      × IsValid s'
      × (s'.slots ≡ s.slots)
      × ((b : ℕ)
          → s'.heap b
            ≡ (if holds b s.slots then touch (write_each events) (s.heap b) else s.heap b))
unfolding event_write_message write_each
event_write_message_lem [] {s} v = (s, refl, v, refl, λ b. untouched (holds b s.slots) (s.heap b))
event_write_message_lem (ev ∷ events) {s} v =
    let (heap, run, all) = each_slot_lem ev s.slots s.heap v.live v.distinct in
    let s₁ : Events = record s { heap = heap } in
    let v₁ : IsValid s₁ = record {
      slot_count = v.slot_count;
      handles = v.handles;
      live =
          Live-touched (write_one ev) s.slots s.heap heap (λ e w. (write_one_lem ev w).1)
            (λ b h. ground (arith, all b)) v.live;
      distinct = v.distinct;
    } in
    let (s', run', v', slots, rest) = event_write_message_lem events v₁ in
    (
      s',
      ground (arith, run, run'),
      v',
      slots,
      λ b. cc (rest b, all b, touched_twice ev events (holds b s.slots) (s.heap b)),
    )

take_slot_lem :
    (a : ℕ) (slots : List (Option ℕ))
    → taken slots < length slots
    → holds a slots ≡ false
    → Distinct slots
    → (slots' : List (Option ℕ)) × (take_slot a slots ≡ some slots')
      × (length slots' ≡ length slots)
      × (taken slots' ≡ taken slots + 1)
      × Distinct slots'
      × ((b : ℕ) → holds b slots' ≡ (a == b || holds b slots))
unfolding take_slot
take_slot_lem a [] room apart d = absurd (omega arith)
take_slot_lem a (none ∷ slots) room apart d =
    (some a ∷ slots, refl, refl, refl, (apart, d), λ b. refl)
take_slot_lem a (some c ∷ slots) room apart d =
    let (slots', e, long, count, d', all) =
      take_slot_lem a slots (omega arith) (ground arith) d.1 in
    (
      some c ∷ slots',
      ground (arith, e),
      omega arith,
      omega arith,
      (ground (arith, all c), d'),
      λ b. ground (arith, all b),
    )

clear_slot_lem :
    (a : ℕ) (slots : List (Option ℕ))
    → holds a slots ≡ true
    → Distinct slots
    → let slots' = clear_slot a slots in
      (length slots' ≡ length slots)
      × (taken slots ≡ taken slots' + 1)
      × Distinct slots'
      × (holds a slots' ≡ false)
      × ((b : ℕ) → holds b slots' ≡ true → holds b slots ≡ true)
unfolding clear_slot
clear_slot_lem a [] h d = cc
clear_slot_lem a (none ∷ slots) h d =
    let (long, count, d', gone, rest) = clear_slot_lem a slots h d in
    (omega arith, count, d', gone, rest)
clear_slot_lem a (some c ∷ slots) h d = elim (ℕ_discrete c a) [
  | yes same ↦
      let t : (c == a) ≡ true = ground arith in
      rw t (refl, refl, d.1, subst (λ k. holds k slots ≡ false) same d.0, λ b h. ground arith)
  | no other ↦
      let (long, count, d', gone, rest) = clear_slot_lem a slots (ground arith) d.1 in
      let f : (c == a) ≡ false = ground arith in
      rw f (
        omega arith,
        omega arith,
        (ground (arith, rest c), d'),
        ground arith,
        λ b k. ground (arith, rest b),
      )
]

holds-taken : (a : ℕ) (slots : List (Option ℕ)) → holds a slots ≡ true → 0 < taken slots
holds-taken a [] h = cc
holds-taken a (none ∷ slots) h = holds-taken a slots h
holds-taken a (some c ∷ slots) h = omega arith

taken-le : (slots : List (Option ℕ)) → taken slots ≤ length slots
taken-le [] = omega arith
taken-le (none ∷ slots) = omega (arith, taken-le slots)
taken-le (some c ∷ slots) = omega (arith, taken-le slots)

-- A free address is in no slot.
free_apart :
    (a : ℕ) (slots : List (Option ℕ)) (heap : ℕ → Option EventPrivate)
    → heap a ≡ none
    → Live heap slots
    → holds a slots ≡ false
free_apart a [] heap h l = refl
free_apart a (none ∷ slots) heap h l = free_apart a slots heap h l
free_apart a (some c ∷ slots) heap h ((e, at, v), l) = elim (ℕ_discrete c a) [
  | yes same ↦ cc (subst (λ k. heap k ≡ some e) same at, h)
  | no other ↦ ground (arith, free_apart a slots heap h l)
]

Live-pointwise :
    (slots : List (Option ℕ)) (heap : ℕ → Option EventPrivate)
    → ((b : ℕ) → holds b slots ≡ true → (e : EventPrivate) × (heap b ≡ some e) × Queue.IsValid e)
    → Live heap slots
Live-pointwise [] heap all = tt
Live-pointwise (none ∷ slots) heap all = Live-pointwise slots heap all
Live-pointwise (some c ∷ slots) heap all =
    (all c (ground arith), Live-pointwise slots heap (λ b h. all b (ground arith)))

-- What a slot points to.
Live-at :
    (slots : List (Option ℕ)) (heap : ℕ → Option EventPrivate) (b : ℕ)
    → Live heap slots
    → holds b slots ≡ true
    → (e : EventPrivate) × (heap b ≡ some e) × Queue.IsValid e
Live-at [] heap b l h = cc
Live-at (none ∷ slots) heap b l h = Live-at slots heap b l h
Live-at (some c ∷ slots) heap b ((e, at, v), l) h = elim (ℕ_discrete c b) [
  | yes same ↦ (e, subst (λ k. heap k ≡ some e) same at, v)
  | no other ↦ Live-at slots heap b l (ground arith)
]

one_more : (n m : ℕ) {k : ℤ} → k ≡ pos n → m ≡ n + 1 → k +ℤ pos 1 ≡ pos m
unfolding ◌+ℤ◌
one_more n m {k} e h = ground (arith, e)

one_less : (n m : ℕ) {k : ℤ} → k ≡ pos n → n ≡ m + 1 → k -ℤ pos 1 ≡ pos m
unfolding ◌-ℤ◌
one_less n m {k} e h = ground (arith, e)

fresh-IsValid : Queue.IsValid fresh
fresh-IsValid = omega (arith, length-replicate {A = ℕ} buffer_size 0)

-- With memory for a new structure at a free address, event_open on valid slots either refuses a sixth
-- file with -EMFILE and changes nothing, or gives the file an empty queue for all events and one of
-- the slots, which stay valid.
pub event_open_lem :
    (a : ℕ) {s : Events}
    → IsValid s
    → s.heap a ≡ none
    → ((taken s.slots ≡ max_open) × (event_open (some a) s ≡ done emfile none s))
      ⊎ ((s' : Events) × (event_open (some a) s ≡ done (pos 0) (some a) s')
          × (taken s'.slots ≡ taken s.slots + 1)
          × (s'.heap a ≡ some fresh)
          × (holds a s'.slots ≡ true)
          × IsValid s')
unfolding event_open
event_open_lem a {s} v free = elim (ℕ_discrete (taken s.slots) max_open) [
  | yes full ↦ inl (full, ground (arith, v.handles))
  | no room ↦
      let apart = free_apart a s.slots s.heap free v.live in
      let below : taken s.slots < length s.slots = omega (arith, taken-le s.slots) in
      let (slots, e, long, count, d, all) = take_slot_lem a s.slots below apart v.distinct in
      let not_max : is_max s.open_handle ≡ false = ground (arith, v.handles) in
      inr (
        record {
          open_handle = s.open_handle +ℤ pos 1;
          slots = slots;
          heap = put s.heap a (some fresh);
        },
        rw (not_max, e) refl,
        count,
        ground arith,
        ground (arith, all a),
        record {
          slot_count = omega arith;
          handles = one_more (taken s.slots) (taken slots) v.handles count;
          live = Live-pointwise slots (put s.heap a (some fresh)) (λ b h. elim (ℕ_discrete a b) [
            | yes same ↦ (fresh, ground arith, fresh-IsValid)
            | no other ↦
                let (e', at, w) = Live-at s.slots s.heap b v.live (ground (arith, all b)) in
                (e', ground (arith, at), w)
          ]);
          distinct = d;
        },
      )
]

-- event_release of a file that has a slot gives the slot and the memory back, and keeps the slots valid.
pub event_release_lem :
    (a : ℕ) {s : Events}
    → IsValid s
    → holds a s.slots ≡ true
    → (s' : Events) × (event_release (some a) s ≡ done (pos 0) none s')
      × (taken s.slots ≡ taken s'.slots + 1)
      × (s'.heap a ≡ none)
      × (holds a s'.slots ≡ false)
      × IsValid s'
unfolding event_release
event_release_lem a {s} v h =
    let (long, count, d, gone, rest) = clear_slot_lem a s.slots h v.distinct in
    let slots = clear_slot a s.slots in
    (
      record { open_handle = s.open_handle -ℤ pos 1; slots = slots; heap = put s.heap a none },
      refl,
      count,
      ground arith,
      gone,
      record {
        slot_count = omega arith;
        handles = one_less (taken s.slots) (taken slots) v.handles count;
        live =
            Live-put a none slots s.heap gone
              (Live-pointwise slots s.heap (λ b k. Live-at s.slots s.heap b v.live (rest b k)));
        distinct = d;
      },
    )

-- event_write_message on valid slots follows no pointer to freed memory and keeps the slots valid; every
-- open file then has, behind the events that waited, as many of the new ones that its filter lets
-- through as there is room for, in order, and its filter is as it was.
pub event_write_message_refines :
    (events : List ℕ) (b : ℕ) {s : Events}
    → IsValid s
    → holds b s.slots ≡ true
    → (s' : Events) × (e : EventPrivate) × (e' : EventPrivate) × (event_write_message events s
        ≡ some s')
      × IsValid s'
      × (s.heap b ≡ some e)
      × (s'.heap b ≡ some e')
      × (waiting e'
          ≡ waiting e ++ take (buffer_size - length (waiting e)) (keep e.event_filter events))
      × (e'.event_filter ≡ e.event_filter)
event_write_message_refines events b {s} v h =
    let (s', run, v', _, all) = event_write_message_lem events v in
    let (e, at, w) = Live-at s.slots s.heap b v.live h in
    let (came, _, same) = write_each_lem events w in
    (s', e, write_each events e, run, v', at, ground (arith, all b, at), came, same)
