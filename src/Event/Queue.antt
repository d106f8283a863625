-- ===== src/Event/Queue.antt =====
-- The buffer of a private structure against the sequence of the events that wait in it.
use tuxbox_git_driver.Common.{
  ℕ, zero, suc, ℕ_discrete, ◌+◌, ◌-◌, ◌≤◌, ◌<◌, ◌≡◌, ◌≢◌, ◌↔◌, refl, ap, ◌∙◌, List, [], ◌∷◌, ◌++◌,
  Bool, true, false, not, ◌&&◌, ◌==◌, arith, ltb, if◌then◌else◌, length, take, length-set,
  length-append, append-nil, take-nil, append_assoc, nil_of_length, bit_and, Bool-cases, inl, inr,
}
use tuxbox_git_driver.Circular.{wrap, fetch_at, length-fetch_at}
use tuxbox_git_driver.Circular.Counted.{push_from}
use tuxbox_git_driver.Event.{EventPrivate, buffer_size, write_one, write_each, event_poll}

pub record IsValid (e : EventPrivate) : Type 0 where
  pub storage : length e.event ≡ buffer_size
  pub free_in : e.event_free ≤ buffer_size
  pub read_ptr_in : e.event_read_ptr < buffer_size
  pub ptr_is : e.event_ptr ≡ wrap buffer_size (e.event_read_ptr + (buffer_size - e.event_free))

-- The events that wait, oldest first.
abbrev pub waiting : EventPrivate → List ℕ
waiting e = fetch_at e.event buffer_size e.event_read_ptr (buffer_size - e.event_free)

pub length-waiting :
    {e : EventPrivate} → IsValid e → length (waiting e) ≡ buffer_size - e.event_free
length-waiting {e} v =
    length-fetch_at e.event buffer_size (omega arith) e.event_read_ptr (buffer_size - e.event_free)
      v.read_ptr_in (omega arith)

-- The filter lets the event through.
abbrev pub wanted : ℕ → ℕ → Bool
wanted filter ev = not (bit_and ev filter == 0)

-- An event comes in if it is wanted and there is room.
pub write_one_lem :
    (ev : ℕ) {e : EventPrivate}
    → IsValid e
    → (waiting (write_one ev e) ≡ (
        if ltb (length (waiting e)) buffer_size && wanted e.event_filter ev
        then waiting e ++ ev ∷ []
        else waiting e))
      × IsValid (write_one ev e)
      × ((write_one ev e).event_filter ≡ e.event_filter)
unfolding write_one
write_one_lem ev {e} v = elim (Bool-cases (ltb 0 e.event_free && wanted e.event_filter ev)) [
  | inl y ↦
      let more : ltb (length (waiting e)) buffer_size && wanted e.event_filter ev ≡ true =
        ground (arith, length-waiting v) in
      let n : buffer_size - (e.event_free - 1) ≡ buffer_size - e.event_free + 1 = ground arith in
      rw (y, more, n, v.ptr_is)
        (
          push_from 0 e.event buffer_size e.event_read_ptr (buffer_size - e.event_free)
              (omega arith) v.read_ptr_in ev (ground arith),
          ground (
            arith,
            length-set e.event (wrap buffer_size (e.event_read_ptr + (buffer_size - e.event_free)))
                ev,
          ),
          refl,
        )
  | inr n ↦
      let full : ltb (length (waiting e)) buffer_size && wanted e.event_filter ev ≡ false =
        ground (arith, length-waiting v) in
      rw (n, full) (refl, v, refl)
]

-- The events that the filter lets through.
pub keep : ℕ → List ℕ → List ℕ
keep filter [] = []
keep filter (ev ∷ events) = if wanted filter ev then ev ∷ keep filter events else keep filter events

take_one : (n : ℕ) (ev : ℕ) (l : List ℕ) → 0 < n → take n (ev ∷ l) ≡ ev ∷ take (n - 1) l
take_one zero ev l h = absurd (omega arith)
take_one (suc n) ev l h = ap (λ k. ev ∷ take k l) (omega arith)

-- One more event in front of the others.
arrive :
    (ev : ℕ) (events : List ℕ) (filter : ℕ) (w : List ℕ)
    → let w' = if ltb (length w) buffer_size && wanted filter ev then w ++ ev ∷ [] else w in
      w' ++ take (buffer_size - length w') (keep filter events)
      ≡ w ++ take (buffer_size - length w) (keep filter (ev ∷ events))
unfolding keep
arrive ev events filter w =
    let all = keep filter events in
    elim (Bool-cases (wanted filter ev)) [
      | inl y ↦ elim (Bool-cases (ltb (length w) buffer_size)) [
        | inl r ↦
            let n : buffer_size - length (w ++ ev ∷ []) ≡ buffer_size - length w - 1 =
              omega (arith, length-append w (ev ∷ [])) in
            rw
              (
                r,
                y,
                n,
                append_assoc w (ev ∷ []),
                take_one (buffer_size - length w) ev all (ground arith),
              )
              refl
        | inr r ↦ let n : buffer_size - length w ≡ 0 = ground arith in rw (r, y, n) refl
      ]
      | inr n ↦ elim (Bool-cases (ltb (length w) buffer_size)) [
        | inl r ↦ rw (r, n) refl
        | inr r ↦ rw (r, n) refl
      ]
    ]

-- Events come in behind those that wait, in order, as many of the wanted ones as there is room for.
pub write_each_lem :
    (events : List ℕ) {e : EventPrivate}
    → IsValid e
    → (waiting (write_each events e)
        ≡ waiting e ++ take (buffer_size - length (waiting e)) (keep e.event_filter events))
      × IsValid (write_each events e)
      × ((write_each events e).event_filter ≡ e.event_filter)
unfolding write_each keep
write_each_lem [] {e} v = (
  ground (arith, take-nil {A = ℕ} (buffer_size - length (waiting e)), append-nil (waiting e)),
  v,
  refl,
)
write_each_lem (ev ∷ events) {e} v =
    let (one, v', same) = write_one_lem ev v in
    let (rest, v'', kept) = write_each_lem events v' in
    (cc (rest, one, same, arrive ev events e.event_filter (waiting e)), v'', kept ∙ same)

-- event_poll reports that there is something to read exactly if an event waits.
pub event_poll_lem : {e : EventPrivate} → IsValid e → (event_poll e ≡ true) ↔ (waiting e ≢ [])
unfolding event_poll
event_poll_lem {e} v = (
  (λ on n. ground (arith, length-waiting v, ap length n)),
  λ some_wait. elim (ℕ_discrete (length (waiting e)) 0) [
    | yes z ↦ absurd (some_wait (nil_of_length (waiting e) z))
    | no z ↦ ground (arith, length-waiting v)
  ],
)
