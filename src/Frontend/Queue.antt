-- ===== src/Frontend/Queue.antt =====
-- The queue of events of a front-end holds up to seven events; where another one comes the oldest is
-- dropped and the overflow is noted.
use tuxbox_git_driver.Common.{
  ℕ, ◌+◌, ◌-◌, ◌%◌, ◌<◌, ◌≤◌, ◌≡◌, ◌≢◌, refl, ap, ◌∙◌, List, [], ◌∷◌, ◌++◌, Bool, true, false, not,
  ◌==◌, if◌then◌else◌, Option, none, some, arith, length, get_or, set, drop, set-memcpy, length-set,
  length-append, ℕ_discrete, nil_of_length,
}
use tuxbox_git_driver.Common.Int.{ℤ, pos, ltb_ℤ}
use tuxbox_git_driver.Circular.{
  contents, length-contents, get_or-contents, contents-store_at, contents-skip, store_at_fits, used,
  wrap,
}
use tuxbox_git_driver.Kernel.{eagain, eoverflow, erestartsys}
use tuxbox_git_driver.Frontend.{
  FrontendEvent, FeEvents, max_event, no_event, store_event, fetch_event, Wait,
  dvb_frontend_get_event,
}

pub record IsValid (events : FeEvents) : Type 0 where
  pub places : length events.events ≡ max_event
  pub write_inside : events.eventw < max_event
  pub read_inside : events.eventr < max_event

-- The events that wait, oldest first.
abbrev pub waiting : FeEvents → List FrontendEvent
waiting events = contents events.events max_event events.eventr events.eventw

-- The queue as a program sees it: a list, which keeps the last seven events.
abbrev pub keep_last : List FrontendEvent → List FrontendEvent
keep_last es = drop (length es - (max_event - 1)) es

pub length-waiting :
    {events : FeEvents}
    → IsValid events
    → length (waiting events) ≡ used max_event events.eventr events.eventw
length-waiting {events} v =
    length-contents events.events max_event (omega (arith, v.places)) events.eventr events.eventw
      v.read_inside v.write_inside

-- An event stored where there is room, at any read index.
stored_behind :
    (e : FrontendEvent) (buf : List FrontendEvent) (r w : ℕ)
    → length buf ≡ max_event
    → r < max_event
    → w < max_event
    → used max_event r w < 7
    → contents (set buf w e) max_event r ((w + 1) % max_event)
      ≡ contents buf max_event r w ++ e ∷ []
stored_behind e buf r w long hr hw room =
    rw (set-memcpy buf w e, store_at_fits buf max_event w (e ∷ []) (omega arith))
      (contents-store_at buf max_event r w (e ∷ []) (omega arith) hr hw (omega arith))

drop_first : (es fs : List FrontendEvent) → 0 < length es → drop 1 es ++ fs ≡ drop 1 (es ++ fs)
drop_first [] fs h = absurd (omega arith)
drop_first (e ∷ es) fs h = refl

-- What dvb_frontend_add_event makes of a well-formed queue: it stays well formed, and holds the last
-- seven of the events that waited and the new one, in order; the overflow is noted exactly where seven
-- waited, and otherwise stays as it was.
pub store_event_lem :
    (e : FrontendEvent) (events : FeEvents)
    → IsValid events
    → IsValid (store_event e events)
      × (waiting (store_event e events) ≡ keep_last (waiting events ++ e ∷ []))
      × ((store_event e events).overflow
          ≡ (if length (waiting events) == max_event - 1 then 1 else events.overflow))
unfolding store_event
store_event_lem e events v =
    let r = events.eventr in
    let w = events.eventw in
    let long = length-waiting v in
    let longer = length-append (waiting events) (e ∷ []) in
    let places' = length-set events.events w e in
    elim (ℕ_discrete ((w + 1) % 8) r) [
      | yes full ↦
          let skipped =
            contents-skip events.events max_event (omega (arith, v.places)) r w 1 v.read_inside
              v.write_inside (ground (arith, v.read_inside, v.write_inside)) in
          let stored =
            stored_behind e events.events ((r + 1) % 8) w v.places (omega arith) v.write_inside
              (ground (arith, v.read_inside, v.write_inside)) in
          let test : ((w + 1) % 8 == r) ≡ true = ground arith in
          let seven : length (waiting events) ≡ 7 =
            ground (arith, long, v.read_inside, v.write_inside) in
          let one : length (waiting events ++ e ∷ []) - 7 ≡ 1 = omega (arith, longer, seven) in
          let first = drop_first (waiting events) (e ∷ []) (omega (arith, seven)) in
          rw (test, seven, one)
            (
              record {
                places = places' ∙ v.places;
                write_inside = omega arith;
                read_inside = omega arith;
              },
              stored ∙ ap (λ es. es ++ e ∷ []) skipped ∙ first,
              refl,
            )
      | no room ↦
          let test : ((w + 1) % 8 == r) ≡ false = ground arith in
          let few : used max_event r w < 7 = ground (arith, v.read_inside, v.write_inside) in
          let not_seven : (length (waiting events) == 7) ≡ false = ground (arith, long, few) in
          let none_over : length (waiting events ++ e ∷ []) - 7 ≡ 0 =
            omega (arith, longer, long, few) in
          rw (test, not_seven, none_over)
            (
              record {
                places = places' ∙ v.places;
                write_inside = omega arith;
                read_inside = v.read_inside;
              },
              stored_behind e events.events r w v.places v.read_inside v.write_inside few,
              refl,
            )
    ]

-- What a caller sees of a queue: the events that wait, and the overflow that is noted.
abbrev pub View : Type 0
View = List FrontendEvent × ℕ

abbrev pub view : FeEvents → View
view events = (waiting events, events.overflow)

-- What a caller finds where no overflow is noted: the oldest event, or that none waits; `woken` is the
-- queue behind a sleep.
pub take_first : Bool → View → View → ℤ × Option FrontendEvent × View
take_first nonblock (e ∷ queue, overflow) woken = (pos 0, some e, (queue, overflow))
take_first true ([], overflow) woken = (eagain, none, ([], overflow))
take_first false ([], overflow) (e ∷ queue, overflow') = (pos 0, some e, (queue, overflow'))
take_first false ([], overflow) ([], overflow') = (pos 0, none, ([], overflow'))

-- What dvb_frontend_get_event should give: a noted overflow is told and forgotten, with no event taken.
abbrev pub spec_get_event : Bool → View → View → ℤ × Option FrontendEvent × View
spec_get_event nonblock (queue, overflow) woken =
    if overflow == 0
    then take_first nonblock (queue, overflow) woken
    else (eoverflow, none, (queue, 0))

-- The result with the queue that the structure stands for.
abbrev pub seen : ℤ × Option FrontendEvent × FeEvents → ℤ × Option FrontendEvent × View
seen (ret, e, events) = (ret, e, view events)

first_rest : (es : List FrontendEvent) → 0 < length es → es ≡ get_or es 0 no_event ∷ drop 1 es
first_rest [] h = absurd (omega arith)
first_rest (e ∷ es) h = refl

fetch_event_lem :
    {events : FeEvents}
    → IsValid events
    → events.eventw ≢ events.eventr
    → (waiting events
        ≡ get_or events.events events.eventr no_event ∷ waiting (fetch_event events).2)
      × IsValid (fetch_event events).2
unfolding fetch_event
fetch_event_lem {events} v some_wait =
    let r = events.eventr in
    let w = events.eventw in
    let some_used : 1 ≤ used max_event r w = ground (arith, v.read_inside, v.write_inside) in
    let rest =
      contents-skip events.events max_event (omega (arith, v.places)) r w 1 v.read_inside
        v.write_inside some_used in
    let first =
      get_or-contents no_event events.events max_event (omega (arith, v.places)) r w 0 v.read_inside
        v.write_inside some_used in
    let at : wrap max_event (r + 0) ≡ r = ground (arith, v.read_inside) in
    (
      first_rest (waiting events) (omega (arith, length-waiting v, some_used))
          ∙ rw (rest, first, at) refl,
      record { places = v.places; write_inside = v.write_inside; read_inside = omega arith },
    )

empty_lem :
    {events : FeEvents} → IsValid events → events.eventw ≡ events.eventr → waiting events ≡ []
empty_lem {events} v same =
    nil_of_length (waiting events) (ground (arith, length-waiting v, v.read_inside))

-- dvb_frontend_get_event, where the semaphores are got and a sleep ends with an event in a well-formed
-- queue: a noted overflow is told once, since the note is taken back, and the events stay; without one
-- the oldest event is returned and taken off the queue, at once or behind the sleep, or -EWOULDBLOCK
-- where the caller does not want to sleep. The queue that is left is well formed, and keeps the overflow
-- that a sleep brought.
pub get_event_refines :
    (nonblock : Bool) (w : Wait) {events : FeEvents}
    → IsValid events
    → w.fe_free ≡ true
    → w.events_free ≡ true
    → (w.wait_event events).0 ≡ pos 0
    → IsValid (w.wait_event events).1
    → (w.wait_event events).1.eventw ≢ (w.wait_event events).1.eventr
    → let r = dvb_frontend_get_event nonblock w events in
      (seen r ≡ spec_get_event nonblock (view events) (view (w.wait_event events).1)) × IsValid r.2
unfolding dvb_frontend_get_event take_first fetch_event
get_event_refines nonblock w {events} v fe_free events_free woken v' some_came =
    elim (ℕ_discrete events.overflow 0) [
      | no over ↦
          let noted : (events.overflow == 0) ≡ false = ground arith in
          rw noted (
            refl,
            record {
              places = v.places;
              write_inside = v.write_inside;
              read_inside = v.read_inside;
            },
          )
      | yes none_over ↦
          let clear : (events.overflow == 0) ≡ true = ground arith in
          elim (ℕ_discrete events.eventw events.eventr) [
            | no some_wait ↦
                let test : (events.eventw == events.eventr) ≡ false = ground arith in
                let (first, left) = fetch_event_lem v some_wait in
                rw (clear, test, events_free, first) (refl, left)
            | yes same ↦
                let test : (events.eventw == events.eventr) ≡ true = ground arith in
                rw (clear, test, empty_lem v same) (sleeps nonblock (empty_lem v same))
          ]
    ]
  where
    sleeps :
        (b : Bool)
        → waiting events ≡ []
        → let r : ℤ × Option FrontendEvent × FeEvents =
            if b
            then (eagain, none, events)
            else if not w.fe_free
            then (erestartsys, none, (w.wait_event events).1)
            else if ltb_ℤ (w.wait_event events).0 (pos 0)
            then ((w.wait_event events).0, none, (w.wait_event events).1)
            else if w.events_free
            then fetch_event (w.wait_event events).1
            else (erestartsys, none, (w.wait_event events).1) in
          (seen r ≡ take_first b ([], events.overflow) (view (w.wait_event events).1)) × IsValid r.2
    sleeps true none_wait = (rw none_wait refl, v)
    sleeps false none_wait =
        let (first, left) = fetch_event_lem v' some_came in
        rw (fe_free, woken, events_free, first) (refl, left)
