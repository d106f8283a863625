-- ===== src/Demux/Registry.antt =====
-- The registered demultiplexers, and the users and front-ends of one: dmx_register_demux,
-- dmx_unregister_demux, dvbdmx_open, _close, _write, _add_frontend, _remove_frontend,
-- _connect_frontend, _disconnect_frontend and _get_pes_pids, and dvb_dmx_init.
use tuxbox_git_driver.Common.{
  ℕ, ◌+◌, ◌-◌, List, [], ◌∷◌, Bool, false, not, Option, none, some, ltb, leb, ◌==◌, if◌then◌else◌,
  length, take, replicate, map,
}
use tuxbox_git_driver.Common.Int.{ℤ, pos}
use tuxbox_git_driver.Kernel.{einval, enodev, eusers, enomem, eintr, erestartsys, as_ssize}
use tuxbox_git_driver.Demux.Types.{DemuxFilter, DemuxFeed, Demux, free, Client, Delivery}
use tuxbox_git_driver.Demux.Calls.{Call, done, down_interruptible, up, feed_find, unlink}
use tuxbox_git_driver.Demux.TsFeed.{pes_other}
use tuxbox_git_driver.Demux.Stream.{Pending, swfilter}

-- `dmx_muxs`: the registered demultiplexers, by number, and the users of each.
pub record Muxes : Type 0 where
  pub registered : List ℕ
  pub users : ℕ → ℕ

unfoldable pub register_demux : ℕ → Muxes → ℤ × Muxes
register_demux m muxes = (
  pos 0,
  record muxes {
    registered = m ∷ muxes.registered;
    users = λ k. if k == m then 0 else muxes.users k;
  },
)

unfoldable pub unregister_demux : ℕ → Muxes → ℤ × Muxes
unregister_demux m muxes =
    if feed_find m muxes.registered
    then (if ltb 0 (muxes.users m)
        then (einval, muxes)
        else (pos 0, record muxes { registered = unlink m muxes.registered }))
    else (enodev, muxes)

-- MAX_DVB_DEMUX_USERS
abbrev pub max_users : ℕ
max_users = 10

unfoldable pub open_demux : Demux → ℤ × Demux
open_demux d =
    if leb max_users d.users then (eusers, d) else (pos 0, record d { users = d.users + 1 })

unfoldable pub close_demux : Demux → ℤ × Demux
close_demux d = if d.users == 0 then (enodev, d) else (pos 0, record d { users = d.users - 1 })

unfoldable pub add_frontend : ℕ → Demux → ℤ × Demux
add_frontend fe d = (pos 0, record d { frontend_list = fe ∷ d.frontend_list })

unfoldable pub remove_frontend : ℕ → Demux → ℤ × Demux
remove_frontend fe d =
    if feed_find fe d.frontend_list
    then (pos 0, record d { frontend_list = unlink fe d.frontend_list })
    else (enodev, d)

unfoldable pub connect_frontend : Bool → ℕ → Demux → Call
connect_frontend signal fe d = elim d.frontend [
  | some _ ↦ done einval d
  | none ↦ down_interruptible signal d λ d'. done (pos 0) (up (record d' { frontend = some fe }))
]

unfoldable pub disconnect_frontend : Bool → Demux → Call
disconnect_frontend signal d =
    down_interruptible signal d λ d'. done (pos 0) (up (record d' { frontend = none }))

unfoldable pub get_pes_pids : Demux → List ℕ
get_pes_pids d = take 5 d.pids

-- dvbdmx_write: `memory_fe` says which front-ends have DMX_MEMORY_FE for their source; `signalled` is
-- signal_pending(current) after the bytes were taken. `none`: it waits for the semaphore for good.
module _ (client : Client) (memory_fe : ℕ → Bool) where
  abbrev pub Written : Type 0
  Written = ℤ × Pending × Demux × List Delivery

  accepts_bytes : Option ℕ → Bool
  accepts_bytes none = false
  accepts_bytes (some fe) = memory_fe fe

  unfoldable pub write_demux :
      Bool → Bool → List ℕ → Pending → Demux → List Delivery → Option Written
  unfolding accepts_bytes
  write_demux signal signalled buf p d log =
      let (p', (d', log')) = swfilter client buf p (d, log) in
      if not (accepts_bytes d.frontend)
      then some (einval, p, d, log)
      else if ltb 0 d.mutex
      then some (if signalled then eintr else as_ssize (length buf), p', d', log')
      else if signal
      then some (erestartsys, p, d, log)
      else none

-- dvb_dmx_init, on what vmalloc returned for the arrays of filters and feeds, or NULL.
unfoldable pub init_demux : Option (List DemuxFilter) → Option (List DemuxFeed) → Demux → ℤ × Demux
init_demux none feeds d = (enomem, record d { users = 0 })
init_demux (some filters) none d = (enomem, record d { users = 0 })
init_demux (some filters) (some feeds) d = (
  pos 0,
  record d {
    users = 0;
    filter = map (λ (f : DemuxFilter). record f { state = free }) filters;
    feed = map (λ (f : DemuxFeed). record f { state = free }) feeds;
    frontend_list = [];
    pesfilter = replicate pes_other none;
    pids = replicate pes_other 0xffff;
    feed_list = [];
    frontend = none;
    mutex = 1;
  },
)
