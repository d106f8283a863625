-- ===== src/Frontend/Types.antt =====
-- The structures of dvb_frontend.c and of linux/dvb/frontend.h.
use tuxbox_git_driver.Common.{ℕ, List, Bool, Option}
use tuxbox_git_driver.Common.Int.{ℤ}

-- MAX_EVENT
abbrev pub max_event : ℕ
max_event = 8

-- Bits of fe_status_t
abbrev pub fe_has_lock : ℕ
fe_has_lock = 0x10

abbrev pub fe_timedout : ℕ
fe_timedout = 0x20

-- Bits of fe_caps_t
abbrev pub fe_can_recover : ℕ
fe_can_recover = 0x20000000

abbrev pub fe_can_clean_setup : ℕ
fe_can_clean_setup = 0x40000000

abbrev pub fe_can_mute_ts : ℕ
fe_can_mute_ts = 0x80000000

pub data FeType : Type 0 where
  fe_qpsk : FeType
  fe_qam : FeType
  fe_ofdm : FeType

pub record FrontendInfo : Type 0 where
  pub fe_type : FeType
  pub frequency_stepsize : ℕ
  pub caps : ℕ

-- The fields that the core reads, and the others as one number.
pub record FrontendParameters : Type 0 where
  pub frequency : ℕ
  pub symbol_rate : ℕ
  pub others : ℕ

pub record FrontendEvent : Type 0 where
  pub status : ℕ
  pub parameters : FrontendParameters

abbrev pub no_parameters : FrontendParameters
no_parameters = record { frequency = 0; symbol_rate = 0; others = 0 }

abbrev pub no_event : FrontendEvent
no_event = record { status = 0; parameters = no_parameters }

pub record FeEvents : Type 0 where
  pub events : List FrontendEvent
  pub eventw : ℕ
  pub eventr : ℕ
  pub overflow : ℕ

-- The commands that the core gives or tests, and the others by their number. FE_DISEQC_SEND_MASTER_CMD,
-- FE_DISEQC_SEND_BURST and FE_SET_TONE are the one with a number.
pub data FeCommand : Type 0 where
  fe_init : FeCommand
  fe_sleep : FeCommand
  fe_reset : FeCommand
  fe_read_status : FeCommand
  fe_set_frontend : FeCommand
  fe_get_frontend : FeCommand
  fe_get_event : FeCommand
  fe_diseqc : ℕ → FeCommand
  fe_other : ℕ → FeCommand

-- What may stand behind the `arg` of a command.
pub record FeArg : Type 0 where
  pub parameters : FrontendParameters
  pub status : ℕ
  pub event : FrontendEvent

abbrev pub no_arg : FeArg
no_arg = record { parameters = no_parameters; status = 0; event = no_event }

-- `struct dvb_frontend` without its data
pub record Frontend (Dev : Type 0) : Type 0 where
  pub before_ioctl : Option (FeCommand → FeArg → Dev → ℤ × FeArg × Dev)
  pub ioctl : FeCommand → FeArg → Dev → ℤ × FeArg × Dev
  pub after_ioctl : Option (FeCommand → FeArg → Dev → ℤ × FeArg × Dev)
  pub notifier_callback : Option (ℕ → Dev → Dev)

-- `struct dvb_frontend_data`, with the `data` of its `frontend` as `dev`.
pub record FrontendData (Dev : Type 0) : Type 0 where
  pub dev : Dev
  pub parameters : FrontendParameters
  pub events : FeEvents
  pub release_jiffies : ℕ
  pub lost_sync_jiffies : ℕ
  pub bending : ℤ
  pub lnb_drift : ℤ
  pub timeout_count : ℕ
  pub lost_sync_count : ℤ
  pub exit : Bool
  pub status : ℕ

-- What dvb_bend_frequency reads of another front-end of frontend_list.
pub record Neighbour : Type 0 where
  pub adapter_num : ℕ
  pub frequency : ℕ
  pub lnb_drift : ℤ
  pub bending : ℤ
  pub lost_sync_count : ℤ
