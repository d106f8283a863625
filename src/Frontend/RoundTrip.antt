-- ===== src/Frontend/RoundTrip.antt =====
-- What a tuning to a shifted frequency leaves of the parameters.
use tuxbox_git_driver.Common.{ℕ, ◌^◌, ◌<◌, ◌≡◌, refl, arith}
use tuxbox_git_driver.Common.Int.{ℤ, ◌+ℤ◌}
use tuxbox_git_driver.Frontend.{
  FrontendParameters, FrontendInfo, Frontend, FrontendData, FeArg, no_arg, fe_set_frontend,
  fe_reset, dvb_frontend_internal_ioctl,
}
use tuxbox_git_driver.Frontend.Tune.{
  Moment, add_int, sub_int, dvb_bend_frequency, tune, dvb_frontend_recover, step_of, zigzag,
}

sub_int-add_int : (u : ℕ) (z : ℤ) → u < 2 ^ 32 → sub_int (add_int u z) z ≡ u
sub_int-add_int u z h = omega arith

-- A driver, with the hooks around it, that changes no parameters when it tunes.
pub record IsQuiet {Dev : Type 0} (frontend : Frontend Dev) (info : FrontendInfo) : Type 0 where
  pub unchanged :
      (arg : FeArg) (dev : Dev)
      → (dvb_frontend_internal_ioctl frontend info fe_set_frontend arg dev).1 ≡ arg

-- The argument of FE_SET_FRONTEND for a frequency shifted by `off`.
abbrev pub shifted : FrontendParameters → ℤ → FeArg
shifted param off = record no_arg {
  parameters = record param { frequency = add_int param.frequency off };
}

module _ {Dev : Type 0} (frontend : Frontend Dev) (info : FrontendInfo)
    (quiet : IsQuiet frontend info) where
  tune_lem :
      (m : Moment) (param : FrontendParameters) (fe : FrontendData Dev)
      → param.frequency < 2 ^ 32
      → (tune frontend info m param fe).1 ≡ param
  unfolding tune
  tune_lem m param fe h =
      let fe' = dvb_bend_frequency frontend info m fe in
      let off = fe'.lnb_drift +ℤ fe'.bending in
      rw
        (
          quiet.unchanged
              (record no_arg {
                parameters = record param { frequency = add_int param.frequency off };
              })
              fe'.dev,
          sub_int-add_int param.frequency off h,
        )
        refl

  -- What a tuning asks of the driver: the frequency that is asked for, by the drift and the bending off.
  tune_asks :
      (m : Moment) (param : FrontendParameters) (fe : FrontendData Dev)
      → let r = (tune frontend info m param fe).2 in
        (r.lnb_drift ≡ fe.lnb_drift)
        × (r.dev
            ≡ (dvb_frontend_internal_ioctl frontend info fe_set_frontend
                (shifted param (r.lnb_drift +ℤ r.bending))
                fe.dev).2)
  unfolding tune dvb_bend_frequency
  tune_asks m param fe = ground arith

  -- dvb_frontend_recover with a driver that changes no parameters. It asks the driver to tune to the
  -- frequency of the front-end, shifted by the next drift of the zigzag scan and by the bending, and then
  -- to reset. Whatever the drift and the bending, the parameters of the front-end come back as they were,
  -- with the frequency that was asked for.
  pub recover_lem :
      (m : Moment) (fe : FrontendData Dev)
      → fe.parameters.frequency < 2 ^ 32
      → let fe' = dvb_frontend_recover frontend info m fe in
        let drift = zigzag (step_of info fe.parameters) fe.lost_sync_count fe.lnb_drift in
        let tuned =
          dvb_frontend_internal_ioctl frontend info fe_set_frontend
            (shifted fe.parameters (drift +ℤ fe'.bending))
            fe.dev in
        (fe'.dev ≡ (dvb_frontend_internal_ioctl frontend info fe_reset no_arg tuned.2).2)
        × (fe'.lnb_drift ≡ drift)
        × (fe'.parameters ≡ fe.parameters)
  unfolding dvb_frontend_recover
  recover_lem m fe h =
      let fe' : FrontendData Dev = record fe {
        lnb_drift = zigzag (step_of info fe.parameters) fe.lost_sync_count fe.lnb_drift;
      } in
      let (drift, dev) = tune_asks m fe.parameters fe' in
      (rw dev (rw drift refl), drift, tune_lem m fe.parameters fe' h)
