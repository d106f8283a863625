-- ===== src/Clock/Chip.antt =====
-- What the driver relies on of the chip and of the macros, and what its accesses to a register do then.
use tuxbox_git_driver.Common.{
  ℕ, ◌+◌, ◌*◌, ◌/◌, ◌%◌, ◌<◌, ◌≡◌, [], ◌∷◌, some, ◌==◌, if◌then◌else◌, arith,
}
use tuxbox_git_driver.Common.Int.{pos}
use tuxbox_git_driver.Clock.{I2cClient, BcdMacros, ds1307_readreg, ds1307_writereg}

-- A bus whose chip answers: its registers hold bytes, a byte that is sent sets the pointer, a second
-- byte goes to that register, and a byte received is that register's. The time does not go on meanwhile.
pub record IsChip {S : Type 0} (client : I2cClient S) : Type 0 where
  pub register : S → ℕ → ℕ
  pub pointer : S → ℕ
  pub sent_one : (r : ℕ) (s : S) → r < 8 → (client.master_send (r ∷ []) s).0 ≡ pos 1
  pub pointed : (r : ℕ) (s : S) → r < 8 → pointer (client.master_send (r ∷ []) s).1 ≡ r
  pub not_written :
      (r q : ℕ) (s : S) → r < 8 → register (client.master_send (r ∷ []) s).1 q ≡ register s q
  pub sent_two : (r v : ℕ) (s : S) → r < 8 → v < 256 → (client.master_send (r ∷ v ∷ []) s).0 ≡ pos 2
  pub written :
      (r v q : ℕ) (s : S)
      → r < 8
      → v < 256
      → register (client.master_send (r ∷ v ∷ []) s).1 q ≡ (if q == r then v else register s q)
  pub received : (s : S) → (client.master_recv 1 s).0 ≡ pos 1
  pub answered : (s : S) → (client.master_recv 1 s).1 ≡ register s (pointer s) ∷ []
  pub not_changed : (q : ℕ) (s : S) → register (client.master_recv 1 s).2 q ≡ register s q

pub record IsBcd (macros : BcdMacros) : Type 0 where
  pub to_bcd : (v : ℕ) → v < 100 → macros.bin_to_bcd v ≡ 16 * (v / 10) + v % 10
  pub to_bin : (b : ℕ) → macros.bcd_to_bin b ≡ 10 * (b / 16) + b % 16

module _ {S : Type 0} (client : I2cClient S) (chip : IsChip client) where
  pub ds1307_readreg_lem :
      (reg : ℕ) (s : S) → reg < 8 → (ds1307_readreg (some client) reg s).0 ≡ chip.register s reg
  unfolding ds1307_readreg
  ds1307_readreg_lem reg s h =
      let same : reg % 256 ≡ reg = omega arith in
      rw (
        same,
        chip.sent_one reg s h,
        chip.received (client.master_send (reg ∷ []) s).1,
        chip.answered (client.master_send (reg ∷ []) s).1,
        chip.pointed reg s h,
        chip.not_written reg reg s h,
      )

  pub register-ds1307_readreg :
      (reg q : ℕ) (s : S)
      → reg < 8
      → chip.register (ds1307_readreg (some client) reg s).1 q ≡ chip.register s q
  unfolding ds1307_readreg
  register-ds1307_readreg reg q s h =
      let same : reg % 256 ≡ reg = omega arith in
      rw (
        same,
        chip.sent_one reg s h,
        chip.received (client.master_send (reg ∷ []) s).1,
        chip.not_changed q (client.master_send (reg ∷ []) s).1,
        chip.not_written reg q s h,
      )

  pub register-ds1307_writereg :
      (val reg q : ℕ) (s : S)
      → reg < 8
      → val < 256
      → chip.register (ds1307_writereg (some client) val reg s).1 q
        ≡ (if q == reg then val else chip.register s q)
  unfolding ds1307_writereg
  register-ds1307_writereg val reg q s h v =
      let same : reg % 256 ≡ reg = omega arith in
      let byte : val % 256 ≡ val = omega arith in
      rw (same, byte, chip.sent_two reg val s h v, chip.written reg val q s h v)
