-- ===== src/Avia/Resync.antt =====
-- avia_gt_dmx_bh_task on a queue of transport packets: it drops bytes until a packet begins.
use tuxbox_git_driver.Common.{
  ℕ, zero, suc, ◌-◌, ◌≤◌, ◌<◌, ◌≡◌, refl, ap, subst, ◌∙◌, List, [], ◌∷◌, true, false, arith, length,
  take, drop, ltb, leb, length-drop, Bool-cases, inl, inr, dec_lt, ◌⊎◌, ◌&&◌,
}
use tuxbox_git_driver.Avia.{Queue, bytes_avail, data_get, is_synced, resync_loop, resync}
use tuxbox_git_driver.Avia.Get.{IsValid, contents, bytes_avail_lem, taken, data_get_refines}

-- From `bytes` on, `count` bytes are dropped, `rest` is left, and no packet begins at a dropped byte.
pub record Dropped (pid1 pid2 : ℕ) (bytes rest : List ℕ) : Type 0 where
  pub count : ℕ
  pub left : rest ≡ drop count bytes
  pub none_before : (j : ℕ) → j < count → is_synced pid1 pid2 (take 4 (drop j bytes)) ≡ false

drop-one : (k : ℕ) (xs : List ℕ) → drop k (drop 1 xs) ≡ drop (suc k) xs
drop-one zero [] = refl
drop-one (suc k) [] = refl
drop-one k (x ∷ xs) = refl

Dropped-none : (pid1 pid2 : ℕ) (bytes : List ℕ) → Dropped pid1 pid2 bytes bytes
Dropped-none pid1 pid2 bytes = record {
  count = 0;
  left = refl;
  none_before = λ j h. absurd (omega arith);
}

Dropped-one :
    (pid1 pid2 : ℕ) (bytes rest : List ℕ)
    → is_synced pid1 pid2 (take 4 bytes) ≡ false
    → Dropped pid1 pid2 (drop 1 bytes) rest
    → Dropped pid1 pid2 bytes rest
Dropped-one pid1 pid2 bytes rest off d = record {
  count = suc d.count;
  left = d.left ∙ drop-one d.count bytes;
  none_before = later;
}
  where
    later : (j : ℕ) → j < suc d.count → is_synced pid1 pid2 (take 4 (drop j bytes)) ≡ false
    later zero h = off
    later (suc j) h =
        subst (λ l. is_synced pid1 pid2 (take 4 l) ≡ false) (drop-one j bytes)
          (d.none_before j (omega arith))

-- How the loop ends.
record Ended (pid1 pid2 : ℕ) (bytes : List ℕ) (r : ℕ × Queue) : Type 0 where
  valid : IsValid r.1
  same : r.0 ≡ length (contents r.1)
  dropped : Dropped pid1 pid2 bytes (contents r.1)
  synced : 188 ≤ r.0 → is_synced pid1 pid2 (take 4 (contents r.1)) ≡ true

header :
    {q : Queue} → IsValid q → 4 ≤ length (contents q) → (data_get 4 true q).1 ≡ take 4 (contents q)
header {q} v h =
    let four : taken 4 q ≡ 4 = ground arith in
    let (_, bytes, _, _) = data_get_refines 4 true v in bytes ∙ ap (λ n. take n (contents q)) four

behind_one :
    {q : Queue}
    → IsValid q
    → 1 ≤ length (contents q)
    → let q' = (data_get 1 false q).2 in (contents q' ≡ drop 1 (contents q)) × IsValid q'
behind_one {q} v h =
    let one : taken 1 q ≡ 1 = ground arith in
    let (_, _, rest, v') = data_get_refines 1 false v in
    (rest ∙ ap (λ n. drop n (contents q)) one, v')

module _ (pid1 pid2 : ℕ) where
  -- The loop starts at a byte where no packet begins.
  resync_loop_lem :
      (fuel avail : ℕ) {q : Queue}
      → IsValid q
      → avail ≡ length (contents q)
      → avail ≤ fuel
      → is_synced pid1 pid2 (take 4 (contents q)) ≡ false
      → Ended pid1 pid2 (contents q) (resync_loop fuel pid1 pid2 avail q)
  unfolding resync_loop
  resync_loop_lem zero avail {q} v same enough off = record {
    valid = v;
    same = same;
    dropped = Dropped-none pid1 pid2 (contents q);
    synced = λ h. absurd (omega arith);
  }
  resync_loop_lem (suc fuel) avail {q} v same enough off = elim (dec_lt avail 188) [
    | yes h ↦
        let few : ltb avail 188 ≡ true = ground arith in
        rw few (record {
          valid = v;
          same = same;
          dropped = Dropped-none pid1 pid2 (contents q);
          synced = λ k. absurd (omega arith);
        })
    | no h ↦
        let many : ltb avail 188 ≡ false = ground arith in
        let q' = (data_get 1 false q).2 in
        let (rest, v') = behind_one v (omega arith) in
        let shorter : avail - 1 ≡ length (contents q') =
          omega (arith, ap length rest, length-drop 1 (contents q)) in
        let ts = header v' (omega arith) in
        rw (many, ts)
          (elim (Bool-cases (is_synced pid1 pid2 (take 4 (contents q')))) [
            | inl on ↦ rw on (record {
              valid = v';
              same = shorter;
              dropped = Dropped-one pid1 pid2 (contents q) (contents q') off (
                  subst (λ l. Dropped pid1 pid2 l (contents q')) rest
                    (Dropped-none pid1 pid2 (contents q')));
              synced = λ k. on;
            })
            | inr still ↦
                let loop = resync_loop fuel pid1 pid2 (avail - 1) q' in
                let e = resync_loop_lem fuel (avail - 1) v' shorter (omega arith) still in
                rw still (record {
                  valid = e.valid;
                  same = e.same;
                  dropped =
                      Dropped-one pid1 pid2 (contents q) (contents loop.1) off
                        (subst (λ l. Dropped pid1 pid2 l (contents loop.1)) rest e.dropped);
                  synced = e.synced;
                })
          ])
  ]

  -- The part of avia_gt_dmx_bh_task for transport packets, on a valid queue: it drops bytes at none of which
  -- a packet of the two PIDs begins, keeps the queue valid, and goes on to the callback exactly if a whole
  -- packet waits then and begins with the sync byte and one of the PIDs; if it does not go on, fewer bytes
  -- wait than a packet has.
  pub resync_lem :
      {q : Queue}
      → IsValid q
      → let (goes_on, q') = resync pid1 pid2 q in
        IsValid q'
        × Dropped pid1 pid2 (contents q) (contents q')
        × (goes_on ≡ (leb 188 (length (contents q')) && is_synced pid1 pid2 (take 4 (contents q'))))
        × ((goes_on ≡ true) ⊎ (length (contents q') < 188))
  unfolding resync
  resync_lem {q} v =
      let avail = bytes_avail q in
      let same = bytes_avail_lem v in
      let none = Dropped-none pid1 pid2 (contents q) in
      elim (dec_lt avail 188) [
        | yes h ↦
            let few : ltb avail 188 ≡ true = ground arith in
            rw few (v, none, ground (arith, same), inr (omega (arith, same)))
        | no h ↦
            let many : ltb avail 188 ≡ false = ground arith in
            let ts = header v (omega (arith, same)) in
            rw (many, ts)
              (elim (Bool-cases (is_synced pid1 pid2 (take 4 (contents q)))) [
                | inl on ↦ rw on (v, none, ground (arith, same, on), inl refl)
                | inr off ↦
                    let e = resync_loop_lem avail avail v same (omega arith) off in
                    rw off
                      (e.valid, e.dropped, ground (arith, e.same, e.synced), ground (arith, e.same))
              ])
      ]
