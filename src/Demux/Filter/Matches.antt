-- ===== src/Demux/Filter/Matches.antt =====
-- What a section filter passes, said without the loops: the specification of the filter's value, mask
-- and mode, and prepare_secfilters and dvb_dmx_swfilter_sectionfilter against it.
use tuxbox_git_driver.Common.{
  ℕ, zero, suc, ◌+◌, ◌≤◌, ◌<◌, ◌≡◌, ◌≢◌, ◌⊎◌, inl, inr, ◌↔◌, List, true, false, none, some, arith,
  ltb, get_or, bit_and, bit_or, bit_xor, ℕ_discrete, Bool-cases, Option-cases, refl, ap, sym, ◌∙◌,
  not, ◌&&◌, ◌==◌,
}
use native.Mathlib.Nat.{zero-add}
use tuxbox_git_driver.Common.Bits.{bit_or-eq_zero}
use tuxbox_git_driver.Demux.Types.{DemuxFilter}
use tuxbox_git_driver.Demux.Filter.{mask_max, match_loop, passes, prepare_loop, prepare_filter}

-- The bits of byte i that are compared for equality, those compared for a difference, and those in
-- which the section differs from the value.
abbrev pub positive : DemuxFilter → ℕ → ℕ
positive f i = bit_and (get_or f.filter_mask i 0) (get_or f.filter_mode i 0)

abbrev pub negative : DemuxFilter → ℕ → ℕ
negative f i = bit_and (get_or f.filter_mask i 0) (bit_xor (get_or f.filter_mode i 0) 0xff)

abbrev pub difference : DemuxFilter → List ℕ → ℕ → ℕ
difference f secbuf i = bit_xor (get_or f.filter_value i 0) (get_or secbuf i 0)

-- Every positive bit is as in the value; and if there is a negative bit at all, some negative bit is
-- not as in the value.
pub record Matches (f : DemuxFilter) (secbuf : List ℕ) : Type 0 where
  pub same : (i : ℕ) → i < mask_max → bit_and (positive f i) (difference f secbuf i) ≡ 0
  pub differs :
      ((i : ℕ) → i < mask_max → negative f i ≡ 0)
      ⊎ ((i : ℕ) × (i < mask_max) × (bit_and (negative f i) (difference f secbuf i) ≢ 0))

-- The loop of dvb_dmx_swfilter_sectionfilter over the bytes from i on.
module _ (f : DemuxFilter) (secbuf : List ℕ) where
  abbrev hit : ℕ → ℕ
  hit j = bit_and (get_or f.maskandmode j 0) (difference f secbuf j)

  abbrev nothit : ℕ → ℕ
  nothit j = bit_and (get_or f.maskandnotmode j 0) (difference f secbuf j)

  loop_none : (n i q : ℕ) → match_loop n i f secbuf q ≡ none → (j : ℕ) × (j < i + n) × (hit j ≢ 0)
  unfolding match_loop
  loop_none zero i q e = cc
  loop_none (suc n) i q e = elim (Bool-cases (ltb 0 (hit i))) [
    | inl h ↦ (i, omega arith, ground arith)
    | inr h ↦
        let (j, p, x) = loop_none n (i + 1) (bit_or q (nothit i)) (ground arith) in
        (j, omega arith, x)
  ]

  loop_some :
      (n i q m : ℕ) → match_loop n i f secbuf q ≡ some m → (j : ℕ) → i ≤ j → j < i + n → hit j ≡ 0
  unfolding match_loop
  loop_some zero i q m e j lo up = absurd (omega arith)
  loop_some (suc n) i q m e j lo up = elim (ℕ_discrete i j) [
    | yes p ↦ ground arith
    | no p ↦
        loop_some n (i + 1) (bit_or q (nothit i)) m (ground arith) j (omega arith) (omega arith)
  ]

  -- `neq` is zero in the end if it was and no negative bit differs, and only then.
  loop_zero :
      (n i q : ℕ)
      → match_loop n i f secbuf q ≡ some 0
      → (q ≡ 0) × ((j : ℕ) → i ≤ j → j < i + n → nothit j ≡ 0)
  unfolding match_loop
  loop_zero zero i q e = (ground arith, λ j lo up. absurd (omega arith))
  loop_zero (suc n) i q e =
      let (z, rest) = loop_zero n (i + 1) (bit_or q (nothit i)) (ground arith) in
      let (qz, hz) = (bit_or-eq_zero q (nothit i)).0 z in
      (
        qz,
        λ j lo up. elim (ℕ_discrete i j) [
          | yes p ↦ ground arith
          | no p ↦ rest j (omega arith) (omega arith)
        ],
      )

  loop_nonzero :
      (n i q m : ℕ)
      → match_loop n i f secbuf q ≡ some m
      → m ≢ 0
      → (q ≢ 0) ⊎ ((j : ℕ) × (j < i + n) × (nothit j ≢ 0))
  unfolding match_loop
  loop_nonzero zero i q m e h = inl (ground arith)
  loop_nonzero (suc n) i q m e h =
      elim (loop_nonzero n (i + 1) (bit_or q (nothit i)) m (ground arith) h) [
        | inr (j, p, x) ↦ inr (j, omega arith, x)
        | inl nz ↦ elim (ℕ_discrete q 0) [
          | no p ↦ inl p
          | yes p ↦ elim (ℕ_discrete (nothit i) 0) [
            | no x ↦ inr (i, omega arith, x)
            | yes x ↦ absurd (nz ((bit_or-eq_zero q (nothit i)).1 (p, x)))
          ]
        ]
      ]

-- What prepare_secfilters stores.
module _ (f : DemuxFilter) where
  prepared_ands : (n i j : ℕ) → j < n → get_or (prepare_loop n i f).0 j 0 ≡ positive f (i + j)
  unfolding prepare_loop
  prepared_ands zero i j h = absurd (omega arith)
  prepared_ands (suc n) i zero h = ap (positive f) (omega arith)
  prepared_ands (suc n) i (suc j) h =
      let k : i + suc j ≡ i + 1 + j = omega arith in rw k (prepared_ands n (i + 1) j (omega arith))

  prepared_nots : (n i j : ℕ) → j < n → get_or (prepare_loop n i f).1 j 0 ≡ negative f (i + j)
  unfolding prepare_loop
  prepared_nots zero i j h = absurd (omega arith)
  prepared_nots (suc n) i zero h = ap (negative f) (omega arith)
  prepared_nots (suc n) i (suc j) h =
      let k : i + suc j ≡ i + 1 + j = omega arith in rw k (prepared_nots n (i + 1) j (omega arith))

  prepared_none :
      (n i : ℕ) → (prepare_loop n i f).2 ≡ 0 → (j : ℕ) → i ≤ j → j < i + n → negative f j ≡ 0
  unfolding prepare_loop
  prepared_none zero i e j lo up = absurd (omega arith)
  prepared_none (suc n) i e j lo up =
      let (z, rest) = (bit_or-eq_zero (negative f i) (prepare_loop n (i + 1) f).2).0 e in
      elim (ℕ_discrete i j) [
        | yes p ↦ ground arith
        | no p ↦ prepared_none n (i + 1) rest j (omega arith) (omega arith)
      ]

  prepared_some :
      (n i : ℕ) → (prepare_loop n i f).2 ≢ 0 → (j : ℕ) × (i ≤ j) × (j < i + n) × (negative f j ≢ 0)
  unfolding prepare_loop
  prepared_some zero i h = absurd (h refl)
  prepared_some (suc n) i h = elim (ℕ_discrete (negative f i) 0) [
    | no p ↦ (i, omega arith, omega arith, p)
    | yes p ↦
        let (j, lo, up, x) =
          prepared_some n (i + 1)
            (λ e. h ((bit_or-eq_zero (negative f i) (prepare_loop n (i + 1) f).2).1 (p, e))) in
        (j, omega arith, omega arith, x)
  ]

module _ (f : DemuxFilter) (secbuf : List ℕ) where
  abbrev prepared : DemuxFilter
  prepared = prepare_filter f

  ands_at :
      (j : ℕ)
      → j < mask_max
      → hit prepared secbuf j ≡ bit_and (positive f j) (difference f secbuf j)
  unfolding prepare_filter
  ands_at j h =
      ap (λ m. bit_and m (difference f secbuf j))
        (rw (zero-add j) at (prepared_ands f mask_max 0 j h))

  nots_at :
      (j : ℕ)
      → j < mask_max
      → nothit prepared secbuf j ≡ bit_and (negative f j) (difference f secbuf j)
  unfolding prepare_filter
  nots_at j h =
      ap (λ m. bit_and m (difference f secbuf j))
        (rw (zero-add j) at (prepared_nots f mask_max 0 j h))

  doneq_false : prepared.doneq ≡ false → (j : ℕ) → j < mask_max → negative f j ≡ 0
  unfolding prepare_filter
  doneq_false e j h = prepared_none f mask_max 0 (ground arith) j (omega arith) (omega arith)

  doneq_true : prepared.doneq ≡ true → (j : ℕ) × (j < mask_max) × (negative f j ≢ 0)
  unfolding prepare_filter
  doneq_true e =
      let (j, lo, up, x) = prepared_some f mask_max 0 (λ z. ground arith) in (j, omega arith, x)

  passes-none : match_loop mask_max 0 prepared secbuf 0 ≡ none → passes prepared secbuf ≡ false
  unfolding passes
  passes-none e = rw (e, passes)

  passes-some :
      (m : ℕ)
      → match_loop mask_max 0 prepared secbuf 0 ≡ some m
      → passes prepared secbuf ≡ not (prepared.doneq && (m == 0))
  unfolding passes
  passes-some m e = rw (e, passes)

  to_Matches :
      (m : ℕ)
      → match_loop mask_max 0 prepared secbuf 0 ≡ some m
      → (prepared.doneq ≡ false) ⊎ (m ≢ 0)
      → Matches f secbuf
  to_Matches m e d = record {
    same = λ i h. ands_at_zero i h;
    differs = elim d [
      | inl no_negative ↦ inl (doneq_false no_negative)
      | inr nz ↦ elim (loop_nonzero prepared secbuf mask_max 0 0 m e nz) [
        | inl z ↦ absurd (z refl)
        | inr (j, up, x) ↦ inr (j, omega arith, λ z. x (nots_at j (omega arith) ∙ z))
      ]
    ];
  }
    where
      ands_at_zero : (i : ℕ) → i < mask_max → bit_and (positive f i) (difference f secbuf i) ≡ 0
      ands_at_zero i h =
          sym (ands_at i h)
          ∙ loop_some prepared secbuf mask_max 0 0 m e i (omega arith) (omega arith)

  from_Matches :
      (m : ℕ)
      → match_loop mask_max 0 prepared secbuf 0 ≡ some m
      → Matches f secbuf
      → (prepared.doneq ≡ false) ⊎ (m ≢ 0)
  from_Matches m e v = elim v.differs [
    | inl no_negative ↦ elim (Bool-cases prepared.doneq) [
      | inl d ↦ let (j, h, x) = doneq_true d in absurd (x (no_negative j h))
      | inr d ↦ inl d
    ]
    | inr (j, h, x) ↦ inr λ z.
        let (_, all) = loop_zero prepared secbuf mask_max 0 0 (rw z at e) in
        x (sym (nots_at j h) ∙ all j (omega arith) (omega arith))
  ]

  -- After prepare_secfilters, dvb_dmx_swfilter_sectionfilter passes a section to the callback exactly
  -- if the section matches the filter.
  pub passes-Matches : (passes (prepare_filter f) secbuf ≡ true) ↔ Matches f secbuf
  passes-Matches = elim (Option-cases (match_loop mask_max 0 prepared secbuf 0)) [
    | inl e ↦ (
      (λ p. cc (passes-none e)),
      λ v.
          let (j, up, x) = loop_none prepared secbuf mask_max 0 0 e in
          absurd (x (ands_at j (omega arith) ∙ v.same j (omega arith))),
    )
    | inr (m, e) ↦ (
      (λ p. to_Matches m e (ground (arith, passes-some m e))),
      λ v. ground (arith, passes-some m e, from_Matches m e v),
    )
  ]
