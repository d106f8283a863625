-- ===== src/Common/Memory.antt =====
-- `memcpy` and reads of a part of an array.
use Prim.Native.Nat.{ℕ, zero, suc, ◌+◌, ◌-◌, ◌<◌, ◌≤◌}
use mathlib.Core.Path.{◌≡◌, refl, ap, ◌∙◌}
use mathlib.Core.List.{List, [], ◌∷◌, ◌++◌}
use native.Mathlib.Omega.{arith}
use tuxbox_git_driver.Common.Lists.{
  length, get_or, set, take, drop, length-take, length-drop, get_or-take, get_or-drop,
}

module _ {ℓ} {A : Type ℓ} where
  -- the `n` elements at `xs + p`
  abbrev pub slice : List A → ℕ → ℕ → List A
  slice xs p n = take n (drop p xs)

  abbrev pub overwrite : List A → List A → List A
  overwrite [] bs = []
  overwrite (x ∷ xs) [] = x ∷ xs
  overwrite (x ∷ xs) (b ∷ bs) = b ∷ overwrite xs bs

  -- memcpy(xs + p, bs, |bs|); what would go past the end of the array is dropped here, so that the
  -- theorems on bounds say that nothing is.
  abbrev pub memcpy : List A → ℕ → List A → List A
  memcpy xs zero bs = overwrite xs bs
  memcpy [] (suc p) bs = []
  memcpy (x ∷ xs) (suc p) bs = x ∷ memcpy xs p bs

  length-overwrite : (xs bs : List A) → length (overwrite xs bs) ≡ length xs
  length-overwrite [] bs = refl
  length-overwrite (x ∷ xs) [] = refl
  length-overwrite (x ∷ xs) (b ∷ bs) = ap suc (length-overwrite xs bs)

  pub length-memcpy : (xs : List A) (p : ℕ) (bs : List A) → length (memcpy xs p bs) ≡ length xs
  length-memcpy xs zero bs = length-overwrite xs bs
  length-memcpy [] (suc p) bs = refl
  length-memcpy (x ∷ xs) (suc p) bs = ap suc (length-memcpy xs p bs)

  pub memcpy-nil : (xs : List A) (p : ℕ) → memcpy xs p [] ≡ xs
  memcpy-nil [] zero = refl
  memcpy-nil (x ∷ xs) zero = refl
  memcpy-nil [] (suc p) = refl
  memcpy-nil (x ∷ xs) (suc p) = ap (◌∷◌ x) (memcpy-nil xs p)

  -- A write of one element is a copy of one element.
  pub set-memcpy : (xs : List A) (p : ℕ) (b : A) → set xs p b ≡ memcpy xs p (b ∷ [])
  set-memcpy [] zero b = refl
  set-memcpy (x ∷ []) zero b = refl
  set-memcpy (x ∷ y ∷ xs) zero b = refl
  set-memcpy [] (suc p) b = refl
  set-memcpy (x ∷ xs) (suc p) b = ap (◌∷◌ x) (set-memcpy xs p b)

  pub length-slice : (xs : List A) (p n : ℕ) → p + n ≤ length xs → length (slice xs p n) ≡ n
  length-slice xs p n h = omega (arith, length-take n (drop p xs), length-drop p xs)

  take-overwrite :
      (xs bs : List A) → length bs ≤ length xs → take (length bs) (overwrite xs bs) ≡ bs
  take-overwrite xs [] h = refl
  take-overwrite [] (b ∷ bs) h = absurd (omega arith)
  take-overwrite (x ∷ xs) (b ∷ bs) h = ap (◌∷◌ b) (take-overwrite xs bs (omega arith))

  -- The array up to the end of what was copied into it.
  pub take-memcpy :
      (xs : List A) (p : ℕ) (bs : List A)
      → p + length bs ≤ length xs
      → take (p + length bs) (memcpy xs p bs) ≡ take p xs ++ bs
  take-memcpy xs zero bs h =
      let e : 0 + length bs ≡ length bs = omega arith in rw e (take-overwrite xs bs (omega arith))
  take-memcpy [] (suc p) bs h = absurd (omega arith)
  take-memcpy (x ∷ xs) (suc p) bs h =
      let e : suc p + length bs ≡ suc (p + length bs) = omega arith in
      rw e (ap (◌∷◌ x) (take-memcpy xs p bs (omega arith)))

module _ {ℓ} {A : Type ℓ} (d : A) where
  pub get_or-slice :
      (xs : List A) (p n i : ℕ) → i < n → get_or (slice xs p n) i d ≡ get_or xs (p + i) d
  get_or-slice xs p n i h = get_or-take d n (drop p xs) i h ∙ get_or-drop d p xs i

  get_or-overwrite_in :
      (xs bs : List A) (i : ℕ)
      → i < length bs
      → i < length xs
      → get_or (overwrite xs bs) i d ≡ get_or bs i d
  get_or-overwrite_in [] bs i h k = absurd (omega arith)
  get_or-overwrite_in (x ∷ xs) [] i h k = absurd (omega arith)
  get_or-overwrite_in (x ∷ xs) (b ∷ bs) zero h k = refl
  get_or-overwrite_in (x ∷ xs) (b ∷ bs) (suc i) h k =
      get_or-overwrite_in xs bs i (omega arith) (omega arith)

  get_or-overwrite_out :
      (xs bs : List A) (i : ℕ) → length bs ≤ i → get_or (overwrite xs bs) i d ≡ get_or xs i d
  get_or-overwrite_out [] bs i h = refl
  get_or-overwrite_out (x ∷ xs) [] i h = refl
  get_or-overwrite_out (x ∷ xs) (b ∷ bs) zero h = absurd (omega arith)
  get_or-overwrite_out (x ∷ xs) (b ∷ bs) (suc i) h = get_or-overwrite_out xs bs i (omega arith)

  -- Inside the part that was copied: the source.
  pub get_or-memcpy_in :
      (xs : List A) (p : ℕ) (bs : List A) (i : ℕ)
      → p ≤ i
      → i < p + length bs
      → i < length xs
      → get_or (memcpy xs p bs) i d ≡ get_or bs (i - p) d
  get_or-memcpy_in xs zero bs i l h k =
      get_or-overwrite_in xs bs i (omega arith) k ∙ ap (λ j. get_or bs j d) (omega arith)
  get_or-memcpy_in [] (suc p) bs i l h k = absurd (omega arith)
  get_or-memcpy_in (x ∷ xs) (suc p) bs zero l h k = absurd (omega arith)
  get_or-memcpy_in (x ∷ xs) (suc p) bs (suc i) l h k =
      get_or-memcpy_in xs p bs i (omega arith) (omega arith) (omega arith)
      ∙ ap (λ j. get_or bs j d) (omega arith)

  pub get_or-memcpy_below :
      (xs : List A) (p : ℕ) (bs : List A) (i : ℕ)
      → i < p
      → get_or (memcpy xs p bs) i d ≡ get_or xs i d
  get_or-memcpy_below xs zero bs i h = absurd (omega arith)
  get_or-memcpy_below [] (suc p) bs i h = refl
  get_or-memcpy_below (x ∷ xs) (suc p) bs zero h = refl
  get_or-memcpy_below (x ∷ xs) (suc p) bs (suc i) h = get_or-memcpy_below xs p bs i (omega arith)

  pub get_or-memcpy_above :
      (xs : List A) (p : ℕ) (bs : List A) (i : ℕ)
      → p + length bs ≤ i
      → get_or (memcpy xs p bs) i d ≡ get_or xs i d
  get_or-memcpy_above xs zero bs i h = get_or-overwrite_out xs bs i (omega arith)
  get_or-memcpy_above [] (suc p) bs i h = refl
  get_or-memcpy_above (x ∷ xs) (suc p) bs zero h = absurd (omega arith)
  get_or-memcpy_above (x ∷ xs) (suc p) bs (suc i) h = get_or-memcpy_above xs p bs i (omega arith)
