-- ===== src/Circular/Counted.antt =====
-- Rings that keep a count of their elements, so that every place can be in use: the `n` elements from
-- index `r` on, and what a store behind them and a step of the read index do to them.
use tuxbox_git_driver.Common.{
  ℕ, zero, suc, ◌+◌, ◌-◌, ◌≤◌, ◌<◌, ◌≡◌, List, [], ◌∷◌, ◌++◌, arith, length, get_or, set, memcpy,
  length-append, list_ext, get_or-append_left, get_or-append_right, set-memcpy, get_or-memcpy_in,
  get_or-memcpy_below, get_or-memcpy_above, length-memcpy,
}
use tuxbox_git_driver.Circular.Lemmas.{wrap, fetch_at, length-fetch_at, get_or-fetch_at}

module _ {A : Type 0} (d : A) (buf : List A) (size r n : ℕ) (fits : size ≤ length buf)
    (hr : r < size) where
  -- An element stored behind the others comes last.
  pub push_from :
      (x : A)
      → n < size
      → fetch_at (set buf (wrap size (r + n)) x) size r (n + 1) ≡ fetch_at buf size r n ++ x ∷ []
  push_from x room =
      let buf' = memcpy buf (wrap size (r + n)) (x ∷ []) in
      let fits' : size ≤ length buf' =
        omega (arith, length-memcpy buf (wrap size (r + n)) (x ∷ [])) in
      rw (set-memcpy buf (wrap size (r + n)) x) (
        list_ext d _ _
          (omega (
            arith,
            length-fetch_at buf' size fits' r (n + 1) hr,
            length-append (fetch_at buf size r n) (x ∷ []),
            length-fetch_at buf size fits r n hr,
          ))
          λ i hi. ground (
            arith,
            length-fetch_at buf' size fits' r (n + 1) hr,
            length-fetch_at buf size fits r n hr,
            get_or-fetch_at d buf' size fits' r (n + 1) i hr,
            get_or-fetch_at d buf size fits r n i hr,
            get_or-append_left d (fetch_at buf size r n) (x ∷ []) i,
            get_or-append_right d (fetch_at buf size r n) (x ∷ []) i,
            get_or-memcpy_in d buf (wrap size (r + n)) (x ∷ []) (wrap size (r + i)),
            get_or-memcpy_below d buf (wrap size (r + n)) (x ∷ []) (wrap size (r + i)),
            get_or-memcpy_above d buf (wrap size (r + n)) (x ∷ []) (wrap size (r + i)),
          ))

  pop_at :
      (i : ℕ)
      → n ≤ size
      → i < n
      → get_or (fetch_at buf size r n) i d
        ≡ get_or (get_or buf r d ∷ fetch_at buf size (wrap size (r + 1)) (n - 1)) i d
  pop_at zero full hi = ground (arith, get_or-fetch_at d buf size fits r n 0 hr)
  pop_at (suc i) full hi = ground (
    arith,
    get_or-fetch_at d buf size fits r n (suc i) hr,
    get_or-fetch_at d buf size fits (wrap size (r + 1)) (n - 1) i,
  )

  -- The element at the read index comes first, and a step of the index takes it off.
  pub pop_from :
      0 < n
      → n ≤ size
      → fetch_at buf size r n ≡ get_or buf r d ∷ fetch_at buf size (wrap size (r + 1)) (n - 1)
  pop_from some_there full =
      list_ext d _ _
        (ground (
          arith,
          length-fetch_at buf size fits r n hr,
          length-fetch_at buf size fits (wrap size (r + 1)) (n - 1),
        ))
        λ i hi. pop_at i full (omega (arith, length-fetch_at buf size fits r n hr))
