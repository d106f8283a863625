-- ===== src/Circular/Lemmas.antt =====
-- Lemmas on circular buffers; no code of the repository stands here.
use tuxbox_git_driver.Common.{
  ℕ, [], ◌∷◌, ◌+◌, ◌-◌, ◌%◌, ◌≤◌, ◌<◌, ◌≡◌, List, ◌++◌, arith, ltb, if◌then◌else◌, length, get_or,
  take, drop, slice, memcpy, length-append, length-take, length-drop, length-slice, length-memcpy,
  get_or-take, get_or-drop, get_or-append_left, get_or-append_right, list_ext, get_or-slice,
  get_or-memcpy_in, get_or-memcpy_below, get_or-memcpy_above, dec_lt,
}
use native.Mathlib.Nat.{mod-eq_of_lt, mod-eq-sub-mod}

-- bytes between the indices
abbrev pub used : ℕ → ℕ → ℕ → ℕ
used size r w = if ltb w r then w + size - r else w - r

-- the bytes between the indices, oldest first
unfoldable pub contents {ℓ} : {A : Type ℓ} → List A → ℕ → ℕ → ℕ → List A
contents buf size r w =
    if ltb w r then slice buf r (size - r) ++ slice buf 0 w else slice buf r (w - r)

-- index `i` steps after `r`
abbrev pub wrap : ℕ → ℕ → ℕ
wrap size i = if ltb i size then i else i - size

-- `bs` stored from index `w` on, going round
unfoldable pub store_at {ℓ} : {A : Type ℓ} → List A → ℕ → ℕ → List A → List A
store_at buf size w bs =
    if ltb size (w + length bs)
    then memcpy (memcpy buf w (take (size - w) bs)) 0 (drop (size - w) bs)
    else memcpy buf w bs

-- `n` bytes fetched from index `r` on, going round
unfoldable pub fetch_at {ℓ} : {A : Type ℓ} → List A → ℕ → ℕ → ℕ → List A
fetch_at buf size r n =
    if ltb size (r + n)
    then slice buf r (size - r) ++ slice buf 0 (n - (size - r))
    else slice buf r n

pub store_at_fits {ℓ} :
    {A : Type ℓ} (buf : List A) (size w : ℕ) (bs : List A)
    → w + length bs ≤ size
    → memcpy buf w bs ≡ store_at buf size w bs
unfolding store_at
store_at_fits buf size w bs h = ground arith

module _ {A : Type 0} (buf : List A) (size : ℕ) (fits : size ≤ length buf) where
  pub length-contents :
      (r w : ℕ) → r < size → w < size → length (contents buf size r w) ≡ used size r w
  unfolding contents
  length-contents r w hr hw = ground (
    arith,
    length-append (slice buf r (size - r)) (slice buf 0 w),
    length-slice buf r (size - r),
    length-slice buf 0 w,
    length-slice buf r (w - r),
  )

  pub mod_wrap : (i : ℕ) → i < size + size → i % size ≡ wrap size i
  mod_wrap i h = elim (dec_lt i size) [
    | yes p ↦ ground (arith, mod-eq_of_lt p)
    | no p ↦ ground (
      arith,
      mod-eq-sub-mod {n = i} {m = size} (omega arith),
      mod-eq_of_lt {n = i - size} {m = size} (omega arith),
    )
  ]

  -- The lengths and the bytes of what is fetched.
  pub length-fetch_at : (r n : ℕ) → r < size → n ≤ size → length (fetch_at buf size r n) ≡ n
  unfolding fetch_at
  length-fetch_at r n hr hn = ground (
    arith,
    length-append (slice buf r (size - r)) (slice buf 0 (n - (size - r))),
    length-slice buf r (size - r),
    length-slice buf 0 (n - (size - r)),
    length-slice buf r n,
  )

  pub length-store_at : (w : ℕ) (bs : List A) → length (store_at buf size w bs) ≡ length buf
  unfolding store_at
  length-store_at w bs = ground (
    arith,
    length-memcpy buf w bs,
    length-memcpy buf w (take (size - w) bs),
    length-memcpy (memcpy buf w (take (size - w) bs)) 0 (drop (size - w) bs),
  )

module _ {A : Type 0} (d : A) (buf : List A) (size : ℕ) (fits : size ≤ length buf) where
  pub get_or-contents :
      (r w i : ℕ)
      → r < size
      → w < size
      → i < used size r w
      → get_or (contents buf size r w) i d ≡ get_or buf (wrap size (r + i)) d
  unfolding contents
  get_or-contents r w i hr hw hi = ground (
    arith,
    get_or-append_left d (slice buf r (size - r)) (slice buf 0 w) i,
    get_or-append_right d (slice buf r (size - r)) (slice buf 0 w) i,
    length-slice buf r (size - r),
    get_or-slice d buf r (size - r) i,
    get_or-slice d buf 0 w (i - (size - r)),
    get_or-slice d buf r (w - r) i,
  )

  pub get_or-fetch_at :
      (r n i : ℕ)
      → r < size
      → n ≤ size
      → i < n
      → get_or (fetch_at buf size r n) i d ≡ get_or buf (wrap size (r + i)) d
  unfolding fetch_at
  get_or-fetch_at r n i hr hn hi = ground (
    arith,
    get_or-append_left d (slice buf r (size - r)) (slice buf 0 (n - (size - r))) i,
    get_or-append_right d (slice buf r (size - r)) (slice buf 0 (n - (size - r))) i,
    length-slice buf r (size - r),
    get_or-slice d buf r (size - r) i,
    get_or-slice d buf 0 (n - (size - r)) (i - (size - r)),
    get_or-slice d buf r n i,
  )

  -- Fetching takes the oldest bytes, in order.
  pub fetch_at-take_from :
      (r w n : ℕ)
      → r < size
      → w < size
      → n ≤ used size r w
      → fetch_at buf size r n ≡ take n (contents buf size r w)
  fetch_at-take_from r w n hr hw h =
      list_ext d _ _
        (omega (
          arith,
          length-fetch_at buf size fits r n hr bound,
          length-take n (contents buf size r w),
          length-contents buf size fits r w hr hw,
        ))
        λ i hi.
          let lt : i < n = omega (arith, length-fetch_at buf size fits r n hr bound) in
          cc (
            get_or-fetch_at r n i hr bound lt,
            get_or-take d n (contents buf size r w) i lt,
            get_or-contents r w i hr hw (omega arith),
          )
    where
      bound : n ≤ size
      bound = ground arith

  -- Skipping drops them.
  pub contents-skip_from :
      (r w n : ℕ)
      → r < size
      → w < size
      → n ≤ used size r w
      → contents buf size ((r + n) % size) w ≡ drop n (contents buf size r w)
  contents-skip_from r w n hr hw h = rw next (
      list_ext d _ _
        (ground (
          arith,
          length-drop n (contents buf size r w),
          length-contents buf size fits r w hr hw,
          length-contents buf size fits (wrap size (r + n)) w,
        ))
        λ i hi. ground (
          arith,
          length-contents buf size fits (wrap size (r + n)) w,
          get_or-drop d n (contents buf size r w) i,
          get_or-contents r w (n + i) hr hw,
          get_or-contents (wrap size (r + n)) w i,
        ))
    where
      next : (r + n) % size ≡ wrap size (r + n)
      next = mod_wrap buf size fits (r + n) (ground arith)

  -- A stored byte is read back at its place.
  get_or-store_at_in :
      (w i : ℕ) (bs : List A)
      → w < size
      → length bs ≤ size
      → i < length bs
      → get_or (store_at buf size w bs) (wrap size (w + i)) d ≡ get_or bs i d
  unfolding store_at
  get_or-store_at_in w i bs hw hb hi = ground (
    arith,
    length-take (size - w) bs,
    length-drop (size - w) bs,
    length-memcpy buf w (take (size - w) bs),
    get_or-memcpy_in d buf w bs (w + i),
    get_or-memcpy_in d buf w (take (size - w) bs) (w + i),
    get_or-take d (size - w) bs i,
    get_or-memcpy_above d (memcpy buf w (take (size - w) bs)) 0 (drop (size - w) bs) (w + i),
    get_or-memcpy_in d (memcpy buf w (take (size - w) bs)) 0 (drop (size - w) bs) (w + i - size),
    get_or-drop d (size - w) bs (w + i - size),
  )

  -- The bytes outside the stored part stay.
  get_or-store_at_out :
      (w i : ℕ) (bs : List A)
      → w < size
      → length bs ≤ i
      → i < size
      → get_or (store_at buf size w bs) (wrap size (w + i)) d ≡ get_or buf (wrap size (w + i)) d
  unfolding store_at
  get_or-store_at_out w i bs hw hb hi = ground (
    arith,
    length-take (size - w) bs,
    length-drop (size - w) bs,
    get_or-memcpy_above d buf w bs (w + i),
    get_or-memcpy_below d buf w bs (w + i - size),
    get_or-memcpy_below d buf w (take (size - w) bs) (w + i - size),
    get_or-memcpy_above d (memcpy buf w (take (size - w) bs)) 0 (drop (size - w) bs) (w + i - size),
  )

module _ {A : Type 0} (d : A) (buf : List A) (size r w : ℕ) (bs : List A) (fits : size ≤ length buf)
    (hr : r < size) (hw : w < size) (room : used size r w + length bs < size) where
  abbrev stored : List A
  stored = store_at buf size w bs

  abbrev next : ℕ
  next = wrap size (w + length bs)

  stored_fits : size ≤ length stored
  stored_fits = omega (arith, length-store_at buf size fits w bs)

  used-next : used size r next ≡ used size r w + length bs
  used-next = ground arith

  next_lt : next < size
  next_lt = ground arith

  stored_old :
      (i : ℕ)
      → i < used size r w
      → get_or stored (wrap size (r + i)) d ≡ get_or buf (wrap size (r + i)) d
  stored_old i hi =
      let place : wrap size (w + (size - used size r w + i)) ≡ wrap size (r + i) = ground arith in
      rw place at (
        get_or-store_at_out d buf size fits w (size - used size r w + i) bs hw (ground arith)
          (ground arith))

  stored_new :
      (i : ℕ)
      → used size r w ≤ i
      → i < used size r w + length bs
      → get_or stored (wrap size (r + i)) d ≡ get_or bs (i - used size r w) d
  stored_new i lo hi =
      let place : wrap size (w + (i - used size r w)) ≡ wrap size (r + i) = ground arith in
      rw place at
        (get_or-store_at_in d buf size fits w (i - used size r w) bs hw (omega arith) (omega arith))

  -- What is stored follows what was there.
  pub contents-store_at_from :
      contents (store_at buf size w bs) size r ((w + length bs) % size)
      ≡ contents buf size r w ++ bs
  contents-store_at_from = rw (mod_wrap buf size fits (w + length bs) (omega arith)) (
      list_ext d _ _
        (omega (
          arith,
          used-next,
          length-contents stored size stored_fits r next hr next_lt,
          length-append (contents buf size r w) bs,
          length-contents buf size fits r w hr hw,
        ))
        λ i hi. ground (
          arith,
          used-next,
          length-contents stored size stored_fits r next hr next_lt,
          length-contents buf size fits r w hr hw,
          get_or-contents d stored size stored_fits r next i hr next_lt,
          get_or-contents d buf size fits r w i hr hw,
          get_or-append_left d (contents buf size r w) bs i,
          get_or-append_right d (contents buf size r w) bs i,
          stored_old i,
          stored_new i,
        ))

-- The array is not empty, so its first element is the default.
pub fetch_at-take :
    {A : Type 0} (buf : List A) (size : ℕ)
    → size ≤ length buf
    → (r w n : ℕ) → r < size
    → w < size
    → n ≤ used size r w
    → fetch_at buf size r n ≡ take n (contents buf size r w)
fetch_at-take [] size fits r w n hr hw h = absurd (omega arith)
fetch_at-take (b ∷ buf) size fits r w n hr hw h =
    fetch_at-take_from b (b ∷ buf) size fits r w n hr hw h

pub contents-skip :
    {A : Type 0} (buf : List A) (size : ℕ)
    → size ≤ length buf
    → (r w n : ℕ) → r < size
    → w < size
    → n ≤ used size r w
    → contents buf size ((r + n) % size) w ≡ drop n (contents buf size r w)
contents-skip [] size fits r w n hr hw h = absurd (omega arith)
contents-skip (b ∷ buf) size fits r w n hr hw h =
    contents-skip_from b (b ∷ buf) size fits r w n hr hw h

pub contents-store_at :
    {A : Type 0} (buf : List A) (size r w : ℕ) (bs : List A)
    → size ≤ length buf
    → r < size
    → w < size
    → used size r w + length bs < size
    → contents (store_at buf size w bs) size r ((w + length bs) % size)
      ≡ contents buf size r w ++ bs
contents-store_at [] size r w bs fits hr hw room = absurd (omega arith)
contents-store_at (b ∷ buf) size r w bs fits hr hw room =
    contents-store_at_from b (b ∷ buf) size r w bs fits hr hw room
