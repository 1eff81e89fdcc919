-- ===== src/Alg/Diff/Standard.antt =====
-- The pixel loop of alg_diff_standard against a description of each pixel.
use cy_prus.Prelude.{ℕ, suc, ◌+◌, ◌/◌, ◌≤◌, ◌<◌, ◌≡◌, refl, sym, ◌∙◌, ap, Bool, not}
use cy_prus.Prelude.{◌&&◌, ◌||◌, if◌then◌else◌, ltb, ◌==◌, truth, List, length, get_or, set, arith}
use cy_prus.Prelude.{length-append, length-replicate}
use cy_prus.Prelude.{get_or-replicate, get_or-append_left, get_or-append_right, ◌++◌, replicate}
use cy_prus.Prelude.{rounds_inv, count_below, sum_below-suc, sum_below-zero}
use cy_prus.Prelude.{dec_lt, Passed, Passed-start, Passed-set_if}
use cy_prus.Alg.Diff.{Frame, Diffs, masked_diff, diff_step, diff_standard}

module _ (c : Frame) (new : List ℕ) where
  -- The pixel differs by more than the noise level, and the smart mask does not hide it.
  abbrev pub is_moving : ℕ → Bool
  is_moving i =
      ltb c.noise (masked_diff c new i)
      && (c.smartmask_speed == 0 || truth (get_or c.smartmask_final i 0))

  -- The pixel feeds the smart mask: over the noise level, before the smart mask is applied,
  -- while no event is going on.
  abbrev pub feeds_mask : ℕ → Bool
  feeds_mask i =
      truth c.smartmask_speed
      && ltb c.noise (masked_diff c new i)
      && not (c.event_nr == c.prev_event)

  -- One round, read off the two predicates.
  diff_step_lem :
      (i : ℕ) (s : Diffs)
      → diff_step c new i s ≡ record {
        out = if is_moving i then set s.out i (get_or new i 0) else s.out;
        smartmask_buffer =
            if feeds_mask i
            then set s.smartmask_buffer i (get_or s.smartmask_buffer i 0 + 5)
            else s.smartmask_buffer;
        diffs = s.diffs + (if is_moving i then 1 else 0);
      }
  unfolding diff_step
  diff_step_lem i s = ground arith

  abbrev pub pixel_out : List ℕ → ℕ → ℕ
  pixel_out old i = if is_moving i then get_or new i 0 else get_or old i 0

  abbrev pub pixel_buffer : List ℕ → ℕ → ℕ
  pixel_buffer old i = if feeds_mask i then get_or old i 0 + 5 else get_or old i 0

  -- What the rounds before `n` have made of the buffers that they found.
  pub record Differs (out buffer : List ℕ) (n : ℕ) (s : Diffs) : Type 0 where
    pub pixels : Passed (pixel_out out) out n s.out
    pub fed : Passed (pixel_buffer buffer) buffer n s.smartmask_buffer
    pub counted : s.diffs ≡ count_below is_moving n

  Differs-step :
      (out buffer : List ℕ) (n : ℕ) (s : Diffs)
      → n < length out
      → n < length buffer
      → Differs out buffer n s
      → Differs out buffer (suc n) (diff_step c new n s)
  Differs-step out buffer n s ho hb d = rw (diff_step_lem n s) (record {
    pixels = Passed-set_if (is_moving n) (get_or new n 0) d.pixels ho refl;
    fed =
        Passed-set_if (feeds_mask n) (get_or s.smartmask_buffer n 0 + 5) d.fed hb
          (rw (d.fed.ahead n (omega arith)));
    counted =
        ap (λ k. k + (if is_moving n then 1 else 0)) d.counted
        ∙ sym (sum_below-suc (λ i. if is_moving i then 1 else 0) n);
  })

  abbrev cleared : List ℕ
  cleared = replicate c.motionsize 0 ++ replicate (c.motionsize / 2) 128

  length-cleared : length cleared ≡ c.motionsize + c.motionsize / 2
  length-cleared = simp (length-append, length-replicate)

  cleared_luma : (i : ℕ) → i < c.motionsize → get_or cleared i 0 ≡ 0
  cleared_luma i h =
      get_or-append_left (replicate c.motionsize 0) _ i 0 (rw length-replicate h)
      ∙ get_or-replicate c.motionsize i 0 0 h

  cleared_chroma :
      (i : ℕ) → c.motionsize ≤ i → i < c.motionsize + c.motionsize / 2 → get_or cleared i 0 ≡ 128
  cleared_chroma i le lt =
      get_or-append_right (replicate c.motionsize 0) _ i 0 (rw length-replicate le)
      ∙ get_or-replicate (c.motionsize / 2) _ 128 0 (rw length-replicate (omega arith))

  cleared-Differs :
      (buffer : List ℕ)
      → c.motionsize ≤ length buffer
      → Differs cleared buffer c.motionsize (diff_standard c new buffer)
  unfolding diff_standard
  cleared-Differs buffer h =
      rounds_inv (Differs cleared buffer) (diff_step c new) c.motionsize _
        (record {
          pixels = Passed-start _ cleared;
          fed = Passed-start _ buffer;
          counted = sym (sum_below-zero (λ i. if is_moving i then 1 else 0));
        })
        (λ i s lt d.
          Differs-step cleared buffer i s (rw length-cleared (omega arith)) (omega arith) d)

  -- alg_diff_standard, on a smart mask buffer of at least `motionsize` elements: a pixel of the
  -- picture `out` is that of the new frame if it is moving and 0 if not, the chroma part is 128,
  -- the result is the number of moving pixels, and the smart mask buffer grows by 5 at the pixels
  -- that feed it and is unchanged elsewhere.
  pub record IsDifference (buffer : List ℕ) (d : Diffs) : Type 0 where
    pub size : length d.out ≡ c.motionsize + c.motionsize / 2
    pub luma :
        (i : ℕ) → i < c.motionsize → get_or d.out i 0 ≡ (if is_moving i then get_or new i 0 else 0)
    pub chroma :
        (i : ℕ) → c.motionsize ≤ i → i < c.motionsize + c.motionsize / 2 → get_or d.out i 0 ≡ 128
    pub counted : d.diffs ≡ count_below is_moving c.motionsize
    pub buffer_size : length d.smartmask_buffer ≡ length buffer
    pub fed :
        (i : ℕ)
        → get_or d.smartmask_buffer i 0
          ≡ get_or buffer i 0 + (if ltb i c.motionsize && feeds_mask i then 5 else 0)

  pub diff_standard-IsDifference :
      (buffer : List ℕ)
      → c.motionsize ≤ length buffer
      → IsDifference buffer (diff_standard c new buffer)
  diff_standard-IsDifference buffer h =
      let d = cleared-Differs buffer h in
      record {
        size = d.pixels.size ∙ length-cleared;
        luma = λ i lt. d.pixels.done i lt ∙ rw (cleared_luma i lt);
        chroma = λ i le lt. d.pixels.ahead i le ∙ cleared_chroma i le lt;
        counted = d.counted;
        buffer_size = d.fed.size;
        fed = λ i. elim (dec_lt i c.motionsize) [
          | yes p ↦ d.fed.done i p ∙ ground arith
          | no p ↦ d.fed.ahead i (omega arith) ∙ ground arith
        ];
      }
