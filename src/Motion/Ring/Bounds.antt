-- ===== src/Motion/Ring/Bounds.antt =====
-- The two places of the ring, `in` and `out`, while pictures are stored and the ring is resized.
use cy_prus.Prelude.{
  ℕ, ◌+◌, ◌-◌, ◌≤◌, ◌<◌, ◌≡◌, ◌≢◌, refl, sym, ◌∙◌, true, not, ◌&&◌, ◌||◌, if◌then◌else◌, ltb, ◌==◌,
  arith, List, length, length-set, get_or-set_self, get_or-set_ne, take, replicate, ◌++◌,
  length-append, length-replicate, length-take_le, get_or-append_left, get_or-append_right,
  get_or-take, get_or-replicate,
}
use cy_prus.Motion.{Image, Context}
use cy_prus.Motion.Ring.{grey_image, image_at, image_ring_resize, next_place, prepared, next_image}

-- The ring has the size that is noted, and both places lie in it.
pub record WellFormed (c : Context) : Type 0 where
  pub size : c.image_ring_size ≡ length c.image_ring
  pub in_room : c.image_ring_in < c.image_ring_size
  pub out_room : c.image_ring_out < c.image_ring_size

-- After the step to the next place: the ring is well-formed, the place has the cleared or carried
-- over picture with its time, every other picture is as before, and the place to be saved next is
-- another one where the ring has two at least.
pub record Stored (currenttime shots : ℕ) (c now : Context) : Type 0 where
  pub well_formed : WellFormed now
  pub moved : now.image_ring_in ≡ next_place c.image_ring_size c.image_ring_in
  pub stored :
      let old = image_at c.image_ring now.image_ring_in in
      image_at now.image_ring now.image_ring_in ≡ (
        let p = prepared c.process_thisframe (image_at c.image_ring c.image_ring_in) old in
        record p { timestamp = currenttime; shot = shots })
  pub others : (i : ℕ) → i ≢ now.image_ring_in → image_at now.image_ring i ≡ image_at c.image_ring i
  pub apart : 2 ≤ c.image_ring_size → now.image_ring_in ≢ now.image_ring_out

-- Storing the next picture keeps the ring well-formed and changes one place of it; when the ring
-- is full the oldest picture is given up.
pub next_image-Stored :
    (currenttime shots : ℕ) (c : Context)
    → WellFormed c
    → Stored currenttime shots c (next_image currenttime shots c)
unfolding next_image
next_image-Stored currenttime shots c w =
    let room : next_place c.image_ring_size c.image_ring_in < c.image_ring_size =
      ground (arith, w.in_room) in
    record {
      well_formed = record {
        size = w.size ∙ sym (length-set c.image_ring _ _);
        in_room = room;
        out_room = ground (arith, w.out_room);
      };
      moved = refl;
      stored = get_or-set_self c.image_ring _ _ _ (omega (arith, w.size));
      others = λ i ne. get_or-set_ne c.image_ring _ i _ _ (λ e. ne (sym e));
      apart = λ two e. ground (arith, w.out_room);
    }

-- What image_ring_resize promises when it acts: the ring has the new size and its pictures are the
-- old ones as far as they go, then grey ones; the place that was stored last lies in it.
pub record Resized (bytes new_size : ℕ) (c now : Context) : Type 0 where
  pub noted : now.image_ring_size ≡ new_size
  pub size : length now.image_ring ≡ new_size
  pub old_ones :
      (i : ℕ)
      → i < new_size
      → i < c.image_ring_size
      → image_at now.image_ring i ≡ image_at c.image_ring i
  pub new_ones :
      (i : ℕ) → i < new_size → c.image_ring_size ≤ i → image_at now.image_ring i ≡ grey_image bytes
  pub in_room : now.image_ring_in < new_size
  pub out_kept : now.image_ring_out ≡ c.image_ring_out

abbrev smaller : ℕ → ℕ → ℕ
smaller new old = if ltb new old then new else old

-- The smaller ring, then grey pictures.
resized_list :
    (bytes new_size k : ℕ) (ring : List Image)
    → k ≤ length ring
    → k ≤ new_size
    → let r = take k ring ++ replicate (new_size - k) (grey_image bytes) in
      (length r ≡ new_size)
      × ((i : ℕ) → i < k → image_at r i ≡ image_at ring i)
      × ((i : ℕ) → k ≤ i → i < new_size → image_at r i ≡ grey_image bytes)
resized_list bytes new_size k ring h room =
    let taken = length-take_le k ring h in
    (
      length-append (take k ring) _
          ∙ omega (arith, taken, length-replicate (new_size - k) (grey_image bytes)),
      λ i lt.
          get_or-append_left (take k ring) _ i _ (omega (arith, taken)) ∙ get_or-take k ring i _ lt,
      λ i le lt.
          get_or-append_right (take k ring) _ i _ (omega (arith, taken))
          ∙ get_or-replicate (new_size - k) _ (grey_image bytes) _ (omega (arith, taken)),
    )

resize_test :
    (nr prev ring_in small : ℕ)
    → nr ≢ prev
    → ring_in + 1 ≡ small
    → (not (nr == prev) && (not (small == 0) && ring_in + 1 == small || small == 0)) ≡ true
resize_test nr prev ring_in small idle last = ground arith

module _ (bytes new_size : ℕ) (c : Context) (w : WellFormed c) (idle : c.event_nr ≢ c.prev_event)
    (last : c.image_ring_in + 1 ≡ smaller new_size c.image_ring_size) where
  -- Between events the ring is resized when the place stored last is the last one of the smaller
  -- ring.
  pub image_ring_resize-Resized : Resized bytes new_size c (image_ring_resize bytes new_size c)
  unfolding image_ring_resize
  image_ring_resize-Resized =
      let small = smaller new_size c.image_ring_size in
      let (size, old_ones, new_ones) =
        resized_list bytes new_size small c.image_ring (ground (arith, w.size)) (ground arith) in
      rw (resize_test c.event_nr c.prev_event c.image_ring_in small idle last) (record {
        noted = refl;
        size = size;
        old_ones = λ i lt lt'. old_ones i (ground arith);
        new_ones = λ i lt le. new_ones i (ground arith) lt;
        in_room = ground (arith, last);
        out_kept = refl;
      })

  -- The resized ring is well-formed when the place to be saved next lies in it.
  pub image_ring_resize-WellFormed :
      c.image_ring_out < new_size → WellFormed (image_ring_resize bytes new_size c)
  image_ring_resize-WellFormed out =
      let r = image_ring_resize-Resized in
      record {
        size = r.noted ∙ sym r.size;
        in_room = omega (arith, r.noted, r.in_room);
        out_room = omega (arith, r.noted, r.out_kept);
      }

  -- A ring that shrinks below the place to be saved next leaves that place outside: the next read
  -- of it is out of bounds. So it is when a full ring, whose oldest picture is just after the one
  -- stored last, shrinks.
  pub image_ring_resize_strands :
      new_size ≤ c.image_ring_out → ¬ WellFormed (image_ring_resize bytes new_size c)
  image_ring_resize_strands beyond now =
      let r = image_ring_resize-Resized in
      let out = now.out_room in absurd (omega (arith, r.noted, r.out_kept, out))
