-- ===== src/Motion/Save/Drain.antt =====
-- process_image_ring ends, and saves the pictures from image_ring_out on, in the ring's order.
use cy_prus.Prelude.{
  ℕ, zero, suc, ◌+◌, ◌≤◌, ◌<◌, ◌≡◌, ◌≢◌, ◌⊎◌, inl, inr, refl, sym, ◌∙◌, ap, false, ≡→==, ≢→==,
  arith, Bool-cases, ℕ_discrete, Option, some,
}
use cy_prus.Motion.{Context, Conf}
use cy_prus.Motion.Ring.{image_at}
use cy_prus.Motion.Ring.Bounds.{WellFormed}
use cy_prus.Motion.Save.{
  save_image, to_be_saved, image_buffer_flush, images_left, process_loop, process_image_ring,
}
use cy_prus.Motion.Save.First.{distance, nth, SavedFirst, nothing_saved, one_more}

module _ (conf : Conf) (c : Context) where
  -- How the loop ends: it has passed on and saved pictures from image_ring_out on, `max_images` at most unless the
  -- whole ring is flushed; and the next picture is not to be saved, or it has saved `max_images`, or
  -- it has come to the picture stored last.
  pub record Drained (max_images : ℕ) (d : Context) : Type 0 where
    pub steps : ℕ
    pub pictures : SavedFirst c conf steps d
    pub well_formed : WellFormed d
    pub once : steps ≤ c.image_ring_size
    pub limit : max_images ≢ image_buffer_flush → steps ≤ max_images
    pub ended :
        (to_be_saved (image_at d.image_ring d.image_ring_out) ≡ false)
        ⊎ ((steps ≡ max_images) ⊎ ((0 < steps) × (d.image_ring_out ≡ d.image_ring_in)))

  -- What max_images has become after `s` pictures.
  abbrev Left : (max_images s m : ℕ) → Type 0
  Left max_images s m =
      ((max_images ≡ image_buffer_flush) × (m ≡ image_buffer_flush))
      ⊎ ((m + s ≡ max_images) × ((0 < m) × (max_images < image_buffer_flush)))

  abbrev pub Returns : (max_images : ℕ) → Option Context → Type 0
  Returns max_images r = (d : Context) × ((r ≡ some d) × Drained max_images d)

  module _ (w : WellFormed c) (max_images : ℕ) where
    abbrev t : ℕ
    t = distance c.image_ring_size c.image_ring_out c.image_ring_in

    t_lem : (0 < t) × (t ≤ c.image_ring_size) × (nth c t ≡ c.image_ring_in)
    t_lem = (
      ground (arith, w.in_room, w.out_room),
      ground (arith, w.in_room, w.out_room),
      ground (arith, w.in_room, w.out_room),
    )

    SavedFirst-WellFormed :
        (s : ℕ) (d : Context) → SavedFirst c conf s d → s ≤ c.image_ring_size → WellFormed d
    SavedFirst-WellFormed s d p h = record {
      size = p.size ∙ w.size ∙ sym p.room;
      in_room = omega (arith, w.in_room, p.size, p.ring_in);
      out_room = ground (arith, w.out_room, p.size, p.ring_out);
    }

    finish :
        (s : ℕ) (d : Context)
        → SavedFirst c conf s d
        → s ≤ c.image_ring_size
        → (max_images ≢ image_buffer_flush → s ≤ max_images)
        → (to_be_saved (image_at d.image_ring d.image_ring_out) ≡ false)
          ⊎ ((s ≡ max_images) ⊎ ((0 < s) × (d.image_ring_out ≡ d.image_ring_in)))
        → Drained max_images d
    finish s d p h limit ended = record {
      steps = s;
      pictures = p;
      well_formed = SavedFirst-WellFormed s d p h;
      once = h;
      limit = limit;
      ended = ended;
    }

    not_yet :
        (s : ℕ) (d : Context)
        → SavedFirst c conf (suc s) d
        → s < t
        → d.image_ring_out ≢ d.image_ring_in
        → suc s < t
    not_yet s d p h ne = elim (ℕ_discrete (suc s) t) [
      | yes e ↦ absurd (ne (p.ring_out ∙ ap (nth c) e ∙ t_lem.2 ∙ sym p.ring_in))
      | no other ↦ omega arith
    ]

    left_lem :
        (s m : ℕ)
        → Left max_images s m
        → ((images_left m ≡ 0) × (suc s ≡ max_images))
          ⊎ ((images_left m ≢ 0) × Left max_images (suc s) (images_left m))
    left_lem s m h = ground arith

    loop :
        (fuel s m : ℕ) (d : Context)
        → SavedFirst c conf s d
        → s < t
        → t ≤ fuel + s
        → Left max_images s m
        → Returns max_images (process_loop fuel conf m d)
    unfolding process_loop
    loop zero s m d p h enough left = absurd (omega arith)
    loop (suc fuel) s m d p h enough left =
        let next = save_image conf d in
        elim (Bool-cases (to_be_saved (image_at d.image_ring d.image_ring_out))) [
          | inr clear ↦ rw clear (
            d,
            (refl, finish s d p (omega (arith, t_lem)) (λ ne. ground (arith, left)) (inl clear)),
          )
          | inl flagged ↦
              let q = one_more c w conf s d p (omega (arith, t_lem)) flagged in
              elim (left_lem s m left) [
                | inl (z, e) ↦
                    rw (flagged, ≡→== (images_left m) 0 z)
                      (
                        next,
                        (
                          refl,
                          finish (suc s) next q (omega (arith, t_lem)) (λ ne. omega arith)
                              (inr (inl e)),
                        ),
                      )
                | inr (nz, left') ↦ elim (ℕ_discrete next.image_ring_out next.image_ring_in) [
                  | yes e ↦
                      rw
                        (
                          flagged,
                          ≢→== (images_left m) 0 nz,
                          ≡→== next.image_ring_out next.image_ring_in e,
                        )
                        (
                          next,
                          (
                            refl,
                            finish (suc s) next q (omega (arith, t_lem))
                                (λ ne. ground (arith, left')) (inr (inr (omega arith, e))),
                          ),
                        )
                  | no ne ↦
                      rw
                        (
                          flagged,
                          ≢→== (images_left m) 0 nz,
                          ≢→== next.image_ring_out next.image_ring_in ne,
                        )
                        (loop fuel (suc s) (images_left m) next q (not_yet s next q h ne)
                          (omega arith) left')
                ]
              ]
        ]

pub process_image_ring-Returns :
    (conf : Conf) (max_images : ℕ) (c : Context)
    → WellFormed c
    → 0 < max_images
    → max_images ≤ image_buffer_flush
    → Returns conf c max_images (process_image_ring conf max_images c)
unfolding process_image_ring
process_image_ring-Returns conf max_images c w some_images h =
    loop conf c w max_images (suc c.image_ring_size) 0 max_images c (nothing_saved c w conf)
      (t_lem conf c w max_images).0 (omega (arith, t_lem conf c w max_images)) (ground arith)
