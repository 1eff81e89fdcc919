-- ===== src/Alg/Label/Ends.antt =====
-- alg_labeling ends for every picture.
use cy_prus.Prelude.{
  ℕ, ◌+◌, ◌-◌, ◌*◌, ◌≤◌, ◌≡◌, refl, inl, inr, Bool, true, false, ltb, ◌==◌, arith, Bool-cases,
}
use cy_prus.Prelude.{
  Option, some, List, length, get_or, length-set, length-replicate, rounds, rounds_inv,
}
use cy_prus.Alg.Label.{Regions, count_region, mark_large, label_pixel, label_step, labeling}
use cy_prus.Alg.Label.Flood.{iflood-Flooded}
use cy_prus.Alg.Label.Labels.{count_region-labels}

module _ (threshold : ℕ) (out : List ℕ) (width height : ℕ) where
  -- The labels have their room, and numbers start at 2.
  abbrev Fit : Regions → Type 0
  Fit r = (width * height ≤ length r.labels) × (2 ≤ r.current_label)

  abbrev Ends : Option Regions → Type 0
  Ends s = (r : Regions) × (s ≡ some r) × Fit r

  count_region-Fit :
      (large : Bool) (size : ℕ) (r : Regions) → Fit r → Fit (count_region large size r)
  unfolding count_region
  count_region-Fit large size r h = (rw (count_region-labels large size r) h.0, ground (arith, h.1))

  mark_large-Fit :
      (ix iy size : ℕ) (r : Regions)
      → Fit r
      → Ends (mark_large threshold out width height ix iy size r)
  unfolding mark_large
  mark_large-Fit ix iy size r h =
      let again =
        iflood-Flooded out width height (r.current_label + 32768) r.current_label r.labels ix iy
          (λ e. omega arith) h.0 in
      elim (Bool-cases (ltb threshold size)) [
        | inr small ↦ rw small (_, refl, count_region-Fit false size r h)
        | inl large ↦
            rw (large, again.2)
              (
                _,
                refl,
                count_region-Fit true again.1 (record r { labels = again.0 }) (again.3.room, h.1),
              )
      ]

  label_pixel-Fit :
      (iy ix : ℕ) (r : Regions) → Fit r → Ends (label_pixel threshold out width height iy ix r)
  unfolding label_pixel
  label_pixel-Fit iy ix r h =
      let p = iy * width + ix in
      let first =
        iflood-Flooded out width height r.current_label 0 r.labels ix iy (λ e. omega (arith, h.1))
          h.0 in
      elim (Bool-cases (get_or out p 0 == 0)) [
        | inl still ↦ rw still (_, refl, (omega (arith, length-set r.labels p 1, h.0), h.1))
        | inr moving ↦ rw moving (elim (Bool-cases (ltb 0 (get_or r.labels p 0))) [
          | inl visited ↦ rw visited (_, refl, h)
          | inr fresh ↦
              rw (fresh, first.2)
                (elim (Bool-cases (ltb 0 first.1)) [
                  | inl pos ↦ rw pos (
                      mark_large-Fit ix iy first.1 (record r { labels = first.0 })
                        (first.3.room, h.1))
                  | inr nothing ↦ rw nothing (_, refl, (first.3.room, h.1))
                ])
        ])
      ]

  label_step-Fit :
      (iy ix : ℕ) (s : Option Regions)
      → Ends s
      → Ends (label_step threshold out width height iy ix s)
  label_step-Fit iy ix s (r, e, h) = rw e (label_pixel-Fit iy ix r h)

  pub labeling_ends :
      (largest_label : ℕ)
      → (r : Regions) × (labeling threshold out width height largest_label ≡ some r)
  unfolding labeling
  labeling_ends largest_label =
      let run =
        rounds_inv (λ iy s. Ends s)
          (λ iy s. rounds (λ ix t. label_step threshold out width height iy ix t) (width - 1) s)
          (height - 1) _
          (_, refl, (omega (arith, length-replicate {A = ℕ} (width * height) 0), omega arith))
          (λ iy s lt h.
            rounds_inv (λ ix t. Ends t) (λ ix t. label_step threshold out width height iy ix t)
              (width - 1) s h (λ ix t lt' h'. label_step-Fit iy ix t h')) in
      (run.0, run.1)
