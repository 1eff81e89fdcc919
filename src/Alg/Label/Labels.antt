-- ===== src/Alg/Label/Labels.antt =====
-- alg_labeling: it always ends, and what its numbers are bounded by.
use cy_prus.Prelude.{
  ℕ, ◌+◌, ◌-◌, ◌*◌, ◌≤◌, ◌<◌, ◌≡◌, ◌≢◌, ◌⊎◌, inl, inr, refl, sym, Bool, true, false, ◌&&◌,
  if◌then◌else◌, ltb, ◌==◌, truth, arith, Bool-cases, ==→≡, ℕ_discrete, count_below-pos,
}
use cy_prus.Prelude.{
  Option, some, List, length, get_or, set, length-set, get_or-set_self, get_or-set_ne,
  get_or-replicate, length-replicate, replicate, rounds, rounds_inv, count_below, sum_below_le,
  sum_below-add,
}
use cy_prus.Alg.Label.{Regions, count_region, mark_large, label_pixel, label_step, labeling}
use cy_prus.Alg.Label.Runs.{open_count}
use cy_prus.Alg.Label.Flood.{Flooded, iflood-Flooded}

pub count_region-labels :
    (large : Bool) (size : ℕ) (r : Regions) → (count_region large size r).labels ≡ r.labels
unfolding count_region
count_region-labels true size r = elim (Bool-cases (ltb r.labelsize_max size)) [
  | inl more ↦ rw more refl
  | inr less ↦ rw less refl
]
count_region-labels false size r = elim (Bool-cases (ltb r.labelsize_max size)) [
  | inl more ↦ rw more refl
  | inr less ↦ rw less refl
]

module _ (threshold : ℕ) (out : List ℕ) (width height : ℕ) where
  -- How many pixels with motion have the label.
  abbrev pub labelled : (label : ℕ) → List ℕ → ℕ
  labelled label labels =
      count_below (λ p. truth (get_or out p 0) && get_or labels p 0 == label) (width * height)

  -- How many pixels with motion there are.
  abbrev pub moved : ℕ
  moved = count_below (λ p. truth (get_or out p 0)) (width * height)

  -- A label is one that was given already: of a region, or of a large one.
  abbrev pub Given : (current_label label : ℕ) → Type 0
  Given current label = (label < current) ⊎ ((32770 ≤ label) × (label < current + 32768))

  -- What every pixel keeps. The pixels with motion that have no label yet are not counted yet.
  pub record Numbered (r : Regions) : Type 0 where
    pub room : width * height ≤ length r.labels
    pub number : r.current_label ≡ r.total_labels + 2
    pub above : r.labels_above ≤ r.total_labels
    pub given : (p : ℕ) → p < width * height → Given r.current_label (get_or r.labels p 0)
    pub regions : r.total_labels + labelled 0 r.labels ≤ moved
    pub largest : r.labelsize_max + labelled 0 r.labels ≤ moved
    pub group : r.labelgroup_max + labelled 0 r.labels ≤ moved

  module _ (labels : List ℕ) (current : ℕ) (positive : 2 ≤ current) where
    -- The first fill gives its number to as many pixels as it counts.
    first_fill :
        (after : List ℕ) (size : ℕ)
        → ((p : ℕ) → p < width * height → get_or labels p 0 ≢ current)
        → Flooded out width height current 0 labels after size
        → (labelled current after ≤ size) × (size + labelled 0 after ≡ labelled 0 labels)
    unfolding open_count
    first_fill after size fresh fill =
        let both =
          sum_below-add
            (λ p. if truth (get_or out p 0) && get_or after p 0 == current then 1 else 0)
            (λ p. if truth (get_or out p 0) && get_or after p 0 == 0 then 1 else 0)
            (width * height) in
        let le =
          sum_below_le
            (λ p.
              (if truth (get_or out p 0) && get_or after p 0 == current then 1 else 0)
              + (if truth (get_or out p 0) && get_or after p 0 == 0 then 1 else 0))
            (λ p. if truth (get_or out p 0) && get_or labels p 0 == 0 then 1 else 0)
            (width * height)
            (λ p h. elim (fill.pixels p) [
              | inl same ↦ ground (arith, same, fresh p h)
              | inr painted ↦ ground (arith, painted.0, painted.1)
            ]) in
        (omega (arith, fill.total), fill.total)

    -- The second fill counts no more than the first, and gives no pixel the label 0.
    second_fill :
        (after : List ℕ) (size : ℕ)
        → Flooded out width height (current + 32768) current labels after size
        → (size ≤ labelled current labels) × (labelled 0 after ≤ labelled 0 labels)
    unfolding open_count
    second_fill after size fill = (
      omega (arith, fill.total),
      sum_below_le (λ p. if truth (get_or out p 0) && get_or after p 0 == 0 then 1 else 0)
          (λ p. if truth (get_or out p 0) && get_or labels p 0 == 0 then 1 else 0) (width * height)
          (λ p h. elim (fill.pixels p) [
            | inl same ↦ ground (arith, same)
            | inr painted ↦ ground (arith, painted.0)
          ]),
    )

  pub Given-suc : (current label : ℕ) → Given current label → Given (current + 1) label
  Given-suc current label (inl h) = inl (omega arith)
  Given-suc current label (inr (h, h')) = inr (h, omega arith)

  module _ (few : moved < 32768) (r : Regions) (h : Numbered r) where
    -- No pixel has the number of the next region.
    fresh : (p : ℕ) → p < width * height → get_or r.labels p 0 ≢ r.current_label
    fresh p lt e = elim (h.given p lt) [
      | inl small ↦ omega arith
      | inr (ge, small) ↦ omega (arith, h.number, h.regions)
    ]

    after_first :
        (after : List ℕ) (size : ℕ)
        → Flooded out width height r.current_label 0 r.labels after size
        → (p : ℕ) → p < width * height
        → Given (r.current_label + 1) (get_or after p 0)
    after_first after size fill p lt = elim (fill.pixels p) [
      | inl same ↦ rw same (Given-suc _ _ (h.given p lt))
      | inr painted ↦ inl (omega (arith, painted.0))
    ]

    -- A region is counted, whose pixels have no longer the label 0.
    counted-Numbered :
        (large : Bool) (labels : List ℕ) (size : ℕ)
        → width * height ≤ length labels
        → ((p : ℕ) → p < width * height → Given (r.current_label + 1) (get_or labels p 0))
        → size + labelled 0 labels ≤ labelled 0 r.labels
        → 1 + labelled 0 labels ≤ labelled 0 r.labels
        → Numbered (count_region large size (record r { labels = labels }))
    unfolding count_region
    counted-Numbered large labels size room given sized more = record {
      room = ground (arith, room);
      number = ground (arith, h.number);
      above = ground (arith, h.above);
      given =
          λ p lt. rw (count_region-labels large size (record r { labels = labels })) (given p lt);
      regions = ground (arith, h.regions);
      largest = ground (arith, h.largest, h.regions);
      group = ground (arith, h.group);
    }

    mark_large-Numbered :
        (ix iy size : ℕ) (labels : List ℕ)
        → 0 < size
        → Flooded out width height r.current_label 0 r.labels labels size
        → (r' : Regions) × (mark_large threshold out width height ix iy size
              (record r { labels = labels })
            ≡ some r')
          × Numbered r'
    unfolding mark_large
    mark_large-Numbered ix iy size labels pos fill =
        let positive : 2 ≤ r.current_label = omega (arith, h.number) in
        let first = first_fill r.labels r.current_label positive labels size fresh fill in
        let again =
          iflood-Flooded out width height (r.current_label + 32768) r.current_label labels ix iy
            (λ e. omega arith) fill.room in
        let second = second_fill labels r.current_label positive again.0 again.1 again.3 in
        elim (Bool-cases (ltb threshold size)) [
          | inr small ↦ rw small (
            _,
            refl,
            counted-Numbered false labels size fill.room (after_first labels size fill)
                (omega (arith, first.1)) (omega (arith, first.1)),
          )
          | inl large ↦
              rw (large, again.2)
                (
                  _,
                  refl,
                  counted-Numbered true again.0 again.1 again.3.room
                      (λ p lt. elim (again.3.pixels p) [
                        | inl same ↦ rw same (after_first labels size fill p lt)
                        | inr painted ↦ inr (omega (arith, painted.0), omega (arith, painted.0))
                      ])
                      (omega (arith, first.0, first.1, second.0, second.1))
                      (omega (arith, first.1, second.1)),
                )
        ]

    -- A fill that counts nothing leaves the numbers.
    empty-Numbered :
        (labels : List ℕ) (size : ℕ)
        → size ≡ 0
        → Flooded out width height r.current_label 0 r.labels labels size
        → Numbered (record r { labels = labels })
    empty-Numbered labels size none_filled fill =
        let positive : 2 ≤ r.current_label = omega (arith, h.number) in
        let first = first_fill r.labels r.current_label positive labels size fresh fill in
        record {
          room = fill.room;
          number = h.number;
          above = h.above;
          given = λ p lt. elim (fill.pixels p) [
            | inl same ↦ rw same (h.given p lt)
            | inr painted ↦
                let found =
                  count_below-pos
                    (λ q. truth (get_or out q 0) && get_or labels q 0 == r.current_label)
                    (width * height) p lt (ground (arith, painted.0, painted.1)) in
                absurd (omega (arith, first.0))
          ];
          regions = omega (arith, h.regions, first.1);
          largest = omega (arith, h.largest, first.1);
          group = omega (arith, h.group, first.1);
        }

    -- A pixel with no motion.
    still-Numbered :
        (p : ℕ) → get_or out p 0 ≡ 0 → Numbered (record r { labels = set r.labels p 1 })
    still-Numbered p still =
        let same : (q : ℕ) → q ≢ p → get_or (set r.labels p 1) q 0 ≡ get_or r.labels q 0 =
          λ q n. get_or-set_ne r.labels p q 1 0 (λ e. n (sym e)) in
        let less : labelled 0 (set r.labels p 1) ≤ labelled 0 r.labels =
          sum_below_le _ _ (width * height) (λ q lt. elim (ℕ_discrete q p) [
            | yes e ↦ rw (e, still) (omega arith)
            | no n ↦ rw (same q n) (omega arith)
          ]) in
        record {
          room = omega (arith, h.room, length-set r.labels p 1);
          number = h.number;
          above = h.above;
          given = λ q lt. elim (ℕ_discrete q p) [
            | yes e ↦ rw e (
                rw (get_or-set_self r.labels p 1 0 (omega (arith, h.room)))
                  (inl (omega (arith, h.number))))
            | no n ↦ rw (same q n) (h.given q lt)
          ];
          regions = omega (arith, h.regions, less);
          largest = omega (arith, h.largest, less);
          group = omega (arith, h.group, less);
        }

    pub label_pixel-Numbered :
        (iy ix : ℕ)
        → (r' : Regions) × (label_pixel threshold out width height iy ix r ≡ some r') × Numbered r'
    unfolding label_pixel
    label_pixel-Numbered iy ix =
        let p = iy * width + ix in
        let first =
          iflood-Flooded out width height r.current_label 0 r.labels ix iy
            (λ e. omega (arith, h.number)) h.room in
        elim (Bool-cases (get_or out p 0 == 0)) [
          | inl still ↦ rw still (_, refl, still-Numbered p (==→≡ _ _ still))
          | inr moving ↦ rw moving (elim (Bool-cases (ltb 0 (get_or r.labels p 0))) [
            | inl visited ↦ rw visited (_, refl, h)
            | inr new ↦
                rw (new, first.2)
                  (elim (Bool-cases (ltb 0 first.1)) [
                    | inl pos ↦
                        rw pos (mark_large-Numbered ix iy first.1 first.0 (ground arith) first.3)
                    | inr none_filled ↦
                        rw none_filled
                          (_, refl, empty-Numbered first.0 first.1 (ground arith) first.3)
                  ])
          ])
        ]

  abbrev Labelling : Option Regions → Type 0
  Labelling s = (r : Regions) × (s ≡ some r) × Numbered r

  label_step-Numbered :
      moved < 32768
      → (iy ix : ℕ) (s : Option Regions) → Labelling s
      → Labelling (label_step threshold out width height iy ix s)
  label_step-Numbered few iy ix s (r, e, h) = rw e (label_pixel-Numbered few r h iy ix)

  unlabelled : 0 + labelled 0 (replicate (width * height) 0) ≤ moved
  unlabelled =
      let le =
        sum_below_le
          (λ p.
            if truth (get_or out p 0) && get_or (replicate (width * height) 0) p 0 == 0
            then 1
            else 0)
          (λ p. if truth (get_or out p 0) then 1 else 0) (width * height) (λ p lt. ground arith) in
      omega arith

  -- With fewer than 32768 pixels with motion, alg_labeling ends: the next number is that of the
  -- regions and 2, no more regions are above the threshold than there are, every label is below
  -- the next number, or from 32770 on and below the next number and 32768, and the number of
  -- regions, the largest size and the sum of the sizes above the threshold, each with the pixels
  -- that have no label yet, are at most the number of pixels with motion.
  pub labeling-Numbered :
      (largest_label : ℕ)
      → moved < 32768
      → (r : Regions) × (labeling threshold out width height largest_label ≡ some r) × Numbered r
  unfolding labeling
  labeling-Numbered largest_label few =
      rounds_inv (λ iy s. Labelling s)
        (λ iy s. rounds (λ ix t. label_step threshold out width height iy ix t) (width - 1) s)
        (height - 1) _
        (
          _,
          refl,
          record {
            room = omega (arith, length-replicate {A = ℕ} (width * height) 0);
            number = omega arith;
            above = omega arith;
            given =
                λ p lt. rw (get_or-replicate {A = ℕ} (width * height) p 0 0 lt) (inl (omega arith));
            regions = unlabelled;
            largest = unlabelled;
            group = unlabelled;
          },
        )
        (λ iy s lt h.
          rounds_inv (λ ix t. Labelling t) (λ ix t. label_step threshold out width height iy ix t)
            (width - 1) s h (λ ix t lt' h'. label_step-Numbered few iy ix t h'))
