-- ===== src/Alg/Despeckle/Actions.antt =====
-- What the order of the actions of alg_despeckle decides.
use cy_prus.Prelude.{
  ℕ, ◌≡◌, inl, inr, refl, ap, Bool, true, false, if◌then◌else◌, ◌==◌, arith, Bool-cases,
}
use cy_prus.Prelude.{Option, none, some, List, [], ◌∷◌, ◌++◌}
use cy_prus.Alg.Label.{Regions, labeling}
use cy_prus.Alg.Label.Ends.{labeling_ends}
use cy_prus.Alg.Despeckle.{finish_despeckle, Despeckle, action, actions, despeckle}

-- The rest of the loop matters only where it is reached.
follow :
    (v : Option (Bool × Despeckle)) (k k' : Despeckle → Option Despeckle)
    → ((s : Despeckle) → k s ≡ k' s)
    → (elim v [ none ↦ none | some (ends, s) ↦ if ends then some s else k s ])
      ≡ (elim v [ none ↦ none | some (ends, s) ↦ if ends then some s else k' s ])
follow none k k' h = refl
follow (some (true, s)) k k' h = refl
follow (some (false, s)) k k' h = h s

-- The labelling ends the loop.
label_last :
    (v : Option Regions) (s : Despeckle) (k k' : Despeckle → Option Despeckle)
    → let act : Option (Bool × Despeckle) = elim v [
      | none ↦ none
      | some r ↦ some (true, record s { regions = r; diffs = r.labelgroup_max; done = 2 })
    ] in
      (elim act [ none ↦ none | some (ends, s) ↦ if ends then some s else k s ])
      ≡ (elim act [ none ↦ none | some (ends, s) ↦ if ends then some s else k' s ])
label_last none s k k' = refl
label_last (some r) s k k' = refl

end_step :
    (v : Option (Bool × Despeckle))
    → (r : Bool × Despeckle) × (v ≡ some r)
    → (k : Despeckle → Option Despeckle) → ((s : Despeckle) → (r : Despeckle) × (k s ≡ some r))
    → (r : Despeckle) × ((elim v [ none ↦ none | some (ends, s) ↦ if ends then some s else k s ])
        ≡ some r)
end_step none (r, e) k h = absurd (ground arith)
end_step (some (true, s)) e k h = (s, refl)
end_step (some (false, s)) e k h = h s

module _ (threshold width height : ℕ) where
  -- The loop does not go past the first action that ends it.
  actions_cut :
      (c : ℕ) (rest rest' : List ℕ)
      → ((s : Despeckle)
          → actions threshold width height (c ∷ rest) s
            ≡ actions threshold width height (c ∷ rest') s)
      → (pre : List ℕ) (s : Despeckle)
      → actions threshold width height (pre ++ (c ∷ rest)) s
        ≡ actions threshold width height (pre ++ (c ∷ rest')) s
  unfolding actions
  actions_cut c rest rest' h [] s = h s
  actions_cut c rest rest' h (d ∷ pre) s =
      follow (action threshold width height d s) _ _ (actions_cut c rest rest' h pre)

  actions_after_label :
      (rest rest' : List ℕ) (s : Despeckle)
      → actions threshold width height (b'l' ∷ rest) s
        ≡ actions threshold width height (b'l' ∷ rest') s
  unfolding actions action
  actions_after_label rest rest' s =
      label_last (labeling threshold s.out width height s.regions.largest_label) s
        (actions threshold width height rest) (actions threshold width height rest')

  -- What follows the first or any other action `l` in the filter changes nothing in the result.
  pub despeckle_after_label :
      (olddiffs : ℕ) (pre rest : List ℕ) (out common_buffer : List ℕ) (regions : Regions)
      → despeckle threshold width height olddiffs (pre ++ (b'l' ∷ rest)) out common_buffer regions
        ≡ despeckle threshold width height olddiffs (pre ++ (b'l' ∷ [])) out common_buffer regions
  unfolding despeckle
  despeckle_after_label olddiffs pre rest out common_buffer regions =
      ap {B = Option (ℕ × Despeckle)}
        (λ (v : Option Despeckle). elim v [
          | none ↦ none
          | some s ↦ some (finish_despeckle threshold width height olddiffs s)
        ])
        (actions_cut b'l' rest [] (actions_after_label rest []) pre (record {
          out = out;
          common_buffer = common_buffer;
          regions = regions;
          diffs = 0;
          done = 0;
        }))

  -- Every action succeeds.
  action_ends :
      (c : ℕ) (s : Despeckle)
      → (r : Bool × Despeckle) × (action threshold width height c s ≡ some r)
  unfolding action
  action_ends c s =
      let l = labeling_ends threshold s.out width height s.regions.largest_label in
      elim (Bool-cases (c == b'E')) [
        | inl is ↦ rw is (_, refl)
        | inr e1 ↦ rw e1 (elim (Bool-cases (c == b'e')) [
          | inl is ↦ rw is (_, refl)
          | inr e2 ↦ rw e2 (elim (Bool-cases (c == b'D')) [
            | inl is ↦ rw is (_, refl)
            | inr e3 ↦ rw e3 (elim (Bool-cases (c == b'd')) [
              | inl is ↦ rw is (_, refl)
              | inr e4 ↦ rw e4 (elim (Bool-cases (c == b'l')) [
                | inl is ↦ rw (is, l.1) (_, refl)
                | inr other ↦ rw other (_, refl)
              ])
            ])
          ])
        ])
      ]

  actions_end :
      (filter : List ℕ) (s : Despeckle)
      → (r : Despeckle) × (actions threshold width height filter s ≡ some r)
  unfolding actions
  actions_end [] s = (s, refl)
  actions_end (c ∷ rest) s =
      end_step (action threshold width height c s) (action_ends c s) _ (actions_end rest)

  -- alg_despeckle ends for every filter. Without the action `l` there is no largest label.
  pub despeckle_ends :
      (olddiffs : ℕ) (filter : List ℕ) (out common_buffer : List ℕ) (regions : Regions)
      → (r : ℕ × Despeckle) × (despeckle threshold width height olddiffs filter out common_buffer
            regions
          ≡ some r)
  unfolding despeckle
  despeckle_ends olddiffs filter out common_buffer regions =
      let run = actions_end filter (record {
        out = out;
        common_buffer = common_buffer;
        regions = regions;
        diffs = 0;
        done = 0;
      }) in
      (
        finish_despeckle threshold width height olddiffs run.0,
        ap {B = Option (ℕ × Despeckle)}
            (λ (v : Option Despeckle). elim v [
              | none ↦ none
              | some s ↦ some (finish_despeckle threshold width height olddiffs s)
            ])
            run.1,
      )
