-- ===== src/Motion/Control/Trigger.antt =====
-- When a picture with motion triggers: minimum_motion_frames.
use cy_prus.Prelude.{
  ℕ, zero, suc, ◌+◌, ◌-◌, ◌≤◌, ◌<◌, ◌≡◌, ◌↔◌, true, if◌then◌else◌, leb, arith, List, ◌∙◌, sym, ap,
}
use cy_prus.Motion.{Image}
use cy_prus.Motion.Ring.{image_at}
use cy_prus.Motion.Control.{previous_place, motion_frames}

-- The place `k` pictures before `pos`, for k up to the size of the ring.
abbrev pub place_back : (size pos k : ℕ) → ℕ
place_back size pos k = if leb k pos then pos - k else pos + size - k

back_suc :
    (size pos k : ℕ)
    → pos < size
    → k < size
    → place_back size (previous_place size pos) k ≡ place_back size pos (suc k)
back_suc size pos k h h' = ground arith

motion_frames-le :
    (ring : List Image) (size frames pos : ℕ) → motion_frames ring size frames pos ≤ frames
unfolding motion_frames
motion_frames-le ring size zero pos = omega arith
motion_frames-le ring size (suc frames) pos =
    ground (arith, motion_frames-le ring size frames (previous_place size pos))

-- All of the last `frames` pictures have motion.
abbrev pub AllMotion : (ring : List Image) → (size frames pos : ℕ) → Type 0
AllMotion ring size frames pos =
    (k : ℕ) → k < frames → (image_at ring (place_back size pos k)).flags.motion ≡ true

all_of :
    (ring : List Image) (size frames pos : ℕ)
    → pos < size
    → frames ≤ size
    → leb frames (motion_frames ring size frames pos) ≡ true
    → AllMotion ring size frames pos
unfolding motion_frames
all_of ring size zero pos h room e k hk = absurd (omega arith)
all_of ring size (suc n) pos h room e zero hk =
    ground (arith, motion_frames-le ring size n (previous_place size pos))
all_of ring size (suc n) pos h room e (suc k) hk =
    ap (λ (q : ℕ). (image_at ring q).flags.motion) (sym (back_suc size pos k h (omega arith)))
    ∙ all_of ring size n (previous_place size pos) (ground arith) (omega arith) (ground arith) k
        (omega arith)

of_all :
    (ring : List Image) (size frames pos : ℕ)
    → pos < size
    → frames ≤ size
    → AllMotion ring size frames pos
    → leb frames (motion_frames ring size frames pos) ≡ true
unfolding motion_frames
of_all ring size zero pos h room all = ground arith
of_all ring size (suc n) pos h room all =
    let here = all 0 (omega arith) in
    let rest = of_all ring size n (previous_place size pos) (ground arith) (omega arith) (λ k hk.
      ap (λ (q : ℕ). (image_at ring q).flags.motion) (back_suc size pos k h (omega arith))
      ∙ all (suc k) (omega arith)) in
    ground (arith, here, rest)

-- The test for the trigger passes just when each of the last minimum_motion_frames pictures has
-- motion, the current one first. The ring has a place for each of them.
pub trigger_iff :
    (ring : List Image) (size frames pos : ℕ)
    → pos < size
    → frames ≤ size
    → (leb frames (motion_frames ring size frames pos) ≡ true) ↔ AllMotion ring size frames pos
trigger_iff ring size frames pos h room =
    (all_of ring size frames pos h room, of_all ring size frames pos h room)
