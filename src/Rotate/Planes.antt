-- ===== src/Rotate/Planes.antt =====
-- rotate_map on whole YUV 4:2:0 pictures with sides 2a and 2b: three planes, one after the other.
use cy_prus.Prelude.{
  ℕ, ◌+◌, ◌-◌, ◌*◌, ◌≤◌, ◌<◌, ◌≡◌, inl, ◌∙◌, some, List, length, get_or, take, true, arith,
}
use cy_prus.Prelude.{length-take_le, get_or-take, get_or-append_left}
use cy_prus.Prelude.Int.{pos}
use cy_prus.Rotate.{Setup, sizes_of, copy_back, yuv420p, rot90cw, rot90ccw, rotate_map}
use cy_prus.Rotate.Turns.{place_lt, rot90cw-TurnsCw, rot90ccw-TurnsCcw}

-- A plane of `now` is the plane of `from` at the same offset, turned by 90 degrees clockwise.
abbrev pub PlaneCw : (from now : List ℕ) → (offset w h : ℕ) → Type 0
PlaneCw from now o w h =
    (x y : ℕ)
    → x < w
    → y < h
    → get_or now (o + (x * h + (h - 1 - y))) 0 ≡ get_or from (o + (y * w + x)) 0

-- The same, counterclockwise.
abbrev pub PlaneCcw : (from now : List ℕ) → (offset w h : ℕ) → Type 0
PlaneCcw from now o w h =
    (x y : ℕ)
    → x < w
    → y < h
    → get_or now (o + ((w - 1 - x) * h + y)) 0 ≡ get_or from (o + (y * w + x)) 0

module _ (a b : ℕ) where
  -- The sides of the luma plane, and where the chroma planes start.
  abbrev pub full : ℕ
  full = 2 * a * (2 * b)

  abbrev pub u : ℕ
  u = full

  abbrev pub v : ℕ
  v = full + a * b

  abbrev pub bytes : ℕ
  bytes = full + a * b + a * b

  pub record TurnedCw (from now : List ℕ) : Type 0 where
    pub luma : PlaneCw from now 0 (2 * a) (2 * b)
    pub u_plane : PlaneCw from now u a b
    pub v_plane : PlaneCw from now v a b

  pub record TurnedCcw (from now : List ℕ) : Type 0 where
    pub luma : PlaneCcw from now 0 (2 * a) (2 * b)
    pub u_plane : PlaneCcw from now u a b
    pub v_plane : PlaneCcw from now v a b

  sizes_lem :
      sizes_of true (2 * a) (2 * b)
      ≡ record { wh = full; wh4 = a * b; w2 = a; h2 = b; size = bytes }
  unfolding sizes_of
  sizes_lem = ground arith

  half_place : (x y : ℕ) → x < 2 * a → y < 2 * b → x * (2 * b) + (2 * b - 1 - y) < full
  half_place x y hx hy = omega (arith, place_lt (2 * b) (2 * a) (2 * b - 1 - y) x (omega arith) hx)

  half_place' : (x y : ℕ) → x < 2 * a → y < 2 * b → (2 * a - 1 - x) * (2 * b) + y < full
  half_place' x y hx hy = omega (arith, place_lt (2 * b) (2 * a) y (2 * a - 1 - x) hy (omega arith))

  module _ (from temp : List ℕ) (room : bytes ≤ length temp) where
    abbrev cw3 : List ℕ
    cw3 =
        rot90cw from v v (a * b) a b
          (rot90cw from u u (a * b) a b (rot90cw from 0 0 full (2 * a) (2 * b) temp))

    cw3_lem : TurnedCw from cw3 × (length cw3 ≡ length temp)
    cw3_lem =
        let one = rot90cw-TurnsCw from 0 0 (2 * a) (2 * b) temp (omega arith) in
        let two = rot90cw-TurnsCw from u u a b _ (omega (arith, one.size)) in
        let three = rot90cw-TurnsCw from v v a b _ (omega (arith, one.size, two.size)) in
        (
          record {
            luma = λ x y hx hy.
                three.kept _ (inl (omega (arith, half_place x y hx hy)))
                ∙ two.kept _ (inl (omega (arith, half_place x y hx hy)))
                ∙ one.pixels x y hx hy;
            u_plane = λ x y hx hy.
                three.kept _ (inl (omega (arith, place_lt b a (b - 1 - y) x (omega arith) hx)))
                ∙ two.pixels x y hx hy;
            v_plane = three.pixels;
          },
          three.size ∙ two.size ∙ one.size,
        )

    abbrev ccw3 : List ℕ
    ccw3 =
        rot90ccw from v v (a * b) a b
          (rot90ccw from u u (a * b) a b (rot90ccw from 0 0 full (2 * a) (2 * b) temp))

    ccw3_lem : TurnedCcw from ccw3 × (length ccw3 ≡ length temp)
    ccw3_lem =
        let one = rot90ccw-TurnsCcw from 0 0 (2 * a) (2 * b) temp (omega arith) in
        let two = rot90ccw-TurnsCcw from u u a b _ (omega (arith, one.size)) in
        let three = rot90ccw-TurnsCcw from v v a b _ (omega (arith, one.size, two.size)) in
        (
          record {
            luma = λ x y hx hy.
                three.kept _ (inl (omega (arith, half_place' x y hx hy)))
                ∙ two.kept _ (inl (omega (arith, half_place' x y hx hy)))
                ∙ one.pixels x y hx hy;
            u_plane = λ x y hx hy.
                three.kept _ (inl (omega (arith, place_lt b a y (a - 1 - x) hy (omega arith))))
                ∙ two.pixels x y hx hy;
            v_plane = three.pixels;
          },
          three.size ∙ two.size ∙ one.size,
        )

  -- What is copied back from the temporary buffer.
  copied :
      (temp map : List ℕ) (q : ℕ)
      → bytes ≤ length temp
      → q < bytes
      → get_or (copy_back bytes temp map) q 0 ≡ get_or temp q 0
  copied temp map q room h =
      get_or-append_left (take bytes temp) _ q 0 (rw (length-take_le, room) h)
      ∙ get_or-take bytes temp q 0 h

-- The result of rotate_map at 90 degrees: it succeeds, and every plane of the picture is turned
-- clockwise. At 270 degrees: the same, counterclockwise.
pub record Maps90 (a b : ℕ) (s : Setup) (map temp : List ℕ) : Type 0 where
  pub now : List ℕ
  pub temp' : List ℕ
  pub returns : rotate_map s yuv420p map temp ≡ some (now, temp')
  pub turned : TurnedCw a b map now
  pub temp_size : length temp' ≡ length temp

pub record Maps270 (a b : ℕ) (s : Setup) (map temp : List ℕ) : Type 0 where
  pub now : List ℕ
  pub temp' : List ℕ
  pub returns : rotate_map s yuv420p map temp ≡ some (now, temp')
  pub turned : TurnedCcw a b map now

module _ (a b : ℕ) (s : Setup) (map temp : List ℕ) (wide : s.cap_width ≡ 2 * a)
    (high : s.cap_height ≡ 2 * b) (room : bytes a b ≤ length temp) where
  -- A rotation by 90 degrees of a YUV 4:2:0 picture with sides 2a and 2b succeeds, and turns each of
  -- its three planes clockwise. The temporary buffer has room for the picture.
  pub rotate_map-Maps90 : s.degrees ≡ pos 90 → Maps90 a b s map temp
  unfolding rotate_map
  rotate_map-Maps90 deg =
      let (t, size) = cw3_lem a b map temp room in
      let here =
        λ (q : ℕ) (h : q < bytes a b). copied a b (cw3 a b map temp room) map q (omega arith) h in
      record {
        now = copy_back (bytes a b) (cw3 a b map temp room) map;
        temp' = cw3 a b map temp room;
        returns = rw (deg, wide, high, sizes_lem a b);
        turned = record {
          luma = λ x y hx hy. here _ (omega (arith, half_place a b x y hx hy)) ∙ t.luma x y hx hy;
          u_plane = λ x y hx hy.
              here _ (omega (arith, place_lt b a (b - 1 - y) x (omega arith) hx))
              ∙ t.u_plane x y hx hy;
          v_plane = λ x y hx hy.
              here _ (omega (arith, place_lt b a (b - 1 - y) x (omega arith) hx))
              ∙ t.v_plane x y hx hy;
        };
        temp_size = size;
      }

  -- A rotation by 270 degrees of such a picture succeeds, and turns each plane counterclockwise. The
  -- temporary buffer has room for the picture.
  pub rotate_map-Maps270 : s.degrees ≡ pos 270 → Maps270 a b s map temp
  unfolding rotate_map
  rotate_map-Maps270 deg =
      let (t, size) = ccw3_lem a b map temp room in
      let here =
        λ (q : ℕ) (h : q < bytes a b). copied a b (ccw3 a b map temp room) map q (omega arith) h in
      record {
        now = copy_back (bytes a b) (ccw3 a b map temp room) map;
        temp' = ccw3 a b map temp room;
        returns = rw (deg, wide, high, sizes_lem a b);
        turned = record {
          luma = λ x y hx hy. here _ (omega (arith, half_place' a b x y hx hy)) ∙ t.luma x y hx hy;
          u_plane = λ x y hx hy.
              here _ (omega (arith, place_lt b a y (a - 1 - x) hy (omega arith)))
              ∙ t.u_plane x y hx hy;
          v_plane = λ x y hx hy.
              here _ (omega (arith, place_lt b a y (a - 1 - x) hy (omega arith)))
              ∙ t.v_plane x y hx hy;
        };
      }
