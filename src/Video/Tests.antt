-- ===== src/Video/Tests.antt =====
-- Runs of the routines of video_common.c.
use cy_prus.Prelude.{ℕ, ◌*◌, if◌then◌else◌, ◌==◌, List, [], ◌∷◌, arith}
use cy_prus.Video.{sample_average, do_autobright, conv_yuv422to420p}
use cy_prus.Video.Brightness.{IsAdjusted, do_autobright-IsAdjusted}
use cy_prus.Video.Planes.{IsPlanar, conv_yuv422to420p-IsPlanar}

-- Two columns and two rows, as Y U Y V.
abbrev captured_picture : List ℕ
captured_picture = 10 ∷ 100 ∷ 20 ∷ 60 ∷ 30 ∷ 110 ∷ 40 ∷ 80 ∷ []

abbrev empty_picture : List ℕ
empty_picture = 0 ∷ 0 ∷ 0 ∷ 0 ∷ 0 ∷ 0 ∷ []

conversion_example :
    IsPlanar captured_picture 1 1 empty_picture
      (conv_yuv422to420p captured_picture (2 * 1) (2 * 1) empty_picture)
conversion_example = conv_yuv422to420p-IsPlanar captured_picture 1 1 empty_picture (omega arith)

autobright_example :
    IsAdjusted
      (if 0 == 0 then 128 else 0)
      (sample_average 4 (210 ∷ []))
      130
      (do_autobright 0 4 (210 ∷ []) 130)
autobright_example = do_autobright-IsAdjusted 0 4 (210 ∷ []) 130 (omega arith)
