-- ===== src/Motion/Control/Frame.antt =====
-- The section of motion_loop for actions and events, as a whole: one picture.
use cy_prus.Prelude.{
  ℕ, ◌+◌, ◌≡◌, ◌⊎◌, inl, inr, refl, sym, ◌∙◌, Bool, false, ◌||◌, ◌&&◌, ◌==◌, truth, arith,
  Bool-cases, length, some,
}
use cy_prus.Motion.{Context, Conf}
use cy_prus.Motion.Ring.Bounds.{WellFormed}
use cy_prus.Motion.Save.{image_buffer_flush}
use cy_prus.Motion.Save.Drain.{process_image_ring-Returns}
use cy_prus.Motion.Control.{flag_motion, take_action, times_up, end_event, note_times, control}
use cy_prus.Motion.Control.Places.{
  same, either, then_same, SamePlaces-WellFormed, flag_motion-SamePlaces, take_action-SamePlaces,
  note_times-SamePlaces,
}

-- The end of an event moves on to the next number, and leaves the ring as it is.
record Ended (c d : Context) : Type 0 where
  room : length d.image_ring ≡ length c.image_ring
  size : d.image_ring_size ≡ c.image_ring_size
  ring_in : d.image_ring_in ≡ c.image_ring_in
  ring_out : d.image_ring_out ≡ c.image_ring_out
  event_nr : d.event_nr ≡ c.event_nr + 1
  makemovie : d.makemovie ≡ false

end_event-Ended : (c : Context) → Ended c (end_event c)
unfolding end_event
end_event-Ended c =
    let shown =
      either (truth c.preview_image.diffs) c _ _
        (record { room = refl; size = refl; ring_in = refl; ring_out = refl; event_nr = refl })
        (same c) in
    record {
      room = shown.room;
      size = shown.size;
      ring_in = shown.ring_in;
      ring_out = shown.ring_out;
      event_nr = refl;
      makemovie = refl;
    }

Ended-WellFormed : (c d : Context) → Ended c d → WellFormed c → WellFormed d
Ended-WellFormed c d s w = record {
  size = s.size ∙ w.size ∙ sym s.room;
  in_room = omega (arith, s.size, s.ring_in, w.in_room);
  out_room = omega (arith, s.size, s.ring_out, w.out_room);
}

-- The event goes on only where no movie was asked for.
goes_on :
    (conf : Conf) (currenttime : ℕ) (c : Context)
    → (times_up conf currenttime c && (c.event_nr == c.prev_event || c.makemovie)) ≡ false
    → c.makemovie ≡ false
unfolding times_up
goes_on conf currenttime c e = asked _ _ c.makemovie e
  where
    asked : (a b m : Bool) → ((a || m) && (b || m)) ≡ false → m ≡ false
    asked a b m e = ground arith

-- What one picture does to the ring and to the event: the ring stays well-formed, a movie that was
-- asked for is made, and the number of the event stays or goes up by one.
pub record Controlled (c d : Context) : Type 0 where
  pub well_formed : WellFormed d
  pub size : d.image_ring_size ≡ c.image_ring_size
  pub stored_last : d.image_ring_in ≡ c.image_ring_in
  pub made : d.makemovie ≡ false
  pub event_nr : (d.event_nr ≡ c.event_nr) ⊎ (d.event_nr ≡ c.event_nr + 1)

-- The section returns for every picture, and does that. The ring is well-formed before.
pub control-Controlled :
    (conf : Conf) (startup_frames currenttime : ℕ) (c : Context)
    → WellFormed c
    → (d : Context) × ((control conf startup_frames currenttime c ≡ some d) × Controlled c d)
unfolding control
control-Controlled conf startup_frames currenttime c w =
    let flagged = flag_motion conf c in
    let taken = take_action conf startup_frames flagged in
    let noted = note_times conf currenttime taken in
    let s =
      then_same c taken noted
        (then_same c flagged taken (flag_motion-SamePlaces conf c)
          (take_action-SamePlaces conf startup_frames flagged))
        (note_times-SamePlaces conf currenttime taken) in
    let w1 = SamePlaces-WellFormed c noted s w in
    elim (Bool-cases (
      times_up conf currenttime noted && (noted.event_nr == noted.prev_event || noted.makemovie))) [
        | inl over ↦
            let (flushed, (e1, d1)) =
              process_image_ring-Returns conf image_buffer_flush noted w1 (omega arith)
                (omega arith) in
            let ended = end_event-Ended flushed in
            let w2 = Ended-WellFormed flushed _ ended d1.well_formed in
            let (last, (e2, d2)) =
              process_image_ring-Returns conf 2 (end_event flushed) w2 (omega arith)
                (omega arith) in
            rw (over, e1)
              (
                last,
                (
                  e2,
                  record {
                    well_formed = d2.well_formed;
                    size = d2.pictures.size ∙ ended.size ∙ d1.pictures.size ∙ s.size;
                    stored_last =
                        d2.pictures.ring_in ∙ ended.ring_in ∙ d1.pictures.ring_in ∙ s.ring_in;
                    made = d2.pictures.makemovie ∙ ended.makemovie;
                    event_nr = inr (
                        omega (
                          arith, d2.pictures.event_nr, ended.event_nr, d1.pictures.event_nr,
                          s.event_nr,
                        ));
                  },
                ),
              )
        | inr on ↦
            let (last, (e2, d2)) =
              process_image_ring-Returns conf 2 noted w1 (omega arith) (omega arith) in
            rw on (
              last,
              (
                e2,
                record {
                  well_formed = d2.well_formed;
                  size = d2.pictures.size ∙ s.size;
                  stored_last = d2.pictures.ring_in ∙ s.ring_in;
                  made = d2.pictures.makemovie ∙ goes_on conf currenttime noted on;
                  event_nr = inl (d2.pictures.event_nr ∙ s.event_nr);
                },
              ),
            )
      ]
