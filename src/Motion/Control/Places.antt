-- ===== src/Motion/Control/Places.antt =====
-- The parts of a picture's way through the control that leave the ring's places and the event's
-- number alone.
use cy_prus.Prelude.{
  ℕ, suc, ◌≡◌, refl, sym, ◌∙◌, ap, Bool, true, false, not, ◌&&◌, if◌then◌else◌, ltb, ◌==◌, arith,
  List, [], ◌∷◌, map, set, length, length-set,
}
use cy_prus.Motion.{Image, Context, Conf, Event, event, motion, stream, imagem_detected}
use cy_prus.Motion.Ring.Bounds.{WellFormed}
use cy_prus.Motion.Save.Kept.{SameRing, save_three_preview-SameRing}
use cy_prus.Motion.Control.{
  current, capture_after, flag_save, is_locate_on, start_event, trigger_events, stream_events,
  locate_motion, call_events, motion_detected, flag_motion, trigger_save, emulate, take_action,
  note_times,
}

-- The size of the ring and its places are the same, and the number of the event.
pub record SamePlaces (c d : Context) : Type 0 where
  pub room : length d.image_ring ≡ length c.image_ring
  pub size : d.image_ring_size ≡ c.image_ring_size
  pub ring_in : d.image_ring_in ≡ c.image_ring_in
  pub ring_out : d.image_ring_out ≡ c.image_ring_out
  pub event_nr : d.event_nr ≡ c.event_nr

pub same : (c : Context) → SamePlaces c c
same c = record { room = refl; size = refl; ring_in = refl; ring_out = refl; event_nr = refl }

pub either :
    (b : Bool) (c d e : Context)
    → SamePlaces c d
    → SamePlaces c e
    → SamePlaces c (if b then d else e)
either true c d e h k = h
either false c d e h k = k

pub then_same : (c d e : Context) → SamePlaces c d → SamePlaces d e → SamePlaces c e
then_same c d e h k = record {
  room = k.room ∙ h.room;
  size = k.size ∙ h.size;
  ring_in = k.ring_in ∙ h.ring_in;
  ring_out = k.ring_out ∙ h.ring_out;
  event_nr = k.event_nr ∙ h.event_nr;
}

pub SamePlaces-WellFormed : (c d : Context) → SamePlaces c d → WellFormed c → WellFormed d
SamePlaces-WellFormed c d s w = record {
  size = s.size ∙ w.size ∙ sym s.room;
  in_room = omega (arith, s.size, s.ring_in, w.in_room);
  out_room = omega (arith, s.size, s.ring_out, w.out_room);
}

length-map : (f : Image → Image) (xs : List Image) → length (map f xs) ≡ length xs
length-map f [] = refl
length-map f (x ∷ xs) = ap suc (length-map f xs)

-- The current picture is rewritten, and fields beside the ring.
rewritten :
    (c d : Context) (img : Image)
    → d.image_ring ≡ set c.image_ring c.image_ring_in img
    → d.image_ring_size ≡ c.image_ring_size
    → d.image_ring_in ≡ c.image_ring_in
    → d.image_ring_out ≡ c.image_ring_out
    → d.event_nr ≡ c.event_nr
    → SamePlaces c d
rewritten c d img e size ring_in ring_out nr = record {
  room = ap length e ∙ length-set c.image_ring _ img;
  size = size;
  ring_in = ring_in;
  ring_out = ring_out;
  event_nr = nr;
}

pub flag_motion-SamePlaces : (conf : Conf) (c : Context) → SamePlaces c (flag_motion conf c)
unfolding flag_motion
flag_motion-SamePlaces conf c =
    either _ c _ _ (rewritten c _ _ refl refl refl refl refl)
      (record { room = refl; size = refl; ring_in = refl; ring_out = refl; event_nr = refl })

locate_motion-SamePlaces : (conf : Conf) (c : Context) → SamePlaces c (locate_motion conf c)
unfolding locate_motion
locate_motion-SamePlaces conf c =
    let located =
      either (is_locate_on conf.locate_motion_mode) c _ _ (rewritten c _ _ refl refl refl refl refl)
        (same c) in
    either conf.newimg_center c _ _
      (then_same c _ _ located (rewritten _ _ _ refl refl refl refl refl)) located

of_ring : (c d : Context) → SameRing c d → SamePlaces c d
of_ring c d h = record {
  room = ap length h.ring;
  size = h.size;
  ring_in = h.ring_in;
  ring_out = h.ring_out;
  event_nr = h.event_nr;
}

start_event-SamePlaces :
    (conf : Conf) (img : Image) (c : Context) → SamePlaces c (start_event conf img c)
unfolding start_event
start_event-SamePlaces conf img c =
    either _ c _ _
      (then_same c _ _
        (record { room = refl; size = refl; ring_in = refl; ring_out = refl; event_nr = refl })
        (of_ring _ _ (save_three_preview-SameRing img img img _)))
      (record { room = refl; size = refl; ring_in = refl; ring_out = refl; event_nr = refl })

-- A call of `event` after `d`.
called : (c d : Context) (e : Event) → SamePlaces c d → SamePlaces c (event e d)
called c d e h = record {
  room = h.room;
  size = h.size;
  ring_in = h.ring_in;
  ring_out = h.ring_out;
  event_nr = h.event_nr;
}

trigger_events-SamePlaces :
    (conf : Conf) (img : Image) (c : Context) → SamePlaces c (trigger_events conf img c)
unfolding trigger_events
trigger_events-SamePlaces conf img c =
    let begun =
      either (not (c.event_nr == c.prev_event)) c _ _ (start_event-SamePlaces conf img c)
        (same c) in
    either img.flags.trigger c _ _ (called c _ motion begun) (same c)

stream_events-SamePlaces :
    (conf : Conf) (img : Image) (c : Context) → SamePlaces c (stream_events conf img c)
unfolding stream_events
stream_events-SamePlaces conf img c =
    let streamed =
      either (conf.stream_motion && not conf.setup_mode && not (img.shot == 1)) c _ _
        (called c c (stream img.image) (same c)) (same c) in
    either conf.motion_img c _ _ (called c _ imagem_detected streamed) streamed

call_events-SamePlaces : (conf : Conf) (c : Context) → SamePlaces c (call_events conf c)
unfolding call_events
call_events-SamePlaces conf c =
    let triggered = trigger_events-SamePlaces conf (current c) c in
    either (ltb (current c).shot conf.frame_limit) c _ _
      (then_same c _ _ triggered (stream_events-SamePlaces conf (current c) _)) triggered

motion_detected-SamePlaces :
    (conf : Conf) (c d : Context) → SamePlaces c d → SamePlaces c (motion_detected conf d)
unfolding motion_detected
motion_detected-SamePlaces conf c d h = then_same c d _ h (
    then_same d _ _ (locate_motion-SamePlaces conf d)
      (call_events-SamePlaces conf (locate_motion conf d)))

trigger_save-SamePlaces : (conf : Conf) (c : Context) → SamePlaces c (trigger_save conf c)
trigger_save-SamePlaces conf c = record {
  room = length-map flag_save _ ∙ length-set c.image_ring _ _;
  size = refl;
  ring_in = refl;
  ring_out = refl;
  event_nr = refl;
}

pub take_action-SamePlaces :
    (conf : Conf) (startup_frames : ℕ) (c : Context)
    → SamePlaces c (take_action conf startup_frames c)
unfolding take_action
take_action-SamePlaces conf startup_frames c =
    either (conf.emulate_motion && startup_frames == 0) c _ _
      (motion_detected-SamePlaces conf c _
        (rewritten c (emulate conf c) _ refl refl refl refl refl))
      (either ((current c).flags.motion && startup_frames == 0) c _ _
        (motion_detected-SamePlaces conf c _ (
          either _ c _ _ (trigger_save-SamePlaces conf c) (
            either _ c _ _ (rewritten c (capture_after c) _ refl refl refl refl refl)
              (rewritten c _ _ refl refl refl refl refl))))
        (either _ c _ _ (rewritten c (capture_after c) _ refl refl refl refl refl)
          (rewritten c _ _ refl refl refl refl refl)))

pub note_times-SamePlaces :
    (conf : Conf) (currenttime : ℕ) (c : Context) → SamePlaces c (note_times conf currenttime c)
unfolding note_times
note_times-SamePlaces conf currenttime c = record {
  room = refl;
  size = refl;
  ring_in = refl;
  ring_out = refl;
  event_nr = refl;
}
