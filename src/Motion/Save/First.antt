-- ===== src/Motion/Save/First.antt =====
-- The first pictures of the ring from image_ring_out on, as the loop of process_image_ring saves them.
use cy_prus.Prelude.{
  ℕ, suc, ◌+◌, ◌-◌, ◌≤◌, ◌<◌, ◌≡◌, ◌≢◌, refl, sym, ◌∙◌, ap, ap₂, true, if◌then◌else◌, ltb, arith,
  ℕ_discrete, List, length, length-set, set, get_or-set_self, get_or-set_ne,
}
use mathlib.Core.Path.{subst}
use cy_prus.Motion.{Image, Event, Context, Conf}
use cy_prus.Motion.Ring.{image_at, next_place}
use cy_prus.Motion.Ring.Bounds.{WellFormed}
use cy_prus.Motion.Save.{mark_saved, save_image, to_be_saved}
use cy_prus.Motion.Save.Kept.{save_image-SavedOne}
use cy_prus.Motion.Save.Outputs.{Output, save_image-Output}

-- The place `k` after `i`, in a ring that it goes round once at most.
abbrev pub place : (size i k : ℕ) → ℕ
place size i k = if ltb (i + k) size then i + k else i + k - size

place_next :
    (size i k : ℕ) → i < size → k < size → next_place size (place size i k) ≡ place size i (suc k)
place_next size i k h h' = ground arith

place_inj :
    (size i j k : ℕ) → i < size → j < size → k < size → place size i j ≡ place size i k → j ≡ k
place_inj size i j k h hj hk e = ground arith

-- How many steps lead from `out` to `in`, going once round when they are the same.
abbrev pub distance : (size out ring_in : ℕ) → ℕ
distance size out ring_in = if ltb out ring_in then ring_in - out else ring_in + size - out

module _ (c : Context) where
  abbrev pub nth : ℕ → ℕ
  nth = place c.image_ring_size c.image_ring_out

  -- The `k`th picture was flagged, and is as it was but for its mark.
  abbrev pub SavedAt : Context → ℕ → Type 0
  SavedAt d k =
      (to_be_saved (image_at c.image_ring (nth k)) ≡ true)
      × (image_at d.image_ring (nth k) ≡ mark_saved (image_at c.image_ring (nth k)))

  -- The events behind the first pictures from image_ring_out on: those of each picture follow those of
  -- the picture before it.
  pub data Outputs (conf : Conf) : ℕ → List Event → Type 0 where
    start : Outputs conf 0 c.events
    next :
        {k : ℕ} {before after : List Event}
        → Outputs conf k before
        → Output conf (image_at c.image_ring (nth k)) before after
        → Outputs conf (suc k) after

  -- The first `s` pictures from image_ring_out on are passed on and saved, and no other picture changed, nor did
  -- the number of the event or makemovie.
  pub record SavedFirst (conf : Conf) (s : ℕ) (d : Context) : Type 0 where
    pub outputs : Outputs conf s d.events
    pub size : d.image_ring_size ≡ c.image_ring_size
    pub ring_in : d.image_ring_in ≡ c.image_ring_in
    pub ring_out : d.image_ring_out ≡ nth s
    pub room : length d.image_ring ≡ length c.image_ring
    pub makemovie : d.makemovie ≡ c.makemovie
    pub event_nr : d.event_nr ≡ c.event_nr
    pub saved : (k : ℕ) → k < s → SavedAt d k
    pub others :
        (k : ℕ)
        → s ≤ k
        → k < c.image_ring_size
        → image_at d.image_ring (nth k) ≡ image_at c.image_ring (nth k)

  module _ (w : WellFormed c) where
    pub nothing_saved : (conf : Conf) → SavedFirst conf 0 c
    nothing_saved conf = record {
      outputs = start;
      size = refl;
      ring_in = refl;
      ring_out = ground (arith, w.out_room);
      room = refl;
      makemovie = refl;
      event_nr = refl;
      saved = λ k h. absurd (omega arith);
      others = λ k h h'. refl;
    }

    now_saved : (s k : ℕ) (d : Context) → s ≡ k → SavedAt d s → SavedAt d k
    now_saved s k d e h = rw (← e) h

    pub one_more :
        (conf : Conf) (s : ℕ) (d : Context)
        → SavedFirst conf s d
        → s < c.image_ring_size
        → to_be_saved (image_at d.image_ring d.image_ring_out) ≡ true
        → SavedFirst conf (suc s) (save_image conf d)
    one_more conf s d p h flagged =
        let q = save_image-SavedOne conf d in
        let out_room = w.out_room in
        let here : image_at d.image_ring d.image_ring_out ≡ image_at c.image_ring (nth s) =
          ap (λ (i : ℕ). image_at d.image_ring i) p.ring_out ∙ p.others s (omega arith) h in
        let in_ring : d.image_ring_out < length d.image_ring =
          ground (arith, w.size, p.room, p.ring_out) in
        let marked : image_at (save_image conf d).image_ring (nth s)
            ≡ mark_saved (image_at c.image_ring (nth s)) =
          ap (λ (r : List Image). image_at r (nth s)) q.ring
          ∙ ap
              (λ (i : ℕ).
                image_at
                  (set d.image_ring d.image_ring_out
                    (mark_saved (image_at d.image_ring d.image_ring_out)))
                  i)
              (sym p.ring_out)
          ∙ get_or-set_self d.image_ring d.image_ring_out _ _ in_ring
          ∙ ap mark_saved here in
        let at_s : SavedAt (save_image conf d) s = (sym (ap to_be_saved here) ∙ flagged, marked) in
        let elsewhere = λ (k : ℕ) (hk : k < c.image_ring_size) (ne : s ≢ k).
          ap (λ (r : List Image). image_at r (nth k)) q.ring
          ∙ get_or-set_ne d.image_ring d.image_ring_out (nth k) _ _ (λ e. ne (
              place_inj c.image_ring_size c.image_ring_out s k out_room h hk
                (sym p.ring_out ∙ e))) in
        record {
          outputs = next p.outputs (
              subst (λ (img : Image). Output conf img d.events (save_image conf d).events) here
                (save_image-Output conf d));
          size = q.size ∙ p.size;
          ring_in = q.ring_in ∙ p.ring_in;
          ring_out = q.ring_out ∙ ap₂ next_place p.size p.ring_out ∙ place_next _ _ s out_room h;
          makemovie = q.makemovie ∙ p.makemovie;
          event_nr = q.event_nr ∙ p.event_nr;
          room = ap length q.ring ∙ length-set d.image_ring _ _ ∙ p.room;
          saved = λ k hk. elim (ℕ_discrete s k) [
            | yes e ↦ now_saved s k (save_image conf d) e at_s
            | no ne ↦ (
              (p.saved k (omega arith)).0,
              elsewhere k (omega arith) ne ∙ (p.saved k (omega arith)).1,
            )
          ];
          others = λ k le hk. elsewhere k hk (omega arith) ∙ p.others k (omega arith) hk;
        }
