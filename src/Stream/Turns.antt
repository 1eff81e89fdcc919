-- ===== src/Stream/Turns.antt =====
-- One turn of stream_flush, and one pass through the clients, touch no freed buffer.
use cy_prus.Prelude.{
  ℕ, suc, ◌+◌, ◌-◌, ◌≤◌, ◌<◌, ◌≡◌, refl, sym, ◌∙◌, ap, inl, inr, Bool, true, false, ◌&&◌, ◌||◌,
  if◌then◌else◌, ltb, leb, truth, arith, Bool-cases, ltb→lt,
}
use cy_prus.Prelude.{Option, none, some, List, [], ◌∷◌, length, get_or}
use cy_prus.Stream.{
  left_of, left_all, Buffer, Heap, Client, Written, is_failed, written_bytes, Turn, Pass, attempt,
  served, send, send_from, turn_with, turn, add_turn, pass,
}
use cy_prus.Stream.Held.{
  use_of, users, Holds, Holds-eq, Holds-none, use_of_self, release-Holds, Sized, Sized-at,
  release-Sized,
}

-- A client with no buffer is no user, whether it stays connected or not.
gone : (b : Bool) (n : ℕ) → n ≡ n + (if (if b then false else true) then 0 else 0)
gone true n = omega arith
gone false n = omega arith

stays :
    (t d : Bool) (n u : ℕ)
    → n + u ≡ n + (if (if t && false && d then false else true) then u else 0)
stays true d n u = refl
stays false d n u = refl

or_false : (b c : Bool) → (b || c) ≡ false → c ≡ false
or_false true c e = absurd (cc)
or_false false c e = e

or_le : (b c : Bool) → (if b || c then 1 else 0) ≤ (if b then 1 else 0) + (if c then 1 else 0)
or_le true c = ground arith
or_le false c = omega arith

finish_le :
    (x : Bool) (w s f : ℕ)
    → (0 < w → f < s)
    → (if (if x then false else true) then 0 else 0) + (if ltb 0 w then 1 else 0) ≤ s - f
finish_le true w s f h = ground (arith, h)
finish_le false w s f h = ground (arith, h)

wait_le :
    (t d : Bool) (w s f : ℕ)
    → (0 < w → f < s)
    → (if (if t && false && d then false else true) then s - (f + w) else 0)
        + (if ltb 0 w then 1 else 0)
      ≤ s - f
wait_le true d w s f h = ground (arith, h)
wait_le false d w s f h = ground (arith, h)

module _ {World : Type 0} (write : World → (socket : ℕ) → List ℕ → Written × World) (lim : ℕ)
    (size_of : ℕ → ℕ) where
  -- The users of a client's buffer after its turn.
  abbrev pub left_over : Turn World → ℕ → ℕ
  left_over t i = if t.connected then use_of i t.client.tmpbuffer else 0

  pub served-Held :
      (k : ℕ → ℕ) (a : ℕ) (b : Buffer) (c : Client) (heap : Heap) (answer : Written) (world : World)
      → c.tmpbuffer ≡ some a
      → get_or heap a none ≡ some b
      → ((i : ℕ) → Holds (get_or heap i none) (k i + use_of i (some a)))
      → (i : ℕ)
      → Holds
          (get_or (served write lim a b c heap answer world).heap i none)
          (k i + left_over (served write lim a b c heap answer world) i)
  unfolding served
  served-Held k a b c heap answer world e at h i =
      elim (Bool-cases (leb b.size (c.filepos + written_bytes answer) || is_failed answer)) [
        | inl finished ↦
            rw finished
              (Holds-eq _ (gone (is_failed answer || _) (k i)) (release-Holds heap k a b at h i))
        | inr waiting ↦
            let fine : is_failed answer ≡ false =
              or_false (leb b.size (c.filepos + written_bytes answer)) (is_failed answer) waiting in
            rw (waiting, fine, e) (Holds-eq _ (stays (truth lim) _ (k i) _) (h i))
      ]

  abbrev pub left_turn : Turn World → ℕ
  left_turn t = if t.connected then left_of size_of t.client.tmpbuffer t.client.filepos else 0

  -- The heap keeps its sizes, and a turn with some work done leaves less to write.
  abbrev pub Shrinks : (before : ℕ) → Turn World → Type 0
  Shrinks before t = Sized size_of t.heap × (left_turn t + (if t.workdone then 1 else 0) ≤ before)

  served-Shrinks :
      (a : ℕ) (b : Buffer) (c : Client) (heap : Heap) (answer : Written) (world : World)
      → c.tmpbuffer ≡ some a
      → get_or heap a none ≡ some b
      → (0 < written_bytes answer → c.filepos < b.size)
      → Sized size_of heap
      → Shrinks (size_of a - c.filepos) (served write lim a b c heap answer world)
  unfolding served
  served-Shrinks a b c heap answer world e at room h =
      let size = Sized-at b at (h a) in
      elim (Bool-cases (leb b.size (c.filepos + written_bytes answer) || is_failed answer)) [
        | inl finished ↦ rw finished (
          release-Sized size_of heap a b at h,
          finish_le _ (written_bytes answer) (size_of a) c.filepos
              (λ q. omega (arith, room q, size)),
        )
        | inr waiting ↦
            let fine : is_failed answer ≡ false =
              or_false (leb b.size (c.filepos + written_bytes answer)) (is_failed answer) waiting in
            rw (waiting, fine, e)
              (
                h,
                wait_le (truth lim) _ (written_bytes answer) (size_of a) c.filepos
                    (λ q. omega (arith, room q, size)),
              )
      ]

  attempt_room :
      (b : Buffer) (c : Client) (world : World)
      → 0 < written_bytes (attempt write lim b c world).0
      → c.filepos < b.size
  unfolding attempt
  attempt_room b c world h = elim (Bool-cases (ltb c.filepos b.size)) [
    | inl lt ↦ ltb→lt _ _ lt
    | inr ge ↦ let h' : 0 < 0 = rw ge at h in absurd (omega arith)
  ]

  send_from-Held :
      (k : ℕ → ℕ) (a : ℕ) (x : Option Buffer) (c : Client) (heap : Heap) (world : World)
      → c.tmpbuffer ≡ some a
      → get_or heap a none ≡ x
      → ((i : ℕ) → Holds (get_or heap i none) (k i + use_of i (some a)))
      → Sized size_of heap
      → (t : Turn World) × (send_from write lim a x c heap world ≡ some t)
        × ((i : ℕ) → Holds (get_or t.heap i none) (k i + left_over t i))
        × Shrinks (size_of a - c.filepos) t
  unfolding send_from send
  send_from-Held k a none c heap world e free h sized =
      let zero_users : k a + use_of a (some a) ≡ 0 = Holds-none free (h a) in
      absurd (omega (arith, use_of_self a))
  send_from-Held k a (some b) c heap world e at h sized =
      let r = attempt write lim b c world in
      (
        _,
        refl,
        served-Held k a b c heap r.0 r.1 e at h,
        served-Shrinks a b c heap r.0 r.1 e at (attempt_room b c world) sized,
      )

  turn_with-Held :
      (k : ℕ → ℕ) (x : Option ℕ) (c : Client) (heap : Heap) (world : World)
      → c.tmpbuffer ≡ x
      → ((i : ℕ) → Holds (get_or heap i none) (k i + use_of i x))
      → Sized size_of heap
      → (t : Turn World) × (turn_with write lim x c heap world ≡ some t)
        × ((i : ℕ) → Holds (get_or t.heap i none) (k i + left_over t i))
        × Shrinks (left_of size_of x c.filepos) t
  unfolding turn_with
  turn_with-Held k none c heap world e h sized = (
    _,
    refl,
    λ i. Holds-eq _ (ap (λ x. k i + use_of i x) (sym e)) (h i),
    (sized, rw e (omega arith)),
  )
  turn_with-Held k (some a) c heap world e h sized =
      send_from-Held k a (get_or heap a none) c heap world e refl h sized

  -- A turn does not touch a freed buffer, and the counts stay right.
  pub turn-Held :
      (k : ℕ → ℕ) (c : Client) (heap : Heap) (world : World)
      → ((i : ℕ) → Holds (get_or heap i none) (k i + use_of i c.tmpbuffer))
      → Sized size_of heap
      → (t : Turn World) × (turn write lim c heap world ≡ some t)
        × ((i : ℕ) → Holds (get_or t.heap i none) (k i + left_over t i))
        × Shrinks (left_of size_of c.tmpbuffer c.filepos) t
  turn-Held k c heap world h sized = turn_with-Held k c.tmpbuffer c heap world refl h sized

  kept_users :
      (k : ℕ → ℕ) (t : Turn World) (p : Pass World)
      → ((i : ℕ) → Holds (get_or p.heap i none) (k i + left_over t i + users i p.clients))
      → (i : ℕ) → Holds (get_or p.heap i none) (k i + users i (add_turn write lim t p).clients)
  unfolding users
  kept_users k t p h i = elim (Bool-cases t.connected) [
    | inl stays_on ↦ rw stays_on (
        Holds-eq _
          (let e : left_over t i ≡ use_of i t.client.tmpbuffer = rw stays_on refl in omega arith)
          (h i))
    | inr leaves ↦
        rw leaves (Holds-eq _ (let e : left_over t i ≡ 0 = rw leaves refl in omega arith) (h i))
  ]

  kept_left :
      (t : Turn World) (p : Pass World) (one others : ℕ)
      → left_turn t + (if t.workdone then 1 else 0) ≤ one
      → left_all size_of p.clients + (if p.workdone then 1 else 0) ≤ others
      → left_all size_of (add_turn write lim t p).clients
          + (if (add_turn write lim t p).workdone then 1 else 0)
        ≤ one + others
  unfolding left_all
  kept_left t p one others h h' = elim (Bool-cases t.connected) [
    | inl stays_on ↦
        let e : left_turn t ≡ left_of size_of t.client.tmpbuffer t.client.filepos =
          rw stays_on refl in
        rw stays_on (omega (arith, or_le t.workdone p.workdone))
    | inr leaves ↦
        let e : left_turn t ≡ 0 = rw leaves refl in
        rw leaves (omega (arith, or_le t.workdone p.workdone))
  ]

  kept_fewer :
      (t : Turn World) (p : Pass World) (others : ℕ)
      → length p.clients ≤ others
      → length (add_turn write lim t p).clients ≤ suc others
  kept_fewer t p others h = elim (Bool-cases t.connected) [
    | inl stays_on ↦ rw stays_on (omega arith)
    | inr leaves ↦ rw leaves (omega arith)
  ]

  kept_count :
      (t : Turn World) (p : Pass World) (n others : ℕ)
      → 0 < n
      → p.stream_count + others ≡ (if t.connected then n else n - 1) + length p.clients
      → (add_turn write lim t p).stream_count + suc others
        ≡ n + length (add_turn write lim t p).clients
  kept_count t p n others pos e = elim (Bool-cases t.connected) [
    | inl stays_on ↦ rw stays_on (ground (arith, stays_on, e))
    | inr leaves ↦ rw leaves (ground (arith, leaves, e))
  ]

  -- Once through the clients, with `k` other users.
  pub pass-Held :
      (k : ℕ → ℕ) (clients : List Client) (heap : Heap) (stream_count : ℕ) (world : World)
      → length clients ≤ stream_count
      → ((i : ℕ) → Holds (get_or heap i none) (k i + users i clients))
      → Sized size_of heap
      → (p : Pass World) × (pass write lim clients heap stream_count world ≡ some p)
        × ((i : ℕ) → Holds (get_or p.heap i none) (k i + users i p.clients))
        × (p.stream_count + length clients ≡ stream_count + length p.clients)
        × Sized size_of p.heap
        × (left_all size_of p.clients + (if p.workdone then 1 else 0) ≤ left_all size_of clients)
        × (length p.clients ≤ length clients)
  unfolding pass users left_all
  pass-Held k [] heap n world le h sized = (_, refl, h, refl, sized, omega arith, omega arith)
  pass-Held k (c ∷ rest) heap n world le h sized =
      let t =
        turn-Held (λ i. k i + users i rest) c heap world (λ i. Holds-eq _ (omega arith) (h i))
          sized in
      let m = if t.0.connected then n else n - 1 in
      let r =
        pass-Held (λ i. k i + left_over t.0 i) rest t.0.heap m t.0.world (ground arith)
          (λ i. Holds-eq _ (omega arith) (t.2 i)) t.3.0 in
      let all = add_turn write lim t.0 r.0 in
      let run =
        ap {B = Option (Pass World)}
          (λ (v : Option (Turn World)). elim v [
            | none ↦ none
            | some t ↦
                elim (pass write lim rest t.heap (if t.connected then n else n - 1) t.world) [
                  | none ↦ none
                  | some p ↦ some (add_turn write lim t p)
                ]
          ])
          t.1
        ∙ ap {B = Option (Pass World)}
            (λ (v : Option (Pass World)). elim v [
              | none ↦ none
              | some p ↦ some (add_turn write lim t.0 p)
            ])
            r.1 in
      (
        all,
        run,
        kept_users k t.0 r.0 r.2,
        kept_count t.0 r.0 n (length rest) (omega arith) r.3,
        r.4,
        kept_left t.0 r.0 _ _ t.3.1 r.5,
        kept_fewer t.0 r.0 (length rest) r.6,
      )
