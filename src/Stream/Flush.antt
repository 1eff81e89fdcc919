-- ===== src/Stream/Flush.antt =====
-- stream_flush ends, and touches no freed buffer.
use cy_prus.Prelude.{
  ℕ, zero, suc, ◌+◌, ◌≤◌, ◌<◌, ◌≡◌, refl, ◌∙◌, ap, inl, inr, false, if◌then◌else◌, arith,
  Bool-cases,
}
use cy_prus.Prelude.{Option, none, some, List, length, get_or}
use cy_prus.Stream.{left_all, size_in, Buffer, Heap, Client, Written, Pass, flush, stream_flush}
use cy_prus.Stream.Held.{users, Holds, Holds-eq, HasSize, Sized}
use cy_prus.Stream.Turns.{pass-Held}

-- Every buffer has as many users among the clients as its count says, and a freed one has none. The
-- number of clients is `stream_count`.
pub record Kept (clients : List Client) (heap : Heap) (stream_count : ℕ) : Type 0 where
  pub held : (a : ℕ) → Holds (get_or heap a none) (users a clients)
  pub counted : stream_count ≡ length clients

own_size : (x : Option Buffer) → HasSize x (elim x [ none ↦ 0 | some b ↦ b.size ])
own_size none = tt
own_size (some b) = refl

pub size_in-Sized : (heap : Heap) → Sized (size_in heap) heap
size_in-Sized heap a = own_size (get_or heap a none)

module _ {World : Type 0} (write : World → (socket : ℕ) → List ℕ → Written × World) (lim : ℕ) where
  flush-Kept :
      (size_of : ℕ → ℕ) (fuel : ℕ) (clients : List Client) (heap : Heap) (n : ℕ) (world : World)
      → left_all size_of clients < fuel
      → Sized size_of heap
      → Kept clients heap n
      → (p : Pass World) × (flush write lim fuel clients heap n world ≡ some p)
        × Kept p.clients p.heap p.stream_count
        × (p.workdone ≡ false)
        × (length p.clients ≤ length clients)
  unfolding flush
  flush-Kept size_of zero clients heap n world enough sized h = absurd (omega arith)
  flush-Kept size_of (suc fuel) clients heap n world enough sized h =
      let one =
        pass-Held write lim size_of (λ i. 0) clients heap n world (omega (arith, h.counted))
          (λ i. Holds-eq _ (omega arith) (h.held i)) sized in
      let p = one.0 in
      let kept : Kept p.clients p.heap p.stream_count = record {
        held = λ i. Holds-eq _ (omega arith) (one.2 i);
        counted = omega (arith, one.3, h.counted);
      } in
      let run =
        ap {B = Option (Pass World)}
          (λ (v : Option (Pass World)). elim v [
            | none ↦ none
            | some p ↦
                if p.workdone
                then flush write lim fuel p.clients p.heap p.stream_count p.world
                else some p
          ])
          one.1 in
      elim (Bool-cases p.workdone) [
        | inr idle ↦ (p, run ∙ rw idle refl, kept, idle, one.6)
        | inl busy ↦
            let less : left_all size_of p.clients + 1 ≤ left_all size_of clients =
              rw busy at one.5 in
            let rest =
              flush-Kept size_of fuel p.clients p.heap p.stream_count p.world (omega arith) one.4
                kept in
            (rest.0, run ∙ rw busy rest.1, rest.2, rest.3, omega (arith, rest.4, one.6))
      ]

  pub stream_flush-Kept :
      (clients : List Client) (heap : Heap) (stream_count : ℕ) (world : World)
      → Kept clients heap stream_count
      → (p : Pass World) × (stream_flush write lim clients heap stream_count world ≡ some p)
        × Kept p.clients p.heap p.stream_count
        × (p.workdone ≡ false)
        × (length p.clients ≤ length clients)
  stream_flush-Kept clients heap n world h =
      flush-Kept (size_in heap) _ clients heap n world (omega arith) (size_in-Sized heap) h
