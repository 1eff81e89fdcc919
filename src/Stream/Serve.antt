-- ===== src/Stream/Serve.antt =====
-- stream_put keeps the server in order.
use cy_prus.Prelude.{ℕ, ◌≤◌, ◌<◌, ◌≡◌, refl, ◌∙◌, ap, inl, inr, ltb, arith, Bool-cases}
use cy_prus.Prelude.{Option, none, some, List}
use cy_prus.Stream.{
  and_then, new_buffer, Written, Server, join, offer, renew, flushed, after_pass, stream_put,
  maxstreams, check_write,
}
use cy_prus.Stream.Flush.{Kept, stream_flush-Kept}
use cy_prus.Stream.Put.{add_client-Kept, add_write-Kept}

module _ {World : Type 0} (write : World → (socket : ℕ) → List ℕ → Written × World) (lim fps : ℕ)
    (header : List ℕ) where
  -- The server between two pictures: no more clients than there may be.
  pub record Serving (s : Server World) : Type 0 where
    pub kept : Kept s.clients s.heap s.stream_count
    pub few : s.stream_count ≤ maxstreams

  join-Serving :
      (waiting : Option ℕ) (s : Server World)
      → Serving s
      → Serving (join write lim fps header waiting s)
  unfolding join
  join-Serving none s h = h
  join-Serving (some sc) s h = elim (Bool-cases (ltb s.stream_count maxstreams)) [
    | inr full ↦ rw full h
    | inl room ↦ rw room (record {
      kept = add_client-Kept header sc s.clients s.heap s.stream_count h.kept;
      few = ground arith;
    })
  ]

  flushed-Serving :
      (s : Server World)
      → Serving s
      → (s' : Server World) × (flushed write lim fps header s ≡ some s') × Serving s'
  flushed-Serving s h =
      let r = stream_flush-Kept write lim s.clients s.heap s.stream_count s.world h.kept in
      (
        after_pass write lim fps header r.0,
        rw r.1 refl,
        record { kept = r.2; few = omega (arith, r.2.counted, h.kept.counted, r.4, h.few) },
      )

  renew-Serving :
      (frame : List ℕ) (curtime : ℕ) (s : Server World)
      → 0 < fps
      → Serving s
      → (s' : Server World) × (renew write lim fps header frame curtime s ≡ some s') × Serving s'
  unfolding renew offer new_buffer
  renew-Serving frame curtime s pos h = elim (Bool-cases (check_write s.clients)) [
    | inr busy ↦ (s, rw busy refl, h)
    | inl free ↦
        let r = add_write-Kept frame s.clients s.heap s.stream_count h.kept fps curtime pos in
        (
          record s { clients = r.0.0; heap = r.0.1 },
          rw free (rw r.1 refl),
          record { kept = r.2; few = h.few },
        )
  ]

  -- Let the rate not be zero, and in the server every buffer count its users, no user have a freed
  -- buffer, stream_count be the number of clients and at most 10. Then stream_put ends, whatever
  -- write() answers, with no use or second release of a freed buffer, and all this holds again.
  pub stream_put-Serving :
      (waiting : Option ℕ) (frame : List ℕ) (curtime : ℕ) (s : Server World)
      → 0 < fps
      → Serving s
      → (s' : Server World) × (stream_put write lim fps header waiting frame curtime s ≡ some s')
        × Serving s'
  unfolding stream_put
  stream_put-Serving waiting frame curtime s pos h =
      let first = flushed-Serving _ (join-Serving waiting s h) in
      let second = renew-Serving frame curtime first.0 pos first.2 in
      let third = flushed-Serving second.0 second.2 in
      let go = flushed write lim fps header in
      let run =
        ap
          (λ (v : Option (Server World)).
            and_then (and_then v (renew write lim fps header frame curtime)) go)
          first.1
        ∙ (ap (λ (v : Option (Server World)). and_then v go) second.1 ∙ third.1) in
      (third.0, run, third.2)
