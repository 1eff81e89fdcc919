-- ===== src/Stream/Put.antt =====
-- stream_add_client and stream_add_write keep the counts of the buffers right.
use cy_prus.Prelude.{
  ℕ, zero, suc, ◌+◌, ◌-◌, ◌/◌, ◌≤◌, ◌<◌, ◌≡◌, ◌≢◌, ◌⊎◌, refl, inl, inr, true, false, leb, ◌==◌,
  arith, Bool-cases, ℕ_discrete, ≢→==,
}
use cy_prus.Prelude.{
  Option, none, some, List, [], ◌∷◌, ◌++◌, length, get_or, set, get_or-set_self, get_or-set_ne,
}
use cy_prus.Stream.{
  Buffer, Heap, Client, with_buffer, one_user_more, is_due, give, hand_out, drop_unused,
  close_write, add_write, new_buffer, add_client,
}
use cy_prus.Stream.Held.{
  use_of, users, Holds, Holds-eq, option_cases, used_in_heap, use_of_self, use_of_ne, set-Holds,
}
use mathlib.Core.Path.{subst}
use cy_prus.Stream.Flush.{Kept}

pub get_or_past : (heap : Heap) (i : ℕ) → length heap ≤ i → get_or heap i none ≡ none
get_or_past [] i h = refl
get_or_past (x ∷ heap) zero h = absurd (omega arith)
get_or_past (x ∷ heap) (suc i) h = get_or_past heap i (omega arith)

pub append_last :
    (heap : Heap) (x : Option Buffer) → get_or (heap ++ (x ∷ [])) (length heap) none ≡ x
append_last [] x = refl
append_last (y ∷ heap) x = append_last heap x

pub append_old :
    (heap : Heap) (x : Option Buffer) (i : ℕ)
    → length heap ≢ i
    → get_or (heap ++ (x ∷ [])) i none ≡ get_or heap i none
append_old [] x zero ne = absurd (ne refl)
append_old [] x (suc i) ne = refl
append_old (y ∷ heap) x zero ne = refl
append_old (y ∷ heap) x (suc i) ne = append_old heap x i (λ e. ne (omega arith))

-- A heap with one more place at its end.
pub append-Holds :
    (heap : Heap) (x : Option Buffer) (m : ℕ → ℕ)
    → Holds x (m (length heap))
    → ((i : ℕ) → length heap ≢ i → Holds (get_or heap i none) (m i))
    → (i : ℕ) → Holds (get_or (heap ++ (x ∷ [])) i none) (m i)
append-Holds [] x m own h zero = own
append-Holds [] x m own h (suc i) = h (suc i) (λ e. omega arith)
append-Holds (y ∷ heap) x m own h zero = h zero (λ e. omega arith)
append-Holds (y ∷ heap) x m own h (suc i) =
    append-Holds heap x (λ j. m (suc j)) own (λ j ne. h (suc j) (λ e. ne (omega arith))) i

-- The next free address has no users.
pub unused :
    {clients : List Client} {heap : Heap} {n : ℕ}
    → Kept clients heap n
    → users (length heap) clients ≡ 0
unused {clients} {heap} h =
    subst (λ (x : Option Buffer). Holds x (users (length heap) clients))
      (get_or_past heap (length heap) (omega arith)) (h.held (length heap))

pub add_client-Kept :
    (header : List ℕ) (sc : ℕ) (clients : List Client) (heap : Heap) (n : ℕ)
    → Kept clients heap n
    → Kept (add_client header sc clients heap).0 (add_client header sc clients heap).1 (n + 1)
unfolding add_client new_buffer users
add_client-Kept header sc clients heap n h = record {
  held =
      append-Holds heap _ (λ i. use_of i (some (length heap)) + users i clients)
        (omega (arith, unused h, use_of_self (length heap)))
        (λ i ne. Holds-eq _ (omega (arith, use_of_ne (length heap) i ne)) (h.held i));
  counted = omega (arith, h.counted);
}

due_cases :
    (fps curtime : ℕ) (c : Client)
    → 0 < fps
    → (is_due fps curtime c ≡ some false)
      ⊎ ((is_due fps curtime c ≡ some true) × (c.tmpbuffer ≡ none))
unfolding is_due
due_cases fps curtime c pos =
    let positive : (fps == 0) ≡ false = ≢→== fps 0 (λ e. omega arith) in
    elim (option_cases c.tmpbuffer) [
      | inr (a, e) ↦ inl (rw e refl)
      | inl e ↦ elim (Bool-cases (leb (1000000 / fps) (curtime - c.last))) [
        | inl due ↦ inr (rw (e, positive, due) refl, e)
        | inr late ↦ inl (rw (e, positive, late) refl)
      ]
    ]

-- Who has the new buffer, after some clients.
pub record Offered (k : ℕ → ℕ) (a : ℕ) (clients : List Client) (heap : Heap) (b : Buffer)
    : Type 0 where
  pub at : get_or heap a none ≡ some b
  pub own : k a + users a clients ≡ b.ref
  pub others : (i : ℕ) → a ≢ i → Holds (get_or heap i none) (k i + users i clients)

-- With a rate of at least one picture in a second the buffer is handed out to every client that is
-- due, and its count is the number of these clients.
pub hand_out-Offered :
    (fps curtime a : ℕ) (pos : 0 < fps) (k : ℕ → ℕ) (clients : List Client) (heap : Heap)
    (b : Buffer)
    → get_or heap a none ≡ some b
    → k a ≡ b.ref
    → users a clients ≡ 0
    → ((i : ℕ) → a ≢ i → Holds (get_or heap i none) (k i + users i clients))
    → (r : List Client × Heap) × (b' : Buffer) × (hand_out fps curtime a clients heap ≡ some r)
      × Offered k a r.0 r.1 b'
      × (length r.0 ≡ length clients)
unfolding hand_out give users
hand_out-Offered fps curtime a pos k [] heap b at own none_yet h =
    ((_, heap), b, refl, record { at = at; own = omega arith; others = h }, refl)
hand_out-Offered fps curtime a pos k (c ∷ rest) heap b at own none_yet h =
    elim (due_cases fps curtime c pos) [
      | inl late ↦
          let r =
            hand_out-Offered fps curtime a pos (λ i. k i + use_of i c.tmpbuffer) rest heap b at
              (omega arith) (omega arith) (λ i ne. Holds-eq _ (omega arith) (h i ne)) in
          (
            (c ∷ r.0.0, r.0.1),
            r.1,
            rw late (rw r.2 refl),
            record {
              at = r.3.at;
              own = omega (arith, r.3.own);
              others = λ i ne. Holds-eq _ (omega arith) (r.3.others i ne);
            },
            omega (arith, r.4),
          )
      | inr (due, free) ↦
          let lt = used_in_heap heap a b at in
          let heap' : Heap = set heap a (some (one_user_more b)) in
          let nothing : (i : ℕ) → use_of i c.tmpbuffer ≡ 0 = λ i. rw free refl in
          let r =
            hand_out-Offered fps curtime a pos (λ i. k i + use_of i (some a)) rest heap'
              (one_user_more b) (get_or-set_self heap a (some (one_user_more b)) none lt)
              (omega (arith, use_of_self a)) (omega arith)
              (λ i ne.
                rw (get_or-set_ne heap a i (some (one_user_more b)) none ne)
                  (Holds-eq _ (omega (arith, nothing i, use_of_ne a i ne)) (h i ne))) in
          (
            (with_buffer curtime a c ∷ r.0.0, r.0.1),
            r.1,
            rw (due, at) (rw r.2 refl),
            record {
              at = r.3.at;
              own = omega (arith, r.3.own);
              others = λ i ne. Holds-eq _ (omega arith) (r.3.others i ne);
            },
            omega (arith, r.4),
          )
    ]

module _ (frame : List ℕ) (clients : List Client) (heap : Heap) (n : ℕ)
    (h : Kept clients heap n) where
  close_write-Kept :
      (r : List Client × Heap) (b : Buffer)
      → Offered (λ i. 0) (length heap) r.0 r.1 b
      → length r.0 ≡ length clients
      → (r' : List Client × Heap) × (close_write (length heap) r ≡ some r') × Kept r'.0 r'.1 n
  unfolding close_write drop_unused
  close_write-Kept (clients', heap') b o e =
      let a = length heap in
      let lt = used_in_heap heap' a b o.at in
      elim (Bool-cases (b.ref == 0)) [
        | inl unused_now ↦ (
          (clients', set heap' a none),
          rw o.at (rw unused_now refl),
          record {
            held =
                set-Holds heap' a none (λ i. users i clients') lt (ground (arith, o.own))
                  (λ i ne. Holds-eq _ (omega arith) (o.others i ne));
            counted = omega (arith, h.counted);
          },
        )
        | inr used ↦ (
          (clients', heap'),
          rw o.at (rw used refl),
          record {
            held = λ i. elim (ℕ_discrete a i) [
              | yes same ↦ rw (← same) (rw o.at (ground (arith, o.own)))
              | no ne ↦ Holds-eq _ (omega arith) (o.others i ne)
            ];
            counted = omega (arith, h.counted);
          },
        )
      ]

  -- stream_add_write with a new buffer.
  pub add_write-Kept :
      (fps curtime : ℕ)
      → 0 < fps
      → (r : List Client × Heap) × (add_write fps curtime
            (length heap)
            clients
            (new_buffer frame heap).1
          ≡ some r)
        × Kept r.0 r.1 n
  unfolding add_write new_buffer
  add_write-Kept fps curtime pos =
      let new : Buffer = record { ptr = frame; ref = 0; size = length frame } in
      let heap' : Heap = heap ++ (some new ∷ []) in
      let at : get_or heap' (length heap) none ≡ some new = append_last heap (some new) in
      let given =
        hand_out-Offered fps curtime (length heap) pos (λ i. 0) clients heap' new at refl (unused h)
          (λ i ne. rw (append_old heap (some new) i ne) (Holds-eq _ (omega arith) (h.held i))) in
      let closed = close_write-Kept given.0 given.1 given.3 given.4 in
      (closed.0, rw given.2 closed.1, closed.2)
