-- ===== src/Stream/Stop.antt =====
-- Where stream.c fails: stream_stop frees a shared buffer once for each client, and a rate of zero
-- divides by zero.
use cy_prus.Prelude.{ℕ, ◌≤◌, ◌<◌, ◌≡◌, ◌⊎◌, refl, sym, ◌∙◌, inl, inr, true, arith, ℕ_discrete}
use cy_prus.Prelude.{Option, none, some, List, [], ◌∷◌, get_or, set, get_or-set_self, get_or-set_ne}
use cy_prus.Stream.{
  Buffer, Heap, Client, is_due, give, hand_out, check_write, free_at, free_tmp, stream_stop,
}
use mathlib.Core.Path.{subst}
use cy_prus.Stream.Held.{use_of, users, option_cases, used_in_heap, use_of_self, use_of_ne}

-- No buffer, a freed one, or one that is freed now.
free_tmp_cases :
    (x : Option ℕ) (heap : Heap)
    → ((k : ℕ) × (x ≡ some k) × (get_or heap k none ≡ none) × (free_tmp x heap ≡ none))
      ⊎ (((x ≡ none) × (free_tmp x heap ≡ some heap))
          ⊎ ((k : ℕ) × (b : Buffer) × (x ≡ some k)
              × (get_or heap k none ≡ some b)
              × (free_tmp x heap ≡ some (set heap k none))))
unfolding free_tmp free_at
free_tmp_cases none heap = inr (inl (refl, refl))
free_tmp_cases (some k) heap = elim (option_cases (get_or heap k none)) [
  | inl e ↦ inl (k, refl, e, rw e refl)
  | inr (b, e) ↦ inr (inr (k, b, refl, e, rw e refl))
]

-- A use of a freed buffer ends the program.
stop_freed :
    (a : ℕ) (clients : List Client) (heap : Heap)
    → get_or heap a none ≡ none
    → 0 < users a clients
    → stream_stop clients heap ≡ none
unfolding stream_stop users
stop_freed a [] heap free h = absurd (omega arith)
stop_freed a (c ∷ rest) heap free h = elim (free_tmp_cases c.tmpbuffer heap) [
  | inl (k, used, is_free, e) ↦ rw e refl
  | inr (inl (e, same)) ↦
      let unused : use_of a c.tmpbuffer ≡ 0 = rw e refl in
      rw same (stop_freed a rest heap free (omega arith))
  | inr (inr (k, b, e, at, freed)) ↦ elim (ℕ_discrete k a) [
    | yes same ↦ let clash : some b ≡ none = sym at ∙ (rw same free) in absurd (ground arith)
    | no ne ↦
        let unused : use_of a c.tmpbuffer ≡ 0 = rw e (use_of_ne k a ne) in
        rw freed (
          stop_freed a rest (set heap k none) (get_or-set_ne heap k a none none ne ∙ free)
            (omega arith))
  ]
]

-- Where two clients or more have the same buffer, stream_stop releases a buffer that is freed already.
pub stop_shared :
    (a : ℕ) (clients : List Client) (heap : Heap)
    → 2 ≤ users a clients
    → stream_stop clients heap ≡ none
unfolding stream_stop users
stop_shared a [] heap h = absurd (omega arith)
stop_shared a (c ∷ rest) heap h = elim (free_tmp_cases c.tmpbuffer heap) [
  | inl (k, used, is_free, e) ↦ rw e refl
  | inr (inl (e, same)) ↦
      let unused : use_of a c.tmpbuffer ≡ 0 = rw e refl in
      rw same (stop_shared a rest heap (omega arith))
  | inr (inr (k, b, e, at, freed)) ↦ elim (ℕ_discrete k a) [
    | yes same ↦
        let one : use_of a c.tmpbuffer ≡ 1 = rw (e, same) (use_of_self a) in
        let gone : get_or (set heap k none) a none ≡ none =
          rw same (get_or-set_self heap a none none (rw same at (used_in_heap heap k b at))) in
        rw freed (stop_freed a rest (set heap k none) gone (omega arith))
    | no ne ↦
        let unused : use_of a c.tmpbuffer ≡ 0 = rw e (use_of_ne k a ne) in
        rw freed (stop_shared a rest (set heap k none) (omega arith))
  ]
]

-- One user for every buffer that is not freed.
abbrev pub Alone : Option Buffer → (users : ℕ) → Type 0
Alone none n = n ≡ 0
Alone (some b) n = n ≡ 1

Alone-at : {x : Option Buffer} {n : ℕ} (b : Buffer) → x ≡ some b → Alone x n → n ≡ 1
Alone-at {x} {n} b e h = subst (λ (y : Option Buffer). Alone y n) (e) h

Alone-none : {x : Option Buffer} {n : ℕ} → x ≡ none → Alone x n → n ≡ 0
Alone-none {x} {n} e h = subst (λ (y : Option Buffer). Alone y n) (e) h

Alone-eq : (x : Option Buffer) {n m : ℕ} → n ≡ m → Alone x n → Alone x m
Alone-eq none e h = omega arith
Alone-eq (some b) e h = omega arith

-- Where no two clients share a buffer, stream_stop frees them all.
pub stop_single :
    (clients : List Client) (heap : Heap)
    → ((i : ℕ) → Alone (get_or heap i none) (users i clients))
    → (heap' : Heap) × (stream_stop clients heap ≡ some heap')
      × ((i : ℕ) → get_or heap' i none ≡ none)
unfolding stream_stop users
stop_single [] heap h = (
  heap,
  refl,
  λ i. elim (option_cases (get_or heap i none)) [
    | inl e ↦ e
    | inr (b, e) ↦ absurd (omega (arith, Alone-at b e (h i)))
  ],
)
stop_single (c ∷ rest) heap h = elim (free_tmp_cases c.tmpbuffer heap) [
  | inl (k, used, is_free, e) ↦
      let own : use_of k c.tmpbuffer ≡ 1 = rw used (use_of_self k) in
      let no_users = Alone-none is_free (h k) in absurd (omega arith)
  | inr (inl (e, same)) ↦
      let ih =
        stop_single rest heap
          (λ i. Alone-eq _ (let u : use_of i c.tmpbuffer ≡ 0 = rw e refl in omega arith) (h i)) in
      (ih.0, rw same ih.1, ih.2)
  | inr (inr (k, b, e, at, freed)) ↦
      let total = Alone-at b at (h k) in
      let own : use_of k c.tmpbuffer ≡ 1 = rw e (use_of_self k) in
      let next : (i : ℕ) → Alone (get_or (set heap k none) i none) (users i rest) = λ i.
        elim (ℕ_discrete k i) [
          | yes same ↦
              rw (← same)
                (rw (get_or-set_self heap k none none (used_in_heap heap k b at)) (omega arith))
          | no ne ↦ rw (get_or-set_ne heap k i none none ne) (
              Alone-eq _ (let u : use_of i c.tmpbuffer ≡ 0 = rw e (use_of_ne k i ne) in omega arith)
                (h i))
        ] in
      let ih = stop_single rest (set heap k none) next in (ih.0, rw freed ih.1, ih.2)
]

-- With a rate of zero and a client that has no buffer, the loop of stream_add_write divides by zero.
pub hand_out_zero :
    (curtime a : ℕ) (clients : List Client) (heap : Heap)
    → check_write clients ≡ true
    → hand_out 0 curtime a clients heap ≡ none
unfolding hand_out check_write give is_due
hand_out_zero curtime a [] heap h = absurd (cc)
hand_out_zero curtime a (c ∷ rest) heap h = elim (option_cases c.tmpbuffer) [
  | inl e ↦ rw e refl
  | inr (k, e) ↦
      let others : check_write rest ≡ true = rw e at h in
      rw (e, hand_out_zero curtime a rest heap others) refl
]
