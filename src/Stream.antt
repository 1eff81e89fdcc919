-- ===== src/Stream.antt =====
-- board/motion/motion_modified/stream.c: the pictures that go to the clients of the web stream. The
-- buffers that clients share stand in a heap; an address is a place in it, a freed place is `none`,
-- and a use or a second release of a freed buffer ends the run with `none`.
pub mod Held
pub mod Turns
pub mod Flush
pub mod Put
pub mod Serve
pub mod Stop
mod Tests
use cy_prus.Prelude.{
  ℕ, zero, suc, ◌+◌, ◌-◌, ◌*◌, ◌/◌, ◌≤◌, Bool, true, false, ◌&&◌, ◌||◌, if◌then◌else◌, ltb, leb,
  ◌==◌, truth,
}
use cy_prus.Prelude.{Option, none, some, List, [], ◌∷◌, ◌++◌, length, get_or, set, take, drop}

-- One step after another, where the first one may fail.
abbrev pub and_then {ℓ κ} : {A : Type ℓ} {B : Type κ} → Option A → (A → Option B) → Option B
and_then none next = none
and_then (some x) next = next x

-- struct stream_buffer
pub record Buffer : Type 0 where
  pub ptr : List ℕ
  pub ref : ℕ
  pub size : ℕ

abbrev pub Heap : Type 0
Heap = List (Option Buffer)

-- The size of the buffer at an address.
abbrev pub size_in : Heap → (a : ℕ) → ℕ
size_in heap a = elim (get_or heap a none) [ none ↦ 0 | some b ↦ b.size ]

-- struct stream; the list links are the place in the list of clients.
pub record Client : Type 0 where
  pub socket : ℕ
  pub tmpbuffer : Option ℕ
  pub filepos : ℕ
  pub nr : ℕ
  pub last : ℕ

-- The bytes that a client still waits for.
abbrev pub left_of : (size_of : ℕ → ℕ) → (tmpbuffer : Option ℕ) → (filepos : ℕ) → ℕ
left_of size_of none filepos = 0
left_of size_of (some a) filepos = size_of a - filepos

pub left_all : (size_of : ℕ → ℕ) → List Client → ℕ
left_all size_of [] = 0
left_all size_of (c ∷ rest) = left_of size_of c.tmpbuffer c.filepos + left_all size_of rest

-- What write() answers; `again` is -1 with EAGAIN, `failed` any other error.
pub data Written : Type 0 where
  wrote : ℕ → Written
  again failed : Written

abbrev pub is_failed : Written → Bool
is_failed failed = true
is_failed (wrote n) = false
is_failed again = false

abbrev pub written_bytes : Written → ℕ
written_bytes (wrote n) = n
written_bytes again = 0
written_bytes failed = 0

abbrev pub is_none : Option ℕ → Bool
is_none none = true
is_none (some a) = false

-- DEF_MAXSTREAMS
abbrev pub maxstreams : ℕ
maxstreams = 10

-- One user of the buffer less; the last one frees it.
abbrev pub release : (a : ℕ) → Buffer → Heap → Heap
release a b heap =
    if leb b.ref 1 then set heap a none else set heap a (some (record b { ref = b.ref - 1 }))

-- One client after its turn, with the heap and the world, and the flag `workdone`.
pub record Turn (World : Type 0) : Type 0 where
  pub client : Client
  pub connected : Bool
  pub heap : Heap
  pub world : World
  pub workdone : Bool

-- All clients after their turns.
pub record Pass (World : Type 0) : Type 0 where
  pub clients : List Client
  pub heap : Heap
  pub stream_count : ℕ
  pub world : World
  pub workdone : Bool

module _ {World : Type 0} (write : World → (socket : ℕ) → List ℕ → Written × World) (lim : ℕ) where
  -- What write() answers for the rest of a buffer; nothing is tried past its end.
  pub attempt : Buffer → Client → World → Written × World
  attempt b c world =
      let tried = write world c.socket (take (b.size - c.filepos) (drop c.filepos b.ptr)) in
      if ltb c.filepos b.size then tried else (wrote 0, world)

  -- What the answer does to the client and its buffer.
  pub served : (a : ℕ) → Buffer → Client → Heap → Written → World → Turn World
  served a b c heap answer world =
      let filepos = c.filepos + written_bytes answer in
      let finished = leb b.size filepos || is_failed answer in
      let nr = if finished then c.nr + 1 else c.nr in
      record {
        client = record c {
          filepos = filepos;
          nr = nr;
          tmpbuffer = if finished then none else c.tmpbuffer;
        };
        connected =
            if is_failed answer || (truth lim && finished && ltb lim nr) then false else true;
        heap = if finished then release a b heap else heap;
        world = world;
        workdone = ltb 0 (written_bytes answer);
      }

  -- The body of the loop of stream_flush for a client with a buffer.
  pub send : (a : ℕ) → Buffer → Client → Heap → World → Turn World
  unfolding attempt served
  send a b c heap world =
      let (answer, world') = attempt b c world in served a b c heap answer world'

  pub send_from : (a : ℕ) → Option Buffer → Client → Heap → World → Option (Turn World)
  unfolding send
  send_from a none c heap world = none
  send_from a (some b) c heap world = some (send a b c heap world)

  pub turn_with : (tmpbuffer : Option ℕ) → Client → Heap → World → Option (Turn World)
  unfolding send_from
  turn_with none c heap world =
      some (record { client = c; connected = true; heap = heap; world = world; workdone = false })
  turn_with (some a) c heap world = send_from a (get_or heap a none) c heap world

  abbrev pub turn : Client → Heap → World → Option (Turn World)
  turn c heap world = turn_with c.tmpbuffer c heap world

  abbrev pub add_turn : Turn World → Pass World → Pass World
  add_turn t p = record p {
    clients = if t.connected then t.client ∷ p.clients else p.clients;
    workdone = t.workdone || p.workdone;
  }

  -- Once through the clients.
  pub pass : List Client → Heap → (stream_count : ℕ) → World → Option (Pass World)
  unfolding turn_with
  pass [] heap stream_count world = some (record {
    clients = [];
    heap = heap;
    stream_count = stream_count;
    world = world;
    workdone = false;
  })
  pass (c ∷ rest) heap stream_count world = elim (turn c heap world) [
    | none ↦ none
    | some t ↦
        elim (pass rest t.heap (if t.connected then stream_count else stream_count - 1) t.world) [
          | none ↦ none
          | some p ↦ some (add_turn t p)
        ]
  ]

  -- stream_flush: again from the first client while something was written.
  pub flush : (fuel : ℕ) → List Client → Heap → (stream_count : ℕ) → World → Option (Pass World)
  unfolding pass
  flush zero clients heap stream_count world = none
  flush (suc fuel) clients heap stream_count world = elim (pass clients heap stream_count world) [
    | none ↦ none
    | some p ↦
        let more = flush fuel p.clients p.heap p.stream_count p.world in
        if p.workdone then more else some p
  ]

  -- Each pass with work done leaves fewer bytes, so this fuel is enough.
  abbrev pub stream_flush : List Client → Heap → (stream_count : ℕ) → World → Option (Pass World)
  stream_flush clients heap stream_count world =
      flush (suc (left_all (size_in heap) clients)) clients heap stream_count world

-- stream_tmpbuffer, for a buffer with these bytes: its address is the first one not in use.
pub new_buffer : (ptr : List ℕ) → Heap → ℕ × Heap
new_buffer ptr heap =
    (length heap, heap ++ (some (record { ptr = ptr; ref = 0; size = length ptr }) ∷ []))

-- stream_add_client, with the bytes of its header. The new client is the first.
pub add_client : (header : List ℕ) → (sc : ℕ) → List Client → Heap → List Client × Heap
unfolding new_buffer
add_client header sc clients heap =
    let (a, heap') = new_buffer header heap in
    (record { socket = sc; tmpbuffer = some a; filepos = 0; nr = 0; last = 0 } ∷ clients, heap')

-- `list->tmpbuffer == NULL && ((curtime - list->last) >= 1000000L / fps)`, where a division by zero
-- ends the program. The clock does not run backwards.
pub is_due : (fps curtime : ℕ) → Client → Option Bool
is_due fps curtime c =
    if is_none c.tmpbuffer
    then if fps == 0 then none else some (leb (1000000 / fps) (curtime - c.last))
    else some false

abbrev pub cons_to : Client → Option (List Client × Heap) → Option (List Client × Heap)
cons_to c none = none
cons_to c (some (rest, heap)) = some (c ∷ rest, heap)

-- A client takes the buffer.
abbrev pub with_buffer : (curtime a : ℕ) → Client → Client
with_buffer curtime a c = record c { last = curtime; tmpbuffer = some a; filepos = 0 }

abbrev pub one_user_more : Buffer → Buffer
one_user_more b = record b { ref = b.ref + 1 }

-- One client of the loop of stream_add_write: whether it is due, the buffer, and the other clients
-- when it takes the buffer or not.
pub give :
    (curtime a : ℕ)
    → Option Bool
    → Option Buffer
    → Client
    → Option (List Client × Heap)
    → (Buffer → Option (List Client × Heap))
    → Option (List Client × Heap)
give curtime a none x c late taker = none
give curtime a (some false) x c late taker = cons_to c late
give curtime a (some true) none c late taker = none
give curtime a (some true) (some b) c late taker = cons_to (with_buffer curtime a c) (taker b)

-- The loop of stream_add_write.
pub hand_out : (fps curtime a : ℕ) → List Client → Heap → Option (List Client × Heap)
unfolding is_due give
hand_out fps curtime a [] heap = some ([], heap)
hand_out fps curtime a (c ∷ rest) heap =
    give curtime a (is_due fps curtime c) (get_or heap a none) c (hand_out fps curtime a rest heap)
      (λ b. hand_out fps curtime a rest (set heap a (some (one_user_more b))))

-- The end of stream_add_write: a buffer that no client took is freed.
pub drop_unused : (a : ℕ) → Option Buffer → Heap → Option Heap
drop_unused a none heap = none
drop_unused a (some b) heap = some (if b.ref == 0 then set heap a none else heap)

pub close_write : (a : ℕ) → List Client × Heap → Option (List Client × Heap)
unfolding drop_unused
close_write a (clients, heap) =
    and_then (drop_unused a (get_or heap a none) heap) (λ heap'. some (clients, heap'))

pub add_write : (fps curtime a : ℕ) → List Client → Heap → Option (List Client × Heap)
unfolding hand_out close_write
add_write fps curtime a clients heap =
    and_then (hand_out fps curtime a clients heap) (close_write a)

pub check_write : List Client → Bool
check_write [] = false
check_write (c ∷ rest) = is_none c.tmpbuffer || check_write rest

pub free_at : (a : ℕ) → Option Buffer → Heap → Option Heap
free_at a none heap = none
free_at a (some b) heap = some (set heap a none)

pub free_tmp : (tmpbuffer : Option ℕ) → Heap → Option Heap
unfolding free_at
free_tmp none heap = some heap
free_tmp (some a) heap = free_at a (get_or heap a none) heap

-- stream_stop: the buffer of every client is freed.
pub stream_stop : List Client → Heap → Option Heap
unfolding free_tmp
stream_stop [] heap = some heap
stream_stop (c ∷ rest) heap = and_then (free_tmp c.tmpbuffer heap) (stream_stop rest)

-- What stream_put works on.
pub record Server (World : Type 0) : Type 0 where
  pub clients : List Client
  pub heap : Heap
  pub stream_count : ℕ
  pub world : World

module _ {World : Type 0} (write : World → (socket : ℕ) → List ℕ → Written × World) (lim fps : ℕ)
    (header : List ℕ) where
  -- A client that waits to connect, if there is one, joins while there is room.
  pub join : (waiting : Option ℕ) → Server World → Server World
  unfolding add_client
  join none s = s
  join (some sc) s =
      let (clients, heap) = add_client header sc s.clients s.heap in
      if ltb s.stream_count maxstreams
      then record s { clients = clients; heap = heap; stream_count = s.stream_count + 1 }
      else s

  abbrev pub after_pass : Pass World → Server World
  after_pass p = record {
    clients = p.clients;
    heap = p.heap;
    stream_count = p.stream_count;
    world = p.world;
  }

  abbrev pub flushed : Server World → Option (Server World)
  flushed s =
      and_then (stream_flush write lim s.clients s.heap s.stream_count s.world)
        (λ p. some (after_pass p))

  -- The new picture goes to the clients with no buffer.
  pub offer : (frame : List ℕ) → (curtime : ℕ) → Server World → Option (Server World)
  unfolding new_buffer add_write
  offer frame curtime s =
      let (a, heap) = new_buffer frame s.heap in
      and_then (add_write fps curtime a s.clients heap)
        (λ r. some (record s { clients = r.0; heap = r.1 }))

  pub renew : (frame : List ℕ) → (curtime : ℕ) → Server World → Option (Server World)
  unfolding offer check_write
  renew frame curtime s = if check_write s.clients then offer frame curtime s else some s

  -- stream_put without authentication. `frame` is the part of the multipart answer with the picture.
  pub stream_put :
      (waiting : Option ℕ) (frame : List ℕ) (curtime : ℕ) → Server World → Option (Server World)
  unfolding flush join renew
  stream_put waiting frame curtime s =
      and_then (and_then (flushed (join waiting s)) (renew frame curtime)) flushed
