-- ===== src/Stream/Tests.antt =====
-- Runs of stream.c with two clients.
use cy_prus.Prelude.{ℕ, zero, suc, ◌+◌, ◌≤◌, ◌≡◌, refl, true, if◌then◌else◌, ◌==◌, arith}
use cy_prus.Prelude.{none, some, List, [], ◌∷◌, length, get_or}
use cy_prus.Stream.{
  Buffer, Heap, Client, Written, wrote, Server, stream_put, check_write, stream_stop,
}
use cy_prus.Stream.Held.{users, Holds}
use cy_prus.Stream.Flush.{Kept}
use cy_prus.Stream.Serve.{Serving, stream_put-Serving}
use cy_prus.Stream.Stop.{stop_shared}

-- A socket that takes two bytes at a time; the world counts the calls.
abbrev slow_write : ℕ → (socket : ℕ) → List ℕ → Written × ℕ
slow_write calls socket bytes = (wrote (if length bytes == 1 then 1 else 2), calls + 1)

abbrev buffer : Buffer
buffer = record { ptr = 7 ∷ 8 ∷ 9 ∷ []; ref = 2; size = 3 }

abbrev heap : Heap
heap = some buffer ∷ []

abbrev waiting_client : Client
waiting_client = record { socket = 5; tmpbuffer = some 0; filepos = 0; nr = 1; last = 0 }

abbrev idle_client : Client
idle_client = record { socket = 6; tmpbuffer = none; filepos = 0; nr = 1; last = 0 }

abbrev sharing : List Client
sharing = waiting_client ∷ (waiting_client ∷ [])

held_at : (a : ℕ) → Holds (get_or heap a none) (users a sharing)
unfolding users
held_at zero = refl
held_at (suc zero) = refl
held_at (suc (suc a)) = ground arith

sharing-Kept : Kept sharing heap 2
unfolding users
sharing-Kept = record { held = λ a. held_at a; counted = refl }

abbrev server : Server ℕ
server = record { clients = sharing; heap = heap; stream_count = 2; world = 0 }

server-Serving : Serving slow_write 0 1 (1 ∷ []) server
server-Serving = record { kept = sharing-Kept; few = omega arith }

put_example :
    (s : Server ℕ) × (stream_put slow_write 0 1 (1 ∷ []) (some 4) (3 ∷ (4 ∷ [])) 2000000 server
      ≡ some s)
    × Serving slow_write 0 1 (1 ∷ []) s
put_example =
    stream_put-Serving slow_write 0 1 (1 ∷ []) (some 4) (3 ∷ (4 ∷ [])) 2000000 server (omega arith)
      server-Serving

two_users : 2 ≤ users 0 sharing
unfolding users
two_users = omega arith

stop_example : stream_stop sharing heap ≡ none
stop_example = stop_shared 0 sharing heap two_users

one_free : check_write (waiting_client ∷ (idle_client ∷ [])) ≡ true
unfolding check_write
one_free = refl
