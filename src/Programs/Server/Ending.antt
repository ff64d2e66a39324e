-- ===== src/Programs/Server/Ending.antt =====
-- That the threads of examples/udp-echo.rs end once `main` has cleared `RUNNING`.
use wintun_bindings.Base.{
  ℕ, none, some, ◌≤◌, ◌≡◌, ◌+◌, ◌⊎◌, false, arith, ◌≢◌, zero, inl, ◌<◌, inr, suc, refl, List, ap,
  panic, [], ◌∷◌, ok,
}
use wintun_bindings.Programs.Echo.{read_round, write_round, RandomApi, PacketCrate, NaiveUdpPacket}
use wintun_bindings.Programs.Server.{
  Server, Main, Thread, at_prompt, at_test, stopping, in_round, joining, ended, returned, Step,
  reader_tests, reader_asks, reader_refused, reader_skips, reader_fails, writer_tests,
  writer_answers, writer_fails, writer_left, main_stops, main_shuts_down, main_fails, main_joins,
}
use wintun_bindings.Session.Calls.{shutdown}
use wintun_bindings.Session.Loops.{receive_blocking}
use wintun_bindings.Session.Loops.Endings.{IsShutFrom, receiving_ends}
use wintun_bindings.Session.Packet.{Session}
use wintun_bindings.System.{run-cases, Platform, World}

abbrev steps_of_thread : Thread → ℕ
steps_of_thread at_test = 1
steps_of_thread in_round = 2
steps_of_thread ended = 0

abbrev steps_of_main : Main → ℕ
steps_of_main at_prompt = 0
steps_of_main stopping = 2
steps_of_main joining = 1
steps_of_main returned = 0

abbrev steps_left : Server → ℕ
steps_left v = steps_of_thread v.reader + steps_of_thread v.writer + steps_of_main v.main

-- `main` has cleared `RUNNING`.
abbrev pub IsStopped : Server → Type 0
IsStopped v = (v.running ≡ false) × (v.main ≢ at_prompt)

thread_cases : (t : Thread) → (t ≡ at_test) ⊎ (t ≡ in_round) ⊎ (t ≡ ended)
thread_cases at_test = inl refl
thread_cases in_round = inr (inl refl)
thread_cases ended = inr (inr refl)

main_cases : (m : Main) → (m ≡ at_prompt) ⊎ (m ≡ stopping) ⊎ (m ≡ joining) ⊎ (m ≡ returned)
main_cases at_prompt = inl refl
main_cases stopping = inr (inl refl)
main_cases joining = inr (inr (inl refl))
main_cases returned = inr (inr (inr refl))

thread_steps-le : (t : Thread) → steps_of_thread t ≤ 2
thread_steps-le at_test = omega arith
thread_steps-le in_round = omega arith
thread_steps-le ended = omega arith

main_steps-le : (m : Main) → steps_of_main m ≤ 2
main_steps-le at_prompt = omega arith
main_steps-le stopping = omega arith
main_steps-le joining = omega arith
main_steps-le returned = omega arith

module _ (p : Platform) (random : RandomApi) (c : PacketCrate) (s : Session) where
  -- A run of `n` steps.
  pub data Run (v : Server) : ℕ → Server → Type 0 where
    nothing : Run v zero v
    and_then_one : {n : ℕ} {a b : Server} → Run v n a → Step p random c s a b → Run v (suc n) b

  Step-falls :
      {v v' : Server}
      → Step p random c s v v'
      → IsStopped v
      → IsStopped v' × (steps_left v' < steps_left v)
  Step-falls (reader_tests at) (off, late) = ground arith
  Step-falls (reader_asks fuel request w at run there) (off, late) = ground arith
  Step-falls (reader_refused fuel request w at run gone) (off, late) = ground arith
  Step-falls (reader_skips fuel e w at run) (off, late) = ground arith
  Step-falls (reader_fails fuel w at failed) (off, late) = ground arith
  Step-falls (writer_tests at) (off, late) = ground arith
  Step-falls (writer_answers response rest w at first run) (off, late) = ground arith
  Step-falls (writer_fails response rest w at first failed) (off, late) = ground arith
  Step-falls (writer_left at empty gone) (off, late) = ground arith
  Step-falls (main_stops at) (off, late) = absurd (late at)
  Step-falls (main_shuts_down w at run) (off, late) = ground arith
  Step-falls (main_fails e w at run) (off, late) = ground arith
  Step-falls (main_joins at gone gone') (off, late) = ground arith

  Run-falls :
      {v : Server} {n : ℕ} {v' : Server}
      → Run v n v'
      → IsStopped v
      → IsStopped v' × (n + steps_left v' ≤ steps_left v)
  Run-falls nothing stopped = (stopped, omega arith)
  Run-falls (and_then_one r st) stopped =
      let (still, sum) = Run-falls r stopped in
      let (again, falls) = Step-falls st still in (again, omega (arith, sum, falls))

  shutdown-calm : (w : World) → (shutdown p s w).0 ≢ panic
  unfolding shutdown
  shutdown-calm w = ground arith

  abbrev Goes : Server → Type 0
  Goes v = (v' : Server) × Step p random c s v v'

  shuts-Goes : (v : Server) → v.main ≡ stopping → Goes v
  shuts-Goes v at = elim (run-cases (shutdown p s v.world)) [
    | inl (tt, w, run) ↦ (_, main_shuts_down w at run)
    | inr (inl (e, w, run)) ↦ (_, main_fails e w at run)
    | inr (inr (w, run)) ↦ absurd (shutdown-calm v.world (ap (λ x. x.0) run))
  ]

  read_round-waits :
      (fuel : ℕ) (w w' : World)
      → read_round p random c s fuel w ≡ (ok none, w')
      → (receive_blocking p s fuel w).0 ≡ ok none
  unfolding read_round
  read_round-waits fuel w w' run = elim (run-cases (receive_blocking p s fuel w)) [
    | inl (none, w₁, r) ↦ ap (λ x. x.0) r
    | inl (some packet, w₁, r) ↦ absurd (ground (arith, r, run))
    | inr (inl (e, w₁, r)) ↦ absurd (ground (arith, r, run))
    | inr (inr (w₁, r)) ↦ absurd (ground (arith, r, run))
  ]

  reads-Goes : (k : ℕ) (v : Server) → IsShutFrom p s k → v.reader ≡ in_round → Goes v
  reads-Goes k v shut at = elim (run-cases (read_round p random c s (suc k) v.world)) [
    | inl (none, w, run) ↦ absurd (
        (receiving_ends p s k k [] v.world shut (omega arith)).0
          (read_round-waits (suc k) v.world w run))
    | inl (some (inl e), w, run) ↦ (_, reader_skips (suc k) e w at run)
    | inl (some (inr request), w, run) ↦ elim (thread_cases v.writer) [
      | inl tests ↦ (_, reader_asks (suc k) request w at run (ground (arith, tests)))
      | inr (inl writes) ↦ (_, reader_asks (suc k) request w at run (ground (arith, writes)))
      | inr (inr gone) ↦ (_, reader_refused (suc k) request w at run gone)
    ]
    | inr (inl (e, w, run)) ↦ (_, reader_fails (suc k) w at (inl (e, run)))
    | inr (inr (w, run)) ↦ (_, reader_fails (suc k) w at (inr run))
  ]

  queue_cases :
      (q : List NaiveUdpPacket)
      → (q ≡ [])
        ⊎ ((response : NaiveUdpPacket) × (rest : List NaiveUdpPacket) × (q ≡ response ∷ rest))
  queue_cases [] = inl refl
  queue_cases (response ∷ rest) = inr (response, rest, refl)

  writes-Goes : (v : Server) → v.reader ≡ ended → v.writer ≡ in_round → Goes v
  writes-Goes v gone at = elim (queue_cases v.queue) [
    | inl empty ↦ (_, writer_left at empty gone)
    | inr (response, rest, first) ↦ elim (run-cases (write_round p random c s response v.world)) [
      | inl (tt, w, run) ↦ (_, writer_answers response rest w at first run)
      | inr (inl (e, w, run)) ↦ (_, writer_fails response rest w at first (inl (e, run)))
      | inr (inr (w, run)) ↦ (_, writer_fails response rest w at first (inr run))
    ]
  ]

  joins-Goes : (k : ℕ) (v : Server) → IsShutFrom p s k → v.main ≡ joining → Goes v
  joins-Goes k v shut at = elim (thread_cases v.reader) [
    | inl tests ↦ (_, reader_tests tests)
    | inr (inl reads) ↦ reads-Goes k v shut reads
    | inr (inr gone) ↦ elim (thread_cases v.writer) [
      | inl tests ↦ (_, writer_tests tests)
      | inr (inl writes) ↦ writes-Goes v gone writes
      | inr (inr gone') ↦ (_, main_joins at gone gone')
    ]
  ]

  -- Once `main` has cleared `RUNNING`, and if from some call on no wait is ended by a packet, there are
  -- at most six steps left, in whatever order the threads go, and they do not lock each other: `main`
  -- has returned wherever no step is possible.
  pub stopped_returns :
      (k n : ℕ) (v v' : Server)
      → IsShutFrom p s k
      → IsStopped v
      → Run v n v'
      → (n ≤ 6) × ((v'.main ≡ returned) ⊎ ((v'' : Server) × Step p random c s v' v''))
  stopped_returns k n v v' shut stopped run =
      let ((off, late), sum) = Run-falls run stopped in
      (
        omega
            (arith, sum, thread_steps-le v.reader, thread_steps-le v.writer, main_steps-le v.main),
        elim (main_cases v'.main) [
          | inl at ↦ absurd (late at)
          | inr (inl at) ↦ inr (shuts-Goes v' at)
          | inr (inr (inl at)) ↦ inr (joins-Goes k v' shut at)
          | inr (inr (inr at)) ↦ inl at
        ],
      )
