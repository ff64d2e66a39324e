-- ===== src/Examples/Asyncs.antt =====
-- Runs of examples/basic-async.rs and examples/udp-echo-async.rs.
use wintun_bindings.AsyncSession.Defs.{
  ReadState, Executor, Poll, poll_write, ready, pending, idle, internal_send, copy_out,
}
use wintun_bindings.AsyncSession.PollRead.{poll_read, Turn, turn}
use wintun_bindings.AsyncSession.PollRead.Arrivals.{Hands, poll_read-Hands}
use wintun_bindings.Base.{
  refl, ℕ, List, Outcome, ok, ◌≡◌, ◌∷◌, err, none, panic, some, inl, [], inr, ◌≢◌, Option, drop,
  ◌⊎◌, arith, length, ap, ◌∙◌, sym, Text, Bool-cases, ◌==◌, text, ◌&&◌,
}
use wintun_bindings.Examples.Echoes.{asked, format, format-IsBuilder, random, request}
use wintun_bindings.Examples.Machine.{session}
use wintun_bindings.Examples.Tasks.{pool}
use wintun_bindings.Failure.{IoError}
use wintun_bindings.Programs.Async.{
  Futures, write_round_async, read_round_async, read_bytes, zeros, asks,
}
use wintun_bindings.Programs.Async.Answers.{NeedsBytes}
use wintun_bindings.Programs.Async.Polling.{
  Answer, Polls, IsPolling, Writes, IsWriting, nothing_left, poll_write-delivered, still_polling,
  panicked, some_written, again, not_written, never_again, write_panicked, answered,
}
use wintun_bindings.Programs.Echo.{PacketCrate, IpPacket, swapped}
use wintun_bindings.Programs.Echo.Answers.{IsBuilder}
use wintun_bindings.Session.Calls.{try_receive}
use wintun_bindings.Session.Packet.{Session}
use wintun_bindings.System.{Platform, World, M, run-cases, empty_world, slice, byte_at}

-- The crate futures, where a session is polled once.
module _ (p : Platform) (x : Executor) (s : Session) where
  abbrev read_of : Outcome ⊥ Turn × World → Outcome ⊥ Answer × World
  read_of (ok t, w) = elim t.result [
    | none ↦ (ok none, w)
    | some pending ↦ (ok none, w)
    | some (ready r) ↦ (ok (some (t.read_state, r)), w)
  ]
  read_of (err e, w) = absurd e
  read_of (panic, w) = (panic, w)

  abbrev written_of : Outcome IoError (Poll ℕ) × World → Outcome IoError (Unit {0}) × World
  written_of (ok n, w) = (ok tt, w)
  written_of (err e, w) = (err e, w)
  written_of (panic, w) = (panic, w)

  abbrev write_once : List ℕ → M IoError (Unit {0})
  write_once [] w = (ok tt, w)
  write_once (b ∷ buf) w = written_of (poll_write p x s (b ∷ buf) w)

  -- Four turns of the loop of `poll_read` are enough where a packet waits.
  abbrev pub once : Futures
  once = record {
    read = λ state buf w. read_of (poll_read p x s state buf 4 w);
    write_all = write_once;
  }

  Polls-read_of :
      (state : ReadState) (buf : List ℕ) (w w' : World)
      (result : Option (Poll (IoError ⊎ (ℕ × List ℕ)))) (state' : ReadState)
      → poll_read p x s state buf 4 w ≡ (ok (record { result = result; read_state = state' }), w')
      → Polls p x s state buf w (read_of (ok (record { result = result; read_state = state' }), w'))
  Polls-read_of state buf w w' none state' run = still_polling 4 state' w' run
  Polls-read_of state buf w w' (some pending) state' run =
      again 4 state' w' (ok none, w') run never_again
  Polls-read_of state buf w w' (some (ready r)) state' run = answered 4 state' r w' run

  pub once-IsPolling : IsPolling p x s once
  once-IsPolling state buf w = elim (run-cases (poll_read p x s state buf 4 w)) [
    | inl (t, w', r) ↦ rw r (Polls-read_of state buf w w' t.result t.read_state r)
    | inr (inl (e, w', r)) ↦ absurd e
    | inr (inr (w', r)) ↦ rw r (panicked 4 w' r)
  ]

  poll_write-ready : (buf : List ℕ) (w : World) → (poll_write p x s buf w).0 ≢ ok pending
  unfolding poll_write
  poll_write-ready buf w = ground arith

  drop-length : (xs : List ℕ) (w : World) → Writes p x s (drop (length xs) xs) w (ok tt, w)
  drop-length [] w = nothing_left
  drop-length (y ∷ ys) w = drop-length ys w

  Writes-written_of :
      (b : ℕ) (buf : List ℕ) (w w' : World) (n : ℕ)
      → poll_write p x s (b ∷ buf) w ≡ (ok (ready n), w')
      → Writes p x s (b ∷ buf) w (ok tt, w')
  Writes-written_of b buf w w' n run = elim (poll_write-delivered p x s (b ∷ buf) w) [
    | inr (still, never) ↦ absurd (never n (ap (λ y. y.0) run))
    | inl (done, sent) ↦
        some_written (length (b ∷ buf)) w' (ok tt, w')
          (run ∙ ap (λ o. (o, w')) (ap (λ y. y.0) (sym run) ∙ done))
          (λ h. absurd (omega (arith, h))) (drop-length (b ∷ buf) w')
  ]

  pub once-IsWriting : IsWriting p x s once
  once-IsWriting [] w = nothing_left
  once-IsWriting (b ∷ buf) w = elim (run-cases (poll_write p x s (b ∷ buf) w)) [
    | inl (pending, w', r) ↦ absurd (poll_write-ready (b ∷ buf) w (ap (λ y. y.0) r))
    | inl (ready n, w', r) ↦ rw r (Writes-written_of b buf w w' n r)
    | inr (inl (e, w', r)) ↦ rw r (not_written w' e (λ h. ground (arith, h)) r)
    | inr (inr (w', r)) ↦ rw r (write_panicked w' (λ h. ground (arith, h)) r)
  ]

-- The format, without a packet in no bytes.
abbrev as_ip : List ℕ → Text ⊎ IpPacket
as_ip [] = inl (text "empty")
as_ip (a ∷ xs) = format.as_packet (a ∷ xs)

abbrev pub strict : PacketCrate
strict = record format { as_packet = as_ip }

pub strict-NeedsBytes : NeedsBytes strict
strict-NeedsBytes packet h = ground (arith, h)

never_nil :
    (id : ℕ) (src dst : List ℕ) (sp dp : ℕ) (content : List ℕ)
    → format.build id src dst sp dp content ≢ inr []
never_nil id [] dst sp dp content h = ground (arith, h)
never_nil id (a ∷ src) dst sp dp content h =
    elim (Bool-cases ((length (a ∷ src) == 4) && (length dst == 4))) [
      | inl good ↦ ground (arith, good, h)
      | inr bad ↦ ground (arith, bad, h)
    ]

pub strict-IsBuilder : IsBuilder strict
strict-IsBuilder id src dst sp dp content [] h = absurd (never_nil id src dst sp dp content h)
strict-IsBuilder id src dst sp dp content (b ∷ built) h =
    format-IsBuilder id src dst sp dp content (b ∷ built) h

abbrev pub futures : Futures
futures = once asked pool session

abbrev pub after_read : World
after_read = (read_round_async futures strict idle empty_world).1

pub async_reads :
    read_round_async futures strict idle empty_world
    ≡ (ok (asks idle (inr (swapped request))), after_read)
unfolding read_round_async read_bytes zeros poll_read turn try_receive slice byte_at copy_out
async_reads = refl

abbrev pub after_write : World
after_write = (write_round_async futures asked random strict (swapped request) after_read).1

pub async_writes :
    write_round_async futures asked random strict (swapped request) after_read
    ≡ (ok tt, after_write)
unfolding write_round_async poll_write internal_send
async_writes = refl

-- A poll that reads a packet of eleven bytes into twelve.
abbrev polled : Turn
polled = record {
  result = some (ready (inr (11, 0 ∷ 1 ∷ 2 ∷ 3 ∷ 4 ∷ 5 ∷ 6 ∷ 7 ∷ 8 ∷ 9 ∷ 10 ∷ 0 ∷ [])));
  read_state = idle;
}

abbrev after_poll : World
after_poll = (poll_read asked pool session idle (zeros 12) 4 empty_world).1

polls_once : poll_read asked pool session idle (zeros 12) 4 empty_world ≡ (ok polled, after_poll)
unfolding zeros poll_read turn try_receive slice byte_at copy_out
polls_once = refl

poll_read-Hands_example : Hands asked pool session empty_world after_poll polled.result
poll_read-Hands_example =
    poll_read-Hands asked pool session 4 idle (zeros 12) empty_world after_poll polled polls_once
