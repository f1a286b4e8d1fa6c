-- ===== src/Handle/Closing.antt =====
-- The descriptor of a client of a handle, closed by both threads.
use net_utils.Base.{
  ℕ, ◌+◌, ◌≤◌, ◌<◌, ◌^◌, ◌≡◌, ◌⊎◌, inl, refl, false, List, [], ◌∷◌, length, pos, arith,
}
use net_utils.Context.{invalid_fd}
use net_utils.Io.Run.{Run, returned}
use net_utils.Io.Send.{Answer, send_bytes}
use net_utils.Io.Recv.{Incoming, got}
use net_utils.Worker.Closing.{closes_of, closes_of-append}
use net_utils.Handle.Fronts.{after_recv-got}
use net_utils.Handle.{
  HandleClass, ipv4_handle, Reading, waking, Writing, sending, Main, begin, read_spawned,
  joining_write, joined, Handle, new_handle, after_send, read_at, write_at, main_at, Turn, mains,
  reads, writes, wakes, step, run,
}

-- How many calls of `close` a thread has made.
abbrev by_reader : Reading → ℕ
by_reader Reading.clearing = 1
by_reader waking = 1
by_reader Reading.finished = 1
by_reader _ = 0

abbrev by_writer : Writing → ℕ
by_writer Writing.clearing = 1
by_writer Writing.finished = 1
by_writer _ = 0

abbrev Cleared : Reading → Handle → Type 0
Cleared waking h = h.client_fd ≡ invalid_fd
Cleared Reading.finished h = h.client_fd ≡ invalid_fd
Cleared _ h = Unit

abbrev Closed : ℕ → Handle → Type 0
Closed n h = 1 ≤ closes_of n h.closes

abbrev ReaderClosed : ℕ → Reading → Handle → Type 0
ReaderClosed n Reading.clearing h = Closed n h
ReaderClosed n _ h = Unit

abbrev WriterClosed : ℕ → Writing → Handle → Type 0
WriterClosed n Writing.clearing h = Closed n h
WriterClosed n _ h = Unit

abbrev Begun : Main → Reading → Writing → Type 0
Begun begin reader writer = (reader ≡ Reading.unborn) × (writer ≡ Writing.unborn)
Begun read_spawned reader writer = writer ≡ Writing.unborn
Begun joining_write reader writer = reader ≡ Reading.finished
Begun joined reader writer = (reader ≡ Reading.finished) × (writer ≡ Writing.finished)
Begun _ reader writer = Unit

record Inv (n : ℕ) (h : Handle) : Type 0 where
  begun : Begun h.main h.reader h.writer
  fd : (h.client_fd ≡ pos n) ⊎ ((h.client_fd ≡ invalid_fd) × Closed n h)
  cleared : Cleared h.reader h
  reader_closed : ReaderClosed n h.reader h
  writer_closed : WriterClosed n h.writer h
  at_most : closes_of n h.closes ≤ by_reader h.reader + by_writer h.writer

module _ {n : ℕ} where
  read_at-Inv :
      (pc : Reading) (i : Incoming) (h : Handle) → h.reader ≡ pc → Inv n h → Inv n (read_at pc i h)
  unfolding read_at
  read_at-Inv Reading.closing i h e s = ground (arith, closes_of-append n h.closes h.client_fd)
  read_at-Inv pc i h e s = ground arith

  after_send-Inv :
      (r : Run (List ℕ)) (msg : List ℕ) (h : Handle)
      → h.writer ≡ sending msg
      → Inv n h
      → Inv n (after_send h.handle_class r h)
  after_send-Inv r msg h e s = ground arith

  write_at-Inv :
      (pc : Writing) (answers : List Answer) (h : Handle)
      → h.writer ≡ pc
      → Inv n h
      → Inv n (write_at pc answers h)
  unfolding write_at
  write_at-Inv Writing.closing answers h e s =
      ground (arith, closes_of-append n h.closes h.client_fd)
  write_at-Inv (sending msg) answers h e s = after_send-Inv (send_bytes 0 msg answers) msg h e s
  write_at-Inv pc answers h e s = ground arith

  main_at-Inv : (pc : Main) (h : Handle) → h.main ≡ pc → Inv n h → Inv n (main_at pc h)
  unfolding main_at
  main_at-Inv begin h e s = ground arith
  main_at-Inv read_spawned h e s = ground arith
  main_at-Inv pc h e s = ground arith

  step-Inv : (t : Turn) (h : Handle) → Inv n h → Inv n (step t h)
  unfolding step
  step-Inv mains h s = main_at-Inv h.main h refl s
  step-Inv (reads i) h s = read_at-Inv h.reader i h refl s
  step-Inv (writes answers) h s = write_at-Inv h.writer answers h refl s
  step-Inv wakes h s = ground arith

  run-Inv : (turns : List Turn) (h : Handle) → Inv n h → Inv n (run turns h)
  unfolding run
  run-Inv [] h s = s
  run-Inv (t ∷ turns) h s = run-Inv turns (step t h) (step-Inv t h s)

new_handle-Inv : (c : HandleClass) (n : ℕ) → Inv n (new_handle c (pos n))
unfolding closes_of
new_handle-Inv c n = record {
  begun = (refl, refl);
  fd = inl refl;
  cleared = tt;
  reader_closed = tt;
  writer_closed = tt;
  at_most = omega arith;
}

-- When `doWork` of a handle of either class returns, both threads have ended, the context has no descriptor, and
-- that of the client was closed once or twice.
pub joined-closed :
    (c : HandleClass) (n : ℕ) (turns : List Turn)
    → (run turns (new_handle c (pos n))).main ≡ joined
    → ((run turns (new_handle c (pos n))).reader ≡ Reading.finished)
      × ((run turns (new_handle c (pos n))).writer ≡ Writing.finished)
      × ((run turns (new_handle c (pos n))).client_fd ≡ invalid_fd)
      × (1 ≤ closes_of n (run turns (new_handle c (pos n))).closes)
      × (closes_of n (run turns (new_handle c (pos n))).closes ≤ 2)
joined-closed c n turns done =
    by_inv (run turns (new_handle c (pos n))) done
      (run-Inv turns (new_handle c (pos n)) (new_handle-Inv c n))
  where
    by_inv :
        (h : Handle)
        → h.main ≡ joined
        → Inv n h
        → (h.reader ≡ Reading.finished)
          × (h.writer ≡ Writing.finished)
          × (h.client_fd ≡ invalid_fd)
          × (1 ≤ closes_of n h.closes)
          × (closes_of n h.closes ≤ 2)
    by_inv h done s = ground arith

-- The client sends a message and closes the connection, which both threads meet at once.
abbrev pub both_close : List ℕ → List Answer → List Turn
both_close chunk answers =
    mains
    ∷ mains
    ∷ reads (got chunk)
    ∷ reads (got [])
    ∷ writes []
    ∷ reads (got [])
    ∷ reads (got [])
    ∷ writes answers
    ∷ reads (got [])
    ∷ writes []
    ∷ []

-- Both threads of an IPv4 handle can close the same descriptor: the client sends one piece (of fewer
-- than 2^31 bytes) and closes, and sending the message breaks off before the receiving thread has
-- marked the descriptor.
both_close-twice :
    (n : ℕ) (chunk wire : List ℕ) (answers : List Answer)
    → 0 < length chunk
    → length chunk < 2 ^ 31
    → send_bytes 0 chunk answers ≡ returned false wire
    → (run (both_close chunk answers) (new_handle ipv4_handle (pos n))).closes ≡ pos n ∷ pos n ∷ []
unfolding run step read_at write_at main_at
both_close-twice n chunk wire answers some small e =
    rw
      (
        after_recv-got chunk (run (mains ∷ mains ∷ []) (new_handle ipv4_handle (pos n))) some small,
        e,
      )
      refl
