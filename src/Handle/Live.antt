-- ===== src/Handle/Live.antt =====
-- The descriptor that a handle holds and has not closed yet, in either of its two threads.
use net_utils.Base.{ℕ, ◌≡◌, ◌⊎◌, refl, Bool, true, false, ◌&&◌, List, [], ◌∷◌, ◌++◌, arith}
use net_utils.Io.Run.{Run}
use net_utils.Io.Send.{Answer, send_bytes}
use net_utils.Io.Recv.{Incoming}
use net_utils.Worker.Closing.{is_fd}
use net_utils.Handle.{
  Reading, Writing, sending, Main, begin, read_spawned, Handle, after_send, read_at, write_at,
  main_at, Turn, mains, reads, writes, wakes, step,
}

abbrev read_open : Reading → Bool
read_open Reading.clearing = false
read_open _ = true

abbrev write_open : Writing → Bool
write_open Writing.clearing = false
write_open _ = true

-- The handle holds descriptor n, and no thread of it has closed it.
abbrev pub is_live : ℕ → Handle → Bool
is_live n h = is_fd n h.client_fd && (read_open h.reader && write_open h.writer)

-- `doWork` has not started the threads that it has not come to.
abbrev pub Begun : Main → Handle → Type 0
Begun begin h = (h.reader ≡ Reading.unborn) × (h.writer ≡ Writing.unborn)
Begun read_spawned h = h.writer ≡ Writing.unborn
Begun _ h = Unit

-- A step closes nothing and leaves what is live as it is, or it closes the descriptor in the
-- context, and nothing is live then.
abbrev pub Releases : Handle → Handle → Type 0
Releases h h' =
    ((h'.closes ≡ h.closes) × ((n : ℕ) → is_live n h' ≡ is_live n h))
    ⊎ ((h'.closes ≡ h.closes ++ h.client_fd ∷ []) × ((n : ℕ) → is_live n h' ≡ false))

read_at-Releases :
    (pc : Reading) (i : Incoming) (h : Handle) → h.reader ≡ pc → Releases h (read_at pc i h)
unfolding read_at
read_at-Releases pc i h e = ground arith

after_send-Releases :
    (r : Run (List ℕ)) (msg : List ℕ) (h : Handle)
    → h.writer ≡ sending msg
    → Releases h (after_send h.handle_class r h)
after_send-Releases r msg h e = ground arith

write_at-Releases :
    (pc : Writing) (answers : List Answer) (h : Handle)
    → h.writer ≡ pc
    → Releases h (write_at pc answers h)
unfolding write_at
write_at-Releases (sending msg) answers h e = after_send-Releases (send_bytes 0 msg answers) msg h e
write_at-Releases pc answers h e = ground arith

main_at-Releases : (pc : Main) (h : Handle) → h.main ≡ pc → Begun pc h → Releases h (main_at pc h)
unfolding main_at
main_at-Releases pc h e begun = ground arith

pub step-Releases : (t : Turn) (h : Handle) → Begun h.main h → Releases h (step t h)
unfolding step
step-Releases mains h begun = main_at-Releases h.main h refl begun
step-Releases (reads i) h begun = read_at-Releases h.reader i h refl
step-Releases (writes answers) h begun = write_at-Releases h.writer answers h refl
step-Releases wakes h begun = ground arith

read_at-Begun :
    (pc : Reading) (i : Incoming) (h : Handle)
    → h.reader ≡ pc
    → Begun h.main h
    → Begun (read_at pc i h).main (read_at pc i h)
unfolding read_at
read_at-Begun pc i h e begun = ground arith

after_send-Begun :
    (r : Run (List ℕ)) (msg : List ℕ) (h : Handle)
    → h.writer ≡ sending msg
    → Begun h.main h
    → Begun (after_send h.handle_class r h).main (after_send h.handle_class r h)
after_send-Begun r msg h e begun = ground arith

write_at-Begun :
    (pc : Writing) (answers : List Answer) (h : Handle)
    → h.writer ≡ pc
    → Begun h.main h
    → Begun (write_at pc answers h).main (write_at pc answers h)
unfolding write_at
write_at-Begun (sending msg) answers h e begun =
    after_send-Begun (send_bytes 0 msg answers) msg h e begun
write_at-Begun pc answers h e begun = ground arith

main_at-Begun :
    (pc : Main) (h : Handle) → h.main ≡ pc → Begun pc h → Begun (main_at pc h).main (main_at pc h)
unfolding main_at
main_at-Begun pc h e begun = ground arith

pub step-Begun : (t : Turn) (h : Handle) → Begun h.main h → Begun (step t h).main (step t h)
unfolding step
step-Begun mains h begun = main_at-Begun h.main h refl begun
step-Begun (reads i) h begun = read_at-Begun h.reader i h refl begun
step-Begun (writes answers) h begun = write_at-Begun h.writer answers h refl begun
step-Begun wakes h begun = ground arith
