-- ===== src/Worker/Own.antt =====
-- The descriptor that a worker's threads use: what a step does with it, and what the receiving
-- thread stands in `recv` with.
use net_utils.Base.{
  ℕ, ◌≡◌, ◌⊎◌, inl, inr, refl, sym, ap, subst, true, false, List, [], ◌∷◌, ◌++◌, ℤ, arith,
}
use net_utils.Context.{SocketContext, invalid_fd}
use net_utils.Io.Run.{Run, returned, waiting}
use net_utils.Io.Send.{Answer, send_bytes, send_loop}
use net_utils.Io.Recv.{Incoming}
use net_utils.Worker.Closing.{Locked}
use net_utils.Worker.{
  Pc, unborn, in_recv, calling_send, in_send, closing, enabling, interrupting, notifying, finished,
  MainPc, begin, recv_spawned, recv_assigned, Lock, free, by_reader, by_writer, Worker,
  read_closing, write_closing, held_by, held_fd, new_worker, after_send, read_at, write_at, main_at,
  Turn, mains, reads, writes, wakes_reader, wakes_writer, responds, step, run,
}

-- A step leaves the descriptor that the context holds alone, or it closes it.
abbrev pub Hands : Worker → Worker → Type 0
Hands w w' =
    ((held_fd w' ≡ held_fd w) × (w'.closes ≡ w.closes))
    ⊎ ((held_fd w' ≡ invalid_fd) × (w'.closes ≡ w.closes ++ held_fd w ∷ []))

read_closing-Hands : (l : Lock) (w : Worker) → w.mutex ≡ l → Hands w (read_closing l w)
read_closing-Hands free w at = inr (refl, ap (λ l. w.closes ++ held_by l w.client_fd ∷ []) (sym at))
read_closing-Hands by_reader w at = inl (ap (λ l. held_by l w.client_fd) (sym at), refl)
read_closing-Hands by_writer w at = inl (refl, refl)

write_closing-Hands : (l : Lock) (w : Worker) → w.mutex ≡ l → Hands w (write_closing l w)
write_closing-Hands free w at =
    inr (refl, ap (λ l. w.closes ++ held_by l w.client_fd ∷ []) (sym at))
write_closing-Hands by_reader w at = inl (refl, refl)
write_closing-Hands by_writer w at = inl (ap (λ l. held_by l w.client_fd) (sym at), refl)

read_at-Hands : (pc : Pc) (i : Incoming) (w : Worker) → Hands w (read_at pc i w)
unfolding read_at
read_at-Hands closing i w = read_closing-Hands w.mutex w refl
read_at-Hands pc i w = ground arith

after_send-Hands : (r : Run (List ℕ)) (w : Worker) → Hands w (after_send r w)
after_send-Hands (returned true wire) w = inl (refl, refl)
after_send-Hands (returned false wire) w = inl (refl, refl)
after_send-Hands (waiting wire) w = inl (refl, refl)

write_at-Hands : (pc : Pc) (answers : List Answer) (w : Worker) → Hands w (write_at pc answers w)
unfolding write_at
write_at-Hands closing answers w = write_closing-Hands w.mutex w refl
write_at-Hands (in_send fd response) answers w = after_send-Hands _ w
write_at-Hands pc answers w = ground arith

main_at-Hands : (pc : MainPc) (w : Worker) → Hands w (main_at pc w)
unfolding main_at
main_at-Hands pc w = ground arith

pub step-Hands : (t : Turn) (w : Worker) → Hands w (step t w)
unfolding step
step-Hands mains w = main_at-Hands w.main w
step-Hands (reads i) w = read_at-Hands w.reader i w
step-Hands (writes answers) w = write_at-Hands w.writer answers w
step-Hands t w = inl (refl, refl)

-- No other thread sets the response. (Nothing in the repository does.)
abbrev pub Quiet : Turn → Type 0
Quiet (responds response) = ⊥
Quiet _ = Unit

-- The receiving thread has closed the descriptor and interrupted the other thread.
abbrev Gone : Pc → Type 0
Gone notifying = Unit
Gone finished = Unit
Gone _ = ⊥

-- The sending thread is on its way out after an interruption; it has nothing to send otherwise.
abbrev Out : Pc → Type 0
Out closing = Unit
Out enabling = Unit
Out interrupting = Unit
Out notifying = Unit
Out _ = ⊥

abbrev SendsNothing : Pc → Type 0
SendsNothing (calling_send response) = response ≡ []
SendsNothing (in_send fd response) = response ≡ []
SendsNothing _ = Unit

-- The receiving thread has not closed the descriptor yet.
abbrev Before : Pc → Type 0
Before enabling = ⊥
Before interrupting = ⊥
Before notifying = ⊥
Before finished = ⊥
Before _ = Unit

abbrev Uses : Pc → ℤ → Type 0
Uses (in_recv fd) own = fd ≡ own
Uses _ own = Unit

-- Before `doWork` has started a thread.
abbrev Early : MainPc → Worker → Type 0
Early begin w = (w.reader ≡ unborn) × (w.writer ≡ unborn) × (w.send_interrupted ≡ false)
Early recv_spawned w = w.writer ≡ unborn
Early recv_assigned w = w.writer ≡ unborn
Early _ w = Unit

pub record Inv (own : ℤ) (w : Worker) : Type 0 where
  silent : w.response ≡ []
  nothing : SendsNothing w.writer
  early : Early w.main w
  told : w.send_interrupted ≡ true → Gone w.reader
  out : Out w.writer → Gone w.reader
  held : Before w.reader → w.client_fd ≡ own
  uses : Uses w.reader own
  locked : Locked w.mutex w.reader w.writer

-- With nothing to send, `send_bytes` succeeds at once.
sends_nothing :
    (answers : List Answer) (w : Worker) (fd : ℤ) (response : List ℕ)
    → w.writer ≡ in_send fd response
    → SendsNothing w.writer
    → send_bytes 0 response answers ≡ returned true []
unfolding send_bytes send_loop
sends_nothing [] w fd response e nothing =
    let empty : response ≡ [] = subst SendsNothing e nothing in rw empty refl
sends_nothing (a ∷ answers) w fd response e nothing =
    let empty : response ≡ [] = subst SendsNothing e nothing in rw empty refl

module _ {own : ℤ} where
  read_closing-Inv :
      (l : Lock) (w : Worker)
      → w.reader ≡ closing
      → w.mutex ≡ l
      → Inv own w
      → Inv own (read_closing l w)
  read_closing-Inv l w e at inv = ground arith

  write_closing-Inv :
      (l : Lock) (w : Worker)
      → w.writer ≡ closing
      → w.mutex ≡ l
      → Inv own w
      → Inv own (write_closing l w)
  write_closing-Inv l w e at inv = ground arith

  read_at-Inv :
      (pc : Pc) (i : Incoming) (w : Worker) → w.reader ≡ pc → Inv own w → Inv own (read_at pc i w)
  unfolding read_at
  read_at-Inv closing i w e inv = read_closing-Inv w.mutex w e refl inv
  read_at-Inv pc i w e inv = ground arith

  main_at-Inv : (pc : MainPc) (w : Worker) → w.main ≡ pc → Inv own w → Inv own (main_at pc w)
  unfolding main_at
  main_at-Inv pc w e inv = ground arith

  after_send-Inv :
      (answers : List Answer) (w : Worker) (fd : ℤ) (response : List ℕ)
      → w.writer ≡ in_send fd response
      → Inv own w
      → Inv own (after_send (send_bytes 0 response answers) w)
  after_send-Inv answers w fd response e inv =
      subst (λ r. Inv own (after_send r w))
        (sym (sends_nothing answers w fd response e inv.nothing)) (ground arith)

  write_at-Inv :
      (pc : Pc) (answers : List Answer) (w : Worker)
      → w.writer ≡ pc
      → Inv own w
      → Inv own (write_at pc answers w)
  unfolding write_at
  write_at-Inv (in_send fd response) answers w e inv = after_send-Inv answers w fd response e inv
  write_at-Inv closing answers w e inv = write_closing-Inv w.mutex w e refl inv
  write_at-Inv pc answers w e inv = ground arith

  pub step-Inv : (t : Turn) (w : Worker) → Quiet t → Inv own w → Inv own (step t w)
  unfolding step
  step-Inv mains w q inv = main_at-Inv w.main w refl inv
  step-Inv (reads i) w q inv = read_at-Inv w.reader i w refl inv
  step-Inv (writes answers) w q inv = write_at-Inv w.writer answers w refl inv
  step-Inv (responds response) w q inv = absurd q
  step-Inv wakes_reader w q inv = ground arith
  step-Inv wakes_writer w q inv = ground arith
  step-Inv t w q inv = ground arith

pub new_worker-Inv :
    (context : SocketContext) → context.response ≡ [] → Inv context.client_fd (new_worker context)
new_worker-Inv context silent = record {
  silent = silent;
  nothing = tt;
  early = (refl, refl, refl);
  told = λ e. cc;
  out = λ o. o;
  held = λ b. refl;
  uses = tt;
  locked = tt;
}

-- A receiving thread in `recv`.
pub Inv-in_recv :
    (own fd : ℤ) (w : Worker) → Inv own w → w.reader ≡ in_recv fd → (fd ≡ own) × (held_fd w ≡ own)
Inv-in_recv own fd w inv e = ground arith

-- One more turn at the end.
pub run-snoc :
    (before : List Turn) (t : Turn) (w : Worker) → run (before ++ t ∷ []) w ≡ step t (run before w)
unfolding run
run-snoc [] t w = refl
run-snoc (u ∷ before) t w = run-snoc before t (step u w)
