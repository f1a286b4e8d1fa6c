-- ===== src/Worker/Responses.antt =====
-- What the sending thread puts on the wire.
use net_utils.Base.{
  ℕ, zero, suc, ◌<◌, ◌^◌, ◌≡◌, refl, sym, ap, subst, ◌∙◌, true, false, List, [], ◌∷◌, ◌++◌,
  append-nil, take, length, ℤ, arith,
}
use net_utils.Context.{SocketContext}
use net_utils.Io.Run.{Run, returned, waiting}
use net_utils.Io.Send.{Answer, send_bytes}
use net_utils.Io.Recv.{Incoming}
use net_utils.Io.Send.Delivery.{Counts, Delivers, send_bytes-Delivers}
use net_utils.Worker.{
  Pc, unborn, starting, in_send, calling_send, closing, enabling, interrupting, notifying, finished,
  MainPc, begin, recv_spawned, recv_assigned, Worker, new_worker, after_send, read_at, write_at,
  main_at, Turn, mains, reads, writes, responds, step, run,
}

pub repeated : ℕ → List ℕ → List ℕ
repeated zero response = []
repeated (suc k) response = repeated k response ++ response

-- `send` does not fail and takes no more of the response than it was offered, and nobody changes the
-- response.
abbrev pub HonestAt : Turn → Pc → Type 0
HonestAt (writes answers) (in_send fd response) = Counts (length response) answers
HonestAt (responds response) pc = ⊥
HonestAt _ _ = Unit

abbrev pub Honest : List Turn → Worker → Type 0
Honest [] w = Unit
Honest (t ∷ turns) w = HonestAt t w.writer × Honest turns (step t w)

abbrev Whole : List ℕ → Worker → Type 0
Whole response w = (k : ℕ) × (w.wire ≡ repeated k response)

abbrev Part : List ℕ → Worker → Type 0
Part response w = (k : ℕ) × (j : ℕ) × (w.wire ≡ repeated k response ++ take j response)

abbrev SentAt : Pc → List ℕ → Worker → Type 0
SentAt closing response w = Part response w
SentAt enabling response w = Part response w
SentAt interrupting response w = Part response w
SentAt notifying response w = Part response w
SentAt finished response w = Part response w
SentAt (calling_send r) response w = (r ≡ response) × Whole response w
SentAt (in_send fd r) response w = (r ≡ response) × Whole response w
SentAt _ response w = Whole response w

-- The sending thread is born when `doWork` has assigned the reading one.
abbrev Born : MainPc → Pc → Type 0
Born begin writer = writer ≡ unborn
Born recv_spawned writer = writer ≡ unborn
Born recv_assigned writer = writer ≡ unborn
Born _ writer = Unit

record Responding (response : List ℕ) (w : Worker) : Type 0 where
  same : w.response ≡ response
  sent : SentAt w.writer response w
  born : Born w.main w.writer

Part-Whole : (response : List ℕ) (w : Worker) → Whole response w → Part response w
Part-Whole response w (k, e) = (k, 0, e ∙ sym (append-nil (repeated k response)))

module _ {response : List ℕ} (small : length response < 2 ^ 64) where
  read_at-Responding :
      (pc : Pc) (i : Incoming) (w : Worker)
      → w.reader ≡ pc
      → Responding response w
      → Responding response (read_at pc i w)
  unfolding read_at
  read_at-Responding starting i w e s = ground arith
  read_at-Responding pc i w e s = ground arith

  one_more :
      (k : ℕ) (w : Worker) (wire : List ℕ)
      → w.wire ≡ repeated k response
      → wire ≡ response
      → w.wire ++ wire ≡ repeated (suc k) response
  unfolding repeated
  one_more k w wire e d = rw (e, d) refl

  after_send-Responding :
      (r : Run (List ℕ)) (fd : ℤ) (w : Worker)
      → w.writer ≡ in_send fd response
      → Delivers response r
      → Whole response w
      → Responding response w
      → Responding response (after_send r w)
  after_send-Responding (returned true wire) fd w e d (k, sent) s = record {
    same = s.same;
    sent = (suc k, one_more k w wire sent d);
    born = ground arith;
  }
  after_send-Responding (returned false wire) fd w e (j, lt, cut) (k, sent) s = record {
    same = s.same;
    sent = (k, j, rw (sent, cut) refl);
    born = ground arith;
  }
  after_send-Responding (waiting wire) fd w e d whole s = s

  write_at-Responding :
      (pc : Pc) (answers : List Answer) (w : Worker)
      → w.writer ≡ pc
      → HonestAt (writes answers) pc
      → Responding response w
      → Responding response (write_at pc answers w)
  unfolding write_at
  write_at-Responding starting answers w e ok s = ground (arith, Part-Whole response w)
  write_at-Responding (in_send fd r) answers w e ok s =
      let (same, whole) = subst (λ pc. SentAt pc response w) e s.sent in
      after_send-Responding (send_bytes 0 r answers) fd w (e ∙ ap (in_send fd) same)
        (subst (λ x. Delivers x (send_bytes 0 r answers)) same
          (send_bytes-Delivers 0 r answers (rw same small) ok))
        whole s
  write_at-Responding pc answers w e ok s = ground (arith, Part-Whole response w)

  main_at-Responding :
      (pc : MainPc) (w : Worker)
      → w.main ≡ pc
      → Responding response w
      → Responding response (main_at pc w)
  unfolding main_at
  main_at-Responding begin w e s = ground arith
  main_at-Responding pc w e s = ground arith

  step-Responding :
      (t : Turn) (w : Worker)
      → HonestAt t w.writer
      → Responding response w
      → Responding response (step t w)
  unfolding step
  step-Responding mains w ok s = main_at-Responding w.main w refl s
  step-Responding (reads i) w ok s = read_at-Responding w.reader i w refl s
  step-Responding (writes answers) w ok s = write_at-Responding w.writer answers w refl ok s
  step-Responding t w ok s = ground arith

  run-Responding :
      (turns : List Turn) (w : Worker)
      → Honest turns w
      → Responding response w
      → Responding response (run turns w)
  unfolding run
  run-Responding [] w ok s = s
  run-Responding (t ∷ turns) w ok s =
      run-Responding turns (step t w) ok.1 (step-Responding t w ok.0 s)

new_worker-Responding : (context : SocketContext) → Responding context.response (new_worker context)
unfolding repeated
new_worker-Responding context = record { same = refl; sent = (0, refl); born = refl }

-- Whatever order the threads run in, what is on the wire are whole copies of the response, and a part
-- of one more at most (nobody changes the response meanwhile, it is shorter than 2^64 bytes, and no
-- `send` fails or takes more than it was offered).
pub run-responses :
    (context : SocketContext) (turns : List Turn)
    → length context.response < 2 ^ 64
    → Honest turns (new_worker context)
    → (k : ℕ) × (j : ℕ) × ((run turns (new_worker context)).wire
        ≡ repeated k context.response ++ take j context.response)
run-responses context turns small ok =
    part (run turns (new_worker context))
      (run-Responding small turns (new_worker context) ok (new_worker-Responding context))
  where
    part : (w : Worker) → Responding context.response w → Part context.response w
    part w s = ground (arith, Part-Whole context.response w)
