-- ===== src/Handle/Echo/Steps.antt =====
-- The steps of a client handle keep track of the bytes.
use net_utils.Base.{
  ℕ, ◌<◌, ◌^◌, length, ◌≡◌, ◌≢◌, All, refl, ap, ◌∙◌, true, false, List, [], ◌∷◌, ◌++◌, append_assoc,
  append-nil, take, drop, take-append-drop, ℤ, arith,
}
use net_utils.Io.Run.{Run, returned, waiting}
use net_utils.Io.Send.{Answer, send_bytes}
use net_utils.Io.Recv.{Incoming, got, failed}
use net_utils.Io.Send.Delivery.{
  Counts, Delivers, Unbroken, send_bytes-Delivers, send_bytes-Unbroken,
}
use net_utils.Handle.{
  HandleClass, ipv6_handle, until_zero, message, ipv4_handle, Reading, receiving, pushing, Writing,
  testing, woken, sending, Main, begin, read_spawned, Handle, new_handle, chunk_of, awake,
  take_front, test_queue, after_send, after_recv, read_at, write_at, main_at, Turn, mains, reads,
  writes, wakes, step, run,
}
use net_utils.Handle.Echo.{
  CleanAt, Clean, flatten, flatten-push, in_hand, pending, Whole, Part, Spawned, Echoing, HonestAt,
  Honest, grow, extended, Part-Whole,
}

until_zero-eq : (chunk : List ℕ) → All (λ b. b ≢ 0) chunk → until_zero chunk ≡ chunk
unfolding until_zero
until_zero-eq [] clean = refl
until_zero-eq (b ∷ chunk) clean = ground (arith, until_zero-eq chunk clean.1)

message-eq :
    (c : HandleClass) (i : Incoming) (pc : Writing)
    → CleanAt c (reads i) pc
    → message c (chunk_of i) ≡ chunk_of i
unfolding until_zero
message-eq ipv4_handle i pc clean = refl
message-eq ipv6_handle (got chunk) pc clean = until_zero-eq chunk clean.0
message-eq ipv6_handle (failed e) pc clean = refl

after_recv-Echoing :
    (c : HandleClass) (pc : Writing) (i : Incoming) (h : Handle)
    → h.writer ≡ pc
    → h.reader ≡ receiving
    → message c (chunk_of i) ≡ chunk_of i
    → Echoing c h
    → Echoing c (after_recv i h)
after_recv-Echoing c pc i h e er clean s =
    let msg : message h.handle_class (chunk_of i) ≡ chunk_of i =
      ap (λ d. message d (chunk_of i)) s.of_class ∙ clean in
    ground (
      arith,
      grow h.wire (in_hand h.writer) (flatten h.queue) h.received (chunk_of i),
      extended h (chunk_of i),
    )

read_at-Echoing :
    (c : HandleClass) (pc : Reading) (i : Incoming) (h : Handle)
    → h.reader ≡ pc
    → message c (chunk_of i) ≡ chunk_of i
    → Echoing c h
    → Echoing c (read_at pc i h)
unfolding read_at
read_at-Echoing c receiving i h e clean s = after_recv-Echoing c h.writer i h refl e clean s
read_at-Echoing c (pushing msg) i h e clean s =
    ground (arith, flatten-push h.queue msg, append-nil (flatten h.queue ++ msg))
read_at-Echoing c pc i h e clean s = ground arith

delivered :
    (wire msg rest received : List ℕ)
    → wire ++ (msg ++ rest) ≡ received
    → (wire ++ msg) ++ rest ≡ received
delivered wire msg rest received e = append_assoc wire msg rest ∙ e

broken :
    (k : ℕ) (wire msg rest received sent : List ℕ)
    → wire ++ (msg ++ rest) ≡ received
    → sent ≡ take k msg
    → (left : List ℕ) × ((wire ++ sent) ++ left ≡ received)
broken k wire msg rest received sent e cut = (
  drop k msg ++ rest,
  ground (
    arith,
    take-append-drop k msg,
    append_assoc (take k msg) (drop k msg) rest,
    append_assoc wire sent (drop k msg ++ rest),
  ),
)

abbrev pub MayBreak : HandleClass → Run (List ℕ) → Type 0
MayBreak ipv4_handle r = Unit
MayBreak ipv6_handle r = Unbroken r

MayBreak-CleanAt :
    (c : HandleClass) (msg : List ℕ) (answers : List Answer)
    → length msg < 2 ^ 64
    → Counts (length msg) answers
    → CleanAt c (writes answers) (sending msg)
    → MayBreak c (send_bytes 0 msg answers)
MayBreak-CleanAt ipv4_handle msg answers small counts clean = tt
MayBreak-CleanAt ipv6_handle msg answers small counts clean =
    send_bytes-Unbroken 0 msg answers small counts clean

pub after_send-Echoing :
    (c : HandleClass) (r : Run (List ℕ)) (msg : List ℕ) (h : Handle)
    → h.writer ≡ sending msg
    → Delivers msg r
    → MayBreak c r
    → Echoing c h
    → Echoing c (after_send h.handle_class r h)
after_send-Echoing c (returned true wire) msg h e d s =
    ground (arith, append_assoc h.wire msg (flatten h.queue ++ pending h.reader))
after_send-Echoing c (returned false wire) msg h e (k, lt, cut) s =
    ground (arith, broken k h.wire msg (flatten h.queue ++ pending h.reader) h.received wire)
after_send-Echoing c (waiting wire) msg h e d s = ground arith

take_front-Echoing :
    (c : HandleClass) (queue : List (List ℕ)) (h : Handle)
    → h.queue ≡ queue
    → Whole h
    → in_hand h.writer ≡ []
    → Spawned h.main
    → Echoing c h
    → Echoing c (take_front queue h)
unfolding flatten
take_front-Echoing c [] h e whole free begun s = ground (arith, Part-Whole h)
take_front-Echoing c (msg ∷ queue) h e whole free begun s =
    ground (arith, append_assoc msg (flatten queue) (pending h.reader))

awake-Echoing :
    (c : HandleClass) (h : Handle)
    → Whole h
    → in_hand h.writer ≡ []
    → Spawned h.main
    → Echoing c h
    → Echoing c (awake h)
awake-Echoing c h whole free begun s =
    ground (arith, Part-Whole h, take_front-Echoing c h.queue h refl whole free begun s)

test_queue-Echoing :
    (c : HandleClass) (queue : List (List ℕ)) (h : Handle)
    → h.writer ≡ testing
    → Echoing c h
    → Echoing c (test_queue queue h)
test_queue-Echoing c [] h e s = ground arith
test_queue-Echoing c (msg ∷ queue) h e s =
    awake-Echoing c h (ground arith) (ground arith) (ground arith) s

write_at-Echoing :
    (c : HandleClass) (pc : Writing) (answers : List Answer) (h : Handle)
    → h.writer ≡ pc
    → HonestAt (writes answers) pc
    → CleanAt c (writes answers) pc
    → Echoing c h
    → Echoing c (write_at pc answers h)
unfolding write_at
write_at-Echoing c testing answers h e ok clean s = test_queue-Echoing c h.queue h e s
write_at-Echoing c woken answers h e ok clean s =
    awake-Echoing c h (ground arith) (ground arith) (ground arith) s
write_at-Echoing c (sending msg) answers h e ok clean s =
    after_send-Echoing c (send_bytes 0 msg answers) msg h e
      (send_bytes-Delivers 0 msg answers ok.0 ok.1) (MayBreak-CleanAt c msg answers ok.0 ok.1 clean)
      s
write_at-Echoing c pc answers h e ok clean s = ground (arith, Part-Whole h)

main_at-Echoing :
    (c : HandleClass) (pc : Main) (h : Handle)
    → h.main ≡ pc
    → Echoing c h
    → Echoing c (main_at pc h)
unfolding main_at
main_at-Echoing c begin h e s = ground arith
main_at-Echoing c read_spawned h e s = ground arith
main_at-Echoing c pc h e s = ground arith

pub step-Echoing :
    (c : HandleClass) (t : Turn) (h : Handle)
    → HonestAt t h.writer
    → CleanAt c t h.writer
    → Echoing c h
    → Echoing c (step t h)
unfolding step
step-Echoing c mains h ok clean s = main_at-Echoing c h.main h refl s
step-Echoing c (reads i) h ok clean s =
    read_at-Echoing c h.reader i h refl (message-eq c i h.writer clean) s
step-Echoing c (writes answers) h ok clean s = write_at-Echoing c h.writer answers h refl ok clean s
step-Echoing c wakes h ok clean s = ground arith

pub run-Echoing :
    (c : HandleClass) (turns : List Turn) (h : Handle)
    → Honest turns h
    → Clean c turns h
    → Echoing c h
    → Echoing c (run turns h)
unfolding run
run-Echoing c [] h ok clean s = s
run-Echoing c (t ∷ turns) h ok clean s =
    run-Echoing c turns (step t h) ok.1 clean.1 (step-Echoing c t h ok.0 clean.0 s)

pub new_handle-Echoing : (c : HandleClass) (fd : ℤ) → Echoing c (new_handle c fd)
unfolding flatten
new_handle-Echoing c fd = record { of_class = refl; echo = refl; begun = (refl, refl) }

pub Part-Echoing : (c : HandleClass) (h : Handle) → Echoing c h → Part h
Part-Echoing c h s = ground (arith, Part-Whole h)
