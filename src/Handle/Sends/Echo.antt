-- ===== src/Handle/Sends/Echo.antt =====
-- What the client of a handle gets back when its message goes out send by send.
pub mod Delivery
use net_utils.Base.{
  ℕ, zero, suc, ◌+◌, ◌-◌, ◌%◌, ◌^◌, ◌<◌, ◌≤◌, ◌≡◌, refl, sym, ap, subst, ◌∙◌, Bool, true, false,
  inl, inr, Bool-cases, if◌then◌else◌, List, [], ◌∷◌, ◌++◌, append_assoc, append-nil, ℤ,
  to_unsigned, ltb, ◌==◌, length, take, drop, take-append-drop, take-take-drop, take_all,
  length-drop, arith,
}
use net_utils.Io.Run.{returned}
use net_utils.Io.Send.{Answer, sent, failed, ret}
use net_utils.Io.Recv.{Incoming}
use net_utils.Io.Send.Delivery.{Delivers}
use net_utils.Handle.{
  HandleClass, ipv4_handle, ipv6_handle, Handle, Reading, Writing, sending, Main, read_at, write_at,
  main_at, Turn, mains, reads, writes, wakes, step, after_send,
}
use net_utils.Handle.Echo.{
  flatten, in_hand, pending, Whole, Part, Begun, Echoing, HonestAt, CleanAt,
}
use net_utils.Handle.Echo.Steps.{
  step-Echoing, new_handle-Echoing, Part-Echoing, MayBreak, after_send-Echoing,
}
use net_utils.Handle.Sends.{
  SendPc, testing_size, in_call, Sender, new_sender, leaves_loop, records_send, after_call,
  loop_step, writer_step, SendTurn, sends_on, mains_on, wakes_on, reads_on, sender_step, sender_run,
}
use net_utils.Handle.Sends.Owning.{NotSending, read_at-wire, main_at-wire, write_at-wire}
use net_utils.Handle.Sends.Rounds.{leaves-eq, took, after_call-eq}

-- A `send` does not fail and takes no more than it is offered; for the IPv6 class it takes something.
abbrev pub Took : HandleClass → Answer → ℕ → Type 0
Took ipv4_handle (sent n) left = n ≤ left
Took ipv6_handle (sent n) left = (0 < n) × (n ≤ left)
Took c (failed errno) left = ⊥

abbrev pub AnswerAt : HandleClass → Answer → SendPc → Writing → Type 0
AnswerAt c a (in_call fd total) (sending msg) =
    (length msg < 2 ^ 64) × Took c a (length msg - total)
AnswerAt c a _ _ = Unit

abbrev pub FineAt : HandleClass → SendTurn → Sender → Type 0
FineAt c (sends_on a) s = AnswerAt c a s.loop s.handle.writer
FineAt c (reads_on a) s = CleanAt c (reads a) s.handle.writer
FineAt c _ s = Unit

abbrev pub FineSends : HandleClass → List SendTurn → Sender → Type 0
FineSends c [] s = Unit
FineSends c (t ∷ turns) s = FineAt c t s × FineSends c turns (sender_step t s)

abbrev pub position : SendPc → ℕ
position (testing_size total) = total
position (in_call fd total) = total

abbrev pub Within : SendPc → List ℕ → Type 0
Within (testing_size total) msg = total ≤ length msg
Within (in_call fd total) msg = total < length msg

abbrev pub with_wire : Handle → List ℕ → Handle
with_wire h wire = record h { wire = wire }

-- The handle echoes if the message in hand counts as not sent yet; a part of it is on the wire.
pub record Inv (c : HandleClass) (s : Sender) : Type 0 where
  pub before : List ℕ
  pub echoing : Echoing c (with_wire s.handle before)
  pub within : Within s.loop (in_hand s.handle.writer)
  pub so_far : s.handle.wire ≡ before ++ take (position s.loop) (in_hand s.handle.writer)

-- At the beginning of the loop.
pub settled-Inv :
    (c : HandleClass) (s : Sender) → Echoing c s.handle → s.loop ≡ testing_size 0 → Inv c s
settled-Inv c s echo place = record {
  before = s.handle.wire;
  echoing = echo;
  within = subst (λ l. Within l (in_hand s.handle.writer)) (sym place) (omega arith);
  so_far =
      sym (append-nil s.handle.wire)
      ∙ ap (λ l. s.handle.wire ++ take (position l) (in_hand s.handle.writer)) (sym place);
}

pub read_at-with_wire :
    (pc : Reading) (a : Incoming) (h : Handle) (wire : List ℕ)
    → read_at pc a (with_wire h wire) ≡ with_wire (read_at pc a h) wire
unfolding read_at
read_at-with_wire pc a h wire = ground arith

pub main_at-with_wire :
    (pc : Main) (h : Handle) (wire : List ℕ)
    → main_at pc (with_wire h wire) ≡ with_wire (main_at pc h) wire
unfolding main_at
main_at-with_wire pc h wire = ground arith

pub read_at-in_hand :
    (pc : Reading) (a : Incoming) (h : Handle) → in_hand (read_at pc a h).writer ≡ in_hand h.writer
unfolding read_at
read_at-in_hand pc a h = ground arith

pub main_at-in_hand :
    (pc : Main) (h : Handle)
    → h.main ≡ pc
    → Begun pc h.reader h.writer
    → in_hand (main_at pc h).writer ≡ in_hand h.writer
unfolding main_at
main_at-in_hand pc h at begun = ground arith

pub wakes-in_hand : (h : Handle) → in_hand (step wakes h).writer ≡ in_hand h.writer
unfolding step
wakes-in_hand h = ground arith

-- A turn that leaves the wire and the message in hand alone.
pub others-Inv :
    (c : HandleClass) (t : Turn) (s : Sender)
    → ((wire : List ℕ) → step t (with_wire s.handle wire) ≡ with_wire (step t s.handle) wire)
    → (step t s.handle).wire ≡ s.handle.wire
    → in_hand (step t s.handle).writer ≡ in_hand s.handle.writer
    → HonestAt t s.handle.writer
    → CleanAt c t s.handle.writer
    → Inv c s
    → Inv c (record s { handle = step t s.handle })
others-Inv c t s commutes same kept honest clean inv = record {
  before = inv.before;
  echoing =
      subst (Echoing c) (commutes inv.before)
        (step-Echoing c t (with_wire s.handle inv.before) honest clean inv.echoing);
  within = subst (Within s.loop) (sym kept) inv.within;
  so_far = same ∙ inv.so_far ∙ ap (λ m. inv.before ++ take (position s.loop) m) (sym kept);
}

pub CleanAt-mains : (c : HandleClass) (pc : Writing) → CleanAt c mains pc
CleanAt-mains ipv4_handle pc = tt
CleanAt-mains ipv6_handle pc = tt

pub CleanAt-wakes : (c : HandleClass) (pc : Writing) → CleanAt c wakes pc
CleanAt-wakes ipv4_handle pc = tt
CleanAt-wakes ipv6_handle pc = tt

-- The loop is over, with r as what the whole message has come to.
leaves-Inv :
    (c : HandleClass) (ok : Bool) (msg sent_part : List ℕ) (s : Sender)
    → s.handle.writer ≡ sending msg
    → Delivers msg (returned ok sent_part)
    → MayBreak c (returned ok sent_part)
    → (before : List ℕ) → Echoing c (with_wire s.handle before)
    → s.handle.wire ≡ before ++ sent_part
    → Inv c (leaves_loop ok s)
leaves-Inv c ok msg sent_part s at delivers may before echo e =
    settled-Inv c (leaves_loop ok s)
      (subst (Echoing c) (sym (leaves-eq s.handle.handle_class ok s.handle before sent_part e)) (
        after_send-Echoing c (returned ok sent_part) msg (with_wire s.handle before) at delivers may
          echo))
      refl

MayBreak-true : (c : HandleClass) (wire : List ℕ) → MayBreak c (returned true wire)
MayBreak-true ipv4_handle wire = tt
MayBreak-true ipv6_handle wire = tt

-- What one `send` adds to the part that is on the wire.
took-more :
    (msg : List ℕ) (total n : ℕ) → take total msg ++ took msg total (sent n) ≡ take (total + n) msg
took-more msg total n =
    let offered : take (length msg - total) (drop total msg) ≡ drop total msg =
      take_all (length msg - total) (drop total msg) (omega (arith, length-drop {0} total msg)) in
    ap (λ m. take total msg ++ take n m) offered ∙ take-take-drop total n (total + n) msg refl

-- What the invariant says when the loop is over this message.
module _ (c : HandleClass) (msg : List ℕ) (pc : SendPc) (s : Sender)
    (at : s.handle.writer ≡ sending msg) (place : s.loop ≡ pc) (inv : Inv c s) where
  Inv-Within : Within pc msg
  Inv-Within = subst (λ l. Within l msg) place (subst (Within s.loop) (ap in_hand at) inv.within)

  Inv-so_far : s.handle.wire ≡ inv.before ++ take (position pc) msg
  Inv-so_far =
      inv.so_far
      ∙ ap (λ l. inv.before ++ take (position l) (in_hand s.handle.writer)) place
      ∙ ap (λ m. inv.before ++ take (position pc) m) (ap in_hand at)

Took-le : (c : HandleClass) (n left : ℕ) → Took c (sent n) left → n ≤ left
Took-le ipv4_handle n left took_it = took_it
Took-le ipv6_handle n left took_it = took_it.1

breaks :
    (c : HandleClass) (left : ℕ) (wire : List ℕ)
    → Took c (sent 0) left
    → MayBreak c (returned false wire)
breaks ipv4_handle left wire took_it = tt
breaks ipv6_handle left wire took_it = absurd (omega arith)

call-Inv :
    (c : HandleClass) (msg : List ℕ) (fd : ℤ) (total : ℕ) (a : Answer) (s : Sender)
    → s.handle.writer ≡ sending msg
    → s.loop ≡ in_call fd total
    → length msg < 2 ^ 64
    → Took c a (length msg - total)
    → Inv c s
    → Inv c (after_call msg total a (records_send fd (took msg total a) s))
call-Inv ipv4_handle msg fd total (failed errno) s at place small fine inv = absurd fine
call-Inv ipv6_handle msg fd total (failed errno) s at place small fine inv = absurd fine
call-Inv c msg fd total (sent zero) s at place small fine inv =
    let s1 = records_send fd (took msg total (sent 0)) s in
    let more = Inv-Within c msg (in_call fd total) s at place inv in
    subst (Inv c) (sym (after_call-eq msg total (sent 0) s1 true refl)) (
      leaves-Inv c false msg (take total msg) s1 at (total, more, refl)
        (breaks c (length msg - total) (take total msg) fine) inv.before inv.echoing
        (append-nil s.handle.wire ∙ Inv-so_far c msg (in_call fd total) s at place inv))
call-Inv c msg fd total (sent (suc n)) s at place small fine inv =
    let s1 = records_send fd (took msg total (sent (suc n))) s in
    let more : total < length msg = Inv-Within c msg (in_call fd total) s at place inv in
    let le = Took-le c (suc n) (length msg - total) fine in
    let count : (total + suc n % 2 ^ 64) % 2 ^ 64 ≡ total + suc n = omega arith in
    let some_sent : (suc n % 2 ^ 64 == 0) ≡ false = ground arith in
    subst (Inv c) (sym (after_call-eq msg total (sent (suc n)) s1 false some_sent)) record {
      before = inv.before;
      echoing = inv.echoing;
      within =
          subst (λ m. (total + suc n % 2 ^ 64) % 2 ^ 64 ≤ length m) (sym (ap in_hand at))
            (omega (arith, count));
      so_far =
          ap (λ w. w ++ took msg total (sent (suc n)))
            (Inv-so_far c msg (in_call fd total) s at place inv)
          ∙ append_assoc inv.before (take total msg) (took msg total (sent (suc n)))
          ∙ ap (λ w. inv.before ++ w) (took-more msg total (suc n))
          ∙ ap (λ k. inv.before ++ take k msg) (sym count)
          ∙ ap (λ m. inv.before ++ take ((total + suc n % 2 ^ 64) % 2 ^ 64) m)
              (sym (ap in_hand at));
    }

pub loop_step-Inv :
    (c : HandleClass) (msg : List ℕ) (pc : SendPc) (a : Answer) (s : Sender)
    → s.handle.writer ≡ sending msg
    → s.loop ≡ pc
    → AnswerAt c a pc (sending msg)
    → Inv c s
    → Inv c (loop_step msg pc a s)
unfolding loop_step
loop_step-Inv c msg (in_call fd total) a s at place (small, fine) inv =
    call-Inv c msg fd total a s at place small fine inv
loop_step-Inv c msg (testing_size total) a s at place fine inv =
    elim (Bool-cases (ltb total (length msg))) [
      | inl more ↦
          subst (λ b. Inv c (next b)) (sym more)
            record {
              before = inv.before;
              echoing = inv.echoing;
              within = subst (λ m. total < length m) (sym (ap in_hand at)) (ground arith);
              so_far =
                  inv.so_far
                  ∙ ap (λ l. inv.before ++ take (position l) (in_hand s.handle.writer)) place;
            }
      | inr less ↦
          let all : take total msg ≡ msg = take_all total msg (ground arith) in
          subst (λ b. Inv c (next b)) (sym less)
            (leaves-Inv c true msg msg s at refl (MayBreak-true c msg) inv.before inv.echoing (
              Inv-so_far c msg (testing_size total) s at place inv ∙ ap (λ m. inv.before ++ m) all))
    ]
  where
    next : Bool → Sender
    next b = if b then record s { loop = in_call s.handle.client_fd total } else leaves_loop true s
