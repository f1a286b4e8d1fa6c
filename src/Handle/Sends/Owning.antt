-- ===== src/Handle/Sends/Owning.antt =====
-- Which descriptors a handle's sending thread calls `send` with, and what goes out.
use net_utils.Base.{
  ℕ, ◌≡◌, ◌⊎◌, inl, inr, refl, sym, ap, subst, ◌∙◌, List, [], ◌∷◌, ◌++◌, append_assoc, append-nil,
  All, All-snoc, Bool, true, false, Bool-cases, if◌then◌else◌, ℤ, to_unsigned, ltb, ◌==◌, length,
  arith,
}
use net_utils.Context.{invalid_fd}
use net_utils.Io.Run.{returned}
use net_utils.Io.Send.{Answer, ret}
use net_utils.Io.Recv.{Incoming}
use net_utils.Handle.{
  HandleClass, ipv4_handle, ipv6_handle, Handle, Reading, Writing, sending, Main, after_send,
  read_at, write_at, main_at, Turn, mains, reads, writes, wakes, step,
}
use net_utils.Handle.Own.{OwnOrNone, step-OwnOrNone}
use net_utils.Handle.Sends.{
  SendPc, testing_size, in_call, Sender, new_sender, leaves_loop, records_send, after_call,
  loop_step, writer_step, SendTurn, sends_on, mains_on, wakes_on, reads_on, sender_step, sender_run,
}
use net_utils.Handle.Sends.Rounds.{took, after_call-eq}

-- What the system has taken from all calls of `send`, one after the other.
abbrev pub bytes_of : List (ℤ × List ℕ) → List ℕ
bytes_of [] = []
bytes_of ((fd, bytes) ∷ sends) = bytes ++ bytes_of sends

abbrev pub Owns : ℤ → ℤ → Type 0
Owns own fd = (fd ≡ own) ⊎ (fd ≡ invalid_fd)

abbrev LoopOwns : ℤ → SendPc → Type 0
LoopOwns own (testing_size total) = Unit
LoopOwns own (in_call fd total) = Owns own fd

bytes_of-snoc :
    (sends : List (ℤ × List ℕ)) (fd : ℤ) (bytes : List ℕ)
    → bytes_of (sends ++ (fd, bytes) ∷ []) ≡ bytes_of sends ++ bytes
bytes_of-snoc [] fd bytes = append-nil bytes
bytes_of-snoc ((k, more) ∷ sends) fd bytes =
    ap (λ b. more ++ b) (bytes_of-snoc sends fd bytes)
    ∙ sym (append_assoc more (bytes_of sends) bytes)

record Inv (own : ℤ) (s : Sender) : Type 0 where
  owns : OwnOrNone s.handle own
  calls : LoopOwns own s.loop
  called : All (λ c. Owns own c.0) s.sends
  wire : bytes_of s.sends ≡ s.handle.wire

after_send-keeps :
    (c : HandleClass) (ok : Bool) (h : Handle)
    → ((after_send c (returned ok []) h).wire ≡ h.wire)
      × ((after_send c (returned ok []) h).client_fd ≡ h.client_fd)
after_send-keeps ipv4_handle true h = (append-nil h.wire, refl)
after_send-keeps ipv4_handle false h = (append-nil h.wire, refl)
after_send-keeps ipv6_handle ok h = (append-nil h.wire, refl)

leaves_loop-Inv : (own : ℤ) (ok : Bool) (s : Sender) → Inv own s → Inv own (leaves_loop ok s)
leaves_loop-Inv own ok s inv =
    let (same, held) = after_send-keeps s.handle.handle_class ok s.handle in
    record {
      owns = subst (λ fd. Owns own fd) (sym held) inv.owns;
      calls = tt;
      called = inv.called;
      wire = inv.wire ∙ sym same;
    }

records_send-Inv :
    (own fd : ℤ) (bytes : List ℕ) (s : Sender)
    → Owns own fd
    → Inv own s
    → Inv own (records_send fd bytes s)
records_send-Inv own fd bytes s mine inv = record {
  owns = inv.owns;
  calls = inv.calls;
  called = All-snoc (λ c. Owns own c.0) s.sends (fd, bytes) inv.called mine;
  wire = bytes_of-snoc s.sends fd bytes ∙ ap (λ w. w ++ bytes) inv.wire;
}

loops_on-Inv :
    (own : ℤ) (total : ℕ) (s : Sender)
    → Inv own s
    → Inv own (record s { loop = testing_size total })
loops_on-Inv own total s inv = record {
  owns = inv.owns;
  calls = tt;
  called = inv.called;
  wire = inv.wire;
}

after_call-Inv :
    (own : ℤ) (msg : List ℕ) (total : ℕ) (a : Answer) (s : Sender)
    → Inv own s
    → Inv own (after_call msg total a s)
after_call-Inv own msg total a s inv = elim (Bool-cases (to_unsigned 64 (ret a) == 0)) [
  | inl z ↦
      subst (Inv own) (sym (after_call-eq msg total a s true z)) (leaves_loop-Inv own false s inv)
  | inr nz ↦ subst (Inv own) (sym (after_call-eq msg total a s false nz)) (loops_on-Inv own _ s inv)
]

loop_step-Inv :
    (own : ℤ) (msg : List ℕ) (pc : SendPc) (a : Answer) (s : Sender)
    → s.loop ≡ pc
    → Inv own s
    → Inv own (loop_step msg pc a s)
unfolding loop_step
loop_step-Inv own msg (testing_size total) a s at inv = elim (Bool-cases (ltb total (length msg))) [
  | inl more ↦
      subst
        (λ b.
          Inv own (
            if b then record s { loop = in_call s.handle.client_fd total } else leaves_loop true s))
        (sym more)
        (record { owns = inv.owns; calls = inv.owns; called = inv.called; wire = inv.wire })
  | inr less ↦
      subst
        (λ b.
          Inv own (
            if b then record s { loop = in_call s.handle.client_fd total } else leaves_loop true s))
        (sym less) (leaves_loop-Inv own true s inv)
]
loop_step-Inv own msg (in_call fd total) a s at inv =
    after_call-Inv own msg total a (records_send fd (took msg total a) s)
      (records_send-Inv own fd (took msg total a) s (subst (LoopOwns own) at inv.calls) inv)

-- Steps of a handle that are not the loop send nothing.
pub read_at-wire : (pc : Reading) (a : Incoming) (h : Handle) → (read_at pc a h).wire ≡ h.wire
unfolding read_at
read_at-wire pc a h = ground arith

pub main_at-wire : (pc : Main) (h : Handle) → (main_at pc h).wire ≡ h.wire
unfolding main_at
main_at-wire pc h = ground arith

abbrev pub NotSending : Writing → Type 0
NotSending (sending msg) = ⊥
NotSending _ = Unit

pub write_at-wire : (pc : Writing) (h : Handle) → NotSending pc → (write_at pc [] h).wire ≡ h.wire
unfolding write_at
write_at-wire (sending msg) h not = absurd not
write_at-wire pc h not = ground arith

moved-Inv :
    (own : ℤ) (t : Turn) (s : Sender)
    → (step t s.handle).wire ≡ s.handle.wire
    → Inv own s
    → Inv own (record s { handle = step t s.handle })
moved-Inv own t s same inv = record {
  owns = step-OwnOrNone t s.handle own inv.owns;
  calls = inv.calls;
  called = inv.called;
  wire = inv.wire ∙ sym same;
}

writer_step-Inv :
    (own : ℤ) (pc : Writing) (a : Answer) (s : Sender)
    → s.handle.writer ≡ pc
    → Inv own s
    → Inv own (writer_step pc a s)
unfolding writer_step step
writer_step-Inv own pc a s at inv = by_pc pc at
  where
    quiet :
        (q : Writing)
        → s.handle.writer ≡ q
        → NotSending q
        → Inv own (record s { handle = step (writes []) s.handle })
    quiet q here not =
        moved-Inv own (writes []) s
          (write_at-wire s.handle.writer s.handle (subst NotSending (sym here) not)) inv

    by_pc : (q : Writing) → s.handle.writer ≡ q → Inv own (writer_step q a s)
    by_pc (sending msg) here = loop_step-Inv own msg s.loop a s refl inv
    by_pc Writing.unborn here = quiet Writing.unborn here tt
    by_pc Writing.testing here = quiet Writing.testing here tt
    by_pc Writing.sleeping here = quiet Writing.sleeping here tt
    by_pc Writing.woken here = quiet Writing.woken here tt
    by_pc Writing.checking here = quiet Writing.checking here tt
    by_pc Writing.closing here = quiet Writing.closing here tt
    by_pc Writing.clearing here = quiet Writing.clearing here tt
    by_pc Writing.finished here = quiet Writing.finished here tt
    by_pc Writing.undefined here = quiet Writing.undefined here tt

sender_step-Inv : (own : ℤ) (t : SendTurn) (s : Sender) → Inv own s → Inv own (sender_step t s)
unfolding sender_step step
sender_step-Inv own (sends_on a) s inv = writer_step-Inv own s.handle.writer a s refl inv
sender_step-Inv own mains_on s inv = moved-Inv own mains s (main_at-wire s.handle.main s.handle) inv
sender_step-Inv own wakes_on s inv = moved-Inv own wakes s refl inv
sender_step-Inv own (reads_on a) s inv =
    moved-Inv own (reads a) s (read_at-wire s.handle.reader a s.handle) inv

sender_run-Inv :
    (own : ℤ) (turns : List SendTurn) (s : Sender) → Inv own s → Inv own (sender_run turns s)
unfolding sender_run
sender_run-Inv own [] s inv = inv
sender_run-Inv own (t ∷ turns) s inv =
    sender_run-Inv own turns (sender_step t s) (sender_step-Inv own t s inv)

-- Run a new handle of either class in any order, where each test of the sending loop and each `send`
-- is a step of its own. Every `send` is called with the client's number, which may not be the client's
-- any more when the other thread has closed it, or with -1; and the wire is what all these calls have
-- taken, in their order.
pub sender_run-Owns :
    (c : HandleClass) (fd : ℤ) (turns : List SendTurn)
    → All (λ call. Owns fd call.0) (sender_run turns (new_sender c fd)).sends
      × (bytes_of (sender_run turns (new_sender c fd)).sends
          ≡ (sender_run turns (new_sender c fd)).handle.wire)
sender_run-Owns c fd turns =
    let inv : Inv fd (sender_run turns (new_sender c fd)) =
      sender_run-Inv fd turns (new_sender c fd)
        record { owns = inl refl; calls = tt; called = tt; wire = refl } in
    (inv.called, inv.wire)
