-- ===== src/Handle/Sends/Rounds.antt =====
-- The loop over one message send by send, and as one step.
use net_utils.Base.{
  ℕ, ◌+◌, ◌-◌, ◌%◌, ◌^◌, ◌≡◌, inl, inr, refl, sym, ap, subst, ◌∙◌, Bool, true, false, Bool-cases,
  List, [], ◌∷◌, ◌++◌, append_assoc, append-nil, All, ℤ, to_unsigned, ltb, ◌==◌, if◌then◌else◌,
  length, take, drop, arith,
}
use net_utils.Io.Run.{Run, returned, waiting, try_again}
use net_utils.Io.Send.{Answer, sent, ret, errno_after, taken, send_bytes, send_loop}
use net_utils.Handle.{
  HandleClass, ipv4_handle, ipv6_handle, Handle, Writing, sending, checking, testing, after_send,
  write_at, writes, step,
}
use net_utils.Handle.Sends.{
  testing_size, in_call, Sender, leaves_loop, records_send, after_call, loop_step, writer_step,
  SendTurn, sends_on, sender_step, sender_run,
}

-- A turn of the sending thread.
abbrev pub OfSender : SendTurn → Type 0
OfSender (sends_on a) = Unit
OfSender _ = ⊥

abbrev with_wire : Writing → Handle → List ℕ → Handle
with_wire pc h wire = record h { writer = pc; wire = wire }

pub leaves-eq :
    (c : HandleClass) (ok : Bool) (h : Handle) (before wire : List ℕ)
    → h.wire ≡ before ++ wire
    → after_send c (returned ok []) h ≡ after_send c (returned ok wire) (record h { wire = before })
leaves-eq ipv4_handle true h before wire e = ap (with_wire checking h) (append-nil h.wire ∙ e)
leaves-eq ipv4_handle false h before wire e =
    ap (with_wire Writing.closing h) (append-nil h.wire ∙ e)
leaves-eq ipv6_handle ok h before wire e = ap (with_wire testing h) (append-nil h.wire ∙ e)

pub ltb-zero : (n : ℕ) → ltb n 0 ≡ false
ltb-zero n = ground arith

pub test_step :
    (msg : List ℕ) (total : ℕ) (a : Answer) (s : Sender) (b : Bool)
    → s.handle.writer ≡ sending msg
    → s.loop ≡ testing_size total
    → ltb total (length msg) ≡ b
    → sender_step (sends_on a) s
      ≡ (if b then record s { loop = in_call s.handle.client_fd total } else leaves_loop true s)
unfolding sender_step writer_step loop_step
test_step msg total a s b at place less =
    ap (λ pc. writer_step pc a s) at
    ∙ ap (λ l. loop_step msg l a s) place
    ∙ ap
        (λ t.
          if t then record s { loop = in_call s.handle.client_fd total } else leaves_loop true s)
        less

-- The bytes that `send` was offered and took.
abbrev pub took : List ℕ → ℕ → Answer → List ℕ
took msg total a = taken a (take (length msg - total) (drop total msg))

pub call_step :
    (msg : List ℕ) (fd : ℤ) (total : ℕ) (a : Answer) (s : Sender)
    → s.handle.writer ≡ sending msg
    → sender_step (sends_on a) (record s { loop = in_call fd total })
      ≡ after_call msg total a
          (records_send fd (took msg total a) (record s { loop = in_call fd total }))
unfolding sender_step writer_step loop_step
call_step msg fd total a s at =
    ap (λ pc. writer_step pc a (record s { loop = in_call fd total })) at

pub after_call-eq :
    (msg : List ℕ) (total : ℕ) (a : Answer) (s : Sender) (z : Bool)
    → (to_unsigned 64 (ret a) == 0) ≡ z
    → after_call msg total a s ≡ (
        if z
        then leaves_loop false s
        else record s { loop = testing_size ((total + to_unsigned 64 (ret a)) % 2 ^ 64) })
after_call-eq msg total a s z e =
    let sb = to_unsigned 64 (ret a) in
    let on = record s { loop = testing_size ((total + sb) % 2 ^ 64) } in
    let again = record s { loop = testing_size total } in
    ap
      (λ t.
        if t
        then (if try_again (errno_after a 0) then again else leaves_loop false s)
        else if sb == 0
        then leaves_loop false s
        else on)
      (ltb-zero sb)
    ∙ ap (λ t. if t then leaves_loop false s else on) e

send_loop-round :
    (msg : List ℕ) (total errno : ℕ) (wire : List ℕ) (a : Answer) (answers : List Answer) (z : Bool)
    → ltb total (length msg) ≡ true
    → (to_unsigned 64 (ret a) == 0) ≡ z
    → send_loop msg total errno wire (a ∷ answers) ≡ (
        if z
        then returned false (wire ++ took msg total a)
        else send_loop msg
            ((total + to_unsigned 64 (ret a)) % 2 ^ 64)
            (errno_after a errno)
            (wire ++ took msg total a)
            answers)
unfolding send_loop
send_loop-round msg total errno wire a answers z more e =
    rw (more, ltb-zero (to_unsigned 64 (ret a)), e) refl

send_loop-over :
    (msg : List ℕ) (total errno : ℕ) (wire : List ℕ) (a : Answer) (answers : List Answer)
    → ltb total (length msg) ≡ false
    → send_loop msg total errno wire (a ∷ answers) ≡ returned true wire
unfolding send_loop
send_loop-over msg total errno wire a answers less = rw less refl

module _ (msg before : List ℕ) where
  -- Turns of the sending thread alone bring the handle to where one step for the message brings it.
  abbrev Done : Sender → Run (List ℕ) → Type 0
  Done s r =
      (turns : List SendTurn) × All OfSender turns
      × ((sender_run turns s).handle
          ≡ after_send s.handle.handle_class r (record s.handle { wire = before }))

  leaves-Done :
      (ok : Bool) (s : Sender) (wire : List ℕ)
      → s.handle.wire ≡ before ++ wire
      → (leaves_loop ok s).handle
        ≡ after_send s.handle.handle_class (returned ok wire) (record s.handle { wire = before })
  leaves-Done ok s wire e = leaves-eq s.handle.handle_class ok s.handle before wire e

  end-Done :
      (total : ℕ) (s : Sender) (wire : List ℕ)
      → s.handle.writer ≡ sending msg
      → s.loop ≡ testing_size total
      → ltb total (length msg) ≡ false
      → s.handle.wire ≡ before ++ wire
      → Done s (returned true wire)
  unfolding sender_run
  end-Done total s wire at place less e = (
    sends_on (sent 0) ∷ [],
    (tt, tt),
    ap (λ t. t.handle) (test_step msg total (sent 0) s false at place less)
        ∙ leaves-Done true s wire e,
  )

  -- The two turns of one round, and what follows it.
  round-Done :
      (total : ℕ) (a : Answer) (s : Sender) (r : Run (List ℕ))
      → s.handle.writer ≡ sending msg
      → s.loop ≡ testing_size total
      → ltb total (length msg) ≡ true
      → (turns : List SendTurn) → All OfSender turns
      → (sender_run turns (
          after_call msg total a (
            records_send s.handle.client_fd
              (took msg total a)
              (record s { loop = in_call s.handle.client_fd total })))).handle
        ≡ after_send s.handle.handle_class r (record s.handle { wire = before })
      → Done s r
  unfolding sender_run
  round-Done total a s r at place less turns all ran = (
    sends_on a ∷ sends_on a ∷ turns,
    (tt, (tt, all)),
    ap (λ t. (sender_run turns (sender_step (sends_on a) t)).handle)
          (test_step msg total a s true at place less)
        ∙ ap (λ t. (sender_run turns t).handle) (call_step msg s.handle.client_fd total a s at)
        ∙ ran,
  )

  -- The sender when `send` has returned.
  abbrev called : Answer → ℕ → Sender → Sender
  called a total s =
      records_send s.handle.client_fd (took msg total a)
        (record s { loop = in_call s.handle.client_fd total })

  longer :
      (wire bytes : List ℕ) (s : Sender)
      → s.handle.wire ≡ before ++ wire
      → s.handle.wire ++ bytes ≡ before ++ (wire ++ bytes)
  longer wire bytes s e = ap (λ w. w ++ bytes) e ∙ append_assoc before wire bytes

  send_loop-Done :
      (answers : List Answer) (total errno : ℕ) (s : Sender) (wire wire' : List ℕ) (b : Bool)
      → s.handle.writer ≡ sending msg
      → s.loop ≡ testing_size total
      → s.handle.wire ≡ before ++ wire
      → send_loop msg total errno wire answers ≡ returned b wire'
      → Done s (returned b wire')
  unfolding send_loop sender_run
  send_loop-Done [] total errno s wire wire' b at place e ran =
      elim (Bool-cases (ltb total (length msg))) [
        | inl more ↦ absurd (ground arith)
        | inr less ↦
            subst (Done s)
              (ap (λ t. if t then waiting wire else returned true wire) (sym less) ∙ ran)
              (end-Done total s wire at place less e)
      ]
  send_loop-Done (a ∷ answers) total errno s wire wire' b at place e ran =
      elim (Bool-cases (ltb total (length msg))) [
        | inl more ↦ elim (Bool-cases (to_unsigned 64 (ret a) == 0)) [
          | inl z ↦
              let end = sym (send_loop-round msg total errno wire a answers true more z) ∙ ran in
              subst (Done s) end (
                round-Done total a s (returned false (wire ++ took msg total a)) at place more [] tt
                  (ap (λ t. t.handle) (after_call-eq msg total a (called a total s) true z)
                    ∙ leaves-Done false (called a total s) (wire ++ took msg total a)
                        (longer wire (took msg total a) s e)))
          | inr nz ↦
              let rest = sym (send_loop-round msg total errno wire a answers false more nz) ∙ ran in
              let (turns, all, done) =
                send_loop-Done answers ((total + to_unsigned 64 (ret a)) % 2 ^ 64)
                  (errno_after a errno)
                  (record (called a total s) {
                    loop = testing_size ((total + to_unsigned 64 (ret a)) % 2 ^ 64);
                  })
                  (wire ++ took msg total a) wire' b at refl (longer wire (took msg total a) s e)
                  rest in
              round-Done total a s (returned b wire') at place more turns all (
                ap (λ t. (sender_run turns t).handle)
                  (after_call-eq msg total a (called a total s) false nz)
                ∙ done)
        ]
        | inr less ↦
            subst (Done s) (sym (send_loop-over msg total errno wire a answers less) ∙ ran)
              (end-Done total s wire at place less e)
      ]

-- If `send_bytes` on the message would return with some answers, there are turns of the sending thread,
-- one for each test of the loop and one for each `send`, which bring a handle of either class that
-- has taken the message to where the one step for the whole message brings it, if no other thread comes
-- between.
pub sender_run-writes :
    (s : Sender) (msg : List ℕ) (answers : List Answer) (b : Bool) (wire : List ℕ)
    → s.handle.writer ≡ sending msg
    → s.loop ≡ testing_size 0
    → send_bytes 0 msg answers ≡ returned b wire
    → (turns : List SendTurn) × All OfSender turns
      × ((sender_run turns s).handle ≡ step (writes answers) s.handle)
unfolding send_bytes step write_at
sender_run-writes s msg answers b wire at place ran =
    let (turns, all, done) =
      send_loop-Done msg s.handle.wire answers 0 0 s [] wire b at place
        (sym (append-nil s.handle.wire)) ran in
    (
      turns,
      all,
      done
          ∙ ap (λ r. after_send s.handle.handle_class r s.handle) (sym ran)
          ∙ sym (ap (λ pc. write_at pc answers s.handle) at),
    )
