-- ===== src/Handle/Own.antt =====
-- The descriptor that a handle keeps from its constructor on.
use net_utils.Base.{◌≡◌, ◌⊎◌, List, ℤ, ℕ, arith}
use net_utils.Context.{invalid_fd}
use net_utils.Io.Run.{Run}
use net_utils.Io.Send.{Answer}
use net_utils.Io.Recv.{Incoming}
use net_utils.Handle.{
  HandleClass, Handle, Reading, Writing, sending, Main, Turn, mains, reads, writes, wakes,
  after_send, read_at, write_at, main_at, step,
}

-- The handle has the descriptor of its client or none.
abbrev pub OwnOrNone : Handle → ℤ → Type 0
OwnOrNone h fd = (h.client_fd ≡ fd) ⊎ (h.client_fd ≡ invalid_fd)

read_at-OwnOrNone :
    (pc : Reading) (a : Incoming) (h : Handle) (fd : ℤ)
    → OwnOrNone h fd
    → OwnOrNone (read_at pc a h) fd
unfolding read_at
read_at-OwnOrNone pc a h fd own = ground arith

after_send-OwnOrNone :
    (c : HandleClass) (r : Run (List ℕ)) (h : Handle) (fd : ℤ)
    → OwnOrNone h fd
    → OwnOrNone (after_send c r h) fd
after_send-OwnOrNone c r h fd own = ground arith

write_at-OwnOrNone :
    (pc : Writing) (answers : List Answer) (h : Handle) (fd : ℤ)
    → OwnOrNone h fd
    → OwnOrNone (write_at pc answers h) fd
unfolding write_at
write_at-OwnOrNone (sending msg) answers h fd own = after_send-OwnOrNone h.handle_class _ h fd own
write_at-OwnOrNone pc answers h fd own = ground arith

main_at-OwnOrNone : (pc : Main) (h : Handle) (fd : ℤ) → OwnOrNone h fd → OwnOrNone (main_at pc h) fd
unfolding main_at
main_at-OwnOrNone pc h fd own = ground arith

pub step-OwnOrNone : (t : Turn) (h : Handle) (fd : ℤ) → OwnOrNone h fd → OwnOrNone (step t h) fd
unfolding step
step-OwnOrNone mains h fd own = main_at-OwnOrNone h.main h fd own
step-OwnOrNone (reads a) h fd own = read_at-OwnOrNone h.reader a h fd own
step-OwnOrNone (writes answers) h fd own = write_at-OwnOrNone h.writer answers h fd own
step-OwnOrNone wakes h fd own = own
