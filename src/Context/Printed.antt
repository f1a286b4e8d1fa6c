-- ===== src/Context/Printed.antt =====
-- `toString` of a context of src/NetUtils/SocketContext.h, read back.
use net_utils.Base.{ℕ, ◌≡◌, refl, ◌++◌, Option, some, ℤ}
use net_utils.Protocol.{codes}
use net_utils.Os.{Text}
use net_utils.Print.{print, print_int}
use net_utils.Print.Reader.{read, read_int, strip, ◌>>=◌}
use net_utils.Print.Laws.{strip-append, read-print, read_int-print_int}
use net_utils.Context.{SocketContext, to_string}

-- Descriptor, port and address, as they stand in the text of a context.
pub read_context : Text → Option (ℤ × ℕ × Text)
read_context s = do
  s1 ← strip (codes "client socket context info, fd: ") s
  let (fd, s2) = read_int s1
  s3 ← strip (codes ", port:") s2
  let (port, s4) = read 0 s3
  s5 ← strip (codes ", address:") s4
  some (fd, port, s5)

-- The text of a context shows its descriptor, its port and its address: a reader gets the three back
-- from it.
pub read_context-to_string :
    (context : SocketContext)
    → read_context (to_string context)
      ≡ some (context.client_fd, context.port, context.client_addr_str)
unfolding read_context to_string
read_context-to_string context =
    let address = codes ", address:" ++ context.client_addr_str in
    let port = codes ", port:" ++ (print context.port ++ address) in
    rw
      (
        strip-append (codes "client socket context info, fd: ")
            (print_int context.client_fd ++ port),
        read_int-print_int context.client_fd port refl,
        strip-append (codes ", port:") (print context.port ++ address),
        read-print context.port address refl,
        strip-append (codes ", address:") context.client_addr_str,
      )
      refl
