-- ===== src/System/SetUp/Descriptors.antt =====
-- What the set-up of the listening socket leaves open call by call.
use net_utils.Base.{ℕ, ◌+◌, ◌≡◌, refl, ap, Option, none, some, ℤ, pos, negsuc, arith}
use net_utils.Protocol.{ProtocolType, pt_tcp_ipv4, pt_tcp_ipv6, pt_udp_ipv4, pt_udp_ipv6}
use net_utils.Os.{af_inet, af_inet6, so_reuseaddr, ipv6_v6only, Os, OsLaws, Opens}
use net_utils.Engine.{Engine}
use net_utils.Engine.Init.{back_log, ipv6_address}
use net_utils.Worker.Closing.{is_fd}
use net_utils.System.Accounts.{one_if}
use net_utils.System.Ledger.{opened_one}
use net_utils.System.SetUp.{
  SetUp, calling_socket, setting_reuse, setting_v6only, binding, listening, made, broken_off,
  local_fd, goes_on, socket_made, open_socket, after_reuse, after_v6only, set_up_step,
}

-- What `svr_sock` has got, and what `mFd` gets of it when the set-up is back with `true`.
abbrev pub held_fd : SetUp → ℤ
held_fd (made fd) = fd
held_fd pc = local_fd pc

-- The set-up is not back with `true`.
abbrev pub UnderWay : SetUp → Type 0
UnderWay (made fd) = ⊥
UnderWay _ = Unit

module _ {World : Type 0} (os : Os World) where
  -- A step of the set-up leaves open what was, and what `svr_sock` has got.
  abbrev pub Grew : SetUp → World → SetUp × World → Type 0
  Grew pc w c =
      (n : ℕ)
      → one_if (os.is_open c.1 n) + one_if (is_fd n (local_fd pc))
        ≡ one_if (os.is_open w n) + one_if (is_fd n (held_fd c.0))

  goes_on-Grew :
      (fd : ℤ) (pc next : SetUp) (w : World) (c : ℤ × World)
      → local_fd pc ≡ fd
      → held_fd next ≡ fd
      → ((n : ℕ) → os.is_open c.1 n ≡ os.is_open w n)
      → Grew pc w (goes_on fd next c)
  goes_on-Grew fd pc next w (pos r, w') own keeps same = λ n. omega (
    arith,
    ap one_if (same n),
    ap (λ k. one_if (is_fd n k)) own,
    ap (λ k. one_if (is_fd n k)) keeps,
  )
  goes_on-Grew fd pc next w (negsuc r, w') own keeps same =
      λ n. omega (arith, ap one_if (same n), ap (λ k. one_if (is_fd n k)) own)

  socket_made-Grew :
      (w : World) (c : ℤ × World) → Opens os w c.0 c.1 → Grew calling_socket w (socket_made c)
  socket_made-Grew w (pos r, w') opens = λ n. omega (arith, opened_one os (pos r) w w' n opens)
  socket_made-Grew w (negsuc r, w') opens =
      λ n. omega (arith, opened_one os (negsuc r) w w' n opens)

  module _ (laws : OsLaws os) where
    open_socket-Grew : (t : ProtocolType) (w : World) → Grew calling_socket w (open_socket os t w)
    open_socket-Grew pt_tcp_ipv4 w =
        socket_made-Grew w (os.socket af_inet w) (laws.socket_opens af_inet w)
    open_socket-Grew pt_tcp_ipv6 w =
        socket_made-Grew w (os.socket af_inet6 w) (laws.socket_opens af_inet6 w)
    open_socket-Grew pt_udp_ipv4 w = λ n. refl
    open_socket-Grew pt_udp_ipv6 w = λ n. refl

    after_reuse-keeps :
        (t : ProtocolType) (e : Engine) (fd : ℤ) → held_fd (after_reuse os t e fd) ≡ fd
    after_reuse-keeps pt_tcp_ipv4 e fd = refl
    after_reuse-keeps pt_tcp_ipv6 e fd = refl
    after_reuse-keeps pt_udp_ipv4 e fd = refl
    after_reuse-keeps pt_udp_ipv6 e fd = refl

    after_v6only-keeps :
        (o : Option ℕ) (e : Engine) (fd : ℤ) → held_fd (after_v6only os o e fd) ≡ fd
    after_v6only-keeps none e fd = refl
    after_v6only-keeps (some address) e fd = refl

    pub set_up_step-Grew :
        (e : Engine) (pc : SetUp) (w : World) → UnderWay pc → Grew pc w (set_up_step os e pc w)
    unfolding set_up_step
    set_up_step-Grew e calling_socket w under = open_socket-Grew e.protocol_type w
    set_up_step-Grew e (setting_reuse fd) w under =
        goes_on-Grew fd (setting_reuse fd) (after_reuse os e.protocol_type e fd) w
          (os.setsockopt fd so_reuseaddr w) refl (after_reuse-keeps e.protocol_type e fd)
          (laws.setsockopt_keeps fd so_reuseaddr w)
    set_up_step-Grew e (setting_v6only fd) w under =
        goes_on-Grew fd (setting_v6only fd) (after_v6only os (ipv6_address os e.ip) e fd) w
          (os.setsockopt fd ipv6_v6only w) refl (after_v6only-keeps (ipv6_address os e.ip) e fd)
          (laws.setsockopt_keeps fd ipv6_v6only w)
    set_up_step-Grew e (binding fd addr) w under =
        goes_on-Grew fd (binding fd addr) (listening fd) w (os.bind fd addr w) refl refl
          (laws.bind_keeps fd addr w)
    set_up_step-Grew e (listening fd) w under =
        goes_on-Grew fd (listening fd) (made fd) w (os.listen fd back_log w) refl refl
          (laws.listen_keeps fd back_log w)
    set_up_step-Grew e (made fd) w under = absurd under
    set_up_step-Grew e (broken_off fd) w under = λ n. refl
