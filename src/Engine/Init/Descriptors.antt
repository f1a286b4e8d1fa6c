-- ===== src/Engine/Init/Descriptors.antt =====
-- The descriptors that are open after an attempt to make the listening socket.
use net_utils.Base.{ℕ, ◌≡◌, refl, ◌∙◌, Option, none, some, ℤ, pos, negsuc, to_unsigned}
use net_utils.Protocol.{ProtocolType, pt_tcp_ipv4, pt_tcp_ipv6, pt_udp_ipv4, pt_udp_ipv6}
use net_utils.Os.{
  af_inet, af_inet6, so_reuseaddr, ipv6_v6only, SockAddr, in4, in6, Os, Opens, OsLaws,
}
use net_utils.Engine.{Engine}
use net_utils.Engine.Init.{
  Attempt, next, ◌>>=◌, done, call, checked, or_fail, back_log, ipv4_address, ipv6_address,
  init_ipv4_socket, init_ipv6_socket, init_funs, init_listening_socket,
}

module _ {World : Type 0} (os : Os World) where
  abbrev Same : World → World → Type 0
  Same w w' = (m : ℕ) → os.is_open w' m ≡ os.is_open w m

  -- After `socket` returned n: success puts n into the engine, and no other call opens or closes.
  abbrev Settles : Engine → ℕ → World → Option Engine × World → Type 0
  Settles e n w (none, w') = Same w w'
  Settles e n w (some e', w') = (e' ≡ record e { fd = pos n }) × Same w w'

  -- An attempt that settles from every system that agrees with `w0`.
  record Settling (e : Engine) (n : ℕ) (m : Attempt World Engine) : Type 0 where
    settles : (w0 w : World) → Same w0 w → Settles e n w0 (m w)

  done-Settling : (e : Engine) (n : ℕ) → Settling e n (done (record e { fd = pos n }))
  done-Settling e n = record { settles = λ w0 w same. (refl, same) }

  call-Settling :
      {e : Engine} {n : ℕ} (op : World → ℤ × World) {k : ℤ → Attempt World Engine}
      → ((w : World) → Same w (op w).1)
      → ((r : ℤ) → Settling e n (k r))
      → Settling e n (call op >>= k)
  call-Settling {e} {n} op {k} keeps rest = record {
    settles = λ w0 w same. by_result w0 (op w) (λ m. keeps w m ∙ same m);
  }
    where
      by_result : (w0 : World) (c : ℤ × World) → Same w0 c.1 → Settles e n w0 (next (checked c) k)
      by_result w0 (pos r, w') same = (rest (pos r)).settles w0 w' same
      by_result w0 (negsuc r, w') same = same

  or_fail-Settling :
      {e : Engine} {n : ℕ} (o : Option ℕ) {k : ℕ → Attempt World Engine}
      → ((a : ℕ) → Settling e n (k a))
      → Settling e n (or_fail o >>= k)
  or_fail-Settling none rest = record { settles = λ w0 w same. same }
  or_fail-Settling (some a) rest = record { settles = λ w0 w same. (rest a).settles w0 w same }

  -- The engine of a success holds the one descriptor that was opened. A failure closes nothing: the
  -- descriptor of `socket`, if there is one, stays open.
  abbrev pub Outcome : Engine → World → ℤ × World → Option Engine × World → Type 0
  Outcome e w (pos n, w1) (none, w') = Opens os w (pos n) w'
  Outcome e w (pos n, w1) (some e', w') = (e' ≡ record e { fd = pos n }) × Opens os w (pos n) w'
  Outcome e w (negsuc k, w1) (none, w') = Opens os w (negsuc k) w'
  Outcome e w (negsuc k, w1) (some e', w') = ⊥

  socket-Outcome :
      (e : Engine) (w : World) (op : World → ℤ × World) (k : ℤ → Attempt World Engine)
      → Opens os w (op w).0 (op w).1
      → ((n : ℕ) → Settling e n (k (pos n)))
      → Outcome e w (op w) ((call op >>= k) w)
  socket-Outcome e w op k opens rest = by_result (op w) opens
    where
      settled :
          (n : ℕ) (w1 : World) (r : Option Engine × World)
          → Opens os w (pos n) w1
          → Settles e n w1 r
          → Outcome e w (pos n, w1) r
      settled n w1 (none, w') opens same =
          (opens.0, same n ∙ opens.1, λ m ne. same m ∙ opens.2 m ne)
      settled n w1 (some e', w') opens (e_eq, same) =
          (e_eq, (opens.0, same n ∙ opens.1, λ m ne. same m ∙ opens.2 m ne))

      by_result : (c : ℤ × World) → Opens os w c.0 c.1 → Outcome e w c (next (checked c) k)
      by_result (pos n, w1) opens =
          settled n w1 (k (pos n) w1) opens ((rest n).settles w1 w1 (λ m. refl))
      by_result (negsuc j, w1) opens = opens

  abbrev address4 : Engine → SockAddr
  address4 e = in4 (ipv4_address os e.ip) (os.htons (to_unsigned 16 e.port))

  abbrev address6 : Engine → ℕ → SockAddr
  address6 e a = in6 a (os.htons (to_unsigned 16 e.port))

  -- What `init_listening_socket` has done by the engine's protocol: the two UDP protocols fail
  -- before any call.
  abbrev pub Listens : ProtocolType → Engine → World → Option Engine × World → Type 0
  Listens pt_tcp_ipv4 e w r = Outcome e w (os.socket af_inet w) r
  Listens pt_tcp_ipv6 e w r = Outcome e w (os.socket af_inet6 w) r
  Listens pt_udp_ipv4 e w r = r ≡ (none, w)
  Listens pt_udp_ipv6 e w r = r ≡ (none, w)

  module _ (laws : OsLaws os) where
    -- What the engine's protocol, which `init_funs` looks up, asks of the system first.
    init_ipv4_socket-Outcome :
        (e : Engine) (w : World) → Outcome e w (os.socket af_inet w) (init_ipv4_socket os e w)
    unfolding init_ipv4_socket
    init_ipv4_socket-Outcome e w =
        socket-Outcome e w (os.socket af_inet) _ (laws.socket_opens af_inet w) λ n.
          call-Settling (os.setsockopt (pos n) so_reuseaddr)
            (laws.setsockopt_keeps (pos n) so_reuseaddr)
            λ _.
              call-Settling (os.bind (pos n) (address4 e)) (laws.bind_keeps (pos n) (address4 e))
                λ _.
                  call-Settling (os.listen (pos n) back_log) (laws.listen_keeps (pos n) back_log)
                    λ _. done-Settling e n

    init_ipv6_socket-Outcome :
        (e : Engine) (w : World) → Outcome e w (os.socket af_inet6 w) (init_ipv6_socket os e w)
    unfolding init_ipv6_socket
    init_ipv6_socket-Outcome e w =
        socket-Outcome e w (os.socket af_inet6) _ (laws.socket_opens af_inet6 w) λ n.
          call-Settling (os.setsockopt (pos n) so_reuseaddr)
            (laws.setsockopt_keeps (pos n) so_reuseaddr)
            λ _.
              call-Settling (os.setsockopt (pos n) ipv6_v6only)
                (laws.setsockopt_keeps (pos n) ipv6_v6only)
                λ _. or_fail-Settling (ipv6_address os e.ip) λ a.
                  call-Settling (os.bind (pos n) (address6 e a))
                    (laws.bind_keeps (pos n) (address6 e a))
                    λ _.
                      call-Settling (os.listen (pos n) back_log)
                        (laws.listen_keeps (pos n) back_log) λ _. done-Settling e n

    init_funs-Listens :
        (t : ProtocolType) (e : Engine) (w : World) → Listens t e w (init_funs os t e w)
    init_funs-Listens pt_tcp_ipv4 e w = init_ipv4_socket-Outcome e w
    init_funs-Listens pt_tcp_ipv6 e w = init_ipv6_socket-Outcome e w
    init_funs-Listens pt_udp_ipv4 e w = refl
    init_funs-Listens pt_udp_ipv6 e w = refl

    -- With a system that keeps `OsLaws`: if `init_listening_socket` succeeds, the engine differs only
    -- in its descriptor, which `socket` has just opened. If it fails after `socket` succeeded, that descriptor stays open and the
    -- engine does not hold it. If `socket` itself fails, or the protocol is UDP, nothing changes.
    pub init_listening_socket-Listens :
        (e : Engine) (w : World) → Listens e.protocol_type e w (init_listening_socket os e w)
    unfolding init_listening_socket
    init_listening_socket-Listens e w = init_funs-Listens e.protocol_type e w
