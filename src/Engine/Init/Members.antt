-- ===== src/Engine/Init/Members.antt =====
-- Whatever the system answers, making the listening socket sets no member but the descriptor.
use net_utils.Base.{◌≡◌, refl, Option, none, some, ℤ, to_unsigned}
use net_utils.Protocol.{ProtocolType, pt_tcp_ipv4, pt_tcp_ipv6, pt_udp_ipv4, pt_udp_ipv6}
use net_utils.Os.{af_inet, af_inet6, so_reuseaddr, ipv6_v6only, in4, in6, Os}
use net_utils.Engine.{Engine}
use net_utils.Engine.Init.{
  Attempt, next, ◌>>=◌, done, call, or_fail, back_log, ipv4_address, ipv6_address, init_ipv4_socket,
  init_ipv6_socket, init_funs, init_listening_socket,
}

abbrev pub SetsFd : {World : Type 0} → Engine → Option Engine × World → Type 0
SetsFd e (none, w) = Unit
SetsFd e (some e', w) = (fd : ℤ) × (e' ≡ record e { fd = fd })

module _ {World : Type 0} (os : Os World) where
  record Setting (e : Engine) (m : Attempt World Engine) : Type 0 where
    sets : (w : World) → SetsFd e (m w)

  done-Setting : (e : Engine) (fd : ℤ) → Setting e (done (record e { fd = fd }))
  done-Setting e fd = record { sets = λ w. (fd, refl) }

  bind-Setting :
      {A : Type 0} {e : Engine} (m : Attempt World A) {k : A → Attempt World Engine}
      → ((a : A) → Setting e (k a))
      → Setting e (m >>= k)
  bind-Setting {A} {e} m {k} rest = record { sets = λ w. by_result (m w) }
    where
      by_result : (r : Option A × World) → SetsFd e (next r k)
      by_result (none, w) = tt
      by_result (some a, w) = (rest a).sets w

  init_ipv4_socket-Setting : (e : Engine) → Setting e (init_ipv4_socket os e)
  unfolding init_ipv4_socket
  init_ipv4_socket-Setting e = bind-Setting (call (os.socket af_inet)) λ n.
      bind-Setting (call (os.setsockopt n so_reuseaddr)) λ _.
        bind-Setting
          (call (os.bind n (in4 (ipv4_address os e.ip) (os.htons (to_unsigned 16 e.port)))))
          λ _. bind-Setting (call (os.listen n back_log)) λ _. done-Setting e n

  init_ipv6_socket-Setting : (e : Engine) → Setting e (init_ipv6_socket os e)
  unfolding init_ipv6_socket
  init_ipv6_socket-Setting e = bind-Setting (call (os.socket af_inet6)) λ n.
      bind-Setting (call (os.setsockopt n so_reuseaddr)) λ _.
        bind-Setting (call (os.setsockopt n ipv6_v6only)) λ _.
          bind-Setting (or_fail (ipv6_address os e.ip)) λ a.
            bind-Setting (call (os.bind n (in6 a (os.htons (to_unsigned 16 e.port)))))
              λ _. bind-Setting (call (os.listen n back_log)) λ _. done-Setting e n

  init_funs-SetsFd : (t : ProtocolType) (e : Engine) (w : World) → SetsFd e (init_funs os t e w)
  init_funs-SetsFd pt_tcp_ipv4 e w = (init_ipv4_socket-Setting e).sets w
  init_funs-SetsFd pt_tcp_ipv6 e w = (init_ipv6_socket-Setting e).sets w
  init_funs-SetsFd pt_udp_ipv4 e w = tt
  init_funs-SetsFd pt_udp_ipv6 e w = tt

  pub init_listening_socket-SetsFd :
      (e : Engine) (w : World) → SetsFd e (init_listening_socket os e w)
  unfolding init_listening_socket
  init_listening_socket-SetsFd e w = init_funs-SetsFd e.protocol_type e w
