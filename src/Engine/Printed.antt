-- ===== src/Engine/Printed.antt =====
-- `toString` of an engine of src/NetUtils/services/tcp/ITcpBrokerServerEngine.cpp, read back.
use net_utils.Base.{◌≡◌, ◌≢◌, refl, [], ◌∷◌, ◌++◌, All, Option, none, some, ℤ}
use net_utils.Protocol
use net_utils.Protocol.{ProtocolType, pt_tcp_ipv4, pt_tcp_ipv6, pt_udp_ipv4, pt_udp_ipv6, codes}
use net_utils.Os.{Text}
use net_utils.Print.{print_int}
use net_utils.Print.Reader.{read_int, strip, until, ◌>>=◌}
use net_utils.Print.Laws.{strip-append, until-append, read_int-print_int}
use net_utils.Engine.{Engine, to_string}

abbrev named : ProtocolType → Option Text → Option ProtocolType → Option ProtocolType
named t (some []) rest = some t
named t (some (c ∷ s)) rest = rest
named t none rest = rest

-- The protocol of a name.
pub read_protocol : Text → Option ProtocolType
read_protocol s = named pt_tcp_ipv4 (strip (codes "tcp") s) (
    named pt_tcp_ipv6 (strip (codes "tcp6") s)
      (named pt_udp_ipv4 (strip (codes "udp") s) (named pt_udp_ipv6 (strip (codes "udp6") s) none)))

read_protocol-to_string : (t : ProtocolType) → read_protocol (Protocol.to_string t) ≡ some t
unfolding read_protocol Protocol.to_string strip
read_protocol-to_string pt_tcp_ipv4 = refl
read_protocol-to_string pt_tcp_ipv6 = refl
read_protocol-to_string pt_udp_ipv4 = refl
read_protocol-to_string pt_udp_ipv6 = refl

-- Tag, address, port, descriptor and protocol, as they stand in the text of an engine.
pub read_engine : Text → Option (Text × Text × ℤ × ℤ × ProtocolType)
read_engine s = do
  s1 ← strip (codes "name:") s
  let (tag, s2) = until b';' s1
  s3 ← strip (codes "; ip:") s2
  let (ip, s4) = until b';' s3
  s5 ← strip (codes "; port:") s4
  let (port, s6) = read_int s5
  s7 ← strip (codes "; fd:") s6
  let (fd, s8) = read_int s7
  s9 ← strip (codes "; protocol:") s8
  t ← read_protocol s9
  some (tag, ip, port, fd, t)

-- The text of an engine whose tag and address hold no semicolon shows its tag, address, port,
-- descriptor and protocol: a reader gets the five back from it.
pub read_engine-to_string :
    (e : Engine)
    → All (λ c. c ≢ b';') e.tag
    → All (λ c. c ≢ b';') e.ip
    → read_engine (to_string e) ≡ some (e.tag, e.ip, e.port, e.fd, e.protocol_type)
unfolding read_engine to_string
read_engine-to_string e tag_ok ip_ok =
    let protocol = codes "; protocol:" ++ Protocol.to_string e.protocol_type in
    let fd = codes "; fd:" ++ (print_int e.fd ++ protocol) in
    let port = codes "; port:" ++ (print_int e.port ++ fd) in
    let ip = codes "; ip:" ++ (e.ip ++ port) in
    rw
      (
        strip-append (codes "name:") (e.tag ++ ip),
        until-append b';' e.tag (codes " ip:" ++ (e.ip ++ port)) tag_ok,
        strip-append (codes "; ip:") (e.ip ++ port),
        until-append b';' e.ip (codes " port:" ++ (print_int e.port ++ fd)) ip_ok,
        strip-append (codes "; port:") (print_int e.port ++ fd),
        read_int-print_int e.port fd refl,
        strip-append (codes "; fd:") (print_int e.fd ++ protocol),
        read_int-print_int e.fd protocol refl,
        strip-append (codes "; protocol:") (Protocol.to_string e.protocol_type),
        read_protocol-to_string e.protocol_type,
      )
      refl
