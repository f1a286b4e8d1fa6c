-- ===== src/System/SecondClose.antt =====
-- The second `close` of a handle of the plain servers (IPV4ThreadsTcpServer.cpp,
-- IPV6ThreadsTcpServer.cpp) when its number has been given to another client.
use net_utils.Base.{
  ℕ, suc, ◌≡◌, refl, sym, ap, ◌∙◌, subst, true, false, List, [], ◌∷◌, ◌++◌, length, drop,
  drop_front, get_elem?, some, ℤ, pos,
}
use net_utils.Os.{Accepted, Os, OsLaws, Opens}
use net_utils.Io.Recv.{Incoming}
use net_utils.Handle.{Handle, Reading, Writing, new_handle, reads, writes, read_at, write_at, step}
use net_utils.TcpServer.{TcpServer, set_timeouts, accept_client}
use net_utils.TcpServer.Failing.{set_timeouts-keeps}
use net_utils.System.PlainThreads.{
  accepting, Plain, serves, turns, plain_advance, plain_advance_all,
}
use net_utils.System.Descriptors.{close_all}
use net_utils.System.PlainSteps.{handles_since-one}

get_elem?-snoc : {A : Type 0} (xs : List A) (x : A) → get_elem? (xs ++ x ∷ []) (length xs) ≡ some x
get_elem?-snoc [] x = refl
get_elem?-snoc (y ∷ ys) x = get_elem?-snoc ys x

abbrev pub serving : TcpServer → List Handle → Plain
serving s hs = record { server = s; stage = accepting; handles = hs }

module _ {World : Type 0} (os : Os World) where
  -- A client is accepted as n.
  served-as :
      (n : ℕ) (s : TcpServer) (hs : List Handle) (w w1 w2 : World) (a : Accepted) (r : ℤ)
      → os.accept s.fd w ≡ (a, w1)
      → a.fd ≡ pos n
      → set_timeouts os s.handle_class (pos n) w1 ≡ (some r, w2)
      → plain_advance os serves (serving s hs, w) ≡ (
        serving
            (record s { handles = s.handles ++ a ∷ [] })
            (hs ++ new_handle s.handle_class (pos n) ∷ []),
        w2,
      )
  unfolding plain_advance accept_client
  served-as n s hs w w1 w2 a r took fd limits =
      rw (took, fd, limits, handles_since-one os s (record a { fd = pos n })) refl

  module _ (laws : OsLaws os) where
    -- The sending thread of the first handle closes n.
    closed-again :
        (n : ℕ) (s : TcpServer) (h : Handle) (hs : List Handle) (w : World)
        → h.writer ≡ Writing.closing
        → h.client_fd ≡ pos n
        → plain_advance os (turns 0 (writes [])) (serving s (h ∷ hs), w)
          ≡ (serving s (step (writes []) h ∷ hs), os.close (pos n) w)
    unfolding plain_advance step write_at
    closed-again n s h hs w at held =
        ap (λ fds. (serving s (step (writes []) h ∷ hs), close_all os fds w))
          (closes_one n h at held)
      where
        closes_one :
            (n : ℕ) (h : Handle)
            → h.writer ≡ Writing.closing
            → h.client_fd ≡ pos n
            → drop (length h.closes) (step (writes []) h).closes ≡ pos n ∷ []
        closes_one n h at held =
            ap (λ pc. drop (length h.closes) (write_at pc [] h).closes) at
            ∙ drop_front h.closes (h.client_fd ∷ [])
            ∙ ap (λ f. f ∷ []) held

    -- The receiving thread of the first handle closes n.
    closed-first :
        (n : ℕ) (i : Incoming) (s : TcpServer) (h : Handle) (hs : List Handle) (w : World)
        → h.reader ≡ Reading.closing
        → h.client_fd ≡ pos n
        → plain_advance os (turns 0 (reads i)) (serving s (h ∷ hs), w)
          ≡ (serving s (step (reads i) h ∷ hs), os.close (pos n) w)
    unfolding plain_advance step read_at
    closed-first n i s h hs w at held =
        ap (λ fds. (serving s (step (reads i) h ∷ hs), close_all os fds w)) closes_one
      where
        closes_one : drop (length h.closes) (step (reads i) h).closes ≡ pos n ∷ []
        closes_one =
            ap (λ pc. drop (length h.closes) (read_at pc i h).closes) at
            ∙ drop_front h.closes (h.client_fd ∷ [])
            ∙ ap (λ f. f ∷ []) held

    -- The receiving thread that has closed the descriptor has not cleared it yet.
    closed-names :
        (i : Incoming) (h : Handle)
        → h.reader ≡ Reading.closing
        → ((step (reads i) h).writer ≡ h.writer) × ((step (reads i) h).client_fd ≡ h.client_fd)
    unfolding step read_at
    closed-names i h at =
        (ap (λ pc. (read_at pc i h).writer) at, ap (λ pc. (read_at pc i h).client_fd) at)

    -- The next client is accepted as n before the sending thread closes n.
    closed-shuts :
        (n : ℕ) (s : TcpServer) (h : Handle) (hs : List Handle) (w w1 w2 : World) (a : Accepted)
        (r : ℤ)
        → h.writer ≡ Writing.closing
        → h.client_fd ≡ pos n
        → os.accept s.fd w ≡ (a, w1)
        → a.fd ≡ pos n
        → set_timeouts os s.handle_class (pos n) w1 ≡ (some r, w2)
        → (p' : Plain) × (w' : World) × (plain_advance_all os
              (serves ∷ turns 0 (writes []) ∷ [])
              (serving s (h ∷ hs), w)
            ≡ (p', w'))
          × (get_elem? p'.handles (suc (length hs)) ≡ some (new_handle s.handle_class (pos n)))
          × (os.is_open w2 n ≡ true)
          × (os.is_open w' n ≡ false)
    unfolding plain_advance_all
    closed-shuts n s h hs w w1 w2 a r at held took fd limits =
        let c = new_handle s.handle_class (pos n) in
        let s' = record s { handles = s.handles ++ a ∷ [] } in
        let opens : Opens os w (pos n) w1 =
          subst (λ f. Opens os w f w1) fd
            (subst (λ q. Opens os w q.0.fd q.1) took (laws.accept_opens s.fd w)) in
        (
          serving s' (step (writes []) h ∷ hs ++ c ∷ []),
          os.close (pos n) w2,
          ap (plain_advance os (turns 0 (writes [])))
                (served-as n s (h ∷ hs) w w1 w2 a r took fd limits)
              ∙ closed-again n s' h (hs ++ c ∷ []) w2 at held,
          get_elem?-snoc hs c,
          sym (ap (λ q. os.is_open q.1 n) limits)
              ∙ set_timeouts-keeps os laws s.handle_class (pos n) w1 n
              ∙ opens.1,
          laws.close_shuts n w2,
        )

    -- With a system that keeps `OsLaws`: let both threads of the first handle of a plain server that
    -- waits in `accept` stand before the `close` of the handle's descriptor n. When the receiving
    -- thread closes n, the next client is accepted as n and takes its time limits, and then the
    -- sending thread goes on, the new client has a handle with the descriptor n, which was open when
    -- the handle was made and is shut.
    pub second_close-shuts :
        (n : ℕ) (i : Incoming) (s : TcpServer) (h : Handle) (hs : List Handle) (w w1 w2 : World)
        (a : Accepted) (r : ℤ)
        → h.reader ≡ Reading.closing
        → h.writer ≡ Writing.closing
        → h.client_fd ≡ pos n
        → os.accept s.fd (os.close (pos n) w) ≡ (a, w1)
        → a.fd ≡ pos n
        → set_timeouts os s.handle_class (pos n) w1 ≡ (some r, w2)
        → (p' : Plain) × (w' : World) × (plain_advance_all os
              (turns 0 (reads i) ∷ serves ∷ turns 0 (writes []) ∷ [])
              (serving s (h ∷ hs), w)
            ≡ (p', w'))
          × (get_elem? p'.handles (suc (length hs)) ≡ some (new_handle s.handle_class (pos n)))
          × (os.is_open w2 n ≡ true)
          × (os.is_open w' n ≡ false)
    unfolding plain_advance_all
    second_close-shuts n i s h hs w w1 w2 a r at_reader at_writer held took fd limits =
        let (same, names) = closed-names i h at_reader in
        let (p', w', ran, handle, opened, shut) =
          closed-shuts n s (step (reads i) h) hs (os.close (pos n) w) w1 w2 a r (same ∙ at_writer)
            (names ∙ held) took fd limits in
        (
          p',
          w',
          ap (plain_advance_all os (serves ∷ turns 0 (writes []) ∷ []))
                (closed-first n i s h hs w at_reader held)
              ∙ ran,
          handle,
          opened,
          shut,
        )
