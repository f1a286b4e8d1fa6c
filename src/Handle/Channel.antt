-- ===== src/Handle/Channel.antt =====
-- An IPV4ThreadsClientHandle or IPV6ThreadsClientHandle as a channel from a client back to itself.
use net_utils.Base.{ℕ, ◌≡◌, sym, ◌∙◌, List, [], ◌++◌, append-nil, arith}
use net_utils.Io.Run.{Run}
use net_utils.Handle.{Handle, test_queue}

pub record Channel : Type 0 where
  pub accepted : List ℕ
  pub delivered : List ℕ

-- A channel takes bytes at any time, and delivers bytes that it has taken and not delivered yet, in
-- the order in which it took them.
pub data Moves (c d : Channel) : Type 0 where
  takes :
      (bytes : List ℕ) → d.accepted ≡ c.accepted ++ bytes → d.delivered ≡ c.delivered → Moves c d
  delivers :
      (bytes rest : List ℕ)
      → c.delivered ++ (bytes ++ rest) ≡ c.accepted
      → d.accepted ≡ c.accepted
      → d.delivered ≡ c.delivered ++ bytes
      → Moves c d

pub data Reaches (c : Channel) : Channel → Type 0 where
  here : Reaches c c
  next : {d e : Channel} → Reaches c d → Moves d e → Reaches c e

abbrev pub channel_of : Handle → Channel
channel_of h = record { accepted = h.received; delivered = h.wire }

-- What a step adds on the two sides.
abbrev Grows : Handle → Handle → Type 0
Grows h h' =
    (came : List ℕ) × (went : List ℕ) × (h'.received ≡ h.received ++ came)
    × (h'.wire ≡ h.wire ++ went)

same : (h h' : Handle) → h'.received ≡ h.received → h'.wire ≡ h.wire → Grows h h'
same h h' e e' = ([], [], e ∙ sym (append-nil h.received), e' ∙ sym (append-nil h.wire))

test_queue-Grows : (queue : List (List ℕ)) (h : Handle) → Grows h (test_queue queue h)
test_queue-Grows queue h = same h (test_queue queue h) (ground arith) (ground arith)
