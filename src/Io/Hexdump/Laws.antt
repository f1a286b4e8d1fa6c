-- ===== src/Io/Hexdump/Laws.antt =====
-- Reading a dump back, and the dump of signed characters.
use mathlib.Core.Option
use net_utils.Base.{
  ℕ, ◌+◌, ◌*◌, ◌/◌, ◌%◌, ◌<◌, ◌≡◌, refl, Bool, true, false, List, [], ◌∷◌, ◌++◌, map, some, ℤ, pos,
  negsuc, to_unsigned, length, ◌^◌, arith, ◌==◌, if◌then◌else◌, dec_lt, All, append_assoc,
}
use net_utils.Io.Hexdump.{newline, digit, entry, dump_loop, hexdump, dump_hex_loop, dump_hex}
use net_utils.Io.Hexdump.Reader.{undigit, read, start}

-- Every byte takes two digits, whatever its value.
entry_lem : (v : ℕ) → v < 256 → entry v ≡ b'0' ∷ b'x' ∷ digit (v / 16) ∷ digit (v % 16) ∷ b' ' ∷ []
unfolding entry
entry_lem v h = elim (dec_lt v 16) [
  | yes small ↦
      let e1 : v / 16 ≡ 0 = omega arith in
      let e2 : v % 16 ≡ v = omega arith in rw (e1, e2) (ground arith)
  | no large ↦ ground arith
]

undigit-digit : (d : ℕ) → d < 16 → undigit (digit d) ≡ d
unfolding undigit digit
undigit-digit d h = ground arith

read-entry :
    (v : ℕ) (text : List ℕ)
    → v < 256
    → read start (entry v ++ text) ≡ Option.map (λ bytes. v ∷ bytes) (read start text)
unfolding read
read-entry v text h =
    let back : 16 * (v / 16) + v % 16 ≡ v = omega arith in
    rw (
      entry_lem v h,
      undigit-digit (v / 16) (omega arith),
      undigit-digit (v % 16) (omega arith),
      back,
    )

-- A line break between two entries is passed over.
read_break :
    (b : Bool) (text : List ℕ)
    → read start ((if b then newline ∷ [] else []) ++ text) ≡ read start text
unfolding read
read_break true text = refl
read_break false text = refl

read-dump_loop :
    (i : ℕ) (bytes : List ℕ)
    → All (λ b. b < 256) bytes
    → read start (dump_loop i bytes) ≡ some bytes
unfolding dump_loop
read-dump_loop i [] all = unfold read in refl
read-dump_loop i (b ∷ bytes) all =
    let byte : b % 256 ≡ b = omega arith in
    rw (
      append_assoc (entry (b % 256)) _ (dump_loop (i + 1) bytes),
      read-entry (b % 256) _ (omega arith),
      byte,
      read_break ((i + 1) % 16 == 0) (dump_loop (i + 1) bytes),
      read-dump_loop (i + 1) bytes all.1,
    )

dump_hex_loop-dump_loop :
    (i : ℕ) (chars : List ℤ) → dump_hex_loop i chars ≡ dump_loop i (map (to_unsigned 8) chars)
unfolding dump_hex_loop dump_loop
dump_hex_loop-dump_loop i [] = refl
dump_hex_loop-dump_loop i (c ∷ chars) = rw (low_byte c, dump_hex_loop-dump_loop (i + 1) chars)
  where
    low_byte : (c : ℤ) → to_unsigned 32 c % 256 ≡ to_unsigned 8 c % 256
    low_byte (pos n) = omega arith
    low_byte (negsuc n) = omega arith

-- An independent reader gets back from the dump of a buffer of fewer than 2^31 bytes, each less than
-- 256, the buffer itself.
pub read-hexdump :
    (bytes : List ℕ)
    → length bytes < 2 ^ 31
    → All (λ b. b < 256) bytes
    → read start (hexdump bytes) ≡ some bytes
unfolding hexdump
read-hexdump bytes small all = read-dump_loop 0 bytes all

-- `dumpHex` of signed characters is `hexdump` of the same characters as unsigned bytes.
dump_hex-hexdump : (chars : List ℤ) → dump_hex chars ≡ hexdump (map (to_unsigned 8) chars)
unfolding dump_hex hexdump
dump_hex-hexdump chars = dump_hex_loop-dump_loop 0 chars
