-- ===== src/Wire.antt =====
-- The wire format of week37_portability_and_the_machine_model/portable.c: big-endian accessors,
-- the record format and the UTF-8 helpers. A buffer is the list of its bytes; a `store` function
-- gives the bytes that it writes.
pub mod Endian
pub mod Format
pub mod Utf8
mod Tests
use Prim.Native.Nat.{bit_and, bit_or}
use programming_with_c.Base.{
  ℕ, zero, suc, ◌+◌, ◌-◌, ◌*◌, ◌/◌, ◌%◌, ◌^◌, Bool, true, false, not, ◌&&◌, List, [], ◌∷◌, ◌++◌,
  Option, none, some, ◌==◌, ltb, leb, if◌then◌else◌, length, get_or, set, take, drop, replicate,
}
use programming_with_c.Base.Text.{mem_eq}

-- `(uint8_t)v`
abbrev pub byte : ℕ → ℕ
byte v = v % 2 ^ 8

pub store_be16 : ℕ → List ℕ
store_be16 v = byte (v / 2 ^ 8) ∷ (byte v ∷ [])

pub store_be32 : ℕ → List ℕ
store_be32 v = byte (v / 2 ^ 24) ∷ (byte (v / 2 ^ 16) ∷ (byte (v / 2 ^ 8) ∷ (byte v ∷ [])))

-- The loop of `store_be64` from round `i`, with `rounds` rounds left.
pub store_loop : ℕ → ℕ → ℕ → List ℕ
store_loop zero i v = []
store_loop (suc rounds) i v = byte (v / 2 ^ (56 - 8 * i)) ∷ store_loop rounds (i + 1) v

pub store_be64 : ℕ → List ℕ
unfolding store_loop
store_be64 v = store_loop 8 0 v

-- `in[i]`; the callers stay inside the buffer.
abbrev pub at : List ℕ → ℕ → ℕ
at b i = get_or b i 0

pub load_be16 : List ℕ → ℕ
load_be16 b = bit_or (at b 0 * 2 ^ 8) (at b 1) % 2 ^ 16

pub load_be32 : List ℕ → ℕ
load_be32 b =
    bit_or
      (bit_or (bit_or (at b 0 * 2 ^ 24 % 2 ^ 32) (at b 1 * 2 ^ 16 % 2 ^ 32))
        (at b 2 * 2 ^ 8 % 2 ^ 32))
      (at b 3)

-- The loop of `load_be64`.
pub load_loop : ℕ → ℕ → ℕ → List ℕ → ℕ
load_loop zero i v b = v
load_loop (suc rounds) i v b = load_loop rounds (i + 1) (bit_or (v * 2 ^ 8 % 2 ^ 64) (at b i)) b

pub load_be64 : List ℕ → ℕ
unfolding load_loop
load_be64 b = load_loop 8 0 0 b

-- The in-memory record; `name` is the array of 32 bytes.
pub record Record : Type 0 where
  pub id : ℕ
  pub score : ℕ
  pub timestamp : ℕ
  pub name : List ℕ

abbrev pub name_bytes : ℕ
name_bytes = 32

abbrev pub magic : List ℕ
magic = b'C' ∷ (b'R' ∷ (b'E' ∷ (b'C' ∷ [])))

abbrev pub version : ℕ
version = 1

-- `strnlen`: the bytes before the first terminator, at most `n`.
pub strnlen : List ℕ → ℕ → ℕ
strnlen [] n = 0
strnlen (c ∷ s) zero = 0
strnlen (c ∷ s) (suc n) = if c == 0 then 0 else suc (strnlen s n)

-- The `memset` and `memcpy` of the name.
pub pad_name : List ℕ → List ℕ
unfolding strnlen
pad_name s = let n = strnlen s name_bytes in take n s ++ replicate (name_bytes - n) 0

pub record_encode : Record → List ℕ
unfolding store_be16 store_be32 store_be64 pad_name
record_encode r =
    magic
    ++ (store_be16 version
        ++ (store_be32 r.id ++ (store_be16 r.score ++ (store_be64 r.timestamp ++ pad_name r.name))))

pub record_decode : List ℕ → Option Record
unfolding load_be16 load_be32 load_be64 mem_eq
record_decode b =
    if not (mem_eq (take 4 b) magic)
    then none
    else if not (load_be16 (drop 4 b) == version)
    then none
    else some (record {
      id = load_be32 (drop 6 b);
      score = load_be16 (drop 10 b);
      timestamp = load_be64 (drop 12 b);
      name = set (take name_bytes (drop 20 b)) (name_bytes - 1) 0;
    })

-- A byte that continues a character.
abbrev pub continues : ℕ → Bool
continues c = bit_and c 0xc0 == 0x80

-- A string is the list of its bytes, without the terminator.
pub utf8_from : ℕ → List ℕ → ℕ
utf8_from chars [] = chars
utf8_from chars (c ∷ s) = utf8_from (if continues c then chars else chars + 1) s

pub utf8_length : List ℕ → ℕ
unfolding utf8_from
utf8_length s = utf8_from 0 s

-- `while (cut > 0 && continues (s[cut])) cut--;`
pub back_off : List ℕ → ℕ → ℕ
back_off s zero = zero
back_off s (suc cut) = if continues (at s (suc cut)) then back_off s cut else suc cut

pub utf8_safe_truncate : List ℕ → ℕ → ℕ
unfolding back_off
utf8_safe_truncate s max_bytes = if leb (length s) max_bytes then length s else back_off s max_bytes
