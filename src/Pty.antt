-- ===== src/Pty.antt =====
-- kernel/src/drivers/pty.rs: pairs of byte rings between a terminal and the programs in it. The table
-- behind the lock is the state; a buffer that is read into is the list of its bytes.
pub mod Ring
pub mod Stream
pub mod Pair
mod Tests
use oscortex.Base.{
  ℕ, zero, suc, ◌+◌, ◌-◌, ◌*◌, ◌/◌, ◌%◌, Bool, true, false, not, ◌&&◌, Option, none, some, List, [],
  ◌∷◌, replicate, length, get_or, set, copy_front, Result, ok, err, if◌then◌else◌, ◌==◌, ltb,
  bit_and, bit_or,
}
use oscortex.Base.Int.{ℤ, pos, negsuc}

abbrev pub max_ptys : ℕ
max_ptys = 8

abbrev pub buf_size : ℕ
buf_size = 4096

pub record RingBuf : Type 0 where
  pub bytes : List ℕ
  pub head : ℕ
  pub tail : ℕ

abbrev pub empty_ring : RingBuf
empty_ring = record { bytes = replicate buf_size 0; head = 0; tail = 0 }

abbrev pub is_empty : RingBuf → Bool
is_empty r = r.head == r.tail

abbrev pub available : RingBuf → ℕ
available r = (r.tail + buf_size - r.head) % buf_size

-- One slot stays free, so that a full ring differs from an empty one.
pub push : ℕ → RingBuf → RingBuf × Bool
push b r =
    let next = (r.tail + 1) % buf_size in
    if next == r.head
    then (r, false)
    else (record r { bytes = set r.bytes r.tail b; tail = next }, true)

pub pop : RingBuf → RingBuf × Option ℕ
pop r =
    if is_empty r
    then (r, none)
    else (record r { head = (r.head + 1) % buf_size }, some (get_or r.bytes r.head 0))

pub record PtyPair : Type 0 where
  pub master_to_slave : RingBuf
  pub slave_to_master : RingBuf
  pub alive : Bool

abbrev pub new_pair : PtyPair
new_pair = record { master_to_slave = empty_ring; slave_to_master = empty_ring; alive = false }

abbrev pub Ptys : Type 0
Ptys = List PtyPair

-- 0xAA00_0000, 0xFF00_0000 and 0x00FF_FFFF.
abbrev pub pty_fd_tag : ℕ
pty_fd_tag = 2852126720

abbrev tag_mask : ℕ
tag_mask = 4278190080

abbrev index_mask : ℕ
index_mask = 16777215

abbrev pub pty_idx : ℕ → ℕ → Option ℕ
pty_idx side fd =
    let raw = bit_and fd index_mask in
    if not (bit_and fd tag_mask == pty_fd_tag)
    then none
    else if raw % 2 == side && ltb (raw / 2) max_ptys
    then some (raw / 2)
    else none

abbrev pub pty_idx_from_master : ℕ → Option ℕ
pty_idx_from_master fd = pty_idx 0 fd

abbrev pub pty_idx_from_slave : ℕ → Option ℕ
pty_idx_from_slave fd = pty_idx 1 fd

abbrev pub master_fd : ℕ → ℕ
master_fd idx = bit_or pty_fd_tag (idx * 2)

abbrev pub slave_fd : ℕ → ℕ
slave_fd idx = bit_or pty_fd_tag (idx * 2 + 1)

abbrev pub pair_at : Ptys → ℕ → PtyPair
pair_at ps i = get_or ps i new_pair

-- The first pair, from index `i` on, that is not alive.
abbrev free_from : Ptys → ℕ → Option ℕ
free_from [] i = none
free_from (p ∷ ps) i = let rest = free_from ps (i + 1) in if p.alive then rest else some i

abbrev pub open_pty : Ptys → Ptys × Result (ℕ × ℕ)
open_pty ps = elim (free_from ps 0) [
  | none ↦ (ps, err "no free ptys")
  | some i ↦ (set ps i (record new_pair { alive = true }), ok (master_fd i, slave_fd i))
]

-- The loop of a read: at most so many bytes, fewer if the ring runs empty.
pub read_loop : ℕ → RingBuf → RingBuf × List ℕ
read_loop zero r = (r, [])
read_loop (suc k) r =
    let (r', o) = pop r in
    elim o [ none ↦ (r, []) | some b ↦ (let (r2, bs) = read_loop k r' in (r2, b ∷ bs)) ]

-- The loop of a write by the master, which stops at the first byte without room.
pub write_loop : List ℕ → RingBuf → RingBuf × ℕ
write_loop [] r = (r, 0)
write_loop (b ∷ bs) r =
    let (r', done) = push b r in
    let (r2, n) = write_loop bs r' in if done then (r2, suc n) else (r, 0)

-- CR becomes LF.
abbrev pub line_discipline : ℕ → ℕ
line_discipline b = if b == 13 then 10 else b

-- The loop of a write by the slave, which counts every byte.
pub echo_loop : List ℕ → RingBuf → RingBuf × ℕ
echo_loop [] r = (r, 0)
echo_loop (b ∷ bs) r =
    let (r', done) = push (line_discipline b) r in let (r2, n) = echo_loop bs r' in (r2, suc n)

-- The table, the buffer and the number of bytes, or the error.
pub read : ℕ → List ℕ → Ptys → Ptys × List ℕ × Result ℕ
read fd buf ps = elim (pty_idx_from_master fd) [
  | some i ↦
      if not (pair_at ps i).alive
      then (ps, buf, err "closed")
      else (let (r, bs) = read_loop (length buf) (pair_at ps i).slave_to_master in
          (
            set ps i (record (pair_at ps i) { slave_to_master = r }),
            copy_front buf bs,
            ok (length bs),
          ))
  | none ↦ elim (pty_idx_from_slave fd) [
    | some i ↦
        if not (pair_at ps i).alive
        then (ps, buf, err "closed")
        else (let (r, bs) = read_loop (length buf) (pair_at ps i).master_to_slave in
            (
              set ps i (record (pair_at ps i) { master_to_slave = r }),
              copy_front buf bs,
              ok (length bs),
            ))
    | none ↦ (ps, buf, err "invalid fd")
  ]
]

pub write : ℕ → List ℕ → Ptys → Ptys × Result ℕ
write fd src ps = elim (pty_idx_from_master fd) [
  | some i ↦
      if not (pair_at ps i).alive
      then (ps, err "closed")
      else (let (r, n) = write_loop src (pair_at ps i).master_to_slave in
          (set ps i (record (pair_at ps i) { master_to_slave = r }), ok n))
  | none ↦ elim (pty_idx_from_slave fd) [
    | some i ↦
        if not (pair_at ps i).alive
        then (ps, err "closed")
        else (let (r, n) = echo_loop src (pair_at ps i).slave_to_master in
            (set ps i (record (pair_at ps i) { slave_to_master = r }), ok n))
    | none ↦ (ps, err "invalid fd")
  ]
]

abbrev is_alive : Option ℕ → Ptys → Bool
is_alive none ps = false
is_alive (some i) ps = (pair_at ps i).alive

abbrev or_else : Option ℕ → Option ℕ → Option ℕ
or_else (some i) o = some i
or_else none o = o

-- The result and the window size that is written to the argument: rows and columns.
abbrev pub ioctl : ℕ → ℕ → ℕ → Ptys → ℤ × Option (ℕ × ℕ)
ioctl fd cmd arg ps =
    if not (is_alive (or_else (pty_idx_from_master fd) (pty_idx_from_slave fd)) ps)
    then (negsuc 8, none)
    else if cmd == 21523
    then (if arg == 0 then (negsuc 13, none) else (pos 0, some (24, 80)))
    else if cmd == 21524
    then (pos 0, none)
    else (negsuc 24, none)
