-- ===== src/Pty/Tests.antt =====
-- The theorems on the ptys at a table with one open pair.
use oscortex.Base.{
  ℕ, ◌-◌, ◌≡◌, refl, min, true, List, [], ◌∷◌, ◌++◌, take, map, length, copy_front, ok, arith,
  length-replicate,
}
use oscortex.Pty.{
  Ptys, empty_ring, new_pair, buf_size, available, echo_loop, line_discipline, master_fd, slave_fd,
  read, write, pair_at,
}
use oscortex.Pty.Ring.{IsRingBuf, contents}
use oscortex.Pty.Stream.{echo_loop-contents}
use oscortex.Pty.Pair.{read-write}

empty_ring-IsRingBuf : IsRingBuf empty_ring
empty_ring-IsRingBuf = record {
  bytes_length = length-replicate {A = ℕ} buf_size 0;
  head_lt = omega arith;
  tail_lt = omega arith;
}

abbrev line : List ℕ
line = 108 ∷ 115 ∷ 13 ∷ []

abbrev ptys : Ptys
ptys = record new_pair { alive = true } ∷ []

abbrev buffer : List ℕ
buffer = 0 ∷ 0 ∷ []

echo_loop-contents_example :
    IsRingBuf (echo_loop line empty_ring).0
    × ((echo_loop line empty_ring).1 ≡ length line)
    × (contents (echo_loop line empty_ring).0
        ≡ contents empty_ring
          ++ take (buf_size - 1 - available empty_ring) (map line_discipline line))
echo_loop-contents_example = echo_loop-contents line empty_ring empty_ring-IsRingBuf

read-write_example :
    let old = (pair_at ptys 0).master_to_slave in
    let n = min (length line) (buf_size - 1 - available old) in
    let (ps', written) = write (master_fd 0) line ptys in
    let (ps2, buf', count) = read (slave_fd 0) buffer ps' in
    let bytes = take (length buffer) (contents old ++ take n line) in
    (written ≡ ok n) × (buf' ≡ copy_front buffer bytes) × (count ≡ ok (length bytes))
read-write_example =
    read-write 0 line buffer ptys (omega arith) (omega arith) refl empty_ring-IsRingBuf
