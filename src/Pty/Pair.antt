-- ===== src/Pty/Pair.antt =====
-- The calls of kernel/src/drivers/pty.rs on a whole table: descriptors, and bytes from end to end.
use oscortex.Base.{
  ℕ, zero, suc, ◌-◌, ◌<◌, ◌≡◌, refl, ap, ◌∙◌, min, true, none, some, List, ◌++◌, length, take,
  copy_front, arith, ok, set, get_or-set_self,
}
use oscortex.Pty.{
  PtyPair, Ptys, pty_idx_from_master, pty_idx_from_slave, master_fd, slave_fd, max_ptys, read,
  write, read_loop, write_loop, new_pair, buf_size, available, pair_at,
}
use oscortex.Pty.Ring.{contents, IsRingBuf}
use oscortex.Pty.Stream.{write_loop-contents, read_loop-contents}

-- The descriptors of the two sides of each of the 8 pairs lead back to the index of the pair, each
-- only as its own side.
pub pty_idx-fd :
    (i : ℕ)
    → i < max_ptys
    → (pty_idx_from_master (master_fd i) ≡ some i)
      × (pty_idx_from_slave (master_fd i) ≡ none)
      × (pty_idx_from_master (slave_fd i) ≡ none)
      × (pty_idx_from_slave (slave_fd i) ≡ some i)
pty_idx-fd zero h = (refl, refl, refl, refl)
pty_idx-fd (suc zero) h = (refl, refl, refl, refl)
pty_idx-fd (suc (suc zero)) h = (refl, refl, refl, refl)
pty_idx-fd (suc (suc (suc zero))) h = (refl, refl, refl, refl)
pty_idx-fd (suc (suc (suc (suc zero)))) h = (refl, refl, refl, refl)
pty_idx-fd (suc (suc (suc (suc (suc zero))))) h = (refl, refl, refl, refl)
pty_idx-fd (suc (suc (suc (suc (suc (suc zero)))))) h = (refl, refl, refl, refl)
pty_idx-fd (suc (suc (suc (suc (suc (suc (suc zero))))))) h = (refl, refl, refl, refl)
pty_idx-fd (suc (suc (suc (suc (suc (suc (suc (suc n)))))))) h = absurd (omega arith)

write-master :
    (i : ℕ) (src : List ℕ) (ps : Ptys)
    → i < max_ptys
    → (pair_at ps i).alive ≡ true
    → write (master_fd i) src ps ≡ (
      set ps i (record (pair_at ps i) {
        master_to_slave = (write_loop src (pair_at ps i).master_to_slave).0;
      }),
      ok (write_loop src (pair_at ps i).master_to_slave).1,
    )
unfolding write
write-master i src ps h a = let (m, n, o, s) = pty_idx-fd i h in rw (write, m, a) refl

read-slave :
    (i : ℕ) (buf : List ℕ) (ps : Ptys)
    → i < max_ptys
    → (pair_at ps i).alive ≡ true
    → read (slave_fd i) buf ps ≡ (
      set ps i (record (pair_at ps i) {
        master_to_slave = (read_loop (length buf) (pair_at ps i).master_to_slave).0;
      }),
      copy_front buf (read_loop (length buf) (pair_at ps i).master_to_slave).1,
      ok (length (read_loop (length buf) (pair_at ps i).master_to_slave).1),
    )
unfolding read
read-slave i buf ps h a = let (m, n, o, s) = pty_idx-fd i h in rw (read, o, s, a) refl

-- On an open pair with a well-formed ring, what the master writes is what the slave reads next: after
-- the bytes that waited come as many of the written ones as there was room for, cut to the slave's
-- buffer. The write returns how many bytes it took, and the read how many it copied.
pub read-write :
    (i : ℕ) (src buf : List ℕ) (ps : Ptys)
    → i < max_ptys
    → i < length ps
    → (pair_at ps i).alive ≡ true
    → IsRingBuf (pair_at ps i).master_to_slave
    → let old = (pair_at ps i).master_to_slave in
      let n = min (length src) (buf_size - 1 - available old) in
      let (ps', written) = write (master_fd i) src ps in
      let (ps2, buf', count) = read (slave_fd i) buf ps' in
      let bytes = take (length buf) (contents old ++ take n src) in
      (written ≡ ok n) × (buf' ≡ copy_front buf bytes) × (count ≡ ok (length bytes))
read-write i src buf ps h l a w =
    let old = (pair_at ps i).master_to_slave in
    let (r, n) = write_loop src old in
    let (w', e, c) = write_loop-contents src old w in
    let p' : PtyPair = record (pair_at ps i) { master_to_slave = r } in
    let g : pair_at (set ps i p') i ≡ p' = get_or-set_self ps i p' new_pair l in
    let (w2, o, d) = read_loop-contents (length buf) r w' in
    rw
      (
        write-master i src ps h a,
        read-slave i buf (set ps i p') h (ap (λ (x : PtyPair). x.alive) g ∙ a),
        g,
        o,
        c,
        e,
      )
      (refl, refl, refl)
