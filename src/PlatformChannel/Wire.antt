-- ===== src/PlatformChannel/Wire.antt =====
-- The wire format of kernel/src/platform_channel/mod.rs, read by the engine host as the source
-- documents it: number, lengths of channel and payload, channel, payload.
use oscortex.Base.{
  ℕ, ◌+◌, ◌%◌, ◌^◌, ◌≤◌, ◌<◌, ◌≡◌, sym, ap, ap₂, ◌∙◌, false, some, List, ◌++◌, length, take, drop,
  find, arith, ltb, length-append, take-append, drop-append, take_all,
}
use oscortex.Base.Bytes.{to_le_bytes, from_le_bytes, length-to_le_bytes, from_le_bytes-to_le_bytes}
use oscortex.PlatformChannel.{PlatformMsg, MsgBox, unanswered, wire, recv_into}

-- The documented format, read from the front.
abbrev pub parse : List ℕ → ℕ × List ℕ × List ℕ
parse bs =
    let after_seq = drop 8 bs in
    let after_channel_len = drop 2 after_seq in
    let body = drop 4 after_channel_len in
    let channel_len = from_le_bytes (take 2 after_seq) in
    let payload_len = from_le_bytes (take 4 after_channel_len) in
    (from_le_bytes (take 8 bs), take channel_len body, take payload_len (drop channel_len body))

take_front : (k : ℕ) (xs ys : List ℕ) → length xs ≡ k → take k (xs ++ ys) ≡ xs
take_front k xs ys e = ap (λ (t : ℕ). take t (xs ++ ys)) (sym e) ∙ take-append xs ys

drop_front : (k : ℕ) (xs ys : List ℕ) → length xs ≡ k → drop k (xs ++ ys) ≡ ys
drop_front k xs ys e = ap (λ (t : ℕ). drop t (xs ++ ys)) (sym e) ∙ drop-append xs ys

-- Five parts of the right lengths, read back.
parse-parts :
    (a b c ch pl : List ℕ)
    → length a ≡ 8
    → length b ≡ 2
    → length c ≡ 4
    → from_le_bytes b ≡ length ch
    → from_le_bytes c ≡ length pl
    → parse (a ++ (b ++ (c ++ (ch ++ pl)))) ≡ (from_le_bytes a, ch, pl)
parse-parts a b c ch pl la lb lc fb fc =
    let bs = a ++ (b ++ (c ++ (ch ++ pl))) in
    let e1 : drop 8 bs ≡ b ++ (c ++ (ch ++ pl)) = drop_front 8 a _ la in
    let e2 : drop 2 (drop 8 bs) ≡ c ++ (ch ++ pl) = ap (drop 2) e1 ∙ drop_front 2 b _ lb in
    let e3 : drop 4 (drop 2 (drop 8 bs)) ≡ ch ++ pl = ap (drop 4) e2 ∙ drop_front 4 c _ lc in
    let cl : from_le_bytes (take 2 (drop 8 bs)) ≡ length ch =
      ap (λ (x : List ℕ). from_le_bytes (take 2 x)) e1
      ∙ ap from_le_bytes (take_front 2 b _ lb)
      ∙ fb in
    let pn : from_le_bytes (take 4 (drop 2 (drop 8 bs))) ≡ length pl =
      ap (λ (x : List ℕ). from_le_bytes (take 4 x)) e2
      ∙ ap from_le_bytes (take_front 4 c _ lc)
      ∙ fc in
    let s : from_le_bytes (take 8 bs) ≡ from_le_bytes a = ap from_le_bytes (take_front 8 a _ la) in
    let q = ap₂ take cl e3 ∙ take-append ch pl in
    let r =
      ap₂ take pn (ap₂ drop cl e3 ∙ drop-append ch pl) ∙ take_all (length pl) pl (omega arith) in
    λ i. (s i, q i, r i)

parse-wire :
    (m : PlatformMsg)
    → m.seq < 2 ^ 64
    → length m.channel < 2 ^ 16
    → length m.payload < 2 ^ 32
    → parse (wire m) ≡ (m.seq, m.channel, m.payload)
unfolding wire
parse-wire m s c p =
    let cl = length m.channel % 2 ^ 16 in
    let pl = length m.payload % 2 ^ 32 in
    parse-parts (to_le_bytes 8 m.seq) (to_le_bytes 2 cl) (to_le_bytes 4 pl) m.channel m.payload
      (length-to_le_bytes 8 m.seq) (length-to_le_bytes 2 cl) (length-to_le_bytes 4 pl)
      (from_le_bytes-to_le_bytes 2 cl (omega arith) ∙ omega arith)
      (from_le_bytes-to_le_bytes 4 pl (omega arith) ∙ omega arith)
    ∙ ap (λ (x : ℕ). (x, m.channel, m.payload)) (from_le_bytes-to_le_bytes 8 m.seq (omega arith))

length-wire : (m : PlatformMsg) → length (wire m) ≡ 14 + length m.channel + length m.payload
unfolding wire
length-wire m =
    let cl = length m.channel % 2 ^ 16 in
    let pl = length m.payload % 2 ^ 32 in
    omega (
      arith,
      length-append (to_le_bytes 8 m.seq)
          (to_le_bytes 2 cl ++ (to_le_bytes 4 pl ++ (m.channel ++ m.payload))),
      length-append (to_le_bytes 2 cl) (to_le_bytes 4 pl ++ (m.channel ++ m.payload)),
      length-append (to_le_bytes 4 pl) (m.channel ++ m.payload),
      length-append m.channel m.payload,
      length-to_le_bytes 8 m.seq,
      length-to_le_bytes 2 cl,
      length-to_le_bytes 4 pl,
    )

-- The bytes that `recv_into` reports, read in the documented format, are the number, the channel and
-- the payload of the oldest message without a reply, if the buffer has room for them, the number fits
-- 64 bits, the channel's length 16 and the payload's 32.
pub parse-recv_into :
    (mb : MsgBox) (buf : List ℕ) (m : PlatformMsg)
    → find unanswered mb.msgs ≡ some m
    → 14 + length m.channel + length m.payload ≤ length buf
    → m.seq < 2 ^ 64
    → length m.channel < 2 ^ 16
    → length m.payload < 2 ^ 32
    → parse (take (recv_into buf mb).1 (recv_into buf mb).0) ≡ (m.seq, m.channel, m.payload)
unfolding recv_into
parse-recv_into mb buf m e room s c p =
    let g : ltb (length buf) (14 + length m.channel + length m.payload) ≡ false = ground arith in
    rw (e, recv_into, g)
      (ap parse (take_front _ (wire m) (drop (length (wire m)) buf) (length-wire m))
        ∙ parse-wire m s c p)
