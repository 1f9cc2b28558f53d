-- ===== src/Npr/Packets/Errors/Packet.antt =====
-- ixp/npr/nprd_ipv4.cc: the new packet of an ICMP error in memory, and whether its checksums hold.
use onldaemons.Prelude.{ℕ, ◌+◌, ◌*◌, ◌%◌, ◌^◌, ◌<◌, ◌≡◌, sym, ap, ◌∙◌}
use onldaemons.Prelude.{
  List, [], ◌∷◌, ◌++◌, All, length, length-append, append_assoc, append-nil, lt→ltb, ltb,
  if◌then◌else◌, arith,
}
use onldaemons.Npr.Packets.Checksum.{Word}
use onldaemons.Npr.Packets.Memory.{Bank, IsMemory, read_in, write_out}
use onldaemons.Npr.Packets.Memory.RoundTrip.{write_out-append}
use onldaemons.Npr.Packets.Memory.Prefix.{read_in-prefix}
use onldaemons.Npr.Packets.Errors.{write_packet}
use onldaemons.Npr.Packets.Errors.Checksums.{All-append}

module _ (m : Bank) (w : IsMemory m) where
  -- A write at the address where the last one ended continues it.
  follow :
      (addr next : ℕ) (xs ys : List ℕ) (d : m.Store)
      → 0 < length xs
      → 0 < length ys
      → next ≡ addr + 4 * length xs
      → addr + 4 * (length xs + length ys) + 4 < 2 ^ 32
      → write_out m next ys (write_out m addr xs d) ≡ write_out m addr (xs ++ ys) d
  follow addr next [] ys d h k e b = absurd (omega arith)
  follow addr next (x ∷ xs) [] d h k e b = absurd (omega arith)
  follow addr next (x ∷ xs) (y ∷ ys) d h k e b =
      let len = length-append (x ∷ xs) (y ∷ ys) in
      ap (λ a. write_out m a (y ∷ ys) (write_out m addr (x ∷ xs) d)) e
      ∙ write_out-append m w xs addr x y ys d (omega arith)

  with_options :
      (addr : ℕ) (icmp hdr opts : List ℕ) (e : m.Store)
      → length icmp ≡ 2
      → length hdr ≡ 5
      → addr + 48 + 4 * length opts + 4 < 2 ^ 32
      → (if ltb 0 (length opts)
          then write_out m ((addr + 48) % 2 ^ 32) opts (write_out m (addr + 20) (icmp ++ hdr) e)
          else write_out m (addr + 20) (icmp ++ hdr) e)
        ≡ write_out m (addr + 20) ((icmp ++ hdr) ++ opts) e
  with_options addr icmp hdr [] e i h b =
      ap (λ ws. write_out m (addr + 20) ws e) (sym (append-nil (icmp ++ hdr)))
  with_options addr icmp hdr (o ∷ opts) e i h b =
      let len = length-append icmp hdr in
      ap
        (λ b.
          if b
          then write_out m ((addr + 48) % 2 ^ 32) (o ∷ opts)
              (write_out m (addr + 20) (icmp ++ hdr) e)
          else write_out m (addr + 20) (icmp ++ hdr) e)
        (lt→ltb 0 (length (o ∷ opts)) (omega arith))
      ∙ follow (addr + 20) ((addr + 48) % 2 ^ 32) (icmp ++ hdr) (o ∷ opts) e (omega arith)
          (omega arith) (omega arith) (omega arith)

  -- The writes of a packet are one write of all behind the IP header.
  pub write_packet_lem :
      (addr : ℕ) (ip icmp hdr opts words : List ℕ) (d : m.Store)
      → length ip ≡ 5
      → length icmp ≡ 2
      → length hdr ≡ 5
      → 0 < length words
      → addr + 48 + 4 * (length opts + length words) + 4 < 2 ^ 32
      → write_packet m addr ip icmp hdr opts words d
        ≡ write_out m (addr + 20) (icmp ++ (hdr ++ (opts ++ words))) (write_out m addr ip d)
  unfolding write_packet
  write_packet_lem addr ip icmp hdr opts words d p i h k b =
      let e = write_out m addr ip d in
      let n = length opts in
      let len1 = length-append icmp hdr in
      let len2 = length-append (icmp ++ hdr) opts in
      let here : (addr + 20) % 2 ^ 32 ≡ addr + 20 = omega arith in
      let headers : write_out m ((addr + 28) % 2 ^ 32) hdr
            (write_out m ((addr + 20) % 2 ^ 32) icmp e)
          ≡ write_out m (addr + 20) (icmp ++ hdr) e =
        ap (λ a. write_out m ((addr + 28) % 2 ^ 32) hdr (write_out m a icmp e)) here
        ∙ follow (addr + 20) ((addr + 28) % 2 ^ 32) icmp hdr e (omega arith) (omega arith)
            (omega arith) (omega arith) in
      let last = (addr + 48 + n * 4) % 2 ^ 32 in
      ap
        (λ x.
          write_out m last words (if ltb 0 n then write_out m ((addr + 48) % 2 ^ 32) opts x else x))
        headers
      ∙ ap (write_out m last words) (with_options addr icmp hdr opts e i h (omega arith))
      ∙ follow (addr + 20) last ((icmp ++ hdr) ++ opts) words e (omega arith) (omega arith)
          (omega arith) (omega arith)
      ∙ ap (λ ws. write_out m (addr + 20) ws e)
          (append_assoc (icmp ++ hdr) opts words ∙ append_assoc icmp hdr (opts ++ words))

  -- What the header's address and the one behind it hold then.
  pub header_stays :
      (addr : ℕ) (ip body : List ℕ) (d : m.Store)
      → length ip ≡ 5
      → 0 < length body
      → All Word ip
      → All Word body
      → addr + 4 * (5 + length body) + 4 < 2 ^ 32
      → read_in m addr 5 (write_out m (addr + 20) body (write_out m addr ip d)) ≡ ip
  header_stays addr [] body d p k u v b = absurd (omega arith)
  header_stays addr (x ∷ xs) body d p k u v b =
      let len = length-append xs body in
      ap (read_in m addr 5)
        (follow addr (addr + 20) (x ∷ xs) body d (omega arith) k (omega arith) (omega arith))
      ∙ ap (λ n. read_in m addr n (write_out m addr (x ∷ xs ++ body) d)) (sym p)
      ∙ read_in-prefix m w addr x xs body d (All-append (x ∷ xs) body u v) (omega arith)
          (omega arith)
