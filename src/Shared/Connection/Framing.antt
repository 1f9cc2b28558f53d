-- ===== src/Shared/Connection/Framing.antt =====
-- A message that is sent over a stream is received whole, however the stream is cut into reads.
use onldaemons.Prelude.{
  ℕ, ◌^◌, ◌<◌, ◌≤◌, ◌≡◌, ◌∙◌, ap, sym, refl, true, false, Option, none, some, List, [], ◌∷◌, ◌++◌,
  append-nil, leb, ◌==◌ as nat_eq, length, drop, arith, Bool-cases, inl, inr, length-append,
  length-take, leb→le,
}
use onldaemons.Shared.ByteBuffer.Emit.{bytes32}
use onldaemons.Shared.Connection.{
  Stream, read, Connection, close, word, finish_message, get_message,
}
use onldaemons.Shared.Connection.Reads.{
  concat, Alive, read-Reads, prefix, Takes, receive-Takes, receive_short,
}

read-length :
    (n : ℕ) (first : List ℕ) (s : Stream) → n ≤ length first → length (read n (first ∷ s)).0 ≡ n
unfolding read
read-length n first s h = elim (Bool-cases (leb (length first) n)) [
  | inl e ↦ let le = leb→le _ _ e in rw e (omega arith)
  | inr e ↦ rw e (length-take n first h)
]

word-bytes32 : (n : ℕ) (ys : List ℕ) → n < 2 ^ 32 → word (bytes32 n ++ ys) ≡ n
unfolding word bytes32
word-bytes32 n ys h = omega arith

header_read :
    (n : ℕ) (rest first : List ℕ) (s : Stream)
    → Alive (first ∷ s)
    → 4 ≤ length first
    → concat (first ∷ s) ≡ bytes32 n ++ rest
    → ((read 4 (first ∷ s)).0 ≡ bytes32 n)
      × (concat (read 4 (first ∷ s)).1 ≡ rest)
      × Alive (read 4 (first ∷ s)).1
unfolding bytes32 concat
header_read n rest first s alive whole e =
    let size = length-append first (concat s) in
    let r = read-Reads 4 (first ∷ s) (omega arith) alive (omega arith) in
    let four = read-length 4 first s whole in
    let b = (read 4 (first ∷ s)).0 in
    let p =
      prefix b (bytes32 n) (concat (read 4 (first ∷ s)).1) rest (omega arith) (sym r.split ∙ e) in
    let none_left : drop (length b) (bytes32 n) ≡ [] = rw four refl in
    (sym (append-nil b) ∙ ap (λ z. b ++ z) (sym none_left) ∙ p.0, p.1 ∙ rw none_left refl, r.alive)

finish_message-Takes :
    (c : Connection) (bytes rest : List ℕ) (r : Option (List ℕ) × Stream)
    → Takes bytes rest r
    → (s' : Stream) × (finish_message c r ≡ (some bytes, s', c)) × (concat s' ≡ rest) × Alive s'
unfolding finish_message
finish_message-Takes c bytes rest (none, s) t = absurd (let g = t.got in cc)
finish_message-Takes c bytes rest (some x, s) t =
    let g : x ≡ bytes = (let e = t.got in cc e) in (s, ap (λ y. (some y, s, c)) g, t.left, t.alive)

-- However the bytes of a message, framed by their length, and the bytes behind them come in by reads,
-- get_message returns exactly the message, the connection stays open, and the bytes behind it stay on
-- the stream. The length is not 0 and below 2 ^ 32, and its four bytes come in by one read; what the
-- variable of the length held before does not matter.
pub get_message_framed :
    (junk bytes rest first : List ℕ) (s : Stream) (c : Connection)
    → 0 < length bytes
    → length bytes < 2 ^ 32
    → Alive (first ∷ s)
    → 4 ≤ length first
    → concat (first ∷ s) ≡ bytes32 (length bytes) ++ (bytes ++ rest)
    → (s' : Stream) × (get_message junk (first ∷ s) c ≡ (some bytes, s', c))
      × (concat s' ≡ rest)
      × Alive s'
unfolding get_message bytes32
get_message_framed junk bytes rest first s c pos short alive whole e =
    let h = header_read (length bytes) (bytes ++ rest) first s alive whole e in
    let known = word-bytes32 (length bytes) (drop 4 junk) short in
    let some_bytes : nat_eq (length bytes) 0 ≡ false = ground arith in
    let body =
      receive-Takes (length bytes) bytes rest (read 4 (first ∷ s)).1 (omega arith) h.2 h.1 in
    rw (h.0, known, some_bytes) (finish_message-Takes c bytes rest _ body)

finish_message-none :
    (c : Connection) (r : Option (List ℕ) × Stream)
    → r.0 ≡ none
    → ((finish_message c r).0 ≡ none) × ((finish_message c r).2 ≡ close c)
unfolding finish_message
finish_message-none c (none, s) e = (refl, refl)
finish_message-none c (some x, s) e = absurd (cc e)

-- A stream starts with the four bytes of a length below 2 ^ 32, which the first read finds all, and
-- ends before as many bytes have come in behind them. Then get_message returns no message and the
-- connection is closed.
pub get_message_cut :
    (junk part first : List ℕ) (s : Stream) (c : Connection) (n : ℕ)
    → n < 2 ^ 32
    → Alive (first ∷ s)
    → 4 ≤ length first
    → concat (first ∷ s) ≡ bytes32 n ++ part
    → length part < n
    → ((get_message junk (first ∷ s) c).0 ≡ none)
      × ((get_message junk (first ∷ s) c).2.closed ≡ true)
unfolding get_message bytes32 close
get_message_cut junk part first s c n short alive whole e few =
    let h = header_read n part first s alive whole e in
    let known = word-bytes32 n (drop 4 junk) short in
    let some_bytes : nat_eq n 0 ≡ false = ground arith in
    let stops =
      finish_message-none c _
        (receive_short n n (read 4 (first ∷ s)).1 (omega arith) h.2 (rw h.1 few)) in
    rw (h.0, known, some_bytes) (stops.0, ap (λ (x : Connection). x.closed) stops.1)
