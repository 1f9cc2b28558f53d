-- ===== src/Shared/Connection.antt =====
-- shared/nccp_connection.h and shared/nccp_connection.cc: messages on a stream of bytes, the life of a
-- connection, and the listener's list of connections. A message is sent as its length in four bytes
-- and its bytes.
pub mod Reads
pub mod Framing
pub mod Process
pub mod Examples
pub mod EndToEnd
use onldaemons.Prelude.{
  ℕ, zero, suc, ◌+◌, ◌*◌, ◌-◌, ◌%◌, ◌^◌, Bool, true, false, not, ◌&&◌, ◌||◌, Option, none, some,
  List, [], ◌∷◌, ◌++◌, leb, ◌==◌ as nat_eq, if◌then◌else◌, length, take, drop, get_or,
}
use onldaemons.Shared.ByteBuffer.{ByteBuffer, Buf, reset, payload}
use onldaemons.Shared.ByteBuffer.Emit.{bytes32}

-- What successive calls of read find on the socket: each list has arrived by one call, and the empty
-- list is the end of the stream or an error.
abbrev pub Stream : Type 0
Stream = List (List ℕ)

-- read(sockfd, .., n) returns what has arrived, and at most `n` bytes of it.
unfoldable pub read : ℕ → Stream → List ℕ × Stream
read n [] = ([], [])
read n (c ∷ cs) = if leb (length c) n then (c, cs) else (take n c, drop n c ∷ cs)

pub record Connection : Type 0 where
  pub closed : Bool
  pub finished : Bool
  -- an `int`, by its two's complement
  pub message_count : ℕ
  pub local_addr : ℕ
  pub local_port : ℕ
  pub remote_addr : ℕ
  pub remote_port : ℕ

-- nccp_connection(sfd, ..), of a socket that is connected
unfoldable pub accepted : ℕ → ℕ → ℕ → ℕ → Connection
accepted local_address local_portnum remote_address remote_portnum = record {
  closed = false;
  finished = false;
  message_count = 0;
  local_addr = local_address;
  local_port = local_portnum % 2 ^ 16;
  remote_addr = remote_address;
  remote_port = remote_portnum % 2 ^ 16;
}

infix 50 ◌==◌
unfoldable pub ◌==◌ : Connection → Connection → Bool
a == b =
    if nat_eq a.local_addr 0 || nat_eq a.local_port 0
    then false
    else if nat_eq b.local_addr 0 || nat_eq b.local_port 0
    then false
    else nat_eq a.local_addr b.local_addr
      && nat_eq a.local_port b.local_port
      && nat_eq a.remote_addr b.remote_addr
      && nat_eq a.remote_port b.remote_port

unfoldable pub close : Connection → Connection
close c = record c { closed = true }

-- ntohl of the first four bytes
unfoldable pub word : List ℕ → ℕ
word bs = get_or bs 0 0 * 2 ^ 24 + get_or bs 1 0 * 2 ^ 16 + get_or bs 2 0 * 2 ^ 8 + get_or bs 3 0

prepend : List ℕ → Option (List ℕ) × Stream → Option (List ℕ) × Stream
prepend b (none, s) = (none, s)
prepend b (some bs, s) = (some (b ++ bs), s)

-- while(num_bytes_read < msg_length): `need` bytes are missing. Every read that goes on brings a byte,
-- so `need` rounds are enough.
pub receive : ℕ → ℕ → Stream → Option (List ℕ) × Stream
unfolding read prepend
receive zero need s = (if nat_eq need 0 then some [] else none, s)
receive (suc fuel) need s =
    let (b, s') = read need s in
    let rest = receive fuel (need - length b) s' in
    if nat_eq need 0
    then (some [], s)
    else if nat_eq (length b) 0
    then (none, s')
    else prepend b rest

finish_message : Connection → Option (List ℕ) × Stream → Option (List ℕ) × Stream × Connection
unfolding close
finish_message c (none, s) = (none, s, close c)
finish_message c (some bs, s) = (some bs, s, c)

-- get_message, where the variable that takes the length holds the bytes `junk` before. The length is
-- read by a single call.
pub get_message : List ℕ → Stream → Connection → Option (List ℕ) × Stream × Connection
unfolding read word receive finish_message close
get_message junk s c =
    let (n, s') = read 4 s in
    let msg_length = word (n ++ drop (length n) junk) in
    let body = receive msg_length msg_length s' in
    if nat_eq (length n) 0
    then (none, s', close c)
    else if nat_eq msg_length 0
    then (none, s', close c)
    else finish_message c body

-- What send_message hands to the socket. `ok1` and `ok2` are whether the two calls of send succeed; a
-- call that succeeds takes all its bytes, as it does on a socket that blocks. The result is `none` where
-- the writer reaches outside the buffer.
sent_bytes :
    Bool → Bool → Connection → Option (Unit {0} × ByteBuffer) → Option (Bool × List ℕ × Connection)
unfolding close
sent_bytes ok1 ok2 c none = none
sent_bytes ok1 ok2 c (some (_, b)) = some (
    if nat_eq b.num_bytes_stored 0
    then (false, [], c)
    else if not ok1
    then (false, [], close c)
    else if not ok2
    then (false, bytes32 b.num_bytes_stored, close c)
    else (true, bytes32 b.num_bytes_stored ++ payload b, c))

-- message::send and nccp_connection::send_message, for the writer of a message and its buffer;
-- `attached` is whether the message has a connection.
pub send_message :
    Bool
    → Bool
    → Bool
    → Buf (Unit {0})
    → ByteBuffer
    → Connection
    → Option (Bool × List ℕ × Connection)
unfolding reset sent_bytes
send_message attached ok1 ok2 write buf c =
    if attached && not c.closed
    then sent_bytes ok1 ok2 c (write (reset buf))
    else some (false, [], c)

pub increment_msg_count : Connection → Connection
increment_msg_count c = record c { message_count = (c.message_count + 1) % 2 ^ 32 }

pub decrement_msg_count : Connection → Connection
decrement_msg_count c = record c { message_count = (c.message_count + 2 ^ 32 - 1) % 2 ^ 32 }

unfoldable pub has_outstanding_msgs : Connection → Bool
has_outstanding_msgs c = not (nat_eq c.message_count 0)

-- nccp_listener: its connections are objects with addresses.
pub record Listener : Type 0 where
  pub connections : List ℕ
  pub objects : ℕ → Connection

-- add_connection: the new object has the address `p`.
pub add_connection : ℕ → Connection → Listener → Listener
add_connection p c l = record {
  connections = l.connections ++ (p ∷ []);
  objects = λ q. if nat_eq p q then c else l.objects q;
}

-- The connections that stay, and those that are deleted.
sweep : (ℕ → Connection) → List ℕ → List ℕ × List ℕ
unfolding has_outstanding_msgs
sweep objects [] = ([], [])
sweep objects (p ∷ ps) =
    let (kept, deleted) = sweep objects ps in
    if (objects p).finished && not (has_outstanding_msgs (objects p))
    then (kept, p ∷ deleted)
    else (p ∷ kept, deleted)

-- ~nccp_connection of each deleted object: close().
delete_all : List ℕ → (ℕ → Connection) → ℕ → Connection
unfolding close
delete_all [] objects = objects
delete_all (p ∷ ps) objects =
    delete_all ps (λ q. if nat_eq p q then close (objects q) else objects q)

pub cleanup : Listener → Listener × List ℕ
unfolding sweep delete_all
cleanup l =
    let (kept, deleted) = sweep l.objects l.connections in
    (record l { connections = kept; objects = delete_all deleted l.objects }, deleted)
