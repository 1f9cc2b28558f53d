-- ===== src/Lib.antt =====
-- The daemons of the Open Network Laboratory: C++ processes on the machines of a testbed that control
-- routers, hosts and switches. They speak one protocol, NCCP, over TCP. A daemon registers the classes
-- of its messages with the dispatcher; a connection reads a message, the dispatcher makes the object
-- of its class from the bytes, and the object is handled by a thread. A request that is sent gets a
-- rendezvous marker, and the thread that sent it waits until a response with the marker arrives.
--
-- Which file models which part (paths from the root of the repository):
--   * Shared.ByteBuffer: shared/byte_buffer.{h,cc}. A byte_buffer is a record of its two sizes, its
--     index and its array as a function; an operator is a step `Buf A`, from a buffer to an optional
--     value and buffer, and `none` is an access outside the array, which C++ leaves undefined.
--     put8 to put_timeval are the operators <<, get8 to get_timeval the operators >>; the octets of a
--     word stand in network order. Emit, Holds, Octets, Payload and Growth carry the codecs' proofs:
--     what an operator appends, what it reads from bytes that stand ahead, and when it fits.
--   * Shared.NccpString, Shared.OnlTypes, Shared.Params: shared/onl_types.{h,cc}, the strings of at
--     most 255 bytes and the records of the protocol; put_X and get_X are the operators << and >> of
--     the class X. Shared.SwitchTypes: shared/switch_types.{h,cc}. Shared.RoundTrip joins the codecs.
--   * Shared.Rendezvous: shared/rendezvous.{h,cc}, a marker, its order and its wire form.
--   * Shared.Message: shared/message.{h,cc}. parse_X and write_X are the methods parse and write of
--     the class X, receive_buffer is the constructor from received bytes.
--   * Shared.OnlRequests: shared/onl_requests.{h,cc}, the requests to the daemons of the machines, whose
--     parse and write go behind those of their base classes.
--   * Shared.SwitchRequests: shared/switch_requests.{h,cc}, the requests to the daemon of the switches.
--   * Shared.Dispatcher: shared/dispatcher.{h,cc}. The map of markers is an association list that
--     compares keys as std::map does, by operator< alone; requests are objects with addresses. Fresh
--     has the histories of operations that other threads run, Delivery the paths of responses, Wait
--     and Leftover the methods wait_for_response and send_and_wait of shared/message.cc.
--   * Shared.Connection: shared/nccp_connection.{h,cc}. A stream is the list of what successive calls of
--     read find. get_message and send_message are the framing (Reads, Framing, EndToEnd);
--     process_message, the loop of periodic requests and the counts of messages are in Process, and
--     the clean-up of nccp_listener in Connection and Process.Counts.
--   * Shared.Time: timespec_add and timespec_diff of shared/util.cc.
--   * Nmd.Vlans: nmd/nmd_types.{h,cc}, the VLANs that the daemon of the switches gives to sessions and
--     takes back. Ports and Clear have the operations on a VLAN and a session, Lookups which VLANs they
--     need to find; Handlers runs the requests of nmd/nmd_requests.cc, over which Accounts and Alloc
--     follow the free list and Keeps and Owners the ids that sessions hold, Steps and Frees the ports
--     of each VLAN through clear_session, Race its last loop against another thread's add_vlan.
--   * Npr: ixp/npr/nprd_configuration.{h,cc}, the daemon of a router with a network processor. FreeList has
--     the ranges of free indexes (Holders the histories of taking and giving back), Classes which
--     indexes of the TCAM stand for which prefix length or priority, Tcam the state and the monad of
--     the operations, where an exception keeps what was changed, Entries what adding, deleting and
--     querying have in common, Routes, Filters and Arps the operations. The TCAM daemon is its answers.
--   * Npr.Packets: ixp/npr/nprd_ipv4.{h,cc}, what that daemon does with packets of its own. Checksum has
--     the loop over words, Memory read_in and write_out over a bank of words (a record of two operations
--     with laws), Errors send_ttl_expired and send_no_route, which have one body with three parameters,
--     and Errors.Verify what a receiver of the new packet finds; Echo handle_local_delivery. The count
--     of 2 ^ 30 of its loop is enough for an ip_len from 4 on, since j goes up by 4 below 2 ^ 32.
--   * Database.Topology: database/src/topology.{h,cc} and internal.h. A shared_ptr is an address in a store.
--     Links and Lookup have the other operations; Named, Adopt, Parents, Placed, Nodes, Ends,
--     Joined and Operations show that the two lists implement maps from labels and what else changes,
--     Orphans what a refused node leaves.
--   * Prelude: tests on numbers, lists, texts and integers, which the components share.
--
-- Numbers are natural numbers below the size of their C++ types, with the wrap-around of the code
-- written out; where a theorem needs the bound it is a record of the component (IsComponent and so
-- on). The loop of get_message runs on the length of the message as fuel, since every read that goes
-- on brings a byte. The other loops are over lists, over a count read from the message, or over the
-- returns of pthread_cond_timedwait and the rounds of a periodic request, which are given as lists, so
-- that a loop whose list is used up has no result yet. The bound 2 ^ 32 on histories keeps a sequence
-- number from coming round.
--
-- Not modelled: floating-point numbers and atof (parameters of Shared.Params), logs, locks (each
-- operation of the dispatcher is one step), the setting up of sockets, partial sends, the handlers of
-- the daemons that run shell commands, SQL or SNMP, and the copies of other projects below proxy/wusrc.
pub mod Prelude
pub mod Shared
pub mod Nmd
pub mod Npr
pub mod Database
