-- ===== src/Lib.antt =====
-- LibSmoke: secured communication among the nodes of a building automation network, over a stream
-- socket or a serial line that carries KNX telegrams.
--
-- The program's parts, and the files that model them (paths from the repository's root, K for
-- Project/libsmoke/libs/sknx/src/shared/knx):
--   K/ringbuffer.h: Ring. A byte ring; each method returns the new ring beside its result.
--     Ring/Queue is the queue that it promises, Ring/Bounds the invariant, Ring/Refine the
--     refinement, Ring/Client what the other parts use of it.
--   K/telegram.h: Telegram. One telegram, its checksum (Telegram/Xor, Telegram/Checksum), the byte
--     order (Telegram/Endian, from K/common.h) and its bytes on the wire (Telegram/Wire).
--   K/multirings.h: MultiRings. The table of one ring for each sender. A pointer that `get` returns
--     is the index of a slot.
--   K/pktwrapper.h: PktWrapper. Packets are cut into telegrams (PktWrapper/Packetize) and put
--     together again (PktWrapper/Extract, PktWrapper/Recompose); `update` over any backend is in
--     PktWrapper/Update, and PktWrapper/Delivery and PktWrapper/OverTcp follow a packet from one
--     node to another. PktWrapper/Foreign is about whose packets a node gets.
--   K/backend: Backend. The interface, the loop that cuts a byte stream into telegrams
--     (Backend/Framing) and the classes LinuxTCP, LinuxUART and LinuxTPUART (below
--     Backend/LinuxTpuart: Init, and the receiver on well-formed input in Items and on other input in
--     Stuck). What a system call returns is an argument of the operation that makes it.
--   K/nodecounter: NodeCounter. The interface and DummyNodeCounter (NodeCounter/Dummy), over sets of
--     ids as increasing lists (NodeCounter/NodeSet).
--   K/crypto: KeyExchange. The interface of crypto.h, the chooser of policies.h
--     (KeyExchange/Policies) and the circle of nodes of gdh2_utils.h (KeyExchange/Neighbours);
--     bd2_utils.h is KeyExchange/Bd2Utils (below it Sends, Answers and SameKey follow the packets
--     of a chair and a node, and Exports the keys of a behavior), and bd2.h is KeyExchange/Bd2
--     (KeyExchange/Bd2/Status and Keyed have its status and its key);
--     mka.h is KeyExchange/Mka, where a write past the end of a vector is a missing result, and
--     Bounds, Steps and Update below it show that there is none, and Begin, Pair and SameKey follow two
--     nodes; bd1.h is KeyExchange/Bd1, with the order of the values in KeyExchange/Bd1/Order;
--     gdh2_utils.h is KeyExchange/Gdh2Utils, and gdh2.h KeyExchange/Gdh2.
--   K/config.h: DeviceConfig, the id and the random generator of a device (DeviceConfig/Offline: what a
--     generator that did not start means for MKA).
--   K/knx.h: Sknx. The status machine over any backend, counter and key exchange; Sknx/Machine has its
--     moves, Sknx/Keyed what holds in every reachable state.
--   Project/libsmoke/src/libsmoke_server.h: Server. One run as a function of what the system calls
--     return; undefined behaviour is a missing result. Server/Run has what holds between runs,
--     Server/Broadcast what the clients are sent.
--   Project/libsmoke/libs/sknx/libs/sban: Sban. The operations of polarssl are a record; src/bd2.c is
--     Sban/Bd2, Sban/Bd2/Agreement says what each function computes, Sban/Bd2/Wire what is sent in a
--     longer buffer, and Sban/Bd2/SameKey follows one run. src/mka.c is Sban/Mka, with its rounds
--     in Sban/Mka/Rounds and a run of two parties in Sban/Mka/SameKey. src/bd1.c is Sban/Bd1: the key
--     as a sum over the circle of nodes is in Sban/Bd1/Sum, and two nodes that come to it in
--     Sban/Bd1/SameKey. src/gdh2.c is Sban/Gdh2, with the lists of points in Sban/Gdh2/Values, a node
--     in the middle in Sban/Gdh2/Middle and the last one in Sban/Gdh2/SameKey; it takes its secret from
--     src/util.c, Sban/Util. Sban/Toy is a small group that the tests run on.
--   Project/libsmoke/src/libsmoke_client.h: ClientSmoke. AES is a parameter; ClientSmoke/Init has what a
--     successful `init` means.
-- PKTWrapper owns a MultiRings of RingBuffers and calls a Backend; a Backend owns a RingBuffer and
-- a queue of telegrams. SKNX owns a PKTWrapper, a node counter and a key exchange that both read and
-- write packets through it.
--
-- Numbers are natural numbers; `size_t` additions are taken modulo 2^64, 16-bit and 8-bit values
-- modulo their width where the source can leave it. Memory that the source leaves uninitialised is
-- an argument (`junk`). Loops run on fuel: `_recompose` and `_process_packet` get the size of the
-- ring plus one, and each round takes three or seven bytes; `get` calls itself once at most, so it
-- gets two; the loop of `update` over a backend gets what the caller gives it, and ends after as
-- many rounds as there are telegrams when the backend is ready; so an update of SKNX has a result
-- only if that loop ends. The loops of LinuxTPUART get what the caller gives them, since they need
-- not end. `ecp_gen_privkey` gets 31 rounds, of which it makes at most that many.
--
-- Not modelled: polarssl and tiny-AES-c (third-party code), the MIOSIX drivers, logging and
-- benchmarks, the branch of src/util.c of sban for Montgomery curves. What a library call has written
-- when it fails is not modelled.
pub mod DeviceConfig
pub mod Base
pub mod Ring
pub mod Telegram
pub mod MultiRings
pub mod PktWrapper
pub mod Backend
pub mod NodeCounter
pub mod KeyExchange
pub mod Sknx
pub mod Server
pub mod Sban
pub mod ClientSmoke
