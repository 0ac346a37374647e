-- ===== src/Lib.antt =====
-- FMTPv3 (UnidataFMTP/FMTPv3): a file multicast protocol. A sender multicasts each product as a BOP, data
-- packets and an EOP over UDP, and keeps it for a while; each receiver puts the packets together, asks
-- for what it misses on a TCP connection of its own, and says there when it has the product. The first
-- version of the protocol (UnidataFMTP/protocol) does the same for files, with requests for ranges.
--
-- Parts, and where they are modelled (files of UnidataFMTP/FMTPv3):
--   FmtpBase, FmtpBase/*              fmtpBase.h, and the wire format of the header and of the BOP as
--                                     both sides read and write it: encode_header, decode_header,
--                                     encode_bop, parse_bop
--   ProdSegMng, ProdSegMng/*          receiver/ProdSegMNG.{h,cpp}: the missing bytes of each product;
--                                     a method addProd is add_prod, and so on. Segments is the map,
--                                     Gaps its invariant, Set and Outcome what `set` does and answers,
--                                     Aligned and Blocks the blocks, Table and Lifecycle the table of
--                                     products, Transfer a whole transfer
--   Receiver, Receiver/*              receiver/fmtpRecvv3.{h,cpp}: State, the requests, BOP and EOP
--                                     (Product), the multicast thread, the retransmission thread
--                                     (Unicast), the other threads; then what is proved of them
--   SenderMetadata, SenderMetadata/*  sender/senderMetadata.{h,cpp}: the products that are kept
--   ProdIndexDelayQueue               sender/ProdIndexDelayQueue.{h,cpp}: which product is given up when
--   SilenceSuppressor                 SilenceSuppressor/SilenceSuppressor.cpp
--   Sender, Sender/*                  sender/fmtpSendv3.{h,cpp}: sendProduct and what it calls
--                                     (Multicast), the answers to requests and the timer (Unicast)
--   Sender/UdpSerializer, and below   the serializer of sender/fmtpSendv3.{h,cpp} and sender/Serializer.h:
--                                     Refine is what it promises, Bop the BOP that it sends
--   Protocol, Protocol/*              UnidataFMTP/protocol, the first version of the protocol:
--                                     FMTPSender.{h,cpp} and FmtpSenderMetadata.{h,cpp} (FmtpSender),
--                                     FMTPReceiver.{h,cpp} (FmtpReceiver), memory transfers of both
--                                     (Memory), the three schemes of retransmission of a file
--                                     (FileRetrans, RoundRobin, Parallel), and a whole file
--                                     (Serving, Transfer)
--   Prelude, Prelude/*                lists, tests, machine words, maps, memory
--   Examples, Examples/*              tests
--
-- State. Each component is a record, each method a function from the state to the new state, what is
-- done to the outside (Output of the sender, Action of the receiver, in order) and how it ends. What
-- comes from outside is an argument: packets, the bytes that a socket gives, whether it takes a packet
-- (`ok`), the time, the address that the application answers for a product. An exception is a value;
-- the state at the throw is kept. Sender and receiver use the segment size of fmtpBase.h, 1448 bytes.
--
-- Numbers are natural numbers; uint32_t and uint16_t arithmetic is written with its wrap-around (add32,
-- sub32, to_u16).
--
-- Loops run on fuel. send_data has one unit for each byte, and each round sends at least one.
-- request_any_missing_data has one for each byte up to the most recent packet; that is enough where
-- the loop does not leave the range of uint32_t, which the theorem states. request_missing_bops has one
-- for each index of the interval. The fuel of retransmit is an argument; 2 ^ 32 is enough for every
-- request, since each round takes at least one of less than 2 ^ 32 bytes. The loops of the first version
-- (transfer_loop, mapped_loop, retrans_loop) have one unit more than the bytes that remain, and
-- sort_loop one for each socket.
--
-- Threads. A method of ProdSegMNG and of senderMetadata holds its lock from start to end, and is one
-- step. A handler of a thread of the sender or of the receiver is one step here too; interleavings
-- inside it, between its locks, are not modelled. The threads of the parallel retransmission of the
-- first version go on in any order (Protocol/Parallel): a step is what one of them does at a time.
-- SenderMetadata/Calls has the methods in any order, from any thread.
--
-- The first version writes files through descriptors: an open file is its bytes and one position, which
-- the descriptor of retransmitted data shares, since it is a `dup`. SysError of that version prints and
-- goes on, so a failed call has no other branch. Its retransmission timeouts are an argument.
--
-- Not modelled: sockets, thread creation and cancellation, logs, measurements, rate shaping and the
-- length of the receiver's timer (floating point), and exceptions of the application. Of the first
-- version: files received with buffered or memory-mapped input, TCP transfers,
-- statistics, the experiment managers and the status proxies.
pub mod Prelude
pub mod FmtpBase
pub mod ProdSegMng
pub mod SenderMetadata
pub mod SilenceSuppressor
pub mod ProdIndexDelayQueue
pub mod Sender
pub mod Protocol
pub mod Receiver
pub mod Examples
