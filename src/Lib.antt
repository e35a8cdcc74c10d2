-- ===== src/Lib.antt =====
-- A model of the Go library `share` in a cubical type theory, with proofs.
--
-- The library is a set of packages under lib/. This development models the packages below; a
-- function that changes its receiver returns the changed receiver, an error or a missing value is an
-- Option or a case of a data type, a panic by an index out of range is `none` or a case of its own,
-- and a number of w bits is a natural number that wraps where the source wraps.
--
-- Base: tests, lists, slices, words, bits and integers that the parts share.
-- Ascii: lib/ascii/ascii.go, tests and case of single bytes. Random is given the numbers that
--   math/rand returns.
-- Bytes: lib/bytes/bytes.go. Bytes/Integers: AppendInt16 and its kin, ReadInt16 and its kin,
--   WriteUint16 and WriteUint32, Copy. Bytes/Hex: ReadHexByte. Bytes/Token: IsTokenAt and TokenFind.
--   Bytes/Cut: CutUntilToken and SkipAfterToken. Bytes/Enclose: EncloseRemove and EncloseToken.
--   Bytes/Search: InReplace, Indexes, WordIndexes and SnippetByIndexes. Concat, which looks at Go
--   types, and PrintHex, which prints, are not modelled.
-- Websocket/Frame: lib/websocket/frame.go. The record Frame has the fields of the source; pack is
--   Frame.pack, with the number that rand.Uint32 returns; unpack, in Websocket/Frame/Unpack, is
--   Frame.unpack, as the parts that its comments name: the header (read_header), the mask key
--   (read_key) and the payload (read_payload), each of which may stop at the end of the packet; a
--   mask key of more than four bytes panics in read_key, where the source slices below 0. The bytes
--   of the packet that are unmasked in place are those that unpack cuts off.
--   Websocket/Frame/New: NewFrame and its kin.
-- Websocket/Frames: lib/websocket/frames.go. unpack_loop, the loop of Unpack, has the length of the
--   packet as fuel, which is enough because every call of Frame.unpack takes a byte.
-- Websocket/Server: lib/websocket/server.go, with finFrames of lib/websocket/clientmanager.go. Conn is
--   what the maps frame and frames of the client manager hold for one connection; the calls of one
--   connection touch no other's entries. Send, Recv, the handlers and ClientRemove are effects in a
--   list, in the order of the calls. refuse is handleBadRequest and handleInvalidData; read_packet is
--   one round of reader, from the packet on, with handle_frames for its inner loop, resume_frame for
--   the chopped frame and read_frames for Unpack and what follows. utf8.Valid, whether Send succeeds
--   and the settings of the server are parameters, in the record Options.
-- Websocket/Client: lib/websocket/client.go, from handleRaw on, with clientOnClose and clientOnPing as
--   the handlers of CLOSE and PING. client_refuse is handleBadRequest and handleInvalidData. The mask
--   keys come from a sequence of random numbers, of which the client counts those it has drawn.
-- Websocket/Manager: lib/websocket/clientmanager.go over all connections, with IsExist and Remove of
--   lib/ints/ints.go. The maps are functions into options; a context is the number of the user that it
--   names, 0 where it names none.
-- Dns: lib/dns, messages and their parts. Dns/Result has the errors; panic is a panic by an index out
--   of range or a nil pointer, and no_fuel the end of the fuel of a definition that has some.
-- Dns/Name: packDomainName and compress of lib/dns/message.go, with the fields of Message that they
--   change in Packer (msg.dname is an argument), and unpackDomainName of lib/dns/resourcerecord.go.
--   The map dnameOff is the list of its writes. unpack_name has fuel because the source follows
--   pointers without a bound; a name that stands in the packet takes one unit for each of its labels
--   and pointers and one for its end, which calls counts. What stands in a packet is said of a view,
--   from places to bytes, so that the two bytes of a length that is written last can be left out.
-- Dns/Header and Dns/Question: lib/dns/sectionheader.go and lib/dns/sectionquestion.go. scan, the loop
--   of SectionQuestion.unpack, has the length of the packet as fuel, which is enough because each round
--   takes a byte.
-- Dns/Record: lib/dns/resourcerecord.go and the types of the lib/dns/rdata*.go files; a pointer that
--   can be nil is an Option. Dns/Record/Pack is packRR and packRData of lib/dns/message.go with the
--   functions for each type, Dns/Record/Unpack is ResourceRecord.unpack with its. net.ParseIP, IP.To4
--   and IP.String are parameters, in the record Net. A slice that is cut past its length but
--   within its capacity is taken to panic. packDomainName makes the slice that it is given small in
--   place: pack_question, in Dns/Message, and pack_rr give their names back small, with lowered_data
--   for the names in the data. Other slices that share their memory are not followed.
-- Dns/Message: the rest of lib/dns/message.go but String; Dns/Message/Flags has the setters and SubTTL.
--   unpack has the fuel of unpack_name for each name. What an error leaves in a message is not kept.
-- Dns/Answers: lib/dns/answers.go, and lib/dns/answer.go but its field el; find is answers.get, and
--   answer_packet is answer.get. What the clock tells is an argument.
-- Tests: runs and instances at concrete inputs.
--
-- The parts use each other so: Websocket/Server and Websocket/Client call Websocket/Frames to unpack a
-- packet and to put fragments together, which calls Websocket/Frame for each frame. Dns/Message calls
-- Dns/Header, Dns/Question and, for each record, Dns/Record, which call Dns/Name and Bytes/Integers.
--
-- Not modelled: sockets and polling, the HTTP upgrade, the routes and JSON messages of the WebSocket
-- server, the client's connection and handshake, the servers, clients, caches.go and the zone files of
-- lib/dns, and the other packages of lib/ and cmd/.
pub mod Base
pub mod Ascii
pub mod Bytes
pub mod Dns
pub mod Websocket
mod Tests
