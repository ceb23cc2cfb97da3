-- ===== src/Lib.antt =====
-- ferropipe-rdp: a client library for the Remote Desktop Protocol.
--
-- The program is a stack. A TPKT packet (src/tpkt.rs) carries an X.224 PDU (src/x224.rs), whose
-- connection PDUs carry the security negotiation (src/nego.rs), and whose data PDUs carry the PDUs
-- of the MCS. Connect-Initial and Connect-Response (src/mcs/connect.rs, encoded by src/mcs/ber.rs)
-- wrap the GCC data blocks (src/gcc.rs); the domain PDUs (src/mcs/domain.rs, with lengths of
-- src/mcs/per.rs) carry Client Info (src/info.rs), the share PDUs (src/pdu.rs) and the capability
-- sets (src/caps.rs). The connection sequence (src/connection.rs) sends and takes all of these over
-- a transport, from Connect-Initial to the finalization.
--
-- Before the MCS comes the authentication, whose CredSSP messages (src/nla/credssp.rs) are DER
-- (src/nla/der.rs). Static virtual channels (src/vchannel.rs) split and reassemble messages over
-- the domain, and the channel drdynvc multiplexes the dynamic channels (src/dvc.rs), one of which
-- is the graphics pipeline (src/egfx.rs). The multitransport bootstrap (src/multitransport.rs) and
-- the tunnel (src/emt.rs) hand a session over to UDP. Fast-path PDUs go beside the MCS: input
-- (src/input.rs) and output (src/graphics/fastpath.rs), whose updates the display
-- (src/graphics/update.rs) reassembles and applies: bitmap rectangles (src/graphics/bitmap.rs),
-- decoded by the interleaved run-length codec (src/graphics/rle.rs) or the planar one
-- (src/graphics/planar.rs) and copied into the framebuffer (src/graphics/framebuffer.rs), and
-- pointer shapes (src/graphics/pointer.rs).
--
-- Shared modules. Common, with Common/Tests, Common/Lists, Common/Bits and Common/Utf8, has the
-- numbers, lists, tests and bit masks. Outcome has the crate's Error and the Result of a call,
-- whose third case is a panic: an index or slice out of range. Wire is the interface of the `bytes`
-- crate, the operations `ByteOps` and their documented behaviour `ByteLaws`, which operations over
-- plain lists meet; it is the only code outside the repository that the models use, but for the
-- hash SHA-256, a parameter of the binding hashes. Text is its UTF-8 bytes. Transport has the trait
-- `PduTransport` of src/connection.rs as an interface: its implementation is the caller's, so that
-- the connection sequence takes it as a parameter, with a state that every call takes and returns,
-- also where it fails.
--
-- Of the connection sequence, Connection has the functions, Connection/Server a server whose
-- answers are written down, Connection/Settings, Channels, Waiting and Finalization what each phase
-- does with the answers of a server that accepts, Connection/Strays the PDUs that may come before
-- the Demand Active, Connection/Liveness the whole; Connection/Phases the order of the PDUs as a
-- step relation, Connection/Keeps the calls that keep to it, and Connection/Order that the
-- functions do. Safety puts the parsers of what the server sends together. Egfx/Screen says what
-- the graphics commands mean, as pictures by their ids, and Egfx/Shows, Egfx/Paint and Egfx/Store
-- compare the surface store with it.
--
-- Each part is a module with the name of its source file, Graphics/Display for update.rs, and its
-- functions keep their names, with these exceptions. Methods carry the name of their type where two
-- share a name: write_request and read_request, encode_confirm and decode_confirm, apply_update for
-- Display::apply, decode_rect for the choice of a decoder in bitmap::apply. A `data` function is
-- data_message, ber::length is ber_length, Reader::read_length is read_ber_length, and
-- InitiateRequest::parse is parse_initiate, ClientCoreData::encode is encode_core, and
-- SurfaceStore::apply is apply_command. The functions of nla/der.rs that share their name with one
-- of mcs/ber.rs are der_tlv, der_integer, der_octet_string and der_sequence, and its Reader has
-- expect_tag and read_der_integer; TsRequest has encode_ts_request and decode_ts_request. A field
-- `data` is `content`. A method that changes its object returns the new object; a reader that
-- advances a slice returns what is left.
--
-- Words. An integer is a natural number with the wrap-around of a release build written out, and an
-- i32 that is only written is its bit pattern. `usize` sums and products are taken not to overflow,
-- as they are bounded by the sizes of buffers or by products of 16-bit numbers, but for the BER
-- length, which is folded in words of 64 bits. A chroma value of the planar codec is kept above its
-- integer by a constant, so that it is natural.
--
-- Loops. A loop over a count is recursion on it. `while` loops run on fuel. A virtual channel
-- message takes a round for each 1600 bytes and has one for each byte. A fast-path body takes three
-- bytes a round and has a round for each byte; running out is a panic in the model. An order of the
-- run-length codec takes a byte of the source, and there is a round for each byte. A row of the
-- planar codec takes a control byte a round and has a round for each byte. The bytes of a BER
-- number are at most those of its word, and a tag has a round for each digit of 7 bits of a u32.
-- The walk over the GCC blocks takes 4 bytes a round, and that over the graphics commands 8, and
-- those over the fields and tokens of a TsRequest 2, and each has a round for each byte; out of
-- fuel is a panic in the model. The loops up to MAX_SKIP are recursion on the rounds left.
--
-- Not modelled: sockets, TLS, certificates and threads (src/tls.rs, src/cert.rs, src/udp_tunnel.rs,
-- `open_udp`), which are I/O or calls of other crates; NTLM, its ciphers and the client that runs
-- the authentication (src/nla/ntlm.rs, ntlmv2.rs, client.rs, sspi.rs, and src/nla/crypto.rs but for
-- its UTF-16 text); the session that joins the connection to the sockets (src/session.rs); the
-- examples. `SecurityProtocol`'s debug output and the dump of multitransport requests are output
-- only. `cookie_hash` is a hash of another crate.
pub mod Common
pub mod Outcome
pub mod Wire
pub mod Transport
pub mod Tpkt
pub mod Nego
pub mod X224
pub mod Vchannel
pub mod Mcs
pub mod Nla
pub mod Gcc
pub mod Info
pub mod Pdu
pub mod Caps
pub mod Multitransport
pub mod Connection
pub mod Dvc
pub mod Egfx
pub mod Emt
pub mod Input
pub mod Graphics
pub mod Safety
