-- ===== src/Lib.antt =====
-- mcsrv, a Minecraft server in C: its containers, its arena allocator, its files and events, and
-- its way from bytes to packets.
--
-- A connection owns two arenas and two fixed byte buffers. The platform code fills `recv_buffer`;
-- `receive_packet` decodes the length, the id and the payload of a packet out of it into the
-- scratch arena, by the functions that a table names for the connection's state and the packet's
-- id, and hands the packet to a handler, which may change the state and send packets of its own.
--
--   Common      What the other files share: lists over the native numbers, circles as rotated lists,
--               memory transfers that fault outside an area, machine integers, and outcomes: `ok`,
--               `abort` for a call of abort(), `fault` for an access outside an object, of freed memory
--               or through an uninitialised pointer, or a division by zero, `stuck` for a loop that
--               did not end within its fuel.
--   Math        src/utils/math.c.
--   RingQueue   src/containers/ring_queue.c. The struct is the record RingQueue, whose block is the
--               list of its slots. Spec is the bounded queue, Refine the refinement.
--   ByteBuffer  src/containers/bytebuffer.c. Defs has the transfers and the writes, Ops the reads, the
--               operations that take bytes back, and the regions. Fixed, Write, Read, Back, Regions
--               and WriteRegions are on fixed buffers, whose contents go around the end of their
--               area; Dynamic is on growing ones. A C function keeps its name; a loop is a function named for its rounds.
--   Arena       src/memory/arena.c; addresses are numbers.
--   Varint      src/network/utils.c and the VarInt operations of src/containers/bytebuffer.c.
--   Net         Table is src/network/connection.c, Decode src/network/decoders.c with the payloads of
--               src/network/packet.h, and Receive the decoding in src/network/receiver.c: the pieces
--               of decode_common_data are decode_rest, decode_compressed, inflate and decode_id, and
--               decode_payload is the end of decode_packet. Framing has the theorems. Encode is
--               src/network/encoders.c, Send src/network/sender.c, where compress_packet, queue_packet
--               and flush are pieces of send_packet, and Queue has its theorem. Socket is
--               sock_send_buf and empty_buffer of src/platform/linux/network_linux.c, where gather and
--               after_sendmsg are the two ends of sock_send_buf, and Drain has their theorem. Handlers
--               is src/network/handlers.c with handle_packet of receiver.c, Profile its JSON; send_profile,
--               start_encryption and same_token are pieces of send_login_success and enc_res. Guarded,
--               Leaves and Login are about what a packet may change. Loop is receive_packet, with
--               begin_packet and decode_step for its first two steps.
--   Json        src/data/json: Node is the tree of json.c, whose vectors are lists and whose objects are the
--               lists of the puts on their dictionaries, which fields_dict makes again for a lookup;
--               Lexer and Parser are the two halves of json_parse.c, where members and elements are the
--               loops of json_analyze_obj and json_analyze_array and scalar is a case of json_analyze.
--               Tokens is the other direction, RoundTrip, Total, Lexed, Minus and Lookup have the
--               theorems.
--   Vector      src/containers/vector.c: Blocks is the chain of blocks, which src/containers/object_pool.c
--               uses too. The loops of the two shifts are backward_rounds and forward_rounds, with
--               carry_back and carry_on for the slot that goes from block to block. Append and Insert
--               have the theorems.
--   ObjectPool  src/containers/object_pool.c, by the flags of its slots: free_in_block and free_in_chain are
--               the loops of update_next_available. Handout and Takeback have the theorems.
--   Dict        src/containers/dict-op.c, dict-init.c and src/utils/hash.c: elem_rounds, put_rounds and
--               foreach_rounds are the loops of get_elem, dict_put and dict_foreach, home the first
--               index of a search, and written the two writes of dict_put. Probe is about the path of a
--               search, and Lookup has the theorem.
--   Events      src/event/event.c: notify is the loop over the listeners of an event, process_rounds that
--               of process_event_queue. A handler's call is recorded and not run. Registry is about the
--               registry that event_system_init leaves, Handling about what happens from then on.
--   Nbt         src/data/nbt: a tag is the first three u32 of its union and a string. Tree and Access are nbt.c, where
--               refusal, put_tag, set_tag and get_value are what its operations share; Writer, Reader
--               and Parse are serial.c: write_value, count_down and opened are pieces of nbt_write_tag,
--               read_simple, parse_value and the functions named for a type are pieces of
--               nbt_parse_tag, and direct_parent, counted and lengthen pieces of update_parents. Snbt is
--               snbt.c, where separator, label and tag_text are pieces of write_snbt_tag. Values, Bytes
--               and RoundTrip have the theorems.
--   StrBuilder  src/utils/str_builder.c over the vector; get_rounds is the loop of strbuild_get_range and of
--               strbuild_to_string. Text has the theorem, and Vector/Growth what it needs of the vector.
--   Strings     src/utils/string.c: a string is an area of bytes and a length. strlen, memcmp, up_to_nul (for
--               memccpy) and clear (for memset) are those of the C library. Copies has the theorem. The
--               other parts take a string for the list of its characters.
--
-- Machine integers: a u64 is a number with its wrap-around written out; an i64 or i32 is an
-- integer. Sizes are taken below 2^62 where a theorem says so, far above what can be allocated.
--
-- Fuel: a write makes at most two rounds over a circle and is given two more than there are bytes;
-- the growth of a dynamic buffer is given one round more than the size asked for, and from a
-- capacity of 2 on each round adds a byte at least. The loops of a VarInt have their own bounds in
-- the source; the loops of the JSON lexer within a token and of receive_packet take their fuel as an argument, while
-- json_lex itself goes on for as many tokens as the arena has room for, which is an argument too; the
-- JSON parser is given three rounds for each token, of which every call of json_analyze takes one
-- away; the flush of the queue is given one round more than the bytes queued, of which each round
-- but the last sends some, and so is empty_buffer; the search of a dictionary is given as many rounds
-- as there are slots for each entry that it may count, after which its indices repeat themselves; the
-- queue of events is given one round more than it holds; a read of a file is given one round more than
-- the bytes asked for, the closing of the levels of NBT one round more than there are levels, and
-- nbt_parse takes its fuel as an argument.
--
-- Parameters: `realloc` (the record Heap, with what the C standard says of its result); zlib's
-- decompression, the memory behind an arena's address and what uninitialised memory holds (the
-- record Env); zlib's compression, the cipher and the platform's empty_buffer as send_packet calls
-- it (the record SendEnv); sendmsg (the record Socket, with what POSIX says of its result); strtol
-- and strtod, and whether the arena has a mark (the record Lexing); zlib's gzread (the record Source, with what zlib's manual says of
-- its result); printf for each of its formats (the record Formats); the session server, OpenSSL and the compression's set-up as the
-- handlers call them, and the text of json_stringify (the record HandleEnv).
--
-- Not modelled: logging and the allocation statistics, which do not change what is modelled;
-- threads, mutexes, and what else calls the operating system; encryption and authentication, which
-- are calls of OpenSSL and libcurl; format_str, which is two calls of vsnprintf; what the handlers of an event do; json_stringify and the
-- destruction of a JSON tree. The arena of the vectors, the object pools, the string builders, the NBT
-- and the JSON trees is taken to have room for what they allocate, so that the abort of arena_allocate
-- is left out there; only json_lex has it, as the number of tokens for which there is room.
pub mod Common
pub mod Math
pub mod RingQueue
pub mod ByteBuffer
pub mod Arena
pub mod Varint
pub mod Net
pub mod Json
pub mod Vector
pub mod ObjectPool
pub mod Dict
pub mod Events
pub mod Nbt
pub mod StrBuilder
pub mod Strings
