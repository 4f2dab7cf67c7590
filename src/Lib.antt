-- ===== src/Lib.antt =====
-- haste is a parser of Source 2 demo files. This library models its core: the bit reader, the
-- field paths that say which field of an entity an update is about, the hash that makes the keys
-- of the fields, the quantized floats, the decoders of the fields, the flattened serializers
-- that say which decoder a field has, the entities with their container, the updates of the
-- string tables, and the parser of the type names. It states what makes these parts correct.
--
-- The parts and their files, with the paths of the code from the repository's root:
--
-- - Prelude.antt with Prelude/: the names that the other files share. Lists are measured by
--   native numbers, integers stand on them, and bit operations are related to arithmetic.
-- - Outcome.antt: what a call can come to. `ok` and `err` are the cases of Rust's `Result`,
--   `panic` is a panic, and `stuck` is a loop that its fuel did not suffice for; that a function
--   ends is that it never comes to this.
-- - Platform.antt: what the code takes from outside, as one parameter. It has the bit buffer of
--   the crate dungers, whose source is not in the repository, floats, and the profile's setting
--   of overflow checks. `Documented` states what the code relies on: how many bits a read takes,
--   the range of its value, and that a seek by n bits goes where a read of n bits goes.
--   `Positions` states what it relies on where it measures: the bits read and the bits left of a
--   reader add up to a whole that a read does not change. Where the code drops the error of a
--   read and reads on, the reader behind the failed read is a field of the platform.
--   Tests/BitList.antt gives a concrete buffer that has these properties.
-- - BitReader.antt with BitReader/: crates/haste_core/src/bitreader.rs. A method is a function
--   from the reader to an outcome with the value and the reader behind it; the name is that of
--   the method. A slice that a method writes to is an argument and a part of the result. On an
--   error the reader and the slice are not returned: every caller passes the error on.
-- - Maps.antt: maps as lists of keys and values, with an instance argument for the comparison of
--   keys. Settles.antt: a computation that ends and whose results have a property.
-- - Machine.antt: arithmetic of a fixed width. With overflow checks it panics, without them it
--   wraps.
-- - FieldPath.antt with FieldPath/: crates/haste_core/src/fieldpath.rs. FieldPath.antt has the
--   path and its basic operations; Ops.antt the forty operations of the table, each under its
--   name; Table.antt the table with its weights; Huffman.antt `Node`, its order and
--   `build_fieldop_hierarchy`; Flat.antt `FlatTree` and `flatten_branch`; Paths.antt
--   `read_field_paths`. A field path's array is a list, and an index out of range panics.
-- - FxHash.antt with FxHash/: crates/haste_core/src/fxhash.rs, and `fkey_from_path` of
--   crates/haste_core/src/entities.rs.
-- - QuantizedFloat.antt with QuantizedFloat/: crates/haste_core/src/quantizedfloat.rs. The flags
--   are a set of bits in a number; the steps of `compute_encode_flags` and of
--   `QuantizedFloat::new` are functions of their own, named for what they do.
-- - FieldValue.antt with FieldValue/: crates/haste_core/src/fieldvalue.rs. `try_into_signed` and
--   `try_into_unsigned` take the width of the integer type.
-- - FieldDecoder.antt with FieldDecoder/: crates/haste_core/src/fielddecoder.rs. A boxed decoder
--   is a case of `FieldDecoder`, with what the decoder keeps; `decode`, `skip` and `skip_bits`
--   are functions by clauses on it. The context of the decoders, whose buffer a string decoder
--   fills and clears, is an argument and a part of the result.
-- - FieldMetadata.antt with FieldMetadata/: crates/haste_core/src/fieldmetadata.rs, and the
--   constructors of the decoders. `FieldProperties` is a `FlattenedSerializerField` but for its
--   serializer. A visit of an expression gets the visit of its part as an argument, so that the
--   recursion is structural.
-- - FlattenedSerializers.antt with FlattenedSerializers/:
--   crates/haste_core/src/flattenedserializers.rs, from the decoded message on. A field holds
--   its serializer, a serializer its fields, so the types are a mutual block. A symbol is the
--   hash of its name, as in the code.
-- - Entities.antt and Entities/Container.antt, with Entities/:
--   crates/haste_core/src/entities.rs, crates/haste_core/src/entityclasses.rs, and `by_id` of
--   crates/haste_core/src/instancebaseline.rs. A parse threads the entity, the context and the
--   reader; a handler threads the container and the context. Entities/Events.antt has sequences
--   of handler calls. `handle_create` and `handle_create_with_filter` have a text of their own
--   each, as in the code.
-- - Vartype.antt with Vartype/: crates/haste_vartype/src. The cursor of the crate dungers is the
--   parameter `Charsor`.
-- - StringTables.antt with StringTables/: `StringTable`, `parse_update`, the full update and the
--   container of crates/haste_core/src/stringtables.rs. The map of the items is a list of keys
--   and items; the decompressor of the crate snap is the parameter `Snap`.
--   StringTables/Ring.antt and Listed.antt have the reference that keeps the keys of an update
--   in a list, where the code keeps the last 32 in a ring.
-- - Parser.antt with Parser/: the context and `handle_svc_packet_entities` of
--   crates/haste_core/src/parser.rs. The visitor, which is the program's that uses the library,
--   is the parameter `Visitor`.
-- - Tests.antt with Tests/: runs of the model at concrete inputs.
--
-- A type name of a field, parsed, gives the field its decoder; the serializers of a message hold
-- the fields; an entity finds the field of each path by its serializer and decodes the value
-- that follows, and an entity that a filter does not track skips it. The parser reads the deltas
-- of a message, hands each to the container, and shows the entity to the visitor.
--
-- A string table's update, a quantized float and a field path are all read from the same bit
-- reader, whose errors they pass on. A field path is built by operations that a Huffman code
-- selects; `read_field_paths` reads the code bit by bit from the bit reader, runs the operation
-- at the leaf it comes to, which may read more bits, and writes the path to a slice that the
-- caller owns, until the operation that ends the reading. The code keeps the tree of boxed nodes
-- only while it builds the array that it walks.
--
-- Loops without a bound of their own run on fuel. The loops over the bits of a reader
-- (`read_string`, `read_string_to_end`, `read_field_paths`, and the string decoder's `skip`) get
-- one more than the bits left, since each round takes at least one bit; the merging of the
-- Huffman tree gets the number of its leaves, since each round makes two nodes one; the doubling
-- of the steps of a quantized float gets 64, and the loops of the tokenizer and of the parser
-- one more than the characters of the input.
--
-- Numbers are those of the code: a u8, u32, u64 or usize is a native number with its wrap-around
-- written out, an i32 is an integer. `usize` has 64 bits. The heap of the standard library is a
-- list from which a greatest element is taken; the numbers of the nodes make it unique. The
-- weights of its nodes are natural numbers without a bound, where the code's are of type usize:
-- the table is the only input there is, and its weights sum to far less than 2 ^ 64. Hash values
-- are functions of the bytes alone.
--
-- Not modelled: allocations that fail, as that of a fixed array whose length is beyond the
-- memory; the arithmetic of floats, which is a parameter; the sources of the crates dungers and
-- snap, which are parameters; the Debug, Display and Binary output and `Span::to`; iterators
-- over containers; in stringtables.rs the sharing of user data with the instance baselines, and
-- with it `InstanceBaseline::update`, since the model has user data by value; the decoding of
-- protobuf messages, which is the crate prost's, so the serializers and the classes start at a
-- message; what an aborted operation leaves behind, since its callers pass the error on; the
-- parser's loops over commands and over the messages of a packet, and its seeking; the demo
-- streams, the channels and the broadcast client, which are I/O around the parser.
pub mod Prelude
pub mod Outcome
pub mod Maps
pub mod Settles
pub mod Platform
pub mod BitReader
pub mod Machine
pub mod FieldPath
pub mod FxHash
pub mod QuantizedFloat
pub mod FieldValue
pub mod FieldDecoder
pub mod FieldMetadata
pub mod FlattenedSerializers
pub mod Entities
pub mod Vartype
pub mod StringTables
pub mod Parser
mod Tests
