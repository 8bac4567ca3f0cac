-- ===== src/Lib.antt =====
-- Lhassa: the LHA archive library for the Amiga (lh.library) and its tools.
--
-- The parts of the library and how they meet. `lh_hdr_read` and `lh_hdr_write`
-- (Source/src/lh_header.c) translate between the header of an archive's entry and `lh_hdr_meta`;
-- they read and write through `lh_stream` (Source/src/lh_archive.c), take methods and status codes
-- from Source/src/lh_error.c and the checksum of a level-2 header from Source/src/lh_crc.c. The
-- stamps of headers are made and read by Source/src/lh_datetime.c. `lh_writer_add` and
-- `lh_reader_next` (Source/src/lh_archive.c) put a header and the packed data behind it, through
-- the compressor of its method (Source/src/lh_codec.c) and the cipher (Source/src/lh_crypto.c).
--
-- Files:
--   Base: natural numbers, lists, bits, and the tactics' rules, shared by all.
--   Crc: `lh_crc16`; Reference has the division bit by bit, Detect the errors it finds.
--   Method: `lh_status`, `lh_method`, `lh_level` and the signatures.
--   Datetime: `lh_datetime` with DOS stamps (Dos) and Unix seconds (Years, Months, Unix).
--   Outcome: results of stateful code. A null pointer, a status code, an access outside an array
--     and the end of a loop's fuel are told apart.
--   Stream: `lh_stream` as the Amiga build has it: an archive in memory, or a file whose reads,
--     writes and seeks are a parameter (`Dos`). Memory relates reads to the bytes ahead.
--   Bytes: little-endian fields and C strings.
--   Header: `lh_hdr_meta`; Path takes paths apart and joins them, Extensions and Chain are the two
--     loops over extension blocks, Read and Write are `lh_hdr_read` and `lh_hdr_write`; Reread
--     and Written relate the bytes of a header to both, Roundtrip and RoundtripLevel2 compose them
--     (Paths for the path), Unreadable has the sizes that are not read back; Total shows that the loops end.
--   Cipher: Source/src/lh_crypto.c; Reference has the division of its CRC-32 and a
--     description of the cipher without its table and masks.
--   Codec: the choice of a compressor in Source/src/lh_codec.c and the stored method. The other
--     compressors are the operations of `Coders`; `Lossless` (Stored) is what a reader relies on.
--   Lh5: the decompressor of LH4 to LH7 (Source/src/lh_lh5dec.c): the bit reader; Table, Lengths and
--     Decode are the tables of a block, its head, and the loop over symbols. Stream has the bits
--     that are read, History the text without the ring, Rounds and Positions the text loop's
--     rounds and the range of its positions.
--   Lzss: the LArc methods of Source/src/lh_codec.c; Unpack has the decompressors, Broken and Oldest
--     what the two directions of LZ5 do with the first byte.
--   Lzhuf: the adaptive Huffman tree of the method LH1 (Source/src/lh_lzhuf.c), one model for the twins
--     of encoder and decoder. Table and Bits are the position codes and the bit streams, Dictionary
--     the search trees, Encode and Decode the two main loops. Bits.Positions and PositionCode
--     relate what is read to the bits of the input, Links the walk down the tree to the climb,
--     History the ring to the whole text, and Steps composes them for the main loop; Start and
--     Invariant are about the links of the tree.
--   Lh1: the decompressor of LH1 (Source/src/lh_lh1dec.c): the tree with its groups, Rebuild with its
--     reconstruction, Bits and Offsets. SameCodes compares its codes of offsets with the tables of
--     Lzhuf, Rounds counts the rounds of Decode.
--   Archive: entries; Writer is `lh_writer_add`, Reader `lh_reader_next` and what sets a reader.
--     Added and Fetched relate one entry to its bytes, Stored composes them, Whole does so for
--     archives, and Catalog compares the mode that reads headers only with the one that reads all.
--   Version: version strings of the tool `load` (Source/load/load_ver.c); Scan is the search of a file,
--     Endless what it does without a version, Order the comparison.
--   Examples: tests, and an instance of each property that has hypotheses.
--
-- Numbers are natural numbers; a field of w bits keeps its wrap-around as `% 2 ^ w`, and a signed
-- 32-bit number is its pattern. A C string is the list of its characters, and `none` is a null
-- pointer. `malloc` is a parameter that says for each size whether it succeeds.
--
-- The loop of `load_ver_scan_file` has fuel that no bound justifies, since it need not end. Its loop
-- over tokens has a round for each character.
--
-- An access outside an array, for which the source has no check, is undefined behaviour and ends a run
-- of the model as `fault`. A `size_t` and an `unsigned long` have 32 bits.
--
-- Fuel: the loop over extension blocks of a level-1 header has as much fuel as the header buffer
-- has bytes, and the loop of a level-2 header one more than the bytes of the header, since each
-- block takes at least one byte and three bytes (Header.Total).
--
-- What `malloc(n)` bytes hold before they are written is a parameter too, since the stored method
-- leaves the end of a longer buffer as it is.
--
-- The loops of Lzhuf that follow links have a round for each node: more would not end. A round of its
-- main loops takes a byte of the text at least.
--
-- The loops of Lh1, Lh5 and Lzss have a round of fuel for each byte that is left to write or to read. A
-- walk through the trees of Lh1 and Lh5 has more rounds than there are nodes: one that is longer does not
-- end. The values of C arrays of more than 17 elements are functions of the index.
--
-- Not modelled: the compressors of LH1 to LH7 in the rest of Source/src/lh_codec.c, the
-- rewriting of an archive through a temporary file, and, but for the version strings, the
-- programs around the library, which are AmigaOS glue and user interfaces;
-- Source/handle/handle_ver.c is a copy of the code of load_ver.c. Opening, closing and locking
-- of files are calls of dos.library. A reader's callbacks are not called. The indices of the
-- arrays of Lzhuf.Dictionary and of the tree of Lh1 are not checked against their sizes.
pub mod Base
pub mod Crc
pub mod Method
pub mod Datetime
pub mod Outcome
pub mod Stream
pub mod Bytes
pub mod Header
pub mod Codec
pub mod Lh1
pub mod Lh5
pub mod Lzss
pub mod Lzhuf
pub mod Archive
pub mod Cipher
pub mod Version
mod Examples
