-- ===== src/Lib.antt =====
-- CES265, an HEVC intra encoder: its bitstream layer, its headers, its arithmetic coder with the syntax of
-- coefficients and prediction modes, its tiles and CTUs, and its queue of jobs.
--
-- The encoder turns the syntax of a slice into bits in two layers; a queue hands the
-- work on tiles to threads.
--   * src/BitStreamHandler.cpp keeps a word of 32 bits in front of a byte buffer. PutCodeInBitstream
--     fills the word and flushes it through FLUSH_BITS, which inserts the emulation prevention bytes;
--     the u(n), ue(v) and se(v) codes and the trailing bits are written through it.
--   * src/Cabac.cpp codes bins with the registers low, range and bitsLeft, and holds back the bytes that
--     a carry may still change. Bytes that are settled go to the handler with PutUNInBitstream.
--   * src/H265Headers.cpp writes the parameter sets, the slice header and the entry points of the tiles
--     with the calls of the handler, from the members of src/ImageParameters.cpp.
--   * The other methods of src/Cabac.cpp turn prediction modes and blocks of coefficients into calls of
--     EncodeBin and EncodeBinsEP.
--   * src/WorkQueue.cpp is a circular buffer under a mutex, from which the threads of src/ThreadHandler.cpp
--     take jobs.
--
-- Files.
--   * Macros, Macros/Log2: LOG2, ABS, Clip1 and Clip3 of inc/TypeDefs.h.
--   * BitStream: the record `Stream` has the fields of BitStreamHandler, with the buffer as the list of
--     the bytes written, the last one first. Each method is a function from a stream to a stream, or to
--     an `Outcome` where MAKE_SURE can fail: put_code is PutCodeInBitstream, put_un, put_uv and put_sv are
--     PutUNInBitstream, PutUVInBitstream and PutSVInBitstream, flush_byte and flush_bytes the macro
--     FLUSH_BITS, flush_rem_bytes FlushRemBytes, and so on by name.
--     BitStream/Payload relates a stream to the bits it holds, BitStream/Emulation has the reader of NAL
--     units, BitStream/Reader and BitStream/Golomb the reader of ue(v) and se(v), BitStream/Finish the
--     start code and the end of a NAL unit, BitStream/Limits what the checks leave out.
--   * Cabac: the record `Engine` has the registers and the context states of the class. encode_bin,
--     encode_bins_ep, encode_terminating_bit, write_output, flush and finish_encode_ctu are the methods
--     of these names. They return the calls made on the handler, which the coder never reads.
--     Cabac/Tables has the tables of 9.3.4.3, Cabac/Interval the encoder of the standard over numbers
--     of any size, Cabac/Inv and Cabac/Value the relation between the two, Cabac/Steps the operations,
--     Cabac/Flush and Cabac/Finish the end of a substream, Cabac/Decode the decoder of the standard,
--     Cabac/Symbols sequences of coding calls, Cabac/Roundtrip a whole substream.
--     Cabac/Contexts is InitCabac with the tables of initial values, and Cabac/Scan has the scan tables.
--   * Cabac/Offsets has the numbers and the offsets of the contexts in inc/Defines.h. Syntax has the
--     methods that code syntax elements, each as the list of its calls of EncodeBin and EncodeBinsEP: Modes
--     is EncodeIntraDirAngGrpL, EncodeIntraDirAngC and GetCoeffScanIdx, Last is CodeLastSignifXY, Increments
--     the context increments, Remain is WriteCoeffRemainExGolomb. Coeff is EncodeCoeffNxN: the record `Block`
--     has what it sets up, find_last is the search for the last coefficient, which Coeff/Search follows, Coeff/Significance, Coeff/Levels
--     and Coeff/Whole are its loops. The modules Reading below them have the readers of the standard.
--   * H265Headers: an `Element` is a call of PutUNInBitstream, PutUVInBitstream or PutSVInBitstream, and a
--     header is a list of them. write_vps, write_sps, write_pps, write_slice_hdr and
--     write_tiles_entry_points are the methods of these names. H265Headers/Reading reads elements by the
--     descriptors of the standard, H265Headers/Nal follows the payload of a stream through the calls,
--     H265Headers/Sets has the syntax of the parameter sets, and H265Headers/Slice that of a slice.
--   * WorkQueue: the record `Queue` has the fields of the class; add_to_job, get_next_job,
--     inc_num_jobs_under_process and job_done are its methods, each one step under the mutex, and
--     must_wait is the condition on which WaitQueueEmpty waits. WorkQueue/Fifo relates the queue to a list,
--     WorkQueue/Threads has the steps of ThreadHandler::RunThread.
--   * ImageParameters: get_ctu_start_pel, get_ctu_num and get_log2_from_cu_size are the methods of
--     src/ImageParameters.cpp with these names, over CTUs of 32 by 32 samples; ImageParameters/Ctu relates them.
--     ImageParameters/Image has the members of the class, the constructor and init_img_prop, which is
--     InitImgProp, and ImageParameters/Tiles has set_tile_struct, which is SetTileStruct; ImageParameters/Tiles/Partition
--     shows where its loops put the tiles.
--   * H265SliceCompressor: gen_tile_bounding_pixels is GenTileBoundingPixels of src/H265SliceCompressor.cpp, which finds
--     the samples of the tiles from the arrays that set_tile_struct makes. Its arrays are the record TileBounds.
--   * Prelude: numbers, lists, bits and outcomes that all parts share.
--
-- Numbers. A `u32` is a native number, and `% 2 ^ 32` is written where the source can wrap. A
-- subtraction of the source that can wrap is written as `a + 2 ^ 32 - b`, modulo 2 ^ 32. The shifts of an i32 in
-- WriteCoeffRemainExGolomb are shl_i32, in 32 bits; the theorems keep to numbers for which they stay below 2 ^ 31. `bit_loc` and
-- `bits_left` are never negative between the operations.
-- Loops. The loop of EncodeBinsEP has one unit of fuel more than bins, and a round takes eight bins. The
-- renormalisation of the standard has eight rounds, which bring a range of at least 2 to 256. The loop of
-- GetLog2FromCUSize has six rounds, enough for a size of at most 32. The loop of WriteCoeffRemainExGolomb
-- takes at least 1 from its number in a round, and its fuel is more than the number. The search for the last
-- coefficient goes along the list of the scan's places, and is a fault where the source would read behind the table.
-- The loop for the length of the offsets has 32 rounds, and its assertion stops it before the last.
-- Bounds. The theorems on the coder ask for fewer than 2 ^ 34 shifts in a substream, which keeps the
-- counter of outstanding bytes in its 32 bits.
-- Not modelled: the links between handlers, the prediction, transform and partitioning of blocks, the
-- loops over slices, tiles and CTUs, the calls of pthread behind the queue and the threads, files and the console.
pub mod Prelude
pub mod Macros
pub mod BitStream
pub mod Cabac
pub mod WorkQueue
pub mod ImageParameters
pub mod H265Headers
pub mod Syntax
pub mod H265SliceCompressor
