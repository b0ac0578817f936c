-- ===== src/Lib.antt =====
-- edge264-mvc decodes H.264 with its multiview extension. A NAL unit is read from a bitstream reader
-- (src/edge264mvc_bitstream.c), parsed by the function of its type (src/edge264mvc_headers.c), and its
-- slices become tasks that worker threads decode. This library models the part that runs on the parsing
-- thread: the reader, the parameter sets, the marking of reference pictures, the reference lists, and
-- the order of output.
--
-- Common: names, Booleans, lists, integers (Common/Int) and sets of frame slots (Common/Masks, the
--   128-bit FrameMask as a predicate, whose loops run over the slots below MAX_FRAMES).
-- Bits: `Edge264MvcGetBits` and its readers on a 64-bit machine. Memory is a function of the address.
-- Bits/Words and Bits/Bytes: the laws of words and of `get_bytes`.
-- Cabac: the arithmetic decoder (`get_ae`, `get_bypass`, `cabac_start`, `cabac_terminate`) and `cabac_init`,
--   on a 64-bit machine. Cabac/Standard is the engine of the H.264 standard, which reads bit by bit;
--   Cabac/Wide maps its registers to the wide ones, Renorm, Decision, Bypass and Refines show that each
--   operation agrees, and Runs composes them. A range is 2 at least, so 8 rounds renormalise it. The table of
--   initial values of the context variables (`cabac_context_init`) is a parameter.
-- Parser: parsers as functions of the reader, and `Gives`, what a parser returns on every bitstream.
-- Common/Int: signed integers without bound, with the conversions to int, int64_t and int16_t. Display ranks,
--   display keys, FrameNum and the sums of FrameIds wrap as in the source, which is built with -fwrapv.
-- Decoder: the fields of `Edge264MvcDecoder` that marking and output use (src/edge264mvc_internal.h).
-- Output: `bump_frame` with its loop and the output queues. A call of the marking functions ends with
--   `while (bump_frame(...))`, which is `bump_while`: each round queues one more of 128 slots, so 129
--   rounds are enough, and Output/Bump shows that none is then left. Each round of
--   `catch_up_dependent_bumps` is done with one more queued slot, so it takes 129 rounds as well.
-- Marking: `parse_dec_ref_pic_marking` for IDR pictures, frames (Marking/Frame) and fields
--   (Marking/Field), and `derive_FrameNum` (Marking/Base). The loop over memory management control
--   operations reads at most 33 codes, as in the source.
-- ParameterSets: the two structures; `parse_scaling_lists` (Scaling), `parse_hrd_parameters` and
--   `parse_vui_parameters` (Vui), the MVC extensions (Mvc), `parse_seq_parameter_set` up to what is
--   kept (SpsParser) and `parse_pic_parameter_set` (PpsParser), with malloc as a parameter.
-- RefLists: `parse_ref_pic_list_modification` as a whole (Whole): the initial lists of frames (Initial)
--   and fields (Fields), their modification (Modify) and the fix-up that ends it (Fix). A list is 32
--   options, and the picture of a field is its slot or its slot plus FIELD_ID.
-- PredWeights: `parse_pred_weight_table`. The explicit weights and offsets are functions of the plane
--   (luma, Cb, Cr) and the index, 32 per list.
-- Delivery: the display keys of output pictures (src/edge264mvc.c, `edge264mvc_unwrap_output_poc`), frame
--   handles, results of the API and `edge264mvc_find_start_code`.
-- Admission: how the current picture enters the decoded picture buffer (`admit`, the end of
--   `parse_slice_layer_without_partitioning`).
-- History: the references of both views between pictures: `unset_currPic`, and what a slice takes from
--   them at its start. History/Room is the reference that `make_room` gives up.
-- SliceGroups: `derive_fmo_map`. A map is a function of the address. The interleaved type takes a round for
--   each run, of which `size` are enough as a run has a unit; the box-out walk has the bound on its steps
--   that the source gives it, its two directions are one of four, and its coordinates are integers.
-- Frames: `get_frame` and `return_frame` of src/edge264mvc.c. `Player` adds to the decoder what they read of
--   the tasks and of the progress of pictures, at the moment they hold the lock: which pictures are complete,
--   and which a task writes. Deliver has what follows the choice of a frame; Queues says what the output
--   queues hold, Keep, Paired and Delivered that each operation keeps it, and Reach that any sequence of
--   them does from `clear_decoder` (Clear) on, among steps of the parser and the workers that are taken to
--   leave these pictures alone. The wait of get_frame for the workers, the addresses of samples and the
--   freeing of buffers are left out.
-- Frames/Flush: `unblock_output`, and what `bump_all_frames` does to the queues between ending the current
--   picture and concealing the incomplete ones. Each round of their loops but the last queues one of 128
--   slots, so 129 rounds are enough.
-- Tests: the theorems at concrete inputs.
--
-- Logging is left out everywhere. Not modelled: the commit of a sequence parameter set to the decoder
-- (change of frame format), slice headers and picture management beyond Admission and History, the
-- threads and their tasks, and all that works on samples and macroblocks (slice data, prediction,
-- residual, deblocking).
pub mod Common
pub mod Bits
pub mod Cabac
pub mod Parser
pub mod Decoder
pub mod Output
pub mod ParameterSets
pub mod Marking
pub mod RefLists
pub mod PredWeights
pub mod Delivery
pub mod SliceGroups
pub mod History
pub mod Admission
pub mod Frames
pub mod Tests
