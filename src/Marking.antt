-- ===== src/Marking.antt =====
-- Decoded reference picture marking (8.2.5) of src/edge264mvc_headers.c: `derive_FrameNum`,
-- `parse_dec_ref_pic_marking` and `parse_dec_ref_pic_marking_field`, without their logging.
pub mod Base
pub mod Lowest
pub mod Capacity
pub mod FrameCapacity
pub mod Window
pub mod FieldFits
pub mod FieldCapacity
pub mod Frame
pub mod Field
