-- ===== src/Lib.antt =====
-- Models of the H618 video engine port and theorems about them. The drivers run the decoder and
-- encoder of the Allwinner video engine under V4L2: a processing core negotiates formats, a
-- context queues buffers and runs jobs, and an engine per codec turns the controls of a job into
-- register writes and, for the encoders, into the headers of the stream.
--
-- Base: Booleans, arrays, machine words, C's int results and the bit operations. Numbers are
--   natural numbers; a conversion or an operation of C that can wrap has its modulus written out.
-- Device: cedrus-v4l2/cedrus.h and cedrus_regs.h. The translation of DMA addresses; an operation
--   on the hardware is the list of its register writes, and a register that it reads is an argument.
-- Driver: cedrus-v4l2/cedrus.c and cedrus_context.c. `job_run`, `irq` and `watchdog` on the state
--   that they share, and the steps that may happen in any order; Power has suspend and resume.
--   V4L2's current context and the work queue follow their documentation.
-- Jpeg: cedrus-v4l2/cedrus_enc_jpeg.c. `job_prepare` makes the quantisation tables (Quant),
--   `job_configure` and `job_trigger` write the registers (Job), `job_finish` takes the scan over
--   and `buffer_finish` completes the stream in the plane's memory (Finish), with the header of
--   `put_header` (Header). Stream is a reader of JPEG streams with its own order of the scan; it
--   shares no table and no function with the encoder.
-- H264: cedrus-v4l2/cedrus_enc_h264.c. Enums has the menus of the controls, Job the controls
--   and the preparation of a job, with what streaming starts with (Job/Start), Bits the writer of
--   the stream (`coded_*`), Headers the parameter sets, the slice header and the loop over them,
--   Buffers the memory of a context and of a coded buffer, Configure the registers of a job and
--   the buffers kept for the next, Finish the start, the end and the interrupt of a job. A
--   function that calls `coded_*` in a row is a list of these calls. The readers in
--   Headers/Syntax, Sps, Decode and Slice follow the syntax tables of ITU-T H.264. The control
--   handlers read `ctrl->cur.val`. By V4L2's documentation that is the value from before the
--   change while a control is set, and the control's value when streaming starts; the handlers
--   here take it as the argument.
-- Vp9: cedrus-v4l2/cedrus_vp9_helper.c. Prob is the arithmetic on one probability, Variants the
--   merge of a tree of probabilities, Context the frame context, Update the forward update and the
--   reset, Adapt the backward adaptation.
-- Vp9Dec: cedrus-v4l2/cedrus_dec_vp9.c. Frame is what the decoder keeps from frame to frame, with
--   the counts and the segment map of the engine as arguments; Pack the image of the probabilities,
--   Tiles the records of the tiles, Sram the tables of the quantisers (cedrus_dec_vp9_quant.h) and
--   of the loop filter, Scale the scale registers.
-- Proc: cedrus-v4l2/cedrus_proc.c, cedrus_enc.c and cedrus_dec.c. Tables has the engines and their
--   formats, Formats the preparation and the propagation of a format by the role, Ioctls the ioctls
--   that negotiate, Configure the registers of a format.
--   v4l2_apply_frmsize_constraints is a parameter with two laws: it gives a size inside the range,
--   and a second application changes nothing. A rounding up to the step stays inside the range
--   where the maximum is a multiple of the step, as it is in the tables of the source.
-- Legacy: legacy-driver/cedar_ve.c and ve_mem_list.h. MemList is the ring of pointers on a heap,
--   Buffers the mapping of DMA buffers and the loop that unmaps them, Engine the references, the
--   clocks, the locks and the end of a file with the log of what it does, Coherent the buffers with
--   handles and their mapping. What the kernel answers is an argument of each call. The relation
--   of calls in Engine/Reach leaves out IOCTL_SET_REFCOUNT, IOCTL_ENABLE_VE and IOCTL_DISABLE_VE.
--
-- The hardware and the kernel are outside: a wait for the engine is not part of a state, a buffer
-- is its bytes and the fields of vb2 that the code uses, and `stm_bit_len`, the register with the
-- length of the stream, is a parameter of the alignment. It is relied on to count the bits that
-- were put, modulo a byte. Escaping is the engine's work: a put records whether it was on, and the
-- stream of bits is that before it. The default probabilities of VP9 are a parameter of the reset.
-- The loop over the headers has fuel, and four turns are shown to be enough; the loop over the
-- ring of mapped buffers has fuel, and one turn for each entry and one more are shown to be
-- enough. The other loops are recursions on the arrays.
--
-- Not modelled: the other decoders, which are mostly register writes from controls; of the VP9
-- decoder the padding of 10-bit pictures and the registers of a job; the queues of the contexts;
-- of the legacy driver the interrupt, the snapshots of registers, the debug files and the probe.
-- The bridges and tools are I/O around other libraries, and tools/gstreamer-compat is a copy of
-- another project.
pub mod Base
pub mod Device
pub mod Driver
pub mod Jpeg
pub mod H264
pub mod Vp9
pub mod Vp9Dec
pub mod Proc
pub mod Legacy
