-- ===== src/Circular.antt =====
-- The abstract view that the byte queues of the drivers share (struct dvb_ringbuffer, struct
-- dmxdev_buffer, the message queue of cam.c): an array with a read and a write index stands for the
-- sequence of bytes between them, going round at the end. The buffer is empty where the indices are
-- equal, so one byte of it stays unused.
mod Lemmas
pub mod Counted
unfoldable pub use Lemmas.*
