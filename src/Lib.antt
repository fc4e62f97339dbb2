-- ===== src/Lib.antt =====
-- genbuf reads lines from several sources, keeps them in a queue, and delivers them one by one to a
-- destination. A thread of the reader collects bytes into lines and pushes each line to the queue;
-- a thread of the logger pops a line and delivers it.
--
-- The parts of the program that are modelled, and the files that model them:
--   InputBuffer: src/input_buffer.c. `create`, `update`, `find`, `validate`, `purgeline` and `getline`
--     are the functions input_buffer_*; a pointer is an address, and the memory is a list of bytes.
--     InputBuffer/Shape says which bytes a buffer holds, in one part or in two.
--   InputTools: src/input_tools.c. `common_read` is input_handler_common_read and `init` is
--     input_handler_common_init. InputTools/Assembler is what they are meant to do: lines are
--     assembled from bytes, and a line that does not fit is skipped. InputTools/Cleanup has
--     input_buffer_free and the members getfd and cleanup, those of src/input_tcp.c too.
--   Buffer: src/buffer.c. `push`, `unpop`, `pop`, `size`, `init` and `cleanup` are the functions
--     buffer_*; the blocks lie on a heap from addresses to blocks. Buffer/Chain relates them to a list.
--     Buffer/Interleave has the sections between lock and unlock, sem_post() and sem_wait() as steps of
--     two threads.
--   Reader: src/reader.c. `run` is reader_run: `scan` is its loop over the handlers, which begins anew
--     behind each removal (`scan_all`). Reader/Common has the handlers of InputTools as its sources, and
--     Reader/Pipes gives each a stream of its own; Reader/Merge says what a merge of their lines is.
--     Reader/Cleanup and Closes follow the handlers that are cleaned up, by remove_handler and by
--     `clean_handlers`, which is reader_cleanup. Reader/Safe has invariants of sources that add others.
--   NetTools: src/net_tools.c. The resource string, the address and the socket of a destination.
--   Setup: src/types.h, setup.c, input_file.c, input_udp.c, input_tcp.c, input_tcp_connection.c and
--     input_unix.c, and the listening sockets of net_tools.c. `create_input_handler` and
--     `create_output_handler` have their names from the source, `tcp_read` is the accept loop.
--     Setup/Listener is about that loop, and Setup/Sources about the descriptor of a new source.
--     Setup/Inputs makes them all sources of the reader, listeners with the connections that they add.
--   Output: src/output.c, output_tools.c and output.h. `deliver_message` and `common_write` have
--     their names from the source. Output/Drivers has connect and disconnect of the file, TCP and UDP
--     outputs (src/output_file.c, output_tcp.c, output_udp.c) and the stubs of output_unix.c, which
--     deliver_message calls through the record `Driver`; what it relies on is the record `IsDriver` in
--     Output/Contract. Output/Prompt is about a destination that is ready each time, and Output/Text
--     about the bytes that strlen() and write() make of a message.
--   Log: src/log.c and log.h. Which reports are printed, and which end the process.
--   Logger: src/logger.c. `run` is logger_run with a function for each branch, and `write_backlog`
--     is logger_write_backlog. Logger/Files has its variables and the calls on its two streams.
--     Logger/Order says what there is to deliver; Logger/Moved, Conserve and Start follow it through the
--     code, Logger/Dest and Turns the destination. Logger/Live has the end of a run, Logger/Delivery the
--     logger with deliver_message of src/output.c and logger_cleanup, and Logger/Faults the runs in
--     which the reader ends while the destination fails.
--   Main: src/main.c. `parse_type` and `take_options`, the loop over the options. Main/Threads is the
--     function run, which joins the threads of the reader and of the logger, as the one after the
--     other. Main/Shutdown is the same function and signal_handler, with the steps of Buffer/Interleave
--     in any order: a signal may cancel the reader's thread, and the logger may have no destination.
--     What the logger does with its messages is there an argument, which says whether it comes back to
--     the buffer. Main/Carries and Lines put the parts together, from the streams of the sources to
--     the bytes at the destination, and Main/Survives the sources of a command line and the reader.
--   Prelude has the names and the lists that the parts share, and Sys the answers of the kernel.
--
-- What the kernel and the C library answer is an argument: of one call where a function makes one
-- (`Answer`), and of every call by its number where it makes several (`Env`, `Net`, `Files`, `Os`,
-- `Calls`). A `Require`, `Fatal` or `SysFatal` that fails is the outcome `aborted`. malloc succeeds.
-- The assertions of input_buffer.c are compiled out, as NDEBUG is defined; `validate` is their
-- condition, and no function calls it.
-- The logger calls deliver_message through `Calls` (as itself in Logger/Delivery), and has a queue, a
-- list of all that is in the buffer and will be pushed: a pop that finds it empty waits for ever. Its
-- backlog file is a list of lines, and a stream is a place in it.
--
-- Bounds: numbers do not wrap, since each `int` of these parts is at most the size of a buffer, of
-- a message or of the queue. Fuel: the loop over getline has one round more than the buffer has
-- bytes, the loop over write() one more than bytes to do, and the loops of deliver_message, of the
-- reader, of the logger and of accept() the rounds that their caller gives; the theorems say how many
-- are enough, and when none are.
--
-- Not modelled: the text of log messages and of the usage, input_buffer_print, which writes to the
-- log, and the frees of the texts at the end of main. That pthread_create() and pthread_join()
-- succeed is taken for granted. A critical section of buffer.c is one step, since its mutex is
-- held, and cancellation is disabled in buffer_push up to its sem_post. A thread is cancelled
-- between two such steps; a read that is cut off inside of its own code is one that pushes no more
-- lines. A signal that arrives when the reader's thread is joined is no step: pthread_cancel() is
-- undefined there. What memory a cleanup gives back is a list of calls; the bytes themselves are
-- not on a heap. A run of the reader records the handlers that it cleans up and does not run their
-- cleanups, so that the read of freed memory by the cleanup of a listener cannot show there; nor
-- can, in the logger, the use of a message behind its free(). The messages of the logger are
-- texts, without a byte 0: fputs() writes a message up to that byte, and the lines of the backlog
-- are whole ones here.
pub mod Prelude
pub mod Sys
pub mod InputBuffer
pub mod InputTools
pub mod Buffer
pub mod NetTools
pub mod Reader
pub mod Output
pub mod Log
pub mod Logger
pub mod Main
pub mod Setup
