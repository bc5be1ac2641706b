-- ===== src/Ipc.antt =====
-- kernel/ipc/Ipc.c and Ipc.h: the message queue of each process, sending, receiving, and the
-- process table as far as IPC reads and writes it. The first five children are the program, the
-- others prove.
pub mod Message
pub mod Queue
pub mod Process
pub mod Send
pub mod Receive
pub mod View
pub mod Bitmap
pub mod Lowest
pub mod Best
pub mod Enqueue
pub mod Dequeue
pub mod Table
pub mod Reach
pub mod Delivery
mod Tests
