-- ===== src/Lib.antt =====
-- njuos: the kernel of a small operating system for the 32-bit x86, and a model of it with its proofs.
--
-- The kernel consists of servers, each a kernel thread that receives messages and answers them: the file
-- server (src/kernel/file_system), the memory and process managers (src/kernel/manager_server), and the
-- drivers for the disk, the timer, the RAM disk and the terminals (src/kernel/drivers). Under them lie the
-- intrusive lists of include/adt/list.h, and the processes with their semaphores and message queues
-- (src/kernel/process). The shell (shell) is a user program.
--
-- A thread handles one message at a time, so each handler is a function from the state of its server to
-- the state behind the call; where a handler sleeps between two changes of what others see, it is cut there. The files follow the program's parts:
--   Prelude        Boolean tests, lists, maps and integers that all files share
--   ListHead       include/adt/list.h on a heap of pointers: list_add, list_add_before, list_add_after,
--                  list_del, list_init, list_empty; a state is the fields `prev` and `next` by address
--   Message        include/process.h: `Msg`, with the unions laid out as the fields i0 to i4
--   Process        src/kernel/process: Locks (lock, unlock), Scheduler (schedule, sleep, wakeup, P as
--                  p_sem, V as v_sem), Mailbox (init_msg, send, and receive as receive_any and
--                  receive_from, cut at the places where it may sleep), Pool (process/util.c and the
--                  handlers of manager_server/pcb_manager.c: create_kthread, create_process, fork, exit,
--                  handle_waitpid and the end of exec, on the lists that the processes are in; fork and
--                  create_process are start_fork and finish_fork, take_pcb and finish_process, with
--                  the steps of the other threads between the halves in Pool/Steps)
--   Timer          src/kernel/drivers/timer/timer.c: add_time_event, time_event_proc, update_jiffy
--   Ide            src/kernel/drivers/ide/cache.c: cache_init, cache_writeback, cache_fetch, read_byte,
--                  write_byte, on the cache with the disk behind it; Driver has the thread of ide.c
--   FileSystem     src/kernel/file_system and include/fm.h: Bitmap and INodes (fm_backstage.c), ReadData,
--                  WriteData and Release (read_data, write_data and release_block of fm_syscall.c), Files
--                  (open files, vnodes and descriptors), Server (the whole state of the server, fm_read and
--                  fm_write), Directories (read_dir_entry, read_inode and fm_chdir; Changes has fm_create and
--                  fm_mkdir, Deletions the removal of entries, Opening has fm_open, Listing has _lsdir), Start
--                  (init_file_format and the block buffers), Handlers (each handler of file_thread from
--                  its message to its answer)
--   Memory         src/kernel/manager_server/memory_manager.c, src/kernel/memory/util.c and physical_addr
--                  of src/lib/kcpy.c: pages, page tables, and what the manager does to them; Loader
--                  has load_program and the handlers of the manager's messages
--   Copies         the copies of src/lib/kcpy.c between the kernel and a process, and strlen_user_string
--   SystemCalls    src/kernel/system_call: do_syscall with its functions, Library (syscall.c, the calls of a
--                  program), Servers (the switch of file_thread, pcb_manager_thread and
--                  timer_driver_thread),
--                  Routes (where each call arrives)
--   Interrupts     src/kernel/irq/irq_handle.c: add_irq_handle and irq_handle
--   Console        src/kernel/drivers/tty/console.c: Screen, Line (the line editor), Cooked (the buffer
--                  that reads take lines from), Keyboard (readkey of keyboard.c)
--   Devices        src/kernel/drivers/hal.c (hal_get, hal_get_id, hal_register, on the list of devices) and
--                  src/kernel/drivers/ramdisk/ramdisk.c (read_ram, write_ram)
--   Strings        src/lib/string.c and src/lib/printk.c, with printk in Printing
--   Shell          shell/shell.c: parse, convert_to_full_path; Session has main and the commands
--   Tests          the theorems at concrete inputs
--
-- Numbers are natural numbers; where the code wraps at 32 bits on a path that can reach it, the model has
-- the remainder written out. `Option` holds the result where the code may fail an assertion, panic, follow
-- a NULL pointer or leave an array: `none` is that. The exceptions are set_page_idle and
-- release_disk_inode, which may leave page_bitmap and inode_bitmap: there the model changes an entry behind
-- the last one, which nothing reads. Data of unlimited size is a function of the address or the index.
--
-- Loops are structural recursion, or recursion on fuel. The circular searches of the bitmaps have one round
-- over the map as fuel, which is enough to find a free entry if there is one. The loops that read and write
-- file data have the wanted length as fuel: each of their rounds moves at least one byte. The loops of
-- release_block have the size of the file: each round ends a block. The loops over strings have the size of
-- the buffer that holds them, those over a path its length, and those over the entries of a directory the
-- size of its file. The loop of remove_inode_from_dir has fuel of any size, since there are directories on
-- which it does not end, and so have strlen_user_string and the loop of cat. The deletion of a directory goes
-- as deep as there are block buffers, twenty. The loops that print a number have the fifteen places of its
-- array.
--
-- A handler of one server takes the answers of the others as arguments: what a terminal reads and writes,
-- the entry that the memory manager sets for a program. Buffers whose old content may show are functions.
--
-- Not modelled are the boot loader, the port accesses, the descriptor tables and the interrupt stubs, which
-- are the processor's; the messages between servers, whose answers are arguments; the links of saved frame
-- pointers that fork moves in a kernel stack; and read_bitmap_from_disk. A driver's messages are
-- taken as calls of the functions that serve them.
pub mod Prelude
pub mod Ide
pub mod ListHead
pub mod Message
pub mod Timer
pub mod FileSystem
pub mod Process
pub mod Strings
pub mod Shell
pub mod Memory
pub mod Console
pub mod Devices
pub mod Tests
pub mod Copies
pub mod Interrupts
pub mod SystemCalls
