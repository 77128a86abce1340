-- ===== src/Lib.antt =====
-- Verification of BlackHV, a small hypervisor on KVM (src/, include/blackhv/).
--
-- The parts, from the bottom:
--   * the linked list (src/linked_list.c) keeps the regions of guest memory. LinkedList.antt has its
--     operations on a heap of elements, LinkedList/Chain.antt the shape of a list in memory;
--   * the ring of bytes (src/queue.c) is Queue.antt; the serial port has two of them. A queue_t * is
--     an Option, and Queue/Calls.antt relates the calls to a bounded queue of bytes. The tests of
--     src/tests.c are Queue/UnitTests.antt;
--   * guest memory (src/memory.c, include/blackhv/memory.h) is Memory.antt for the allocation and
--     Memory/Access.antt for the transfers, the E820 table and the alignment. Its linked
--     list of entries is a List, added to at its end and walked from its front; Memory/Linked.antt
--     joins it to the linked list, and Memory/Balance.antt counts what it maps and unmaps;
--   * the I/O ports (src/io.c) are Io.antt: a table of handlers over any state of the devices;
--   * the serial port (src/serial.c) is Serial.antt: its registers, and its registration in the table;
--   * the CD drive (src/atapi.c) is Atapi.antt: the static variables are a record, each register
--     handler is a function, and the disk is a parameter. Atapi/Init.antt puts them in the table,
--     for a machine that has the drive among its devices;
--   * the memory-mapped regions (src/mmio.c) are Mmio.antt; mmio_register allocates in guest memory;
--   * the machine (src/vm.c, include/blackhv/cpu.h) is Vm.antt, with the set-up of the processor in
--     Vm/Vcpu.antt and Vm/Setup.antt, and the exits and the run loop, which call Io and Mmio, in
--     Vm/Run.antt. Vm/Regs.antt has the registers, Vm/Life.antt a machine from vm_new to vm_destroy;
--   * Machine.antt puts the serial port and the drive behind the I/O table, and Machine/Port.antt
--     follows bytes from the exits of the guest through the table to the port and to the host,
--     and Machine/Drive.antt a block of the disk to the guest;
--   * the window (src/screen.c) is Screen.antt, over the answers of SDL: Screen/Resources.antt has what
--     it acquires and gives back, Screen/Frames.antt what it shows;
--   * the guest program (examples/guests/guest32.c) is Guest.antt for its polling of the serial port,
--     which Guest/Echo.antt joins to the port of Serial.antt, Guest/Splash.antt for its screen, and
--     Guest/Start.antt for its start; its last loop is given its number of rounds;
--   * the programs that load a guest are below Loader.antt: Loader/K.antt and Loader/Segments.antt for
--     examples/k/main.c, Loader/Linux.antt for examples/linux/main.c, Loader/Binary.antt for
--     examples/guests/main.c. They look up and write guest memory with the functions of Memory;
--   * their main functions are below Programs.antt: Programs/K.antt, Programs/Linux.antt and
--     Programs/Guests.antt compose the parts above in the order of the source, on a record of what they
--     are answered, and Programs/Workers.antt has their threads at the serial port.
-- Base.antt has what they share: numbers, lists, results and machine words.
--
-- A function of the source has the same name here. C code that may be undefined or loop returns an
-- Exec: ok, fault for undefined behaviour, out_of_fuel for a loop cut short. Loops of the linked list
-- take fuel, and one more than the elements of the list is enough; the loops of queue.c and memory.c
-- are given as many rounds as the size asked for (one more for memory.c), which their conditions
-- never exceed. vm_run runs on the list of the exits to come. Words wrap round where the source's do.
--
-- A loader that writes past the end of the region it has looked up is a fault: the host's mapping ends
-- there. An exit with a message is a value without what was closed before it.
--
-- What the operating system answers is given: malloc by flags, mmap and KVM by the records Host and
-- Kvm, the disk by a function. The calls made to it are recorded where a theorem speaks of them.
--
-- Queue.antt takes a call of the ring as one step. Queue/Threads.antt has the threads: a test before the
-- mutex is a step and a body under it is another. The guest's polling loops take fuel, and one
-- round is enough on a port that is ready; the event loop of screen.c runs on a list of rounds. The
-- layouts of elf.h and of the kernel's asm/bootparam.h are parameters; that of examples/k/multiboot.h,
-- a copy of a third-party header, is written out where the loader fills it.
--
-- Not modelled: what is printed or drawn, the memory that the destroy functions give back apart from the
-- elements of a list, the queue, the guest's regions and the screen's objects, and the 16-bit
-- guest. The threads of the programs do not run beside the main functions of Programs: the threads of
-- the ring are in Queue/Threads.antt.
pub mod Base
pub mod Queue
pub mod LinkedList
pub mod Memory
pub mod Io
pub mod Serial
pub mod Atapi
pub mod Mmio
pub mod Vm
pub mod Machine
pub mod Guest
pub mod Loader
pub mod Screen
pub mod Programs
