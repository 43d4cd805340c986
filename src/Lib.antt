-- ===== src/Lib.antt =====
-- A model of burritOS, a message-passing kernel for an ARM board with its user tasks.
--
-- The kernel keeps a table of task descriptors (kernel/taskTable.c) with a block of memory for the
-- stack of each (kernel/memoryAllocator.c) and a priority queue of the tasks that are ready
-- (common/priorityQueue.c). A task enters the kernel by a system call (kernel/systemCall.c) or an
-- interrupt (kernel/event.c), after which the scheduler (kernel/scheduler.c) picks the task to enter.
-- Ring buffers (common/queue.c) hold the free descriptors, the free blocks and the senders that wait.
--
-- The user tasks are servers (user/servers, user/trainservers) and those that call them. A typed
-- command goes to the commander of the trains or to the office of the switches; the trains send
-- speeds to the train driver, which hands the bytes to its output notifier; the words of the sensors
-- come back through the driver to the sensor server, which wakes the tasks that wait for a sensor.
--
-- Files and what they model:
--   Prelude           shared names; words of 8, 16 and 32 bits as numbers with the wrap written out;
--                     laws of the bit operations; return codes (common/error.h); assertions
--                     (kernel/assert.h), whose failure is the outcome `halt`
--   Utils             common/utils.h: __ctz is `ctz`, min is `minimum`; common/random.c
--   Queue             common/queue.c: queueU16Init, queueU16Push, queueU16Pop and queueU16Peek are
--                     `init`, `push`, `pop` and `peek`; Queue/Fifo is what they promise
--   PriorityQueue     common/priorityQueue.c: `init`, `push`, `pop`, `push_pop`; Levels is what they
--                     promise
--   String            common/string.c over lists of character codes
--   Hardware          hardware/ts7200: intervals of timers, words of control registers; Device has the
--                     functions as they are called, with addresses, checks, and loops that wait
--   Kernel/Memory     kernel/memoryAllocator.c
--   Kernel/TaskTable  kernel/taskTable.c, kernel/taskDescriptor.h
--   Kernel/Data       kernel/kernelData.h, kernel/message.h
--   Kernel/Scheduler  kernel/scheduler.c
--   Kernel/SystemCall kernel/systemCall.c: `serve` is the switch, with a function for each case
--   Kernel/Event      kernel/event.c
--   Kernel/Boot       kernel/kernelData.c, and kernel/bootstrap.c from the call of kernelDataInit on;
--                     SetUp is what comes before that
--   Kernel/Print      kernel/print.c: `write_blocking` is the loop of printBlocking
--   Kernel/Invariant  which tasks the ready queue and the queue of free descriptors hold: `Accounts`
--                     for a kernel with an active task, `Settled` between two tasks
--   Kernel/Run        rounds of a system call or an interrupt and the scheduler, from bootstrap on
--   User/Clock        user/servers/ClockServer.c: delayQueuePush is `push`, with `find` and `link` for
--                     its loop and what follows, and the cases of the switch are in `serve`;
--                     Service is what it promises. Client is user/services/clockService.c
--   User/Names        user/servers/NameServer.c, in its two phases, and user/services/nameService.c;
--                     Directory is what it promises
--   User/Terminal     user/servers/TerminalDriver.c: `serve` is the switch, `run` the loop
--   User/Format       user/services/terminal.c: `print_decimal` and its kin are _printDecimal and
--                     its kin, `write` is the loop of vsprintf and tprintf
--   User/Switches     user/servers/TrainSwitchServer.c
--   User/Driver       user/servers/TrainDriver.c: `take`, `dispatch` and `sense` are the cases of the
--                     switch; Jobs says what the three queues hold together
--   User/Sensors      user/servers/TrainSensorServer.c: `sweep` and `scan` are the loops over groups
--                     and sensors, `give_all` the one over the tasks that wait for any change
--   User/Commands     user/services/trainCommand.c: the typed commands, and messages to the servers
--   User/Commander    user/trainservers/TrainCommander.c: the parser and the server
--   User/Yard         user/trainservers/TrainYard.c with its clients
--   User/Office       user/trainservers/SwitchOffice.c: `seek` is the loop over a calendar
--   User/Track        user/trainservers/TrackManager.c: the server, and its clients in Client
--   LinkedList        common/list.c
--   Heap              common/heap.c: heapU16Push and heapU16Pop are `push` and `pop`, with `rise` and
--                     `sink` for their loops
--   Trains/Root       trains/trainMath.h
--   Trains/Physics    trains/trainPhysics.c, what sets maps, speeds and velocities
--   Trains/Motion     trains/trainPhysics.c, what computes distances and times
--
-- State is passed explicitly: a function takes the record of a structure and returns the new one. A
-- function that returns an error code and writes nothing returns `err`. The build flags are those
-- of make/preprocessor.make, all on. Memory is a function from addresses for each kind of object
-- (words, half words, envelopes), which are taken not to overlap. A timer or device register that
-- hardware fills is an argument. What the compiler's library does on a division by 0, and the
-- address of the assembly routine __taskExit, are fields of the record `Board`.
--
-- A server of user/ is a function from its state and a message to the replies and the new state,
-- and its loop is that function on a list of messages: what a server does depends on the messages
-- that the kernel hands it, in their order, and on nothing else. A pointer to a node of a queue of the
-- clock server is a number, a pointer to a string or to a list in a client's memory the list itself.
--
-- A counted loop recurs on the rounds that are left. The loops of the clock server over its 32 nodes
-- have fuel for 34 rounds, and the name server's loop over its queue of 32 for 33; to run out of
-- fuel is `halt`, and the theorems on these servers show that it does not happen. The loop of intSqrt
-- has any fuel, and as much as its argument is enough where it ends. The loops of the heap have as much
-- as the way from a cell to the root or to a leaf takes, and that is enough. The loop of the switch
-- office has any fuel: it ends in its first round or never. The sensor server's loop over its queue of
-- 16 has fuel for 17. The loops that wait for a UART have the rounds that the device takes to become
-- ready.
--
-- Not modelled: tests of null and out-of-range addresses outside of hardware/ts7200, since a record
-- stands for a valid pointer; what follows a read or a write past the table of names, which is `halt`;
-- the assembly entry code; the displays, which only draw; tables of
-- constants, among them the generated table of the track; the notifiers and couriers, which await an
-- event or a message and pass it on; and, for their size, the search of the track graph and the
-- locomotives, which plan and drive by it.
pub mod Prelude
pub mod Utils
pub mod String
pub mod Queue
pub mod PriorityQueue
pub mod Hardware
pub mod Kernel
pub mod Heap
pub mod LinkedList
pub mod User
pub mod Trains
