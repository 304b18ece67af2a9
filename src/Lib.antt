-- ===== src/Lib.antt =====
-- The ATEM component for ESP-IDF: a client of a Blackmagic ATEM switcher over UDP.
--
-- The program. `Atem` (include/atem.h, src/atem.cpp, src/atem_state.cpp) owns a socket, a task that
-- receives, and a copy of the switcher's state. A datagram is an `AtemPacket` (include/atem_packet.h,
-- src/atem_packet.cpp), a header of 12 bytes and then commands (include/atem_command.h,
-- src/atem_command.cpp) that an iterator visits. `SequenceCheck` (include/sequence_check.h) finds
-- duplicates and gaps in the packets' ids, and `AtemState` (include/atem_state.h) keeps a value with
-- the id of the packet that last changed it. The task answers packets, updates the state and posts
-- events; other tasks call the getters and `SendCommands`.
--
-- The files.
--   Prelude: names, tests, lists, words, bit laws and the fault monad that the others share.
--   Sequence: `SequenceCheck`, its `Add`, `GetMissing`, `Contains` and `IsNewer`. `Add` returns a
--     fault where the code shifts by 32 or more.
--   State: `AtemState`. Types: include/atem_types.h.
--   Buffer: memory as a list of bytes, with faults for reads and writes out of range.
--   Packet: `AtemPacket`; Packet.Iterator: `begin`, `end`, `++` and the loops over commands.
--   Command: `AtemCommand`; Command.Classes: the classes of namespace `cmd`.
--   Atem.Object: the members of `Atem`, the heap of file names, and the log of what was sent and
--     posted. Atem.Vector: the accesses to the vectors. Atem.Getters: src/atem_state.cpp.
--   Atem.Events: the numbers of the events. Atem.Handlers: one function per case of the switch in
--     `task_`. Atem.Dispatch: the switch and the loop over it.
--   Atem.Connection: the constructor, the destructor, `SendPacket_`, `Reconnect_`, `SendCommands`.
--   Atem.Task: one round of `task_`, a function for each of its steps.
--   Apps: the two programs in example/. Apps.Boot: what they ask of the ESP-IDF when they start.
--     Apps.PreviewSwitcher: one round of the loop that moves the preview. Apps.Console: the command
--     `atem`. Apps.Wifi: the command `wifi` and the handlers of the Wi-Fi events, one step at a
--     time, and the interleavings of the two tasks.
--   Sequence.Numbers: packet numbers that do not wrap, with what a receiver should answer for them.
--   Atem.Owned: the names of the stills over a session; Atem.Typed: the types of the state's fields,
--     with the text of the product's id;
--     Atem.Sessions: both over any number of sessions;
--     Atem.Touches and Atem.Raises: what a command changes, and the events of a packet.
--   Atem.ReadBack.Getters: the getters after the commands that set their values.
--   Atem.Handshake and Atem.Silence: how a session begins and ends.
--   The other files hold the theorems; Examples holds tests and applications on concrete inputs.
--
-- The model. A function that reads or writes memory, or shifts, returns `none` where C++ leaves
-- the result undefined. A function that changes an object takes it and returns it. `malloc`, which
-- never fails here, and `send` are parameters (`World`); what `recv` returns and which semaphores
-- are taken is the input of a round. An `int16_t` is its 16-bit pattern. `CONFIG_ATEM_STORE_SEND`
-- is on.
--
-- Bounds. The loop over a packet's commands stops after 512, as in the code, and that is its fuel.
-- The loops over the stored packets let 51 pass, as in the code, which drops one at 32.
--
-- Not modelled: logging, the debugging check of the mutex, the deletion of packets and commands,
-- interleavings within a round of the task, the operator < of `AtemState`, which cannot be
-- instantiated, the texts that the console prints, and the build files.
pub mod Prelude
pub mod Sequence
pub mod State
pub mod Types
pub mod Buffer
pub mod Packet
pub mod Command
pub mod Atem
pub mod Examples
pub mod Apps
