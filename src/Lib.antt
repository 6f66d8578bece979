-- ===== src/Lib.antt =====
-- MFiWrapper: game controllers of other makers presented to iOS and OS X programs as MFi controllers.
--
-- A backend talks to the controllers over HID (src/backend/), and sends what they do over a socket to
-- a frontend inside the program that uses them (src/frontend/). A filter in the Bluetooth server
-- (btserverfilter/) changes a few HCI packets, so that the controllers pair.
--
-- Files and code:
--
--   Prelude            shared names, Boolean tests, lists and integers over the native numbers, lemmas.
--   Protocol           include/protocol.h: the controls and the packets. `DataPacket` is the union that
--                      MFiWDataPacket's type selects. Protocol/Wire: their bytes in memory, packed and
--                      little endian; a float is its 32-bit pattern.
--   Connection         src/common.h and common.cpp. Defs: the senders as the bytes that they write
--                      (`send_connect` is SendConnect, and so on), Read (`read`) and Parse (`parse`).
--                      Endpoint: the constructor, the destructor and the callback (`open_endpoint`,
--                      `close_endpoint`, `callback`). Sync: the reader inside the stream. Framing and RoundTrip:
--                      what Parse delivers.
--   HidPad             src/backend/hidpad/. Float: the operations on `float`, a parameter, and the facts
--                      of IEEE arithmetic that properties assume. Axis: CalculateAxis. Effect: what a
--                      controller asks of the HID manager and of the backend, as values. Playstation3,
--                      DualShock4, WiiUPro: the classes of these names, with their state as a record
--                      and SetPlayerIndex, SetReport and HandlePacket as functions. WiiMote: the
--                      driver of wiimote.h and wiimote.cpp (Constants, Driver, Handshake, Classic) and the
--                      class (Pad), with the end of the handshake's loop (Termination), the numbers of its
--                      input states (Range, Inputs) and its states between packets (Life). Pause: presses of
--                      the pause button over a history. Range: bounds of all numbers of an input state.
--                      Quiet: which calls a controller makes. Interface: HIDPad::Connect, and the virtual
--                      methods over the five classes, with their laws.
--   Text               C strings and literals as bytes.
--   BtFilter           btserverfilter/src/. Address: BTAddress.h and the map of names. Defs: the globals
--                      and the filters of BTServerFilter.cpp. Hooks: its hooks on socket, write and
--                      read. Write, Read and Pairing: what the radio and the Bluetooth server see.
--                      Logger: PacketLogger.cpp, the bytes that a listener gets, and a reader of them.
--   Backend            src/backend/backend.cpp. Defs: AttachController, DetachController and HandlePacket
--                      over `nextHandle` and `devices`. Registry and Lifecycle: which handle stands for
--                      which controller.
--   Frontend           src/frontend/. Value: C's comparisons on the bits of a float. Element: the buttons,
--                      axes and pads of MFiWrapper.mm, with tweakSetValue: and tweakSetValues:. Controller:
--                      GCController, with controllerForHandle:data: and tweakUpdateButtons:. Gamepad: the two
--                      gamepads' properties. Manager: the functions of frontend.mm over the array of
--                      controllers (Arrays: the layouts in the array). Discovery: its two discovery functions
--                      with the references that they own and handlers that call back (Ownership and
--                      Ending). Keyboard: keyboard.mm. Hooks: the
--                      method hooks of GCController_Hook_iOS.xm (Repeats: key events that come twice),
--                      and of GCController_Hook_OSX.mm (Exchange).
--   HidManager         src/backend/hidmanager/HIDManager.cpp: names, report buffers and reports. Matching:
--                      StartUp, ShutDown and the matching dictionaries.
--   Process            the start of the program: the frontend's Startup, HACKStart and ManagerThread of
--                      backend.cpp as steps of two threads. Order: what is there at each of them.
--   Log                src/log.h: the four methods and DoPrint, with its buffer.
--   System             the whole program: the callbacks of HIDManager.cpp, the registry, the live objects
--                      by address (Memory), two queues of packets in place of the socket pair, the room in
--                      its buffers (Room), and the frontend. Queue, Calls, Invariant and Links: the
--                      invariant between steps. Entry, Attach,
--                      Remove, Methods and Messages: the steps one by one. Safety and Drain: runs of
--                      steps. Arrays: the layout of the frontend's controllers. Reports: a report on its way.
--   Witnesses          the properties at concrete inputs.
--
-- How the parts interact: a controller's HandlePacket returns its new state and its calls in order
-- (`Effect`); the backend's functions return the packets that they send; `send` gives a packet's bytes,
-- `parse` what the other end hands over, and `decode` what its HandlePacket selects on. `System.perform`
-- carries out a controller's calls, and `System.Safety.step` is one callback of a run loop or one call of
-- the application, with `none` for a failed assertion, a pointer to a deleted object, an exception, or a
-- packet that a socket does not take whole.
--
-- Conventions: a failed assertion, a store outside of a buffer, and a packet too short for its length
-- field are `none` or a constructor of their own. A byte behind the end of a list reads as 0. Unsigned
-- numbers are natural numbers with the wrap-around written out; `int32_t` is an integer without bounds, for
-- values that stay far from its limits. A report is the list of bytes that HandlePacket is given; in System
-- that list is the whole buffer of the Connection.
--
-- Bounds: `Parse` runs until a call of `read` returns nothing. `parse` takes the list of how many bytes
-- are ready at each call, in the system's choice, and after the list nothing is ready; a list with as
-- many positive entries as there are bytes is enough to take all of them.
--
-- The sockets do not block, and the senders do not look at what `write` returns. A step adds whole packets to
-- the queues, and then asks whether what waits fits into the buffers (`System.Room.written`), whose size is the
-- parameter `room`; since a step only ever adds behind what it took out, each write then found room. Where it
-- does not fit the model ends: what a program does with a lost or cut packet is not modelled. A packet in the
-- queue counts with its whole size while the far end has read a part of it.
--
-- Parameters: the room in the sockets; `float` arithmetic; what the system's calls answer. The C
-- library and std::map are modelled by what the source uses of them.
--
-- The handshake of the Wii Remote is a loop on fuel. Its states run 1, 2, 6 or 4, 2, 6 or 5, 3, 6 at the
-- longest, so the fuel of three rounds that the class gives is enough from each of its states. Handlers
-- of a discovery run on fuel too, which is how deep they may run inside of one another: a handler that
-- starts discovery with itself and stops it has no bound, and for others a rank of the handlers is enough.
--
-- Process stops where System begins: its manager thread in the run loop, with the frontend behind Startup,
-- is the state `boot`. Discovery has the two functions of Manager with what handlers do.
--
-- Not modelled: IOKit and CoreFoundation, whose calls are values, facts that a record keeps, or steps that the
-- environment takes; the frontend's empty snapshots, and reference counts other than those of discovery
-- handlers; the system's log; what follows a lost or cut packet. Threads meet in
-- Process and in the two queues only, and a step of either is taken as a whole. The handlers that an application sets on buttons, axes and controllers are numbers, and do
-- not call back.
pub mod Prelude
pub mod Protocol
pub mod Connection
pub mod HidPad
pub mod Frontend
pub mod Text
pub mod HidManager
pub mod System
pub mod Process
pub mod Log
pub mod BtFilter
pub mod Backend
mod Witnesses
