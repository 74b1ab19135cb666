-- ===== src/Lib.antt =====
-- OpenHybrid, a client for GRE tunnel bonding (RFC 8157): a model of the daemon in src/*.c, and the
-- theorems on it.
--
-- The program keeps up to two GRE tunnels, over LTE and DSL, to a concentrator (HAAP). Its main loop
-- (src/openhybrid.c) receives control messages (src/grecp*.c), which change the global struct
-- `runtime` (src/openhybrid.h), and after each reception runs execute_timers, which sends requests
-- and hello messages, takes dead tunnels down, makes the tunnel device (src/tundev.c), starts the two
-- threads of the data plane (src/gre2tun.c, src/tun2gre.c) and the DHCP clients (src/dhcp.c), and
-- triggers events (src/event.c).
--
-- Which file models which part:
--   Base, Base/*           numbers, lists, signed numbers, and `Outcome`: a result, `fault` for an
--                          access to memory that C leaves undefined, `stuck` for fuel that ran out.
--   Bytes, Bytes/*         htons, htonl, ntohs, ntohl and memcpy into variables, on lists of bytes.
--   Runtime                src/openhybrid.h: `runtime` as a record of the same field names, with the
--                          sockets and the calls made so far.
--   Os                     the operating system as a parameter, and src/helpers.c.
--   Event, Tundev, Dhcp    src/event.c, src/tundev.c, src/dhcp.c: functions of the same names.
--                          Event/Environment has the processes that trigger_event makes.
--                          Event/Frame, Tundev/Opened, Dhcp/Printed and Dhcp/Output are proofs.
--   Config                 src/config.c: read_config as functions for its parts. Print and Files have
--                          the documented form of a file; Sizes, Lines, Bounds and Script
--                          are proofs.
--   Logging                src/logging.h and src/logging.c: logger, and in Dump the two dumps. Loop, Rows
--                          and Bits are proofs.
--   Grecp                  src/grecp.h. Below it: Attribute has read_grecpattribute,
--                          append_grecpattribute and the loop over the attributes, Message has the
--                          senders, Handlers the handlers, Process process_grecpmessage and the
--                          reception of src/openhybrid.c. Attribute/Loop, Attribute/RoundTrip,
--                          Table, Tunnels, Packets, Exchange, Accept, Overflow, Answered and
--                          Guard are proofs.
--   Timers                 execute_timers, one function for each section of it: Timers/Tunnels from
--                          the interface addresses to the bypass traffic, Timers/Session from the
--                          reset to the signals, Timers/Clients the DHCP clients. Supervision,
--                          Reset, Leases and Ends are proofs.
--   Daemon                 main of src/openhybrid.c: its start, and a round of its loop. Runs,
--                          Configured, Silence and Immortal are proofs on whole runs.
--   Reorder                gre2tun_main of src/gre2tun.c, one round of its loop. Below it are proofs;
--                          Reorder/Trace has whole runs.
--   Sender                 send_gre and tun2gre_main of src/tun2gre.c, one round of its loop. Below it
--                          are proofs; Sender/Runs has runs of both threads together.
--   Threads                the names of the two threads, set before their loops.
--   Filter                 the packet filters of src/openhybrid.c and src/tundev.c; Accepts is a proof.
--   Calls                  which calls the main thread may make, with Calls/Runs on whole runs; proofs.
--   Sections               what every update of execute_timers keeps, the whole keeps; proofs.
--   Tests                  concrete states, at which the theorems are applied.
--
-- A function that changes `runtime` or makes calls takes a `State` and returns it. What a call of the
-- operating system answers is a field of the record `Os`, a function of the calls made before; every
-- theorem holds for every such record, except where it says what it asks of the clock, of a pipe, of
-- inet_pton, inet_ntop and atoi.
--
-- Bounds. Numbers are natural numbers, and where the source stores into 8, 16 or 32 bits the model
-- wraps around, in the count of freed elements of the reorder buffer as well, so that its invariant
-- asks for at most 65535 elements. A script path of 128 characters fills its array without a zero
-- behind it: its length is not 0, and running it is a fault. Times in seconds have 64 bits in the
-- source and do not wrap here. The loop over the attributes has one round of fuel more than there are bytes, since a round takes three at least; the
-- flushing has one pass more than there are elements, since a pass that goes on frees one; the
-- restarts have 2^32 for each element and once more, since each restart gives up one number. The
-- decimal texts of 32-bit numbers have ten digits at most, and the blanks behind a dumped row fill at
-- most 15 places. Offsets in a dump are printed exactly below 65536; no packet is longer than 1500.
--
-- Not modelled: how libmnl lays out a netlink message, and what the threads do to one another while
-- they run at once.
pub mod Base
pub mod Bytes
pub mod Runtime
pub mod Os
pub mod Event
pub mod Tundev
pub mod Dhcp
pub mod Logging
pub mod Config
pub mod Timers
pub mod Reorder
pub mod Threads
pub mod Sender
pub mod Filter
pub mod Daemon
pub mod Calls
pub mod Sections
pub mod Grecp
mod Tests
