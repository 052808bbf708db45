-- ===== src/Lib.antt =====
-- The C++ test bench of the SATA controller, and the controller's C driver.
--
-- The bench drives a Verilated SATA controller. `TESTB` (bench/cpp/testb.h) owns three clocks
-- (`TBCLOCK`, bench/cpp/tbclock.h) and calls back at their falling edges; at the edges of the PHY's
-- clocks it exchanges signals with the simulated device (`SATASIM`, bench/cpp/satasim.h and
-- bench/cpp/satasim.cpp), and the controller's bus reads and writes a simulated memory (`MEMSIM`,
-- bench/cpp/memsim.h and bench/cpp/memsim.cpp). `WB_TB` (bench/cpp/wb_tb.h) reads and writes the
-- controller's registers over its bus, and `SATA_TB` (bench/cpp/tb_sata.cpp) joins these parts, keeps
-- a disk image, and runs its tests. The driver (sw/satadrv.c) gives the same commands from software.
--
-- Files:
--   Common: the native numbers, lists as arrays, bit operations as arithmetic, casts.
--   Device.State: the members of `SATASIM`, its constructor, `reset` and `reset_data_buffer`.
--   Device.Scrambler, Device.Crc: `scramble_function` and `advance_crc`, loops over 32 bits.
--   Device.Phy: `send_coms`, `detect_coms`, `process_oob`, `process_rx_signals`,
--     `process_tx_signals`, `device_phy_sends`, and what `sim_tx_clk_tick` does with the device;
--     Device.Phy.Handshake: the handshake they make.
--   Device.Words: `swap_endian`, `scramble_data`, `calculate_crc`, `device_link_sends`,
--     `device_link_receives`.
--   Device.Link: `wait_for_primitive`, the four responses and `link_layer_model`; Device.Link.Reach:
--     the steps that a bench can take with a device; Safety, Answer, Listen, Diagram and Total: what
--     holds of them.
--   Device.Link.Widths: the ranges of the device's members.
--   Device.Frame: a frame as its specification, and what a device says and hears over a run of clocks;
--     Device.Frame.Overrun: a frame too long for the device's buffer.
--   Device.Session: the frames of a whole command, with a controller that keeps the protocol;
--     Device.Session.Exchange: the exchanges of the four commands.
--   Clock: `TBCLOCK`; Clock.Tick: the constructor and `tick` of `TESTB`, as far as they spend time;
--     Clock.Trace: its trace and `done`; Clock.Frequency: `set_frequency_hz`.
--   Memory: `MEMSIM`; Memory.Load: `load` from a buffer of bytes; Memory.Within: its steps where
--     their indices are in range; Memory.Store, Memory.Apply and Memory.Apply.Latency: its writes, its
--     indices, and the queue that delays its answers.
--   Disk: `write_to_disk` and `read_from_disk` of `SATA_TB`.
--   Bus: `WB_TB`, over an interface of the core; Bus.Blocks: its block forms; Bus.Registers and
--     Bus.Blocks.Registers: the bus in front of a file of registers; Bus.Bounds: how long it
--     takes.
--   Bench: the core, the clocks, the device and the memory under `TESTB::tick` and the callbacks of
--     `SATA_TB`, which fill the interface of Bus; Bench.Tick and Bench.Period: that its ticks return.
--     Bench.Steps: the callbacks of one tick.
--     Bench.Commands and Bench.Heard: the registers of a command, and the device that hears it.
--     Bench.Transfer: the operations of `SATA_TB` up to `main`; Bench.Boot and
--     Bench.Transfer.Started: how the bench starts; Bench.Transfer.Returned: a sector on its way from
--     the controller to the disk image and back;
--     Bench.Transfer.Verify: what the check of a test shows.
--   Driver: sw/satadrv.c and sw/satadrv.h.
--   Examples: the theorems at concrete inputs.
--
-- A member of a class is a field of a record, without its `m_`; the function-local statics of
-- `SATASIM` are fields too, since the bench has one device. An operation takes the state and gives
-- the new one, and reference parameters are records of results. `none` is an access outside an array
-- or through the null pointer, a failed assertion, or fuel that runs out; `operator[]` of `MEMSIM`,
-- whose index is masked, is total and gives 0 outside its array. Unsigned numbers wrap
-- around where they are written `u32` or `u64`. The loops of the memory run on fuel: 33 rounds double
-- 1 past 2 ^ 31, and a scan of the queue takes one round for each place and one more.
--
-- The ticks of one edge of the bus clock run on fuel as well: one more than the half period of that
-- clock in ps is enough, since a tick moves the time by 2 ps or more. The driver waits on fuel for a
-- device that may be busy for ever.
--
-- The Verilated core is a parameter: its `eval`, its outputs, and its state. So are what `rand` and
-- `Verilated::gotFinish` give, the floating-point quotient of `set_frequency_hz`,
-- the device behind the driver's registers, and the numbers that the driver takes from headers outside
-- the repository.
--
-- Not modelled: the Verilog design under rtl/ and what its formal properties and its Verilog test
-- benches show, what Verilator writes to a trace file at each of its times, and the printed log.
pub mod Common
pub mod Device
pub mod Clock
pub mod Memory
pub mod Disk
pub mod Bus
pub mod Bench
pub mod Driver
pub mod Examples
