-- ===== src/Lib.antt =====
-- LitePCIe driver with PTM support: a model of the Linux kernel driver, software/kernel/main.c, of
-- the headers that it reads (software/kernel/config.h, flags.h, csr.h, soc.h, litepcie.h), of the user
-- library software/user/liblitepcie and of the tools on it, with proofs.
--
-- The program. One PCIe device has DMA channels, each with a writer engine (FPGA to host) and a
-- reader engine (host to FPGA) over 256 buffers of 8192 bytes. The engines raise interrupts; the
-- handler turns their loop status into 64-bit counts of completed buffers. User programs open a
-- channel's character device, take its engines by the lock ioctl, start them by the engine ioctls,
-- and move data by read and write or by mapped buffers with count updates. The device also has a
-- clock that PTP sets and reads, and a PTM requester that relates it to the time of the host. The user
-- library wraps the ioctls: it starts, polls and stops the engines, hands out the buffers, and
-- programs the SPI flash; a loopback test, a recorder and a player run on it.
--
-- The files.
--   Config          the constants of config.h, flags.h and csr.h, and the PTM names of main.c.
--   Bus             litepcie_readl, litepcie_writel and the enable mask. All accesses to registers
--                   are recorded in a trace, newest first; what the FPGA answers to a read is an
--                   argument `hw`, any function of the trace so far and the address. Bus.Mask has
--                   the laws of the mask.
--   Dma             struct litepcie_dma_chan and litepcie_dma_{writer,reader}_{start,stop},
--                   litepcie_stop_dma. Dma.Engine reads a trace as the state of an engine, as the
--                   yardstick; Dma.Program compares the driver's writes with it.
--   Irq             litepcie_interrupt, for a device with one MSI and for one with a vector for each
--                   interrupt. Irq.Count is about the extension of the counts, Irq.Dispatch and
--                   Irq.Masked about which channels are served, Irq.Acknowledge about the bits
--                   that are cleared.
--   File            litepcie_open, litepcie_release and litepcie_poll; File.Session is about them.
--   File.Transfer   litepcie_read and litepcie_write. The handler may move the hardware count
--                   between any two looks at it: `seen k` is what the k-th look of the loop finds.
--                   Rounds has the rule for the loop, Read and Write the ledger of a call, Exact
--                   the result while the count stands still.
--   File.Request    the argument structs of litepcie.h and what a call on an open file reaches.
--   File.Lock       LITEPCIE_IOCTL_LOCK. Moves, Owners and Requests see it as a protocol between the
--                   files of one channel.
--   File.Ioctl      litepcie_ioctl and litepcie_flash_spi, with a child for each engine and for the
--                   SPI flash.
--   Ptp             the PTP clock and PTM: litepcie_read64, litepcie_read_time, litepcie_write_time,
--                   litepcie_ptp_*, litepcie_phc_get_syncdevicetime and the PTM part of
--                   litepcie_pci_probe. Ptp.Generator reads a trace as the clock that it loads;
--                   Ptp.Clock, Ptp.Dialog and Ptp.Sync have the proofs.
--   File.Mmap       litepcie_mmap.
--   Chdev           litepcie_alloc_chdev and litepcie_free_chdev, as the list of the kernel calls that
--                   they make. Chdev.Registry says what is registered after such a list, as the
--                   yardstick; Chdev.Ranges and Chdev.Rollback have the proofs.
--   Flow            what the two directions of a channel have in common: the counts of an engine and
--                   the history of its buffers; Flow.Loop is about the loops of read and write.
--   Receiver        the driver as one program: the interrupt handler, litepcie_read and the calls of
--                   other files of the channel as steps in any order, on a writer that runs. Handler,
--                   Loop and Others say what a step does to the counts, Order what holds of a history.
--   Sender          the same for litepcie_write, on a reader that runs.
--   Probe           litepcie_pci_probe with litepcie_dma_init, and litepcie_pci_remove, in the build of
--                   csr.h and soc.h: MSI-X, one DMA channel, no UART. What the kernel holds for the
--                   driver is a state: interrupt handlers with their cookies, vectors, character
--                   devices, the clock. Probe.Irqs is about the loops over the vectors,
--                   Probe.Lifetime about the way from the probe to the removal, Probe.Leaks about the
--                   error paths.
--   Module          litepcie_module_init, litepcie_module_exit and compare_revisions.
--   User            software/user/liblitepcie/litepcie_dma.c, the loop of a user program over the
--                   buffers: litepcie_dma_process, the two buffer cursors, and the requests for the
--                   engines, on top of litepcie_ioctl of this model. User.Cursors, User.Process,
--                   User.Produce, User.Uses and User.Claim are about them.
--   User.Setup      litepcie_dma_init, litepcie_dma_cleanup and the loopback switch; User.Lifetime is
--                   about them.
--   User.Registers  software/user/liblitepcie/litepcie_helpers.c: registers by ioctl, and the reload.
--   User.Flash      software/user/liblitepcie/litepcie_flash.c: the SPI commands; Frames, Returns and
--                   Buffers are about them. User.Flash.Program has litepcie_flash_write, whose loops
--                   Waits, Compare, Pages and Whole are about.
--   Util            software/user/litepcie_util.c. Util.Pattern has the pseudo-random words, Mask,
--                   Check and Delay are about them; Util.Loopback has dma_test, from
--                   litepcie_dma_init over the passes of its loop to litepcie_dma_cleanup, with
--                   Receive, Transmit, Shift, Passes and Whole for the proofs; Util.FlashTool has
--                   flash_program and flash_write, Util.FlashRead flash_read, and Util.Board info,
--                   scratch_test and flash_reload.
--   Stream          software/user/litepcie_test.c: litepcie_record and litepcie_play, on open files.
--                   Stream.Record and Stream.Passes are about the file that is recorded, Stream.Fill,
--                   Stream.Play and Stream.Sent about the buffers that are played.
--   Tools           both main functions of software/user. Tools has atoi, strtoul and the printing of
--                   numbers as the C library has them, and the name of the device; Digits is about
--                   them. Tools.Options has the loops over the options, which Tools.Options.Last is about,
--                   Tools.Main the choice of the command; Tools.Spelled is about the command lines
--                   that are written from a command.
--   Base            shared names, list functions over native numbers, and the laws of bits.
--   Tests           the theorems at concrete inputs.
--
-- Numbers. A number of the model is the bit pattern of the C variable, with wrap-around written
-- out: add64, sub64 and slt64 are the 64-bit addition, subtraction and signed comparison, and the
-- offset of a copy in the caller's memory, block_size * i, is a product modulo 2 ^ 32. The int
-- counts of rounds and of lost buffers of a call do not wrap: the kernel cuts a call to less than 2 ^ 31
-- bytes. In a C expression that reads two registers the left one is read first.
--
-- Loops. The loop of read and write runs on fuel, size / 8192 + 1 rounds, which is shown to be
-- enough. The SPI and PTM waits are bounded in the source (100000 and 100 reads) and recurse on
-- their bound. The loop of litepcie_flash_write over the pages has 17 rounds for each byte and 17
-- more, which is shown to be enough, since a page is tried at most 17 times; a wait for the flash
-- has `patience` rounds, and that the flash is ready within them is a hypothesis. get_next_pow2 has
-- 31 rounds, the bits of a positive int, and the printing of a number has a round for each digit.
-- The inner loops of dma_test and of litepcie_test.c have a round for each available buffer and one
-- more; the outer loops take a list, one item for each pass until Ctrl+C. The other loops recurse
-- on what is left to do.
--
-- Not from this source, and so arguments of the model: the answers of the FPGA; the results of
-- copy_to_user, copy_from_user, kzalloc, wait_event_interruptible, cdev_add, device_create,
-- remap_pfn_range, pci_irq_vector and of the kernel's calls in the probe and in the module's init;
-- the kernel's conversions of times; in user space the results of open, mmap, malloc, calloc,
-- fopen, fread, poll, read, write and getopt.
--
-- Not modelled: delays and messages; what the kernel frees by itself after a probe (devm_, pcim_
-- and dmam_ resources); the UART of the probe, which this build does not have; the text that the
-- tools under software/user print; liteuart.c and litex.h, copies of kernel files; the gateware and
-- its scripts in Python; the generated csr.h, soc.h and mem.h beyond the names that are used.
pub mod Base
pub mod Config
pub mod Bus
pub mod Dma
pub mod Irq
pub mod File
pub mod Chdev
pub mod Ptp
pub mod Flow
pub mod Receiver
pub mod Sender
pub mod Probe
pub mod Module
pub mod User
pub mod Util
pub mod Stream
pub mod Tools
pub mod Tests
