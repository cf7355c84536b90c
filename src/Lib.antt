-- ===== src/Lib.antt =====
-- Verification of libsgftdi, a C library that drives FTDI USB serial chips through libusb.
--
-- The program. A `struct ftdi_context` (include/sgftdi/ftdi.h) holds the settings of one connection.
-- The functions of src/ftdi.c read and change it and talk to the chip with the control and bulk
-- transfers of libusb. They share the guard on a NULL context or a missing device, the macro
-- `ftdi_error_return`, which keeps a message and returns a code, and the read buffer, which
-- `ftdi_read_data` fills and the flushing functions empty. src/ftdi_ex.h has the variants that borrow
-- a context of libusb. On top of these, `FtdiStream` serves several contexts with one loop over the
-- events of the transfers, a timer and a descriptor on which the user asks for changes.
--
-- The state. `Context` is the structure, with the source's field names; `chip_type` stands for the
-- field `type`. A pointer is an `Option`, an object of libusb is its address as a number, and a buffer
-- is a function from the index. An `int` is a `ℤ` and an `unsigned` a `ℕ`; what is narrowed to 8 or 16
-- bits is taken modulo its size. `Sys` pairs the context with the outside world `W`, and a C function
-- is a function from one `Sys` to its result and another. libusb and malloc are no part of the
-- repository: `Host` holds their operations as functions over an arbitrary `W`, so a theorem holds
-- for every behaviour of them but for hypotheses that it names.
--
-- The files, and the parts of src/ftdi.c that they follow:
--   Base      tests, lists, integers, machine words, buffers and their lemmas
--   Context   struct ftdi_context, struct ftdi_eeprom (src/ftdi_i.h) and the enumerations
--   Usb       `Host`, the monad of early returns, and the vendor requests
--   Control   Flush (reset and flushing), Line (line, flow control, characters), Mode (bitbang,
--             latency, modem status); Command and Wire say what each of them sends, Guard what they
--             do without a device, Exchange what those of several requests do
--   Baud      Clock (the divisors), Rate (ftdi_convert_baudrate, ftdi_set_baudrate); Register and Am
--             say what a divisor means, Chip and Set what rate the chip runs at
--   Read      Buffer (the removal of status bytes), Data (ftdi_read_data); Payload, Compact and Strip
--             are about the removal, Transfer, Deliver, Loop and Stream about the whole read
--   Write     Data (ftdi_write_data); Chunks, Pieces, Loop and Whole are about what is offered
--   Async     Transfer (struct ftdi_transfer_control, and `AsyncUsb`, the asynchronous part of libusb),
--             Write and Read (ftdi_write_data_submit, ftdi_read_data_submit and the callbacks), Wait
--             (ftdi_transfer_data_done, ftdi_transfer_data_cancel); Sent, Received and Reads are about
--             what the callbacks move, as relations over the completions of libusb, Pending and Finish
--             about the end of a write
--   Device    Interface, Chunksize and Life: ftdi_init, ftdi_set_interface, chunk sizes, closing;
--             Extended (src/ftdi_ex.h, ftdi_new, ftdi_free); Channel, Ready, Closed and Borrowed are
--             about them
--   Open      Enumeration (the part of libusb that lists and opens devices), Find
--             (ftdi_usb_find_all), Dev (ftdi_usb_open_dev), Choose (ftdi_usb_open_desc_index,
--             ftdi_usb_open_bus_addr), Strings (ftdi_usb_get_strings2, ftdi_usb_get_strings_ex),
--             Describe (ftdi_usb_open_string); Listed is about the list, Closes and Safe about what a
--             failure to open leaves, Recognised about the chip type, Spelled about the strings that
--             name a device, Steps and Handle about a device that is opened for its strings
--   Eeprom    Values: Name, Get and Set, about which Field is.
--             Memory: Access (a word, and erasing), Image (ftdi_write_eeprom) and Load
--             (ftdi_read_eeprom); Memory says what a memory does, Written and Loaded what the last
--             two leave, Guess what the size that is guessed means, and Reread is about both of them.
--             Structure: Defaults (ftdi_eeprom_initdefaults, ftdi_eeprom_set_strings), Buffer (the
--             accessors of the buffer, the user data and the strings), ChipId (ftdi_read_chipid);
--             Fetched is about what is got back.
--             Image: Bytes and Mode (fields as bits), Chips, Text (the strings) and Build
--             (ftdi_eeprom_build), Specific and Decode (ftdi_eeprom_decode); Checksum, Wrap and
--             Header are about parts of the image, Roundtrip and Identity about building and decoding
--   Stream    of src/FtdiStream*.cpp, src/internal.h and include/sgftdi/ftdistream.h: State (the entries,
--             the slots, and `StreamHost`, what is called of libusb and Linux), Slot (submit and
--             cancel), Callbacks (read_callback, write_callback), Events (the timer, the notice, the
--             reset), Step (process_step and its loop), Setup (the constructor, and the end of a
--             stream), Start (process_init, start_poll), Control (enable_reading, disable_reading,
--             reset_stream, the setters), Owner (init and clear of src/FtdiContext.cpp); Gathered is about what a reader gets, Stopped and Ends about
--             the loop once it is to stop, Passed and Fit about what the constructor lets pass, Leads,
--             Planned, Created, Prepared and Started about the slots that are made
--   Tests     the theorems at work on a small bench
--
-- Fuel. The loop of `ftdi_read_data` has fuel for one round more than bytes are wanted: each round that
-- goes on has delivered a byte, so it never runs out. The loop of `ftdi_write_data` has fuel for one
-- round more than the buffer has bytes: this is enough if a transfer that succeeds takes at least a
-- byte, and without that the C loop does not end either. ftdi_transfer_data_done has fuel for its calls for
-- events, which may bring nothing or be interrupted: for a write there is fuel enough if libusb ends
-- each transfer after finitely many calls, with a byte or more. process_loop has fuel for
-- its rounds: once should_run is false, one round more than the cancel counter is enough. The loop over
-- the packets of a transfer has the number of bytes, which is enough for packets that are not empty.
-- The loops of the
-- rate search and of the buffer run a number of rounds that is known when they start.
--
-- Bounds. Sizes of reads and writes are natural numbers, taken to be below 2^31, so the negative sizes
-- of C are left out, as is the packet size of 1. The chunk size of a write is taken as an `int` and its
-- sum with the offset wraps at 32 bits, as compiled code does; theorems on writes take the sum of the
-- size and the chunk size to be below 2^31. A rate is an `int`, and its product by four or ten wraps;
-- the theorem on ftdi_set_baudrate takes it to fit. The bus and the address of ftdi_usb_open_bus_addr are cut to 8
-- bits. User data at a negative address is copied as far as it falls into the buffer, and theorems on it
-- take the address not to be negative. Around the buffer of the EEPROM the structure has `size` and
-- `chip` before it and `release_number` behind it, little endian: ftdi_eeprom_decode and the guess of the
-- size in ftdi_read_eeprom read these, and nothing farther off is modelled.
-- ftdi_read_data_set_chunksize is that of Linux, with its cap of 16384 bytes.
--
-- Streams: the transfers that a wait for events completes are a list that libusb gives, and their
-- callbacks run one after the other, as the loop has one thread. A call of enable_reading and the like
-- runs between two rounds of the loop.
--
-- Not modelled: the printing of a decoded EEPROM image, the constants of ftdi_get_library_version,
-- start_thread and stop_thread with the locks, the list of errors of a stream, a callback of the user
-- that throws, and the reading of the configuration in src/FtdiContext.cpp. Memory that is freed is a
-- pointer that becomes NULL; there is no heap.
pub mod Base
pub mod Context
pub mod Usb
pub mod Control
pub mod Baud
pub mod Read
pub mod Write
pub mod Async
pub mod Device
pub mod Open
pub mod Eeprom
pub mod Stream
pub mod Tests
