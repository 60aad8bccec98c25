-- ===== src/Lib.antt =====
-- The C programs of safewrt: tools/tplink-safeloader, which makes firmware images for TP-LINK
-- devices, tools/patch-cmdline, which patches a kernel image, and packages/lifeline, which keeps a
-- connection to a remote host.
--
-- tools/tplink-safeloader/tplink-safeloader.c keeps a table of boards. It makes image partitions out
-- of data and files, and puts them behind one another in an image with a table of them in front.
--   Safeloader/Layout: `struct image_partition_entry`, `flash_partition_entry` and `device_info`.
--   Safeloader/Boards: the array `boards`, entry by entry.
--   Safeloader/Pieces: `put32`, `bcd`, `alloc_image_partition`, `make_partition_table`,
--     `make_soft_version`, `make_soft_version_from_string`, `make_support_list` and `put_data`.
--   Safeloader/Tables: the printing of a table into a buffer.
--   Safeloader/Files: `read_file` and `read_file_split2`.
--   Safeloader/Image: `put_partitions`, `put_md5`, `generate_factory_image` and
--     `generate_sysupgrade_image`.
--   Safeloader/Build: `build_image` and `find_board`; Build/Whole for a board with four partitions in its
--     image, Build/Full for one with eight, Build/Refused for one that is refused, and Build/ArcherC7 for
--     `archer_c7_v4`.
--   Safeloader/Extract: `add_flash_partition` and `read_partition_table`.
--   Safeloader/Unpack: `write_partition`, `extract_firmware_partition`, `extract_firmware`,
--     `find_partition`, `write_ff` and `convert_firmware`.
--   Safeloader/CommandLine: `set_source_date_epoch` and `main`.
-- packages/lifeline/dns.c asks one server for the A records of one name.
--   Dns: `dns_packet_t`, `dns_record_t` and `dns_t`; Dns/Fields: the fields of a packet as bytes.
--   Dns/Request: `dns_init` and `dns_request`. Dns/Receive: `dns_receive`. Dns/Client: `main`.
-- packages/lifeline/lifeline.c connects to a remote host and joins it with the local ssh server. It
-- includes dns.c to find the host's addresses.
--   Lifeline: `build_helo` and `attempt_remote`. Lifeline/Forward: `splice` and `forward_loop`.
--   Lifeline/Resolve: `attempt_dns`, `parse_resolvconf` and `main`, and packages/lifeline/config.h, as the
--     list of addresses that `attempt_remote` is called with.
--   Lifeline/Sockets: `remote_connect`, `local_connect` and `attempt_remote` with the open descriptors.
--   Lifeline/Process: `attempt_dns`, `parse_resolvconf` and `main` with them, and `dns_close` of dns.c. A
--     step answers whether it returns, since the forwarding may go on without end.
-- tools/patch-cmdline/patch-cmdline.c puts a command line behind its marker in a kernel image.
--   PatchCmdline: the program, from its arguments to the mapping that it leaves.
--
-- Common holds what the parts share: tests on numbers, lists, texts, words and buffers. Tests runs the
-- definitions on concrete inputs.
--
-- Conventions. A buffer is the list of its bytes, and a pointer into it is an index or the list
-- from it on. `Outcome` is the way a call ends: a value, `exits n` for `error(n, …)`, `aborts` for
-- a failed `assert`, and `faults` for a read or a write outside of an object. A C string is the
-- list of its bytes without the zero. `malloc`, files, clock, sockets and MD5 are parameters: a
-- block that `malloc` gives has any content. Sums on `size_t` and `uint32_t` keep their wrap-around
-- where the operands are not bounded. Loops recur on the list that they go over, or count down to
-- the bound that the source counts up to; an array with no entry that ends it is read out of
-- bounds. Three loops go on in a text by a length that they find there, and have fuel:
-- `read_entries`, `skip_headers` and `parse_lines` (twice), each with one round more than there are
-- bytes, since each round takes a byte at least.
--
-- Not modelled: md5.c, a copy of a library; what calls the system only (`dns_set_timeout`, `free`);
-- the text of `usage`; the Rust programs of packages/hatch and genesis; the build files.
pub mod Common
pub mod Safeloader
pub mod Dns
pub mod Lifeline
pub mod PatchCmdline
pub mod Tests
