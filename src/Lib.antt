-- ===== src/Lib.antt =====
-- hc is a C library without libc and a Linux router made with it. This library models the parts that
-- carry logic of their own; it follows the C code function by function.
--
-- The parts and where they are modelled:
--   Base      names, tests, lists, bit operations and byte memory that all parts share
--   Util      hc/core/hc/util.c: Decimal (util_uintToStr, util_intToStr, util_strToUint,
--             util_strToInt), Hex (util_uintToHex, util_hexToUint), Cstr (util_cstrLen, util_cstrCmp,
--             util_getEnv, util_strToUtf16)
--   Math      hc/core/hc/math.c: the alignment macros, math_RANGES_OVERLAP, math_gcd64 and math_gcd32
--   Base64    hc/core/hc/base64.c: base64_encode
--   Mul128    hc/core/hc/compilerRt/mul128.c: mul128_64x64
--   Mem       hc/core/hc/compilerRt/mem.c: memset and memmove
--   Hash      hc/core/hc/crypto/sha1.c, sha256.c and sha512.c: what the three have in common (shaX_init,
--             shaX_update, shaX_finish are init, update, finish), Words, Sha1, Sha2 (the rounds of
--             SHA-256 and SHA-512), Sha256, Sha512. The reference is in Fips (the hash computation of FIPS
--             180-4 for a block), Constants (its numbers and functions), Padding and Choose; the
--             proofs are in the other files
--   Allocator hc/core/hc/allocator.c: allocator_init and allocator_resize
--   Dhcp      router/router/dhcp.h. Dhcp/Options: the loops over the options in dhcpClient_onFd and
--             dhcpServer_onFd. Dhcp/Server: router/router/dhcpServer.c (dhcpServer_getEntry is
--             get_entry, dhcpServer_onFd is on_fd). Dhcp/Client: router/router/dhcpClient.c
--             (dhcpClient_onTimerFd is on_timer, dhcpClient_onFd is on_fd). Dhcp/Interop: a reply of
--             the server at the client.
--   Telnet    hc/core/hc/telnet.h and router/router/telnetServer.c: Output (telnetServer_onListenFd,
--             telnetServer_onPtMasterFd), Command and Saved (the reading of one command and the array
--             of an unfinished one), Input (telnetServer_onClientFd)
--   Modem     router/router/modemClient.c: the queue of commands (modemClient_processQueue is
--             process_queue, and so on), Lines (modemClient_onFd), Timer (modemClient_onTimerFd),
--             Commands and Abstract (what a client relies on); the proofs are in Queue, Calls,
--             Submit, Run, Hang, Passes and Timer/After
--   Tar       hc/core/hc/tar.h and hc/tools/tar/common.c: Prefix (enterDirectory, leaveDirectory,
--             validateName), Names (sortNames), Record (the header that writeRecord fills in, and
--             parseSize of hc/tools/untar/common.c)
--
-- How the parts interact: the DHCP server hands out the DNS address that the router's own DHCP client
-- has leased, and client and server read the same messages; both walk options in one buffer. The
-- telnet server copies between a client and the terminal of a shell. tar orders names with the
-- comparison of C strings, untar reads the records that tar writes, and the allocator and the hashes
-- align sizes with the macros of math.c. The modem client prints numbers with util.c and answers with
-- the address that the DHCP client has leased.
--
-- State is passed explicitly as a record with the fields of the C struct. What a handler does outside
-- the program is a list of effects or a trace of calls, in the order of the calls. Bytes are numbers
-- below 256 (char is unsigned in every build), addresses are the words that the little-endian machines
-- load from their bytes, and arithmetic on words is written with its wrap-around. A pointer is an
-- index into a list of bytes or the list of the bytes from there on; a read past the end is an error
-- value where the C code could make one, and 0 in the statically allocated buffer of the router.
--
-- Loops are structural recursion or recursion on a number of rounds. Rounds: 20 for a decimal number,
-- since each divides it by 10; 8 for a hexadecimal one; one more than the bytes received for options,
-- since each round takes two; one more than the bytes for the loops of telnet, since each round but
-- the last takes at least one; the bytes of the block for memset and memmove, whose rounds take 16
-- each; a few more than the buffer for the lines of the modem; one more than the second argument for
-- the greatest common divisor.
--
-- Not modelled: opening and closing of descriptors, the bytes of netlink requests, of IP headers and
-- of printed lines, and what follows a failed CHECK, which ends the program. The rest of the
-- repository is system interfaces, platform code, ciphers and signatures, graphics, examples and tools.
pub mod Base
pub mod Util
pub mod Math
pub mod Base64
pub mod Mul128
pub mod Allocator
pub mod Hash
pub mod Mem
pub mod Modem
pub mod Dhcp
pub mod Telnet
pub mod Tar
