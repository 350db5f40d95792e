-- ===== src/Lib.antt =====
-- The Solarflare driver for illumos (sfxge): what its common code promises.
--
-- The driver's hardware-independent part, under common/, is called by the operating system's
-- side (sfxge*.c) through the functions named efx_*. It calls down to one chip family's code,
-- the Siena functions or the EF10 functions, through tables of function pointers. Eight parts of
-- it and three helpers are modelled, each from the C source:
--
-- Vpd: the vital product data of the adapter, common/efx_vpd.c. A hunk is a list of bytes; Vpd
--   decodes tags and keywords (efx_vpd_next_tag, efx_vpd_next_keyword), Vpd/Hunk walks over a
--   hunk (efx_vpd_hunk_length, _verify, _next, _get), Vpd/Edit changes one (efx_vpd_hunk_reinit,
--   _set). Vpd/Format is the abstract view: a list of blocks with their entries, and how it is
--   encoded; Vpd/Decode says what the decoders read of an encoding. Vpd/Hunk/Length, Lookup,
--   Safety and Verify, and Vpd/Edit/Reinit and Set hold the proofs.
-- Filter: receive and transmit filters, common/efx_filter.c, with the types of common/efx_impl.h
--   and common/efx.h. Filter has the specifications (efx_filter_spec_*) and their translation
--   (siena_filter_spec_from_gen_spec); Filter/Table one table in memory with its bitmap, hash
--   and search (siena_filter_tbl_hash to siena_filter_search); Filter/Siena the four tables, the
--   search depths and what stands in the hardware, with add, delete and clear
--   (Filter/Siena/Init: siena_filter_init). Filter/Spec, Filter/Table/Bitmap and Probe, and
--   Filter/Siena/Add, Clear, Delete and Limits hold the proofs.
-- Mcdi: requests to the management controller, common/efx_mcdi.c and common/efx_mcdi.h. Mcdi has
--   the request, the interface's state (efx_mcdi_iface_t), the header and the error numbers;
--   Mcdi/Response reads a response (efx_mcdi_read_response_header, efx_mcdi_finish_response);
--   Mcdi/Request has the life of a request (efx_mcdi_request_start, _poll, _abort,
--   efx_mcdi_ev_cpl, _ev_death). Requests stand at addresses in a store, so that the pending
--   request and its owner's are one. The transport (efx_mcdi_ops_t, which common/siena_mcdi.c
--   and common/ef10_mcdi.c fill) is a record of operations that every definition takes.
--   Mcdi/Request/World has the steps of the driver and the controller in any order; Mcdi/Header,
--   and Mcdi/Request/Buffer, Complete and Credit hold the proofs.
-- Execute: how the driver runs a request, sfxge_mcdi.c. Execute has sfxge_mcdi_acquire,
--   _release, _poll and _execute, over Mcdi; the readings of the clock and what the device does
--   between two polls are parameters. Execute/Threads has the steps of any number of threads;
--   Execute/Done, Exclusive and Progress hold the proofs.
-- Bootcfg: the boot configuration sector, common/efx_bootcfg.c. Bootcfg has the checksum and the
--   tag walk (efx_bootcfg_csum, efx_bootcfg_verify), efx_bootcfg_read and efx_bootcfg_write,
--   over the NVRAM operations of common/efx_nvram.c as a record; whether an allocation succeeds
--   is a parameter. Bootcfg/Sector, Read, Image, Write and Blank hold the proofs.
-- Tlv: the tag, length and value segments of an EF10 partition in a host buffer,
--   common/ef10_nvram.c. The buffer is a list of dwords; Tlv has the cursor (tlv_cursor_t,
--   tlv_validate_state, tlv_advance, tlv_find, tlv_require_end), Tlv/Segment the edits
--   (tlv_last_segment_end, tlv_insert, tlv_delete, tlv_modify), Tlv/Buffer the operations on a
--   partition (ef10_nvram_buffer_*), Tlv/Buffer/Update those on one item (ef10_nvram_buf_*).
--   Tlv/Items is the abstract view: a list of items, and what it is for it to be laid out in a
--   buffer. Tlv/Motion, Extent, Move, Layout, Ends, Packed, Insert and Delete, and
--   Tlv/Buffer/Value, Edits, Fields, Finish and Validate hold the proofs.
-- Nvram: a partition on the device, read, erased and written in chunks, common/ef10_nvram.c
--   (ef10_nvram_partn_*), over the MCDI commands on it as a record. Nvram/Chunks and Image hold
--   the proofs. License: licence keys in a partition, common/efx_lic.c. License has the table of
--   key operations (efx_lic_ops_t), License/V1v2 those of V1 and V2 (efx_lic_v1v2_*) over a list
--   of bytes, License/V3 those of V3 (efx_lic_v3_*) over the buffers of Tlv. License/Keys is the
--   abstract view of the first: a list of keys, and what the walk by find_key and read_key
--   finds; Layout, Write and Delete, and V3/Cycle hold the proofs.
-- Crc32: common/efx_crc32.c. Crc32/Table has the table, Crc32/Bitwise the division that it
--   tabulates. Hash: the hash by which EF10 filters are looked up, common/efx_hash.c
--   (efx_hash_dwords, and efx_hash_bytes for a little-endian machine). Hash/Bytes holds the
--   proof. Toeplitz: the receive hash of the driver, sfxge_hash.c. Toeplitz has the cache
--   (toeplitz_cache_init) and the hash (sfxge_toeplitz_hash), on a little-endian machine;
--   Toeplitz/Window has the hash as it is defined, a window of 32 bits sliding over the key, and
--   with Gather, Cached and Connection the proofs.
--
-- Base has what they share: tests on numbers, lists, C words, the bitwise operators (Base/Bits),
-- and Outcome, what a C function returns: a value, an error number, an access out of range
-- (fault) or a loop that has not ended (timeout). Each part's Tests has small inputs with the
-- theorems at them.
--
-- Numbers are natural numbers, with the casts and the wrap of C's unsigned types written out
-- where an expression can leave its type. Pointers to results are results. Locks are taken round
-- each step as a whole. Probes and logging are left out, and an assertion of the code is a
-- hypothesis where a theorem needs it.
--
-- Loops run on fuel. A loop over tags has `size + 1` rounds and one over keywords `taglen + 1`,
-- since each round moves on by at least a byte; the search of a filter table has 200, its own
-- bound; the loops over a boot configuration sector have one more than its size. A walk over TLV
-- items has two rounds more than the block has dwords, and one over chunks a round more than
-- there are bytes. The driver's polls are bounded by the clock: the rounds up to a reading
-- behind the watchdog's time are enough. That these are enough is part of the theorems: timeout
-- is never the outcome.
--
-- Not modelled: the functions of these files that only dispatch to a family; siena_filter_fini,
-- _restore and _supported_filters; efx_lic_init, _fini and the commands of common/efx_lic.c
-- other than those on keys; efx_hash_bytes for a big-endian machine; sfxge_toeplitz_hash_init
-- and _fini; the commands of common/efx_mcdi.c that are built on requests; the reading and
-- writing of a partition's segments on the device as a whole (ef10_nvram_read_tlv_segment,
-- ef10_nvram_partn_write_segment_tlv and their callers); a buffer whose size is not a multiple
-- of four, and sizes that do not fit an unsigned int; the count emi_aborted as a machine word;
-- and the other parts of the driver, such as event queues, the receive and transmit paths and
-- the operating system's side.
pub mod Base
pub mod Bootcfg
pub mod Crc32
pub mod Execute
pub mod Filter
pub mod Mcdi
pub mod Hash
pub mod License
pub mod Nvram
pub mod Tlv
pub mod Toeplitz
pub mod Vpd
