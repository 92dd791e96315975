-- ===== src/Lib.antt =====
-- A model of the library of tpm2-tools, and what is proved of it.
--
-- The tools are command lines around one library, lib/. They turn texts into handles, selections and
-- attribute words, call the TPM, and print or check what it answers. Modelled here is the library's own
-- logic: parsing of untrusted input, selections of PCRs, and the loops around TPM calls that have to be
-- repeated. What lies outside the repository is a parameter: the TPM in Pcr.Read, Nv and Capability,
-- the hash of OpenSSL in EventLog, Pcr.Walk and Kdf, the callbacks in EventLog, the C library's streams,
-- the byte order of the host, and two sizes that tss2 says in Files: those of a context and of the buffer
-- of its blob.
--
-- Files and what they model:
--   Base         names, arrays and byte buffers as lists, bits of words, C strings, and Outcome, the
--                result of a C function that can also leave defined behaviour (fault)
--   Tss          numbers of the TPM 2.0 specification, from tss2/tss2_tpm2_types.h
--   ToolRc       lib/tool_rc.h: tool_rc
--   Pcr          lib/pcr.c: shrink_pcr_selection, pcr_update_pcr_selections, pcr_unset_pcr_sections,
--                pcr_init_pcr_selection, pcr_check_pcr_selection; Shrink, Mask, Check and Init prove what
--                they leave. Read has pcr_read_pcr_values, Read/Update and Read/Served what a successful read
--                has read. Parse has pcr_parse_selections and what it calls, Parse/Numbers what a list of
--                numbers selects. Walk has the printing of the selected PCRs, and their hashing of
--                lib/tpm2_openssl.c; Walk/Zip, Walk/Pairing and Walk/Both what is printed
--                and hashed.
--   EventLog     lib/tpm2_eventlog.c: foreach_digest2, with the hash calls of lib/tpm2_openssl.c and the
--                digest sizes of lib/tpm2_alg_util.c. Event has parse_event2 and parse_event2body, Verify
--                verify_digests, Log specid_event, foreach_event2, parse_sha1_log_event,
--                foreach_sha1_log_event and parse_eventlog. Digests, Sizes, Verify/Bounds, Log/Safety and
--                Log/Sha1 have the proofs. Replay encodes events and says what their replay is;
--                the files below it prove that foreach_event2 replays an encoded log.
--   Util         lib/tpm2_util.c: Number has tpm2_util_string_to_uint8 to _uint64, Hex
--                tpm2_util_hex_to_byte_structure and tpm2_util_hexdump2, Handle
--                tpm2_util_handle_from_optarg with filter_handles, Endian the conversions of byte order.
--   Attr         lib/tpm2_attr_util.c: the parsing of attribute lists; Table has the two tables, Flags,
--                Parse and Nt the proofs. Print has find_first_set and the attrtostr functions, with
--                tpm2_util_pop_count, and Print/FirstSet a proof.
--   Nv           lib/tpm2_nv_util.h: tpm2_util_nv_read
--   Alg          lib/tpm2_alg_util.c: strtoalg, algtostr, algtoflags and from_optarg over the table in
--                Table. Scheme and Spec have the parser of specifiers, tpm2_alg_util_handle_ext_alg, on the
--                public area in Public; Hashes lists the table's hashes and modes, Spec/Keys says what is a
--                key, and which two mistakes are let through, Spec/Objects, Spec/Schemes and Spec/Accepted
--                prove what an accepted specifier leaves. Digests has pcr_parse_digest_list.
--   Errata       lib/tpm2_errata.c: process and tpm2_errata_fixup
--   Capability   lib/tpm2_capability.c: tpm2_capability_get, with Pages and Complete, and the search for a
--                persistent handle, with Vacant
--   Files        lib/files.c: writex, readx, the numbers, the header and the contexts of files, over the
--                streams in Stream; Transfer and Context have the proofs
--   Kdf          lib/tpm2_kdfe.c: tpm2_kdfe, with Blocks
--   Checkquote   tools/misc/tpm2_checkquote.c: parse_selection_data_from_selection_string
-- How they interact: Alg.Spec corrects attributes by Errata, and its digests are read by Util.Hex and take
-- their PCR from Pcr.Parse; Files converts numbers by Util.Endian; Capability.Vacant searches what
-- tpm2_capability_get returns; Checkquote fills the lists that Pcr.Walk goes through.
-- Tests in each part run the definitions on small inputs and apply the theorems to them.
--
-- Conventions. The state of a C object is a record, and a function that changes it returns the new
-- one; what a call that returns false leaves behind is kept in Alg.Spec and Files only. Pointers are
-- not NULL. A buffer is the list of the bytes from a pointer on, read by Base/Bytes, where a read
-- outside the list is a fault, as is a digest of a PCR whose size exceeds its buffer. In Pcr a
-- sizeofSelect larger than the array of the mask, which no valid selection has, reads 0 there and writes
-- nothing. Sizes and offsets of type size_t are written without wrap-around where the sizes of buffers
-- bound them, and with it where they come from the input. Fuel: event2_loop and
-- sha1_loop are given the size of the buffer, as each event has at least 16 bytes; read_pieces a round
-- for each byte; attrtostr_loop 32 rounds, one for each bit; get_loop one round more than entries are
-- asked for, as each round but the last adds one; find_loop the size of the range of handles. The loop
-- of Kdf has a round for each byte and one more. The loops of Files have a fuel that has to exceed the
-- interrupts a stream has in store.
--
-- Not modelled: the wrappers of single TPM calls (lib/tpm2.c), OpenSSL (the rest of lib/tpm2_openssl.c,
-- lib/tpm2_convert.c), the YAML of event logs, the opening of files by their paths, sessions and policies,
-- and all of the tools but the function above: they pass data between the TPM, OpenSSL and files.
pub mod Base
pub mod Tss
pub mod ToolRc
pub mod Pcr
pub mod EventLog
pub mod Util
pub mod Attr
pub mod Nv
pub mod Alg
pub mod Capability
pub mod Checkquote
pub mod Errata
pub mod Files
pub mod Kdf
