-- ===== src/Lib.antt =====
-- perun: a verification library for the parts of perun that read and write data on their own.
--
-- perun runs native PE and Mach-O images under Linux (crates/perun-core, crates/perun-shims) and
-- carries an App Store client (crates/perun-cli/src/store). The client keeps its session in a
-- cookie jar, reads JSON and DMAP answers from the store's services, stamps its requests with
-- calendar dates, and checks what it fetches with a SHA-256 of its own. A component here is a
-- module, its operations are functions by clauses, and state is passed from call to call. The
-- loader side decodes the fixup streams of Mach-O files. The account is kept in an encrypted
-- vault, whose plaintext is JSON; property lists and compressed entries of packages come from the
-- store. The DMAP model uses the calendar for its stamps, the account store uses the JSON module,
-- and its hash is compared with that of Sha256; the other components stand on Base alone.
--
-- Base: native numbers, Boolean tests, lists, byte strings, decimal printing and UTF-8, which the
--   components share. `Base.Utf8.is_utf8` is the test of `std::str::from_utf8`.
-- Sha256: crates/perun-core/src/sha256.rs on its portable path. Sha256.Compress is `compress`;
--   `update`, `finish` and the state are in Sha256.
-- Dmap: crates/perun-cli/src/store/dmap.rs, with `walk_dmap`, `first_uint`, `status_ok` and
--   `items_body`. Dmap.Owned is `parse_owned_apps`; `String::from_utf8_lossy` is a parameter of
--   it.
-- Calendar: `civil_from_days` of crates/perun-cli/src/store/out.rs, the same computation in
--   dmap.rs and ipa.rs, `dos_datetime` and `dos_to_unix` of ipa.rs, and the stamps of dmap.rs,
--   for times from 1970 on.
-- Json: crates/perun-cli/src/store/json.rs, every function of the parser, over the bytes of the
--   text, and in Json.Access the accessors but `as_i64` and `as_f64`. Json.Print has `json_str`
--   of out.rs; the printer of whole values on top of it is not code of the repository but what
--   the round trip is stated with.
-- CookieJar: crates/perun-cli/src/store/cookie_jar.rs. A string is there the list of its code
--   points, since `trim` goes by characters. The clock's reading is an argument, and so is how
--   reading the file and the calls that write it end. CookieJar.Netscape is the file format.
-- Account: crates/perun-cli/src/store/account.rs. Account has the record, `to_json` and
--   `from_json`; Account.Aes and Account.Gcm the cipher (`aes_key_schedule`, `aes_encrypt_block`,
--   `ghash_tag`, `aes_gcm_encrypt`, `aes_gcm_decrypt`), Account.Digest the second SHA-256, with
--   its `compress` shared with Sha256, Account.Kdf `HmacSha256`, `pbkdf2_hmac_sha256` and
--   `derive_key`, Account.Vault `encrypt` and `decrypt`, Account.Session `save`, `load`,
--   `save_storefront`, `storefront_hint`, `reset_session` and `revoke` over the three files of
--   the state directory. The random bytes, the machine id and the outcome of the file calls are
--   arguments.
-- Plist: crates/perun-cli/src/store/plist.rs, base64 in Plist.Base64, `xml_escape` and
--   `xml_unescape` in Plist.Escape, and the values with `get` and `set` in Plist.Values.
-- Ipa: crates/perun-cli/src/store/ipa.rs. The DEFLATE decoder has `BitReader` in Ipa.Bits, the
--   Huffman tables and `decode` in Ipa.Huffman, `inflate_block` and `inflate` in Ipa.Inflate; an
--   index out of range is the result `panicked`. Ipa.Zip is the container: the directory in
--   Ipa.Zip.Directory, `Pkg` in Ipa.Zip.Package with the system's reads as a parameter, the extra
--   fields in Ipa.Zip.Extra, and `ZipWriter` in Ipa.Zip.Writer, whose sink is a parameter
--   (`finish_zip` is its `finish`) and whose entries are in Ipa.Zip.Writer.Entries. Ipa.Crc32 is
--   `crc32_ieee`, Ipa.Names the tests on names, Ipa.Sinf and Ipa.Replicate the part of
--   `replicate_to` that decides what is written, and Ipa.Fetch is `fetch_info_plist`, whose
--   request is a parameter.
-- Http: crates/perun-cli/src/store/http.rs, `check_range_response`.
-- Bag: crates/perun-cli/src/store/bag.rs, `Bag::fetch` behind the parsing of the document.
-- MachO: crates/perun-core/src/macho.rs, the bounds-checked reads, `read_uleb`, `read_sleb`,
--   `x86_slice` and `decode_stream`. The symbol that `STREAM_SYMBOL` carries between streams is
--   part of the decoder's state, and `String::from_utf8_lossy` is a parameter. An index out of
--   range is the result `panicked`.
-- PeImage: crates/perun-core/src/image.rs, `rva_to_offset` and the bounds-checked reads.
-- Storefronts: crates/perun-cli/src/store/storefronts.rs and `country_code_from_storefront` of
--   appstore.rs.
--
-- Fuel: `walk_loop` is given one more than the bytes that are left, and each turn and each nested
-- walk has eight bytes fewer. The padding loop of `finish` is given 64 turns, the size of the
-- buffer. `value` and the functions below it are given three for each byte and three more;
-- `string_loop` is given one more than the bytes of the input; Json.Fuel shows that this is
-- enough. The loops of `inflate` are each given one turn more than the source has bits, of which
-- a turn takes at least one. `ghash_blocks`, `ctr_blocks` and `whole_blocks` are given the length
-- of their data and take 16 or 64 bytes a turn, and `gf2_loop` eight turns, after which the
-- multiplier is zero. `read_uleb` and `read_sleb` are given ten turns, after which the shift is
-- past 63, and `decode_loop` one turn more than the bytes of the stream, each of which takes a
-- byte. `skip_loop`, `as_chunks` and `trim_prefix` are given the length of what they go through,
-- and return what they have when the fuel ends. `strip_loop` and `mtime_loop` are given the
-- length of the extra field and take four bytes a turn, and `read_loop` and `copy_loop` the bytes
-- that are to come, of which a read that is not the last gives one at least;
-- Ipa.Zip.Package.Reads and Ipa.Zip.Extra.Blocks show that this is enough.
--
-- Not modelled: the SHA-NI path, which is made of intrinsics; the load commands, chained fixups
-- and symbol table of a Mach-O file and the headers and tables of a PE file; the loaders, shims
-- and native calls, which are unsafe memory and system calls; the requests of the HTTP client,
-- the command line and printing; the XML and binary forms of property lists, and with them the
-- reading of the manifest and of the bundle's executable in `replicate_to`, its file calls and
-- its clock.
pub mod Base
pub mod Sha256
pub mod Dmap
pub mod Calendar
pub mod Json
pub mod CookieJar
pub mod Account
pub mod Bag
pub mod Http
pub mod Ipa
pub mod MachO
pub mod PeImage
pub mod Plist
pub mod Storefronts
