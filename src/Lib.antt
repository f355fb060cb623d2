-- ===== src/Lib.antt =====
-- wzdftpd is a modular FTP server. This library models parts of its core and proves what makes
-- them correct. The server (wzdftpd/) accepts connections; the core library (libwzd-core/) reads
-- the configuration, decides who may log in and execute a command, and runs periodic jobs; the
-- base library (libwzd-base/) holds the containers.
--
-- Base passes on the names that the other modules share: Base.Tests (Boolean tests and case
-- splits), Base.Lists (lists over the native numbers), Base.CString (strings as lists of bytes,
-- and the functions of string.h and ctype.h), Base.Tok (strtok_r, strpbrk).
--
-- Config and its children model libwzd-core/wzd_configfile.c. Config has the data and the lookups
-- (config_lookup_group, config_get_value, config_get_boolean), Config.Edit and Config.Comment the
-- setters and removals, Config.Parse the parser (config_parse_data, config_load_from_data,
-- config_load_from_fd), Config.Print config_to_data. The modules below them prove the lookups as a
-- map (Lookup, Store, Unique), the invariant (Invariant, InvariantComments, InvariantParse,
-- UniqueComments, Steps), the chunked loading (Chunks, Feed) and the round trip (Scan, Lines,
-- Printable, RoundTrip). A pointer to a group or an entry is an index into its list. Where the
-- code reads outside of a buffer, the model returns a code of its own.
--
-- Hash and its children model libwzd-base/hash.c and the functions of libwzd-base/list.c that it
-- calls: chtbl_init, chtbl_insert, chtbl_remove, chtbl_lookup, chtbl_change,
-- chtbl_insert_or_change, chtbl_search, chtbl_destroy in Hash, chtbl_extract in Hash.Extract.
-- Hash.Laws has the lemmas on one container, Hash.Invariant and Hash.Steps the invariant,
-- Hash.Lookup the table as a map, Hash.Strings the hash and the comparison of the program's own
-- tables. The hash and the comparison are parameters, with the law that equal keys have equal
-- hashes.
--
-- DList models libwzd-base/dlist.c on a heap of elements (dlist_init, dlist_ins_next,
-- dlist_ins_prev, dlist_remove, dlist_destroy). DList.Seg and DList.Link have the lemmas on linked
-- elements, DList.Splice those on putting one in and taking one out, DList.Refine says when a list
-- holds a sequence, and DList.After, DList.Before, DList.Removed and DList.Laws prove what the
-- operations do to it, DList.Destroy that the loop of dlist_destroy ends; its fuel is the size of
-- the list, of which each round takes one.
--
-- Match models my_str_compare and ascii_lower of libwzd-core/wzd_misc.c, which Ip, Str and
-- Commands use. Ip and Ip.Check model the lists of addresses of libwzd-core/wzd_ip.c (ip_compare,
-- ip_add_check, ip_list_check, ip_list_check_ident, ip_remove, ip_inlist), built without
-- IPV6_SUPPORT; the resolver is a parameter. Ip.Host models ip_parse_host and the tests of the
-- syntax of an address, Ip.Accepted proves which names and IPv4 addresses are accepted.
--
-- Perm models libwzd-core/wzd_perm.c: perm_find, perm_find_create, perm_find_create_entry,
-- perm_find_entry, perm_remove, perm_check, perm_check_perm. Perm.Add models perm_add_perm, whose
-- strtok_r works on an indexed buffer with its length as fuel: every turn of its loops moves an
-- index on. Perm.Check proves what the entries decide, Perm.Kept what a new line leaves alone; a
-- line that makes it read after the end of its buffer has no result. Perm.Names and Perm.Edit have
-- the list of commands as a map. What the checks read of a user is a record.
--
-- Registry models the array of users by number of libwzd-core/wzd_user.c, which wzd_group.c
-- repeats for groups (user_register, user_update, user_unregister, user_get_by_id,
-- user_get_by_name, user_get_list, user_find_free_uid); Registry.Laws proves what registration
-- does to the lookups. User has the structures, the instances for users and groups and
-- user_create; User.Flags the flags of a user, an array of MAX_FLAGS_NUM bytes, and
-- User.Flags.Text and User.Flags.Change what the changes do to it.
--
-- Path models path_simplify, path_getdirname, path_getbasename and path_gettrailingname of
-- libwzd-core/wzd_dir.c, in place on an indexed buffer; Path.Machine and Path.Steps have the
-- lemmas on the buffer and Path.Simplify the reference on components. The fuel of the loop is one
-- more than the length of the path: each round moves pos on.
--
-- Protocol models identify_token, cleanup_ftp_command and _basic_check_ftp of
-- libwzd-core/wzd_protocol.c. Login models libwzd-core/wzd_login.c: do_user, do_user_ip, do_pass
-- in Login, do_login_loop in Login.Loop, compiled with TLS and without Kerberos. The lines of a
-- client are a list of events, each with the server at its time: what the backend, the resolver,
-- TLS and the file system answer, the configuration and the other sessions. The record Start has
-- what is fixed before the loop, the option reject_unknown_users and the uninitialised end of the
-- array username. Login.Checks inverts a round of the loop, Login.Entry and Login.Complete prove
-- who is let in.
--
-- PermFile models the permission files of libwzd-core/wzd_file.c, a file .dirinfo in each
-- directory: the list of entries in PermFile, reading and writing it (readPermFile, writePermFile,
-- with read_token of wzd_misc.c) in PermFile.Text, the rights of a user (_checkFileForPerm) and
-- setting them over a disk of texts in PermFile.Access, _checkPerm, _setPerm and _movePerm in
-- PermFile.Paths. The loop that reads has the length of the text as its fuel, since each round
-- takes a line. The fuel of _checkPerm bounds the parent directories that it goes to;
-- PermFile.Parents shows that the length of the path is enough. PermFile.Words and PermFile.Octal
-- have the lemmas on tokens and numbers, PermFile.Names, PermFile.Lines and PermFile.Ends those on
-- names and lines, PermFile.Kept, PermFile.Reads and PermFile.Entries what a line does to the
-- list, PermFile.RoundTrip the round trip; PermFile.Rights, PermFile.Changes and PermFile.Granted
-- say what a grant does to a list, PermFile.Grants what the checks of one directory see of it,
-- PermFile.Permits what _checkPerm gives after _setPerm on a path.
--
-- Commands models libwzd-core/wzd_commands.c: commands_init, commands_add, commands_find and the
-- permissions of a command, over Hash and Perm.
--
-- Cron models libwzd-core/wzd_crontab.c: Cron.Date has cronjob_find_next_exec_date over the
-- calendar of the C library, which is a parameter, Cron the list of jobs (_crontab_insert_sorted,
-- cronjob_add, cronjob_add_once, cronjob_run). Cron.Order, Cron.Marks and Cron.Run prove what a
-- run does.
--
-- Str models libwzd-core/wzd_string.c: str_fromchar, str_store, str_dup, str_copy, str_append
-- (with strlcat of libwzd-base/wzd_strlcat.c), str_append_c, str_prepend, str_erase, str_tolower,
-- str_trim, str_tok and the allocation under them. Str.Text proves that the edits keep a string
-- valid and what they do to its text, Str.Tok what str_tok cuts off. Config keeps the parse buffer
-- as its text, since it changes it by these operations alone. Base64 models
-- libwzd-auth/wzd_base64.c.
--
-- Bounds and fuel: sizes and counters are natural numbers, since they count objects in memory;
-- `int` and `unsigned` arithmetic that can wrap is written out (hash_str, strtol). The loop of
-- cronjob_run that takes jobs from the head has the length of the list as its fuel, and its
-- theorem shows that this is enough where no next time is negative: every job that the loop puts
-- back has a time after the zero, so the loop takes each due job once. A time_t is a natural
-- number that stands for itself less 2 ^ 63, so the -1 of mktime is one of them. The additions of
-- size_t in str_erase wrap. The loops of Perm.Add stop at an index, and their fuel is the length
-- of the buffer or one less. All other loops are structural recursion.
--
-- Not modelled: memory exhaustion; locks; logging. The modules of sockets, threads, files,
-- authentication and databases call other libraries and the operating system. Texts have no NUL
-- byte. Outside of the login loop and of ip_parse_host, where the arrays are modelled, a text that
-- strncpy copies into a fixed array is shorter than the array.
pub mod Base
pub mod Config
pub mod DList
pub mod Hash
pub mod Match
pub mod Ip
pub mod Perm
pub mod Cron
pub mod Base64
pub mod Commands
pub mod Str
pub mod Path
pub mod Registry
pub mod User
pub mod Protocol
pub mod Login
pub mod PermFile
mod Tests
