-- ===== src/Lib.antt =====
-- The Python tools of the passive network appliance (util/intop and util/scripts/npr.py): the log
-- reader, the data model of intop, its interfaces, and a control script.
--
-- How the parts interact. util/intop/parse.py reads a binary log into a header and a list of flows.
-- util/intop/model.py keeps the logs that `add_file` reads, filters them, groups them by
-- addresses, and returns a sorted table from `get_data`, with a cache. util/intop/cli.py configures a
-- model from options, adds files and prints; util/intop/monitor.py adds each new file of a directory;
-- util/intop/cui.py changes the settings of a model and shows its table. util/intop/identity.py
-- writes logs of an older format. util/scripts/npr.py sends one message to a router.
--
-- Base: what the other modules share. Exceptions are values of `Result` (Base/Outcome); Python's
-- integers, dicts, texts and the dynamic values of dictionaries are in Base/Int, Base/Dict,
-- Base/Text and Base/Value. A dict keeps the order of insertion; Python 2 leaves its order open.
-- Struct: Python's `struct` for native formats on a little-endian machine, with alignment.
-- LogFile: `PNALogParser`. A method that moves the reading position returns the object beside its
--   result. LogFile/Settle has the constructor's branches, LogFile/Loop and LogFile/Total the loops,
--   LogFile/Variants `parse_cb` and `parse_iter`, LogFile/Ends that all loops end,
--   LogFile/RoundTrip a writer.
-- Model/Address: `int2ip`, `ip2int` and the address branch of `filter_reject`. Model/Pattern: the
--   regular expressions of `PNAModel`, matched by derivatives. Model/Filter: `filter_reject` and
--   `do_filter`. Model/Derive: `derive_point_to_points` and `derive_local_ips`, on logs up to order
--   in Model/Derive/Order. Model/Time: the time texts of `get_data`. Model/Rank: its threshold and
--   sort. Model/Label: `stringify`. Model/State: the object with its settings and cache,
--   `add_file`, `get_data` and `get_fields`; the dicts of filters stand in a store, since settings,
--   cache and class share them. Model/State/Dicts has the rows as the dicts that the windows read,
--   Model/State/Refines the model without a cache that `get_data` is compared with, and
--   Model/State/Race the watcher's thread between the halves of a `get_data`.
-- Identity: `PNAParseLogger.unparse`. Identity/Main: `main` on the files by their names; `eval` is a
--   parameter.
-- Cli: `CommandLineInterface.interact` and `EventHandler.process_IN_CREATE`. Cli/Unfiltered and
--   Cli/EndToEnd have what `interact` prints. Cli/Flow: `flow_format`; the local time is a parameter.
--   Cli/Main: the formats and `main`.
-- Cui/Keys: `getkey`. Cui/Edit: `EditField.get_value`. Cui/Select: `set_sort_key`. Cui/Settings:
--   `set_threshold`; Cui/Settings/Dialog: `view_filters`, with its edit field; Cui/Settings/View:
--   what the settings window writes. Cui/Info: the selection of `InfoWindow`. Cui/Draw: the lines
--   that it shows. Cui/Session: the interface with its state, the table of handlers,
--   `handle_control` and the loop `interact`, beside the files that the watcher adds. Its children
--   have the steps a session can take (Cui/Session/Reach), the invariant (Invariant, Handlers), and
--   what happens with logs (Arrival) and without (Idle, Quits). Cui/Times: the window of time that
--   `add_data` reads. Cui/Startup: `add_data` and `cui_main`; the clock and the files are an
--   environment. The loops run on the list of keys that are pressed: a list that is used up leaves
--   a loop waiting.
-- Npr: the script's message; `inet_aton` is a parameter.
-- Samples and the modules named Tests: small inputs.
--
-- Fuel. `parse_loop` and `parse_cb_loop` take the number of bytes of the file as fuel, and each round
-- moves the position by an entry; the outcome `stuck` stands for fuel that ran out, and for the text
-- of a list in a column. `year_of` takes the number of days, and `hex_digits`
-- the number itself. Numbers are not bounded, as in Python; the fields of a log are bounded by the
-- format that reads them.
--
-- Not modelled. The C code of the kernel module, shell scripts and build files; the beep, the
-- rectangles of the pop-up boxes, and the socket; the threads of pyinotify, of which only the
-- files that arrive are seen; the class `PNADirWatch` of cui.py, which nothing starts; `main` of
-- model.py, which prints the version; the code of `filter_reject` behind `match.groups()`, which
-- only runs when there is no match; the `curses.error` that `addstr` raises in a window that is
-- too small for the text. `re.match` is Python's: Model/Pattern has a matcher for the part of its
-- expressions that the code uses.
pub mod Base
pub mod Struct
pub mod LogFile
pub mod Model
pub mod Identity
pub mod Cli
pub mod Cui
pub mod Npr
pub mod Samples
