-- ===== src/Lib.antt =====
-- Two programs: a web service in Python that searches the sources of a fund system and builds statements
-- to move its data (app), and C modules of that fund system, written for the ProFrame runtime, which it
-- searches (remote_ssh_server/truap01dap1/proframe/proframe5.0/compile).
--
-- The Python part:
--   Text     strings as lists of code points, and sets of them. `Python` is what Python knows of
--            characters.
--   CSource  app/common/parse/c_source.py: `strip_comments`. Again is about stripping twice and about
--            newlines, Pieces about a source made of code, literals and comments.
--   Refs     app/common/proframe/refs.py: `scan_module_refs`. Its regular expressions are functions.
--   Source   app/common/proframe/module_source.py and the interface of app/common/io/sftp.py: paths of
--            modules, the search for a source and the map of groups. Faults is what is raised, Path the
--            paths, Lookup what the map has for an ID, GroupMap the search with it and without.
--   Sql      app/common/parse/sql.py and text_sanitize.py: the tables of a SQL text.
--   Dbio     app/common/proframe/dbio.py: the file and the tables of a DBIO.
--   Extract  app/tools/data_migration/service.py: the tables that a module uses. It calls Source for the
--            text of a module, Refs for its references and Dbio for a DBIO, and recurs. Spec says what is
--            reached; Ends, Caught, Members, Grown, Found, Visit and Exact go from the parts to the
--            whole.
--   Conditions  app/tools/data_migration/migrate.py: the conditions on the columns of a primary key.
--            Quote is about text literals, Asked about which columns get a condition.
--   Migrate  the rest of that file: the statements of a migration. Sorted is about which table gets
--            them, Lines about how they are written.
--   Impact   app/tools/impact_analysis/service.py and app/common/io/ssh.py: `find_callers` and
--            `grep_files`. It calls Source for the module of a path and Refs for the references of its
--            text. Callers says who is found.
-- Exceptions are the values `Fault`; a call returns a `Fetch`. The server is a `Reader` that does not
-- change during a request. Its XML and SQL parsers and Python's tables of characters are parameters.
-- The recursion of `extract_from_module` takes fuel for its depth; every call marks an ID, so more fuel
-- than there are IDs is not used.
--
-- The C part, with their paths below that directory:
--   Bzop    PCOM/src/module/MPCOM_GetBzopDate.c: the business day after or before a date.
--           Bzop/Calendar has its queries, release/dbio/xml/pfmDbioPFO_DATE_MNGM_BS_VS004.xml to
--           VS011.xml beside compile.
--   Rates   PCOM/src/module/MPCOM_CalcFndRntn.c and MPCOM_CalcBmRnrt.c: the return of a fund and of
--           its benchmark.
--   Batch   RLGR/src/batch/BRLGRPRP0001.c: the batch behind the proposal's fund list.
--   Report  PCSP/src/serviceModule/SPCSP53619C/SPCSP53619C.c: the monthly report. It calls Bzop once
--           and Rates for every fund and period.
--   Proposal  RLGR/src/serviceModule/SRLGR96602A/SRLGR96602A.c: the proposal's fund list.
-- A function of a file has the same name here; a node of a long `main_proc` is a function named for
-- what it does, with the node's number in its comment. `SPCSP53619C`, `MPCOM_GetBzopDate`,
-- `MPCOM_CalcFndRntn`, `MPCOM_CalcBmRnrt` and `BRLGRPRP0001` are `monthly_report`, `get_bzop_date`,
-- `calc_fnd_rntn`, `calc_bm_rnrt` and `run_batch`; `SRLGR96602A` is `proposal_service`.
--   Report/Period   the loop over the eight periods; Spec says which rate is kept, Calm and Kept
--                   show it.
--   Report/Grid     what the grid should hold; Row, Visit and Node go from one row to the whole loop.
--   Report/Whole    what the service should answer; Parts and Service go from its steps to the whole.
--                   Date joins its first step with Bzop and the queries there.
--   Proposal/Codes   the funds of the period, inserted in batches; Table is what the database does,
--                    Repeats says which rows are sent, Place, Visit, Pages and Appends go from one row
--                    to the whole table; Once and Twice are the sizes that divide a page and those
--                    that do not, Bounds keeps the array and Overrun leaves it.
--   Proposal/Job     the job, its log and the call of the batch, as a table of calls in Table.
--   Proposal/Listing the rows that the batch has written, read into the grid; Landed says where they
--                    land, Fill and Grid show it.
--   Proposal/Whole   the code behind the number and the whole service. `proposal_list` has the code
--                    behind the number as a parameter, and `proposal_service` fills it.
-- Each Spec is an independent description of its module. Sample and the modules Tests hold concrete
-- runtimes and databases.
--
-- The model of the C part. A function is a `Proc` over a `Machine` (Proframe/Monad): the variables of one module,
-- the unknown state of runtime and database, and a log of messages and of cursors opened and closed.
-- It returns a code, crashes at an access outside an array, or is stuck when a loop's fuel is used
-- up. `PFM_TRY`, `PFM_TRYNJ`, `pfmDlCall` and the reading macros are written out there. What they
-- rest on is a parameter: the record `Pfm` for the runtime, `IsLawful` for when `PFM_TRY` jumps, one
-- record of calls for each file's DBIOs, and `IsCursor` for how a cursor delivers its pages, or
-- `IsFaulty` where a fetch may fail. The fetch loop that the generator writes is `fetch_loop`
-- (Proframe/Cursor). The rule for what holds between pages and within one is in Proframe/Cursor/Page
-- and Paged, the rule for an invariant of the frame in Proframe/Cursor/Rule, and one for a crash in
-- Proframe/Cursor/Crash. `Ensures` (Proframe/Cursor/Ensures) and `Returns` say what a part and a whole
-- function guarantee.
--
-- Bounds and fuel. The loop over a cursor runs on fuel; more fuel than the cursor has rows is enough,
-- since each round but the last takes a page of 50, 100 or 1000 of them. The loop over the eight
-- periods counts down. An array is a list of its full size, and a read or write outside it crashes.
--
-- SRLGR96602A.c does not compile as it stands. Its evident meaning is taken: an undeclared variable is
-- a parameter, a name out of scope is the result of the query before it, and the arguments of the batch
-- are a function of the six values that are given.
--
-- Not modelled: the SQL of the other DBIOs, the lengths of string buffers (the generated structures are
-- not in the repository), log output, and the empty .c files; of app, the HTTP routes, the SFTP, SSH and
-- database sessions, `extract_sql` (it stands on an XML parser), the files of the settings, and
-- `find_dbios`.
pub mod Base
pub mod Proframe
pub mod Sample
pub mod Text
pub mod CSource
pub mod Refs
pub mod Sql
pub mod Source
pub mod Dbio
pub mod Extract
pub mod Conditions
pub mod Impact
pub mod Migrate
pub mod Bzop
pub mod Rates
pub mod Batch
pub mod Report
pub mod Proposal
