-- ===== src/Lib.antt =====
-- A verification library of joule, the service that runs data modules, moves their streams through
-- pipes and stores them in a time-series database. The Python sources are under src/joule.
--
-- Base holds what the components share: the Boolean tests on ℕ, conditionals, lists with native
-- lengths, integers over the native ℕ, texts as lists of character codes, and decimal numerals.
--
-- Pipe and Pipe/Local model src/joule/models/pipes/pipe.py and local_pipe.py. A pipe joins two tasks:
-- the writer puts blocks of rows and interval breaks into a queue, the reader collects them into a
-- buffer from which it consumes. A method is an action, a function from a pipe to a result and the
-- pipe after it; an exception is a result. A coroutine that would wait for the other task ends with
-- `would_block`. Rows, dtypes and the assignment of a matrix to a structured array are numpy's and are
-- the parameter `Numpy`; the pipes that subscribe are the parameter `Sink`.
--
-- Pipe/Output models src/joule/models/pipes/output_pipe.py, a pipe into a byte stream, with the same
-- actions: what is handed to the stream's writer is a list of rows and interval tokens.
--
-- Pipe/Input models src/joule/models/pipes/input_pipe.py, the pipe out of a byte stream: what the
-- stream reader returns is a list of byte strings, and numpy's view of a row's bytes the parameter
-- `Layout`.
--
-- Pipe/ReadAll models `read_all`, the loop that reads a pipe to its end, over the methods of a pipe that it
-- calls, on fuel: each round reads at least one item of the queue or ends, so fuel greater than the
-- number of queued items and one is enough. Pipe/Local/ReadAll is about a local pipe whose writer has
-- closed it.
--
-- Layouts models the layouts of streams, such as float32_8, as src/joule/models/data_stream.py writes them
-- and src/joule/models/pipes/pipe.py reads them. numpy's dtypes are the parameter `Dtypes`.
--
-- Config models src/joule/services/load_config.py with the defaults of src/joule/models/config.py:
-- Config/Ini the configparser that it fills, Config/Load the function `run`. The files, the database,
-- ipaddress, yarl and the interpolation of values are the parameter `Host`.
--
-- Pgcopy models `data_to_bytes` and `bytes_to_data` of src/joule/models/data_store/psql_helpers.py, the
-- binary form of rows that are copied to and from PostgreSQL.
--
-- Intervals models src/joule/utilities/interval_tools.py, and Intervals/Copy its use by
-- src/joule/cli/data/copy.py. Times are numbers from the epoch.
--
-- PipeConfig models src/joule/services/parse_pipe_config.py and the validators that it calls in
-- src/joule/models/data_stream.py. A refused configuration is `none`; no message is modelled.
-- The search for the stream in the database is not modelled.
--
-- Decimator models the decimation of src/joule/models/data_store/timescale_inserter.py: the chain of
-- decimators is a list, the nearest first. Each level makes its child when the first decimated row
-- arrives, so the number of levels depends on the data: `process` runs on fuel. A level with a factor
-- of two or more makes at most as many rows as it gets, and fewer if it is new, so fuel greater than
-- the number of rows and one is enough. The means and extrema of floats are the parameter `Samples`.
--
-- Worker models src/joule/models/worker.py: Worker and Worker/Output the check of timestamps and the
-- handler that gives the rows of a module to its subscribers, Worker/Subscriptions `subscribe`, and
-- Worker/Run the loop that starts the module again. What the module writes, how its process ends and
-- what a subscriber answers are data and the parameter `Subscriber`. Timestamps are integers, and
-- numpy's differences of them wrap at 64 bits.
--
-- Supervisor models the subscriptions through src/joule/models/supervisor.py: a stream is served by the
-- first worker that produces it, or by a remote input.
--
-- Element models src/joule/models/element.py: the merging of configurations and the update from a
-- request. Floats and the conversion of a request's values are the parameter `Floats`.
--
-- EventQuery models `query_event_json` of src/joule/models/data_store/psql_helpers.py, which writes the
-- SQL of an event filter. How PostgreSQL reads a literal is written out in EventQuery/Quoting.
--
-- Store models the tables of a stream, src/joule/models/data_store/psql_helpers.py, and Store/Extract
-- and Store/Reading their reading by src/joule/models/data_store/timescale.py: the blocks that
-- `_extract_data` hands over, and `intervals`. A table is the list of its rows in the order of their
-- times, and a query the rows that its SQL asks for. The loop of `_extract_data` runs on fuel: a round
-- takes a whole block of rows or is the last, so fuel greater than the number of rows is enough, but
-- where an interval token fills a block. Store/Breaks and Store/OneRow are about
-- `close_interval`.
--
-- Inserter models `Inserter` of src/joule/models/data_store/timescale_inserter.py, which moves rows from a
-- local pipe into a stream's tables and asks its decimator, an interface, to decimate them. A round
-- depends on a `Moment`: the statement that the connection is lost in, if any, and the clock. numpy's test
-- for NaN, the chunk interval that a data rate gives and TimescaleDB's `drop_chunks` are the parameter
-- `Outside`.
--
-- DataStreams models the configuration of a stream of src/joule/models/data_stream.py, whose elements are
-- those of Element: `merge_configs`, `update_attributes` and `validate_keep`.
--
-- Folders models src/joule/models/folder.py: the tree of folders is a mutual data type, and what the
-- session of the database finds below a folder is read off the tree. Folders/Paths is about the search
-- for a stream by its path, Folders/Creating about `find`.
--
-- FolderController models the handler `move` of src/joule/controllers/folder_controller.py on the table of
-- folders that the database holds, with `root` and `find` of src/joule/models/folder.py on this table,
-- where the names of the children of a folder differ. The loop over the parents of the destination runs
-- on fuel; as many rounds as there are folders above the destination are enough.
--
-- MedianFilter models src/joule/client/builtins/median_filter.py. A read of its input is the rows that come
-- with it and the state of the pipe, and the rows that are not consumed are the state of the loop.
-- scipy's median filter is the parameter `Scipy`, which away from the ends gives the median of each
-- window. FirFilter models src/joule/client/fir_filter_module.py, whose loop is the same, and the taps of
-- src/joule/client/builtins/mean_filter.py. np.convolve is the parameter `Convolution`.
--
-- StreamController models the names and ids of streams in src/joule/controllers/stream_controller.py: the
-- handlers `move`, `create` and `delete` and the end of `update`, once the JSON is read and the stream
-- and the folder are found, on the rows of data and event streams. Whether a stream is locked or active
-- is a parameter.
--
-- Not modelled: the other HTTP handlers and the clients, the command line, the statements that create, drop,
-- move or measure tables, the processes of the workers, the JSON forms of the models, and the plotting
-- and reading modules, which are input and output.
pub mod Base
pub mod Config
pub mod DataStreams
pub mod Decimator
pub mod Element
pub mod EventQuery
pub mod FirFilter
pub mod FolderController
pub mod Folders
pub mod Inserter
pub mod Intervals
pub mod Layouts
pub mod MedianFilter
pub mod Pgcopy
pub mod Pipe
pub mod PipeConfig
pub mod Store
pub mod StreamController
pub mod Supervisor
pub mod Worker
