-- ===== src/Lib.antt =====
-- save_any_bot: a verification library for SaveAny-Bot, a bot that saves files from Telegram and
-- other sources to storages. The models are translations of the Go sources; every path below is from
-- the repository's root.
--
-- How the parts work together. A handler or the HTTP API builds a task and gives it to core.AddTask,
-- which puts it into the queue of pkg/queue. Workers take tasks out with Get, run the hooks and
-- Execute, send the events of pkg/taskevent and call Done. Events go to the sinks of a task's context
-- and to the global sink, which is the store of task records of api/progress.go; a record that ends
-- posts a webhook. A batch task downloads its elements in groups, keeps a record of each item, and
-- uploads them; a large file goes to Telegram in the parts that the split writer makes. The aria2 task
-- waits for a download of another program and saves its files. The watch command is a second program
-- that uploads the files of a directory as they settle. The relay scans channels on a schedule, sends the
-- links that it finds to another bot, and makes tasks of the files that the bot sends.
--
-- Files and code:
--   Prelude           shared names, Boolean tests on native numbers, lists with their length, maps
--                     with string keys, and the lemmas on them.
--   Queue             pkg/queue/queue.go, pkg/queue/task.go. The list, the two maps and the closed flag
--                     are a record, the contexts a shared store that others may cancel at any time;
--                     add, fetch, done, cancel_task and close are the methods, and a history is a list of
--                     calls. Queue/Reference is the queue that a caller may think of.
--   TaskEvent         pkg/taskevent/taskevent.go: contexts with sinks and a source, and Emit.
--   Core              core/core.go, core/hookutil.go: the worker as the list of its actions.
--   Progress          api/progress.go, api/webhook.go, api/types.go: the records and their store.
--   Batch             core/tasks/batchtfile: Meter is transferMeter, Items and Upload are the item records
--                     and the aggregate progress, Groups is executionGroups and the loop of
--                     Execute, Element is processElement, processElements and processBatch (in Download),
--                     Saving is saveBatchItems.
--   Split             storage/telegram/split.go: the writer of numbered parts and finalize.
--   Watch             cmd/watch: Uploader is the job queue as steps of its goroutines, Attempts is
--                     uploadWithRetry, Watcher is the debouncing.
--   Aria2             core/tasks/aria2dl/execute.go: Wait is the loop over the status, Transfer the saving.
--   Templates         core/tasks/ytdlp/output.go: the output templates in a user's flags.
--   Rules             pkg/rule and client/bot/handlers/utils/ruleutil/rule.go: the choice of a storage.
--   Utils             common/utils/strutil, common/utils/fsutil, common/utils/dlutil.
--   Retry             client/middleware/retry/retry.go.
--   Relay             the relay of deep links. Collect is the scan of a channel's history, Process the
--                     processing of its messages with the cursor, Dialogue the wait for the target
--                     bot, Schedule and DeepLink the ticks and the payloads, all of
--                     client/bot/handlers/bot_relay.go; Store is database/bot_relay.go with its tables as
--                     lists; Api is api/bot_relay.go.
--   MediaGroup        client/bot/handlers/media_group.go: the handler's maps with the timers that are
--                     started and the runs that wait for the lock.
--   Factory           api/factory.go: CreateTask over the store of records and the queue.
--   Albums            storage/telegram/telegram.go: the albums in which a batch is sent.
--   Alist             storage/alist/token.go, storage/alist/alist.go: Save, with the directories and
--                     the login after a refused token.
--   Conflicts         client/bot/handlers/utils/shortcut/tftask.go, with conflictutil: the files of a
--                     message, sorted by rules and by what exists.
--
-- How the code is read. A method that changes its receiver is a function to the new record. A lock
-- makes a method, or the part of it that holds the lock, one step; what other goroutines do between
-- steps is an arbitrary list of steps. Times are numbers of nanoseconds that the environment gives,
-- the sinks, the clients of remote services, the disk, the join of paths, regular expressions and
-- comparisons of third-party errors are arguments of the definitions. An error that is only printed
-- is a string or a constructor. Log lines are left out.
--
-- Bounds and loops. Numbers are natural numbers: sizes, counts and times that the code keeps from
-- being negative. Most loops are recursion on the list that they run over or on the number of
-- attempts that are left, as are those of the webhook, of the watch command's attempts and of the
-- retry middleware. Some loops have fuel. splitWriter.Write has one more than the bytes that it is
-- given, and each round that goes on writes a byte at least; its theorem says that it gives a
-- result. executionGroups has the number of the elements and the loop of Execute that of the groups,
-- of which each round uses up one at least. The plan of albums and the batches of parts have the
-- number of their items, of which each round uses up one. The loop over the pages of a channel's
-- history has one more than the offset of its second page, since the offsets fall; a theorem says
-- that it ends. The loop that waits for aria2 has no bound in the code; it runs over a list of ticks
-- and says when it still waits at the end of that list.
--
-- What is not modelled. The clients of Telegram and of the storages, the HTTP server, the handlers
-- of the bot's commands, the parsers of web pages, the database and the configuration are calls of
-- third-party libraries around the parts above, but for the tables of the relays, the Alist client and the albums of
-- Telegram. The links of a
-- message and the channel of a request are read by parameters. Speeds and percentages that are
-- computed with floating point are left out. The trackers that edit chat messages are output only;
-- in cmd/watch, a walk of a directory is the list of the files that it visits. The list of preset
-- categories of pkg/rule is data.
mod Prelude
pub mod Queue
pub mod TaskEvent
pub mod Progress
pub mod Core
pub mod Batch
pub mod Split
pub mod Watch
pub mod Utils
pub mod Retry
pub mod Aria2
pub mod Rules
pub mod Templates
pub mod Relay
pub mod Conflicts
pub mod Albums
pub mod Alist
pub mod Factory
pub mod MediaGroup
