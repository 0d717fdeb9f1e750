-- ===== src/Lib.antt =====
-- Gangline keeps a team of agent harnesses in tmux. This library models the rules by which it keeps
-- an agent's record, and the store in which that record, the team's names and its mail are kept.
--
-- Core is core/. Core/Types has the records of core/agent.go and core/event.go, Core/Step is `Step`
-- of core/step.go, Core/Retry is `RetryDelay` of core/agent.go.
-- Store is store/. Store/World is the durable state, with the actions on it that can fail;
-- Store/Segment is `segment`, Store/Names the name claims and `FinishRename` of store/store.go,
-- Store/Save is `LockedAgent.Save` of store/lock.go with `saveModelState` of store/model.go.
-- Store/Hooks is store/hooks.go, Store/Clear is store/clear.go, Store/NativePending is
-- store/native_pending.go: these functions share one short lock, and give the writes they make.
-- Store/Ledger is store/team_idle.go and Store/Inbox store/inbox.go: the mail of an agent and the
-- ledger that counts it, with Store/Inbox/Runs the operations on them in any order.
-- Store/Credentials is store/outside.go and store/senders.go: the bearer credentials of principals outside the team and of
-- registered senders, Store/Credentials/Runs the operations in any order. SHA-256 is a parameter, and what
-- crypto/rand gives is a list.
-- Flags is cmd/gang/flags.go: the scan of a command's options and the team selector.
-- Usage is the wakes of cmd/gang/usage_state.go: Usage itself the records and the choice of a native reset,
-- Usage/Judge is `observeSnoozeTurn`, Usage/Flush is `flushUsageWork` and Usage/Acknowledge is
-- `acknowledgeUsageDelivery`.
-- Compaction is cmd/gang/compaction.go with the parts of messages.go, recover.go and runtime.go that it calls:
-- Compaction itself the failures, the completion and `apply` by core/step.go, Compaction/Admission the request and the
-- submit hook, Compaction/Terminal and Compaction/Start `startCompaction`, Compaction/Runs all of them in any order.
-- Delivery is cmd/gang/delivery.go: Delivery itself the tests on an envelope and an agent, Delivery/Drain is
-- `drainLocked`, with what each round's calls answer as a record `Answers`.
-- Idle is cmd/gang/team_idle.go: Idle itself the tests on one agent, episode and window,
-- Idle/Snapshot what `reserveIdleNotice` reads, Idle/Reserve what it decides and writes, and
-- Idle/Delivery what becomes of a notice that it has reserved. The
-- ledger it reads is the `idle` of Store/World, the hooks are those of Store/Hooks.
-- Harness is harness/: Harness/Queue and Harness/PromptTurn are queued.go, and
-- Harness/TurnClose is `TurnClosed` of turn_close.go, over the records that the transcript decodes to.
--
-- A `time.Time` is a number of nanoseconds, 0 for the zero time, so times before the zero time are
-- left out. Strings that the code compares with constants are data types with a constructor `other`
-- for every other string, or texts. A pointer is an `Option`; Go's aliasing of `agent.Compaction` is
-- cut by the copy that `Step` makes, so values need not be shared. A float64 that is only stored is
-- its bit pattern.
-- Each call of the operating system may fail with no effect, as a list of faults decides, and so a
-- crash is a fault after which nothing runs. A write by `atomicJSON` is one such call, since its
-- rename makes it visible at once; the temporary file that a crash can leave is not modelled. The removal of the keyed
-- records of an outside principal is one call too.
-- The loops are recursions on lists and on the attempts left, without fuel, but for the drain, whose fuel is
-- the number of its rounds: one more than the envelopes queued before it and during it is enough. A loop
-- over a map takes the keys that it meets as a list, in any order.
-- Not modelled: locks and waiting (an action runs under the locks that the source says it holds),
-- JSON itself, tmux, collars, what the commands print and the watchdog; the hitches and the team commands, which drive
-- tmux through the parts above; the permission witness of store/observation.go, the context bands of harness/ and the
-- reports and network servers of internal/.
pub mod Prelude
pub mod Core
pub mod Store
pub mod Harness
pub mod Tests
pub mod Compaction
pub mod Delivery
pub mod Flags
pub mod Idle
pub mod Usage
