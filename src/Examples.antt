-- ===== src/Examples.antt =====
-- Runs on concrete inputs: tests of the definitions, and the theorems at inputs that meet their
-- hypotheses.
mod JournalRuns
mod ConfigRuns
mod KvRuns
mod ScheduleRuns
mod GateRuns
mod PollRuns
mod SubjectRuns
mod DeviceRuns
mod EnvRuns
mod StreamRuns
mod HandleRuns
mod SealedRuns
mod RedactRuns
mod BackupRuns
