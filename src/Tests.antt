-- ===== src/Tests.antt =====
-- Runs on concrete inputs, and the theorems applied to them.
mod BlobSet
mod Udig
mod UdigSet
mod Request
mod Chat
mod Verbs
mod Frisk
mod Wrap
mod FsSha
mod FsRipe
mod Qarg
mod Client
mod Session
mod Fs
mod Command
mod ExitStatus
mod Dispatch
mod Brr
mod Modules
