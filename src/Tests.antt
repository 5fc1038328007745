-- ===== src/Tests.antt =====
-- Runs of the definitions at concrete inputs, and the theorems at inputs that meet their hypotheses.
mod Bitmaps
mod Lists
mod Threads
mod Strings
mod Memories
mod Paging
mod Keyboards
mod Inodes
mod Locks
mod Queues
mod OpenFiles
mod Pipes
mod Formats
mod Volumes
mod Pathnames
mod VirtualPages
mod FileReads
mod Directories
mod ProcessIds
