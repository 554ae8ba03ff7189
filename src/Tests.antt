-- ===== src/Tests.antt =====
-- The theorems at concrete inputs.
mod HashMap
mod Vector
mod Deque
mod Wire
mod LiteString
mod Ring
mod Words
mod Heap
mod Database
mod Connection
mod Avl
mod Zset
mod Client
mod ThreadPool
