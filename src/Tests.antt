-- ===== src/Tests.antt =====
-- Runs of the model on concrete data: the examples of the theorems.
mod Samples
mod Arrays
mod Copies
mod Tables
mod Lists
mod Oashes
mod Orders
mod Strings
mod Files
mod Buffers
mod Streams
