-- ===== src/Examples.antt =====
-- Tests on concrete inputs, and an instance of each property that has hypotheses.
mod Files
mod Headers
mod Basics
mod Archives
mod Compressed
mod Lh1
mod Version
mod Lzss
mod Lzhuf
