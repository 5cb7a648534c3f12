-- ===== src/Buffer.antt =====
-- src/io/src/io_buffer.c and io_buffer.h: a block of `capacity` bytes, of which `size` from `head`
-- on are in use. `head` is the offset of the pointer from `data`, and `bytes` is what lies at `data`.
pub mod Contents
use tcp_striper.Base.{
  ℕ, ◌+◌, ◌-◌, Bool, Option, none, some, List, [], ◌++◌, ltb, leb, ◌==◌, ◌&&◌, if◌then◌else◌,
  length, take, drop, replicate, not,
}
use tcp_striper.Serialize.{Bytes}
use tcp_striper.Run.{Run, ok, assert, ◌>>=◌, ◌>>◌}

pub record IoBuffer : Type 0 where
  pub capacity : ℕ
  pub head : ℕ
  pub size : ℕ
  pub bytes : Bytes

-- memcpy() or memmove() of `bs` to offset `pos` of the memory.
abbrev pub write_at : ℕ → Bytes → Bytes → Bytes
write_at pos bs mem = take pos mem ++ (bs ++ drop (pos + length bs) mem)

-- heap_zalloc() of the block; the allocator is taken to succeed, as the callers do.
abbrev pub zeroed : ℕ → IoBuffer
zeroed capacity = record { capacity = capacity; head = 0; size = 0; bytes = replicate capacity 0 }

-- `data` and `size` are one list; `none` is a NULL `data`.
pub alloc_io_buffer : ℕ → Option Bytes → Run IoBuffer
alloc_io_buffer capacity none = ok (zeroed capacity)
alloc_io_buffer capacity (some bs) = do
  assert (leb (length bs) capacity)
  ok (record (zeroed capacity) { size = length bs; bytes = write_at 0 bs (replicate capacity 0) })

pub reset_io_buffer : IoBuffer → IoBuffer
reset_io_buffer buf = record buf { head = 0; size = 0 }

-- A read of `bs` into the space behind the bytes in use: `head + size` on, with `size += r`.
pub append_bytes : IoBuffer → Bytes → IoBuffer
append_bytes b bs = record b {
  size = b.size + length bs;
  bytes = write_at (b.head + b.size) bs b.bytes;
}

-- `head += n` and `size -= n`, which the callers do for an `n` up to `size` only.
pub consume : IoBuffer → ℕ → IoBuffer
consume b n = record b { head = b.head + n; size = b.size - n }
