-- ===== src/RingBuf.antt =====
-- src/kernel/util/ringbuf.c: a byte ring over a block of `cap` bytes, with the indices `start` and
-- `end`. A call that copies out returns the bytes copied; `none` is the result `false`.
pub mod Queue
pub mod Put
pub mod Take
mod Tests
use legendary_journey.Base.{
  ℕ, Bool, true, false, Option, none, some, List, [], ◌++◌, ltb, leb, ◌==◌, if◌then◌else◌, add32,
  sub32, min, length, take, drop, Block, slice, blit,
}

pub record RingBuf : Type 0 where
  pub buffer : Block
  pub cap : ℕ
  pub start : ℕ
  pub end : ℕ

unfoldable pub ringbuf_len : RingBuf → ℕ
ringbuf_len buf =
    if leb buf.start buf.end
    then sub32 buf.end buf.start
    else sub32 buf.cap (sub32 buf.start buf.end)

unfoldable pub ringbuf_space : RingBuf → ℕ
ringbuf_space buf =
    if leb buf.start buf.end
    then sub32 buf.cap (sub32 buf.end buf.start)
    else sub32 buf.start buf.end

-- `umin(upper_limit - buf->end, len)`, the bytes that `ringbuf_put` writes before it wraps
pub bytes_to_write : RingBuf → ℕ → ℕ
bytes_to_write buf len =
    let upper_limit = if leb buf.start buf.end then buf.cap else buf.start in
    min (sub32 upper_limit buf.end) len

-- the second copy of `ringbuf_put`, with the `len` bytes still to write
pub put_wrapped : RingBuf → List ℕ → ℕ → RingBuf
put_wrapped buf bytes len =
    if ltb 0 len then record buf { buffer = blit buf.buffer 0 bytes; end = len } else buf

-- `len` is the length of the caller's data.
unfoldable pub ringbuf_put : RingBuf → List ℕ → Bool × RingBuf
unfolding ringbuf_space bytes_to_write put_wrapped
ringbuf_put buf bytes =
    let len = length bytes in
    let n = bytes_to_write buf len in
    let first = record buf {
      buffer = blit buf.buffer buf.end (take n bytes);
      end = add32 buf.end n;
    } in
    if ltb (ringbuf_space buf) len
    then (false, buf)
    else if len == 0
    then (true, buf)
    else (true, put_wrapped first (drop n bytes) (sub32 len n))

-- `umin(upper_limit - buf->start, len)`, the bytes that are read before the end of the block
pub bytes_to_read : RingBuf → ℕ → ℕ
bytes_to_read buf len =
    let upper_limit = if ltb buf.start buf.end then buf.end else buf.cap in
    min (sub32 upper_limit buf.start) len

-- the two copies of `ringbuf_peek` and `ringbuf_take`
pub copy_out : RingBuf → ℕ → List ℕ
unfolding bytes_to_read
copy_out buf len =
    let n = bytes_to_read buf len in
    let rest = sub32 len n in
    slice buf.buffer buf.start n ++ (if ltb 0 rest then slice buf.buffer 0 rest else [])

unfoldable pub ringbuf_peek : RingBuf → ℕ → Option (List ℕ)
unfolding ringbuf_len copy_out
ringbuf_peek buf len =
    if ltb (ringbuf_len buf) len
    then none
    else if len == 0
    then some ([])
    else some (copy_out buf len)

-- `buf->start` after `ringbuf_take`
pub start_after : RingBuf → ℕ → ℕ
unfolding bytes_to_read
start_after buf len =
    let n = bytes_to_read buf len in
    let rest = sub32 len n in if ltb 0 rest then rest else add32 buf.start n

unfoldable pub ringbuf_take : RingBuf → ℕ → Option (List ℕ) × RingBuf
unfolding ringbuf_len copy_out start_after
ringbuf_take buf len =
    if ltb (ringbuf_len buf) len
    then (none, buf)
    else if len == 0
    then (some ([]), buf)
    else (some (copy_out buf len), record buf { start = start_after buf len })

pub ringbuf_clear : RingBuf → RingBuf
ringbuf_clear buf = record buf { start = 0; end = 0 }
