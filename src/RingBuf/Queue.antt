-- ===== src/RingBuf/Queue.antt =====
-- The bytes that a ring holds, oldest first, and the indices that `ringbuf.c` keeps in range.
use legendary_journey.Base.{
  ℕ, ◌+◌, ◌-◌, ◌≤◌, ◌<◌, ◌^◌, ◌≡◌, List, ◌++◌, arith, leb, if◌then◌else◌, length, length-append,
  slice, length-slice,
}
use legendary_journey.RingBuf.{RingBuf, ringbuf_len, ringbuf_space}

pub record IsValid (buf : RingBuf) : Type 0 where
  pub small : buf.cap < 2 ^ 32
  pub start_in : buf.start ≤ buf.cap
  pub end_in : buf.end ≤ buf.cap

-- the block read from `start` to `end`, round the end of the block where `end` is behind `start`
abbrev pub contents : RingBuf → List ℕ
contents buf =
    if leb buf.start buf.end
    then slice buf.buffer buf.start (buf.end - buf.start)
    else slice buf.buffer buf.start (buf.cap - buf.start) ++ slice buf.buffer 0 buf.end

pub ringbuf_len-contents : (buf : RingBuf) → IsValid buf → ringbuf_len buf ≡ length (contents buf)
unfolding ringbuf_len
ringbuf_len-contents buf v = ground (
  arith,
  length-slice buf.buffer buf.start (buf.end - buf.start),
  length-append (slice buf.buffer buf.start (buf.cap - buf.start)) (slice buf.buffer 0 buf.end),
  length-slice buf.buffer buf.start (buf.cap - buf.start),
  length-slice buf.buffer 0 buf.end,
)

-- `ringbuf_len` and `ringbuf_space` make up the capacity.
pub len-add-space : (buf : RingBuf) → IsValid buf → ringbuf_len buf + ringbuf_space buf ≡ buf.cap
unfolding ringbuf_len ringbuf_space
len-add-space buf v = ground arith
