-- ===== src/RingBuf/Take.antt =====
-- `ringbuf_peek` and `ringbuf_take` against the front of the queue of the bytes held.
use legendary_journey.Base.{
  ℕ, zero, suc, ◌+◌, ◌-◌, ◌≤◌, ◌<◌, ◌≡◌, refl, ap, sym, some, none, [], ◌++◌, arith, length,
  length-append, take, drop, take-append_length, drop-append_length, append_assoc, append-nil,
  slice, slice_split, length-slice,
}
use legendary_journey.RingBuf.{
  RingBuf, ringbuf_len, ringbuf_peek, ringbuf_take, copy_out, start_after,
}
use legendary_journey.RingBuf.Queue.{IsValid, contents, ringbuf_len-contents}

module _ (buf : RingBuf) (len : ℕ) (v : IsValid buf) (some : 0 < len)
    (held : len ≤ ringbuf_len buf) where
  open buf use {buffer, cap, start, end}

  abbrev after : RingBuf
  after = record buf { start = start_after buf len }

  start_after-IsValid : IsValid after
  unfolding start_after ringbuf_len
  start_after-IsValid = ground arith

  length-copy_out : length (copy_out buf len) ≡ len
  unfolding copy_out ringbuf_len slice
  length-copy_out = ground (
    arith,
    length-append (slice buffer start (cap - start)) (slice buffer 0 (len - (cap - start))),
    append-nil (slice buffer start len),
    length-slice buffer start len,
    length-slice buffer start (cap - start),
    length-slice buffer 0 (len - (cap - start)),
  )

  contents-split : contents buf ≡ copy_out buf len ++ contents after
  unfolding copy_out start_after ringbuf_len
  contents-split = ground (
    arith,
    append-nil (slice buffer start len),
    slice_split buffer start (end - start) len (end - (start + len)) (start + len),
    slice_split buffer start (cap - start) len (cap - (start + len)) (start + len),
    slice_split buffer 0 end (len - (cap - start)) (end - (len - (cap - start)))
        (len - (cap - start)),
    append_assoc (slice buffer start len) (slice buffer (start + len) (cap - (start + len)))
        (slice buffer 0 end),
    append_assoc (slice buffer start (cap - start)) (slice buffer 0 (len - (cap - start)))
        (slice buffer (len - (cap - start)) (end - (len - (cap - start)))),
  )

-- The bytes that both `ringbuf_peek` and `ringbuf_take` copy out are the oldest `len` held.
copied :
    (buf : RingBuf) (len : ℕ)
    → IsValid buf
    → 0 < len
    → len ≤ ringbuf_len buf
    → (copy_out buf len ≡ take len (contents buf))
      × (contents (record buf { start = start_after buf len }) ≡ drop len (contents buf))
copied buf len v h held = rw (contents-split buf len v h held) (
  sym (take-append_length len _ _ (length-copy_out buf len v h held)),
  sym (drop-append_length len _ _ (length-copy_out buf len v h held)),
)

take_none : (buf : RingBuf) → ringbuf_take buf 0 ≡ (some [], buf)
unfolding ringbuf_take
take_none buf = ground arith

take_some :
    (buf : RingBuf) (len : ℕ)
    → 0 < len
    → len ≤ ringbuf_len buf
    → ringbuf_take buf len ≡ (some (copy_out buf len), record buf { start = start_after buf len })
unfolding ringbuf_take
take_some buf len h held = ground arith

-- `ringbuf_take` of no more bytes than the ring holds returns the oldest ones in order, leaves the
-- rest of the queue, and keeps the indices in range.
pub ringbuf_take_refines :
    (buf : RingBuf) (len : ℕ)
    → IsValid buf
    → len ≤ ringbuf_len buf
    → let (out, buf') = ringbuf_take buf len in
      (out ≡ some (take len (contents buf)))
      × (contents buf' ≡ drop len (contents buf))
      × IsValid buf'
ringbuf_take_refines buf zero v held = rw (take_none buf) (refl, refl, v)
ringbuf_take_refines buf (suc n) v held =
    let here : 0 < suc n = omega arith in
    let (front, rest) = copied buf (suc n) v here held in
    rw (take_some buf (suc n) here held)
      (ap some front, rest, start_after-IsValid buf (suc n) v here held)

-- `ringbuf_peek` returns what `ringbuf_take` would return, on every branch.
pub ringbuf_peek-take : (buf : RingBuf) (len : ℕ) → ringbuf_peek buf len ≡ (ringbuf_take buf len).0
unfolding ringbuf_peek ringbuf_take
ringbuf_peek-take buf len = ground arith

-- A take of more bytes than the ring holds fails and changes nothing.
pub ringbuf_take_refuses :
    (buf : RingBuf) (len : ℕ)
    → IsValid buf
    → length (contents buf) < len
    → ringbuf_take buf len ≡ (none, buf)
unfolding ringbuf_take
ringbuf_take_refuses buf len v h = ground (arith, ringbuf_len-contents buf v)
