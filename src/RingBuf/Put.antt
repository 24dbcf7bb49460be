-- ===== src/RingBuf/Put.antt =====
-- `ringbuf_put` against appending to the queue of the bytes held.
use legendary_journey.Base.{
  ℕ, ◌+◌, ◌-◌, ◌≤◌, ◌<◌, ◌≡◌, ◌⊎◌, refl, ap, true, false, List, [], ◌∷◌, ◌++◌, arith, length,
  length-take, length-drop, take, drop, take-append-drop, take_all, append_assoc, append-nil, slice,
  blit, slice-blit_append, slice-blit_out, slice-blit_self,
}
use legendary_journey.RingBuf.{RingBuf, ringbuf_len, ringbuf_space, ringbuf_put}
use legendary_journey.RingBuf.Queue.{IsValid, contents}

-- A put fits without bringing `end` round to a `start` inside the block.
abbrev pub Fits : RingBuf → List ℕ → Type 0
Fits buf bytes =
    (length bytes ≤ ringbuf_space buf) × ((length bytes < ringbuf_space buf) ⊎ (buf.start ≡ 0))

module _ (buf : RingBuf) (bytes : List ℕ) (v : IsValid buf) (fits : Fits buf bytes) where
  open buf use {buffer, cap, start, end}

  ringbuf_put-IsValid : IsValid (ringbuf_put buf bytes).1
  unfolding ringbuf_put
  ringbuf_put-IsValid = ground (arith, length-take (cap - end) bytes)

  ringbuf_put-true : (ringbuf_put buf bytes).0 ≡ true
  unfolding ringbuf_put
  ringbuf_put-true = ground arith

  put-nil : length bytes ≡ 0 → (ringbuf_put buf bytes).1 ≡ buf
  unfolding ringbuf_put
  put-nil h = ground arith

  -- `end` at or ahead of `start`, and room before the end of the block
  put-contents_ahead :
      start ≤ end
      → length bytes ≤ cap - end
      → 0 < length bytes
      → contents (ringbuf_put buf bytes).1 ≡ contents buf ++ bytes
  unfolding ringbuf_put
  put-contents_ahead h room some = ground (
    arith,
    take_all (length bytes) bytes,
    slice-blit_append buffer start (end - start) (end + length bytes - start) end bytes,
  )

  put-contents_behind :
      end < start → 0 < length bytes → contents (ringbuf_put buf bytes).1 ≡ contents buf ++ bytes
  unfolding ringbuf_put
  put-contents_behind h some = ground (
    arith,
    take_all (length bytes) bytes,
    slice-blit_out buffer end bytes start (cap - start),
    append_assoc (slice buffer start (cap - start)) (slice buffer 0 end) bytes,
    slice-blit_append buffer 0 end (end + length bytes) end bytes,
  )

  put-contents_wrap :
      start ≤ end
      → cap - end < length bytes
      → contents (ringbuf_put buf bytes).1 ≡ contents buf ++ bytes
  unfolding ringbuf_put
  put-contents_wrap h far =
      let n = cap - end in
      ground (
        arith,
        length-take n bytes,
        length-drop n bytes,
        take-append-drop n bytes,
        append_assoc (slice buffer start (end - start)) (take n bytes) (drop n bytes),
        slice-blit_append buffer start (end - start) (cap - start) end (take n bytes),
        slice-blit_out (blit buffer end (take n bytes)) 0 (drop n bytes) start (cap - start),
        slice-blit_self (blit buffer end (take n bytes)) 0 (drop n bytes),
      )

put-contents :
    (buf : RingBuf) (bytes : List ℕ)
    → IsValid buf
    → Fits buf bytes
    → contents (ringbuf_put buf bytes).1 ≡ contents buf ++ bytes
put-contents buf [] v fits = rw append-nil (ap contents (put-nil buf [] v fits refl))
put-contents buf (x ∷ xs) v fits =
    let bytes = x ∷ xs in
    ground (
      arith,
      put-contents_ahead buf bytes v fits,
      put-contents_behind buf bytes v fits,
      put-contents_wrap buf bytes v fits,
    )

-- `ringbuf_put` of bytes that fit without bringing `end` round to a `start` inside the block
-- succeeds, appends exactly those bytes to the queue held, and keeps the indices in range.
pub ringbuf_put_refines :
    (buf : RingBuf) (bytes : List ℕ)
    → IsValid buf
    → Fits buf bytes
    → let (done, buf') = ringbuf_put buf bytes in
      (done ≡ true) × (contents buf' ≡ contents buf ++ bytes) × IsValid buf'
ringbuf_put_refines buf bytes v fits = (
  ringbuf_put-true buf bytes v fits,
  put-contents buf bytes v fits,
  ringbuf_put-IsValid buf bytes v fits,
)

-- A put that asks for more than the free space fails and changes nothing.
pub ringbuf_put_refuses :
    (buf : RingBuf) (bytes : List ℕ)
    → ringbuf_space buf < length bytes
    → ringbuf_put buf bytes ≡ (false, buf)
unfolding ringbuf_put
ringbuf_put_refuses buf bytes h = ground arith

-- A put that fills the ring exactly while `start` is inside the block reports success, and leaves a
-- ring that counts as empty: the bytes put and all bytes held before are lost.
pub ringbuf_put_fills :
    (buf : RingBuf) (bytes : List ℕ)
    → IsValid buf
    → 0 < buf.start
    → 0 < length bytes
    → length bytes ≡ ringbuf_space buf
    → let (done, buf') = ringbuf_put buf bytes in
      (done ≡ true) × (contents buf' ≡ []) × (ringbuf_len buf' ≡ 0)
unfolding ringbuf_put ringbuf_len slice
ringbuf_put_fills buf bytes v inside some full = ground arith
