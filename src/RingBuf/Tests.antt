-- ===== src/RingBuf/Tests.antt =====
-- Runs of the ring, and its theorems at concrete rings.
use legendary_journey.Base.{
  ◌+◌, ◌≡◌, refl, inl, true, some, [], ◌∷◌, ◌++◌, arith, Block, slice, blit, take, drop,
}
use legendary_journey.RingBuf.{RingBuf, ringbuf_len, ringbuf_space, ringbuf_put, ringbuf_take}
use legendary_journey.RingBuf.Queue.{IsValid, contents}
use legendary_journey.RingBuf.Put.{ringbuf_put_refines}
use legendary_journey.RingBuf.Take.{ringbuf_take_refines}

abbrev digits : Block
digits i = i + 10

-- 13, 14, then 10 round the end of the five bytes
abbrev wrapped : RingBuf
wrapped = record { buffer = digits; cap = 5; start = 3; end = 1 }

abbrev middle : RingBuf
middle = record { buffer = digits; cap = 5; start = 2; end = 4 }

abbrev valid : IsValid wrapped
valid = omega arith

contents-wrapped : contents wrapped ≡ 13 ∷ 14 ∷ 10 ∷ []
unfolding slice
contents-wrapped = refl

put_wraps : contents (ringbuf_put middle (7 ∷ 8 ∷ [])).1 ≡ 12 ∷ 13 ∷ 7 ∷ 8 ∷ []
unfolding ringbuf_put slice blit
put_wraps = refl

ringbuf_put_refines_example :
    let (done, buf') = ringbuf_put middle (7 ∷ 8 ∷ []) in
    (done ≡ true) × (contents buf' ≡ contents middle ++ 7 ∷ 8 ∷ []) × IsValid buf'
unfolding ringbuf_space
ringbuf_put_refines_example =
    ringbuf_put_refines middle (7 ∷ 8 ∷ []) (omega arith) (omega arith, inl (omega arith))

ringbuf_take_refines_example :
    let (out, buf') = ringbuf_take wrapped 3 in
    (out ≡ some (take 3 (contents wrapped)))
    × (contents buf' ≡ drop 3 (contents wrapped))
    × IsValid buf'
unfolding ringbuf_len
ringbuf_take_refines_example = ringbuf_take_refines wrapped 3 (omega arith) (omega arith)
