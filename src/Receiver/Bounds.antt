-- ===== src/Receiver/Bounds.antt =====
-- No character is written outside the line buffers (SPK_GPS.cpp, read).
use speed_feed.Common.{ℕ, ◌<◌, ◌≡◌, List, [], ◌∷◌, arith, length, zero, suc, refl, ap}
use speed_feed.Receiver.{
  Receiver, max_line_length, receive, feed, start_line, end_line, keep_char, limit_line, put,
  write_at,
}

length-write_at : (bs : List ℕ) (i c : ℕ) → i < length bs → length (write_at bs i c) ≡ length bs
length-write_at [] i c h = absurd (omega arith)
length-write_at (b ∷ bs) zero c h = refl
length-write_at (b ∷ bs) (suc i) c h = ap suc (length-write_at bs i c (omega arith))

-- Both arrays have their size, and the index is inside them.
pub record IsInBounds (r : Receiver) : Type 0 where
  pub size1 : length r.line1 ≡ max_line_length
  pub size2 : length r.line2 ≡ max_line_length
  pub index : r.lineidx < max_line_length

pub put-IsInBounds :
    (i c : ℕ) (r : Receiver) → i < max_line_length → IsInBounds r → IsInBounds (put i c r)
unfolding put
put-IsInBounds i c r h v = ground (
  arith,
  length-write_at r.line1 i c (omega (arith, v.size1)),
  length-write_at r.line2 i c (omega (arith, v.size2)),
)

start_line-IsInBounds : (c : ℕ) (r : Receiver) → IsInBounds r → IsInBounds (start_line c r)
unfolding start_line
start_line-IsInBounds c r v = ground (arith, put-IsInBounds r.lineidx 0 r v.index v)

end_line-IsInBounds : (c : ℕ) (r : Receiver) → IsInBounds r → IsInBounds (end_line c r)
unfolding end_line
end_line-IsInBounds c r v = ground (arith, put-IsInBounds r.lineidx 0 r v.index v)

keep_char-limit_line-IsInBounds :
    (c : ℕ) (r : Receiver) → IsInBounds r → IsInBounds (limit_line (keep_char c r))
unfolding keep_char limit_line
keep_char-limit_line-IsInBounds c r v = ground (arith, put-IsInBounds r.lineidx c r v.index v)

pub receive-IsInBounds : (c : ℕ) (r : Receiver) → IsInBounds r → IsInBounds (receive c r)
unfolding receive
receive-IsInBounds c r v =
    keep_char-limit_line-IsInBounds c (end_line c (start_line c r))
      (end_line-IsInBounds c (start_line c r) (start_line-IsInBounds c r v))

-- From a state in which the arrays have their size and the index is inside them, this is so again
-- after any characters at all. A write past the end would leave a list longer than its array, and
-- no write makes one shorter: so every write of `read` is inside the arrays.
pub feed-IsInBounds : (cs : List ℕ) (r : Receiver) → IsInBounds r → IsInBounds (feed cs r)
unfolding feed
feed-IsInBounds [] r v = v
feed-IsInBounds (c ∷ cs) r v = feed-IsInBounds cs (receive c r) (receive-IsInBounds c r v)
