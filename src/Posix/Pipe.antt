-- ===== src/Posix/Pipe.antt =====
-- The ring buffer and the two ends of a pipe, api/arceos_posix_api/src/imp/pipe.rs.
-- `none` is a panic: an access out of the bounds of the array.
pub mod Ring
pub mod Transfer
pub mod Session
mod Tests
use chenlongos.Prelude.{
  ℕ, zero, suc, ◌+◌, ◌-◌, ◌%◌, Bool, true, false, ◌&&◌, not, Option, none, some, List, [], ◌∷◌,
  get_elem?, set, replicate, ltb, ◌==◌, if◌then◌else◌, ◌>>=◌,
}

pub data Status : Type 0 where
  full empty normal : Status

abbrev pub ring_buffer_size : ℕ
ring_buffer_size = 256

pub record PipeRingBuffer : Type 0 where
  pub arr : List ℕ
  pub head : ℕ
  pub tail : ℕ
  pub status : Status

pub new_ring : PipeRingBuffer
new_ring = record { arr = replicate ring_buffer_size 0; head = 0; tail = 0; status = empty }

pub write_byte : PipeRingBuffer → ℕ → Option PipeRingBuffer
write_byte r byte =
    let tail' = (r.tail + 1) % ring_buffer_size in
    if ltb r.tail ring_buffer_size
    then some (record {
      arr = set r.arr r.tail byte;
      head = r.head;
      tail = tail';
      status = if tail' == r.head then full else normal;
    })
    else none

pub read_byte : PipeRingBuffer → Option (ℕ × PipeRingBuffer)
read_byte r =
    let head' = (r.head + 1) % ring_buffer_size in
    do
      c ← get_elem? r.arr r.head
      some (c, record r { head = head'; status = if head' == r.tail then empty else normal })

-- `tail + RING_BUFFER_SIZE - head`, evaluated from the left.
pub available_read : PipeRingBuffer → ℕ
available_read r = elim r.status [
  | empty ↦ 0
  | _ ↦ if ltb r.head r.tail then r.tail - r.head else r.tail + ring_buffer_size - r.head
]

pub available_write : PipeRingBuffer → ℕ
unfolding available_read
available_write r = elim r.status [ full ↦ 0 | _ ↦ ring_buffer_size - available_read r ]

-- The buffer that both ends share, with the strong count of its `Arc`.
pub record Shared : Type 0 where
  pub ring : PipeRingBuffer
  pub strong_count : ℕ

-- One end; the buffer itself is shared, and stands in `Shared`.
pub record Pipe : Type 0 where
  pub is_readable : Bool

pub new_pipe : Shared × Pipe × Pipe
unfolding new_ring
new_pipe = (
  record { ring = new_ring; strong_count = 2 },
  record { is_readable = true },
  record { is_readable = false },
)

pub readable : Pipe → Bool
readable p = p.is_readable

pub writable : Pipe → Bool
writable p = not p.is_readable

pub write_end_close : Shared → Bool
write_end_close s = s.strong_count == 1

-- How a pass of the loop in `read` or `write` ends: the call returns, or the loop goes round again.
pub data Ending : Type 0 where
  returns again : Ending

-- The inner loop of `read`, with the rounds and the room (`max_len - read_size`) that are left;
-- the bytes read come in order.
pub read_rounds : ℕ → PipeRingBuffer → ℕ → Option (Ending × PipeRingBuffer × List ℕ)
read_rounds zero r room = some (again, r, [])
read_rounds (suc k) r zero = some (returns, r, [])
read_rounds (suc k) r (suc room) =
    read_byte r >>= λ (c, r'). read_rounds k r' room >>= λ (e, r'', cs). some (e, r'', c ∷ cs)

-- One pass of the loop of `read`, under the lock.
pub read_pass : Shared → ℕ → Option (Ending × Shared × List ℕ)
unfolding available_read write_end_close
read_pass s room =
    let n = available_read s.ring in
    let rounds : Option (Ending × Shared × List ℕ) =
      read_rounds n s.ring room >>= λ (e, r, cs). some (e, record s { ring = r }, cs) in
    if n == 0 then some (if write_end_close s then returns else again, s, []) else rounds

-- The inner loop of `write`, with the bytes of `buf[write_size..]` that are left.
pub write_rounds : ℕ → PipeRingBuffer → List ℕ → Option (Ending × PipeRingBuffer × List ℕ)
write_rounds zero r rest = some (again, r, rest)
write_rounds (suc k) r [] = some (returns, r, [])
write_rounds (suc k) r (b ∷ rest) = write_byte r b >>= λ r'. write_rounds k r' rest

-- One pass of the loop of `write`, under the lock.
pub write_pass : Shared → List ℕ → Option (Ending × Shared × List ℕ)
unfolding available_write
write_pass s rest =
    let n = available_write s.ring in
    let rounds : Option (Ending × Shared × List ℕ) =
      write_rounds n s.ring rest >>= λ (e, r, left). some (e, record s { ring = r }, left) in
    if n == 0 then some (again, s, rest) else rounds

pub record PollState : Type 0 where
  pub readable : Bool
  pub writable : Bool

pub poll : Pipe → Shared → PollState
unfolding available_read available_write readable writable
poll p s = record {
  readable = readable p && ltb 0 (available_read s.ring);
  writable = writable p && ltb 0 (available_write s.ring);
}
