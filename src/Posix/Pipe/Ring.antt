-- ===== src/Posix/Pipe/Ring.antt =====
-- The ring buffer of a pipe against the queue of the bytes that it holds.
use chenlongos.Prelude.{
  ℕ, zero, suc, ◌+◌, ◌%◌, ◌≤◌, ◌<◌, ◌≡◌, refl, ap, ap₂, ◌∙◌, ◌≢◌, some, List, [], ◌∷◌, ◌++◌, length,
  get_or, set, arith, ◌==◌, if◌then◌else◌, length-set, length-replicate, get_elem?-eq-get_or,
  get_or-set_self, get_or-set_ne,
}
use chenlongos.Posix.Pipe.{
  PipeRingBuffer, Status, full, empty, normal, ring_buffer_size, new_ring, write_byte, read_byte,
  available_read, available_write,
}

-- What the status says of the two indices.
abbrev pub Agrees : Status → ℕ → ℕ → Type 0
Agrees normal h t = h ≢ t
Agrees full h t = h ≡ t
Agrees empty h t = h ≡ t

pub record IsValid (r : PipeRingBuffer) : Type 0 where
  pub storage : length r.arr ≡ ring_buffer_size
  pub head_in : r.head < ring_buffer_size
  pub tail_in : r.tail < ring_buffer_size
  pub status_agrees : Agrees r.status r.head r.tail

-- The `n` bytes from index `h` on, going round at the end of the array.
abbrev pub window : List ℕ → ℕ → ℕ → List ℕ
window buf h zero = []
window buf h (suc n) = get_or buf h 0 ∷ window buf ((h + 1) % ring_buffer_size) n

abbrev pub contents : PipeRingBuffer → List ℕ
contents r = window r.arr r.head (available_read r)

pub new_ring-IsValid : IsValid new_ring
unfolding new_ring
new_ring-IsValid = record {
  storage = length-replicate {A = ℕ} ring_buffer_size 0;
  head_in = omega arith;
  tail_in = omega arith;
  status_agrees = refl;
}

available_read-le : (r : PipeRingBuffer) → IsValid r → available_read r ≤ ring_buffer_size
unfolding available_read
available_read-le r v = ground arith

-- In a valid ring, what can be read and what can be written make up the size of the buffer.
pub available_read-available_write :
    (r : PipeRingBuffer) → IsValid r → available_read r + available_write r ≡ ring_buffer_size
unfolding available_read available_write
available_read-available_write r v = ground arith

-- The index behind the last byte is `tail`.
tail-eq : (r : PipeRingBuffer) → IsValid r → r.tail ≡ (r.head + available_read r) % ring_buffer_size
unfolding available_read
tail-eq r v = ground arith

add-mod-ne :
    (h k : ℕ) → h < ring_buffer_size → suc k < ring_buffer_size → (h + suc k) % ring_buffer_size ≢ h
add-mod-ne h k hh hk = omega arith

window-set :
    (buf : List ℕ) (x n h i : ℕ)
    → length buf ≡ ring_buffer_size
    → h < ring_buffer_size
    → n < ring_buffer_size
    → i ≡ (h + n) % ring_buffer_size
    → window (set buf i x) h (suc n) ≡ window buf h n ++ (x ∷ [])
window-set buf x zero h i hs hh hn e =
    let e' : i ≡ h = omega arith in rw (e', get_or-set_self buf h x 0 (omega arith))
window-set buf x (suc n) h i hs hh hn e =
    ap₂ ◌∷◌ (get_or-set_ne buf x 0 (rw e (add-mod-ne h n hh hn))) (
      window-set buf x n ((h + 1) % ring_buffer_size) i hs (omega arith) (omega arith)
        (omega arith))

-- The ring after a byte is written.
abbrev pub written : PipeRingBuffer → ℕ → PipeRingBuffer
written r b = record {
  arr = set r.arr r.tail b;
  head = r.head;
  tail = (r.tail + 1) % ring_buffer_size;
  status = if (r.tail + 1) % ring_buffer_size == r.head then full else normal;
}

write_byte-eq : (r : PipeRingBuffer) (b : ℕ) → IsValid r → write_byte r b ≡ some (written r b)
unfolding write_byte
write_byte-eq r b v = ground arith

available_read-written :
    (r : PipeRingBuffer) (b : ℕ)
    → IsValid r
    → 0 < available_write r
    → available_read (written r b) ≡ suc (available_read r)
unfolding available_read available_write
available_read-written r b v h = ground arith

written-IsValid :
    (r : PipeRingBuffer) (b : ℕ) → IsValid r → 0 < available_write r → IsValid (written r b)
unfolding available_read available_write
written-IsValid r b v h = ground (arith, length-set r.arr r.tail b)

-- With space left in a valid ring, `write_byte` appends its byte, keeps the ring valid and does
-- not panic.
pub write_byte_appends :
    (r : PipeRingBuffer) (b : ℕ)
    → IsValid r
    → 0 < available_write r
    → (r' : PipeRingBuffer) × (write_byte r b ≡ some r')
      × (contents r' ≡ contents r ++ (b ∷ []))
      × IsValid r'
write_byte_appends r b v h = (
  written r b,
  write_byte-eq r b v,
  ap (window (set r.arr r.tail b) r.head) (available_read-written r b v h)
      ∙ window-set r.arr b (available_read r) r.head r.tail v.storage v.head_in
          (omega (arith, available_read-available_write r v)) (tail-eq r v),
  written-IsValid r b v h,
)

abbrev pub remaining : PipeRingBuffer → PipeRingBuffer
remaining r = record r {
  head = (r.head + 1) % ring_buffer_size;
  status = if (r.head + 1) % ring_buffer_size == r.tail then empty else normal;
}

available_read-remaining :
    (r : PipeRingBuffer)
    → IsValid r
    → 0 < available_read r
    → available_read r ≡ suc (available_read (remaining r))
unfolding available_read
available_read-remaining r v h = ground arith

remaining-IsValid : (r : PipeRingBuffer) → IsValid r → IsValid (remaining r)
remaining-IsValid r v = ground arith

-- With a byte to read in a valid ring, `read_byte` takes the oldest, keeps the ring valid and does
-- not panic.
pub read_byte_takes :
    (r : PipeRingBuffer)
    → IsValid r
    → 0 < available_read r
    → (c : ℕ) × (r' : PipeRingBuffer) × (read_byte r ≡ some (c, r'))
      × (contents r ≡ c ∷ contents r')
      × IsValid r'
unfolding read_byte
read_byte_takes r v h = (
  get_or r.arr r.head 0,
  remaining r,
  rw (get_elem?-eq-get_or r.arr r.head 0 (omega arith)) refl,
  ap (window r.arr r.head) (available_read-remaining r v h),
  remaining-IsValid r v,
)

pub length-contents : (r : PipeRingBuffer) → length (contents r) ≡ available_read r
length-contents r = length-window r.arr r.head (available_read r)
  where
    length-window : (buf : List ℕ) (h n : ℕ) → length (window buf h n) ≡ n
    length-window buf h zero = refl
    length-window buf h (suc n) = ap suc (length-window buf ((h + 1) % ring_buffer_size) n)
