-- ===== src/Ring.antt =====
-- cpp/include/zeroipc/ring.h: the ring buffer of bytes for one producer and one consumer, one shared
-- access at a time.
pub mod System
pub mod Cells
pub mod Stream
pub mod Copies
pub mod Writes
pub mod Reads
pub mod Fifo
pub mod Create
mod Tests
use Prim.Native.Nat.{min}
use zeroipc.Base.{
  ℕ, ◌+◌, ◌-◌, ◌*◌, ◌/◌, ◌%◌, ◌^◌, ◌≤◌, Bool, true, false, ltb, leb, ◌==◌, ◌&&◌, if◌then◌else◌, u64,
}

-- The difference of two positions, in uint64_t.
unfoldable pub sub64 : ℕ → ℕ → ℕ
sub64 a b = u64 (a + 2 ^ 64 - b)

-- memcpy of `count` bytes of `source` to `offset`.
unfoldable pub fill : {A : Type 0} → (ℕ → A) → ℕ → (ℕ → A) → ℕ → ℕ → A
fill target offset source count j =
    if leb offset j && ltb j (offset + count) then source (j - offset) else target j

-- Which of the functions is running: that for one element, or that for `count` of them.
pub data Form : Type 0 where
  single : Form
  bulk : (count : ℕ) → Form

module _ (A : Type 0) where
  -- `Ring::Header` and the buffer behind it, with bytes in `A`. `elem_size` is sizeof(T), which the
  -- constructors compare with the header.
  pub record Ring : Type 0 where
    pub write_pos : ℕ
    pub read_pos : ℕ
    pub capacity : ℕ
    pub elem_size : ℕ
    pub buffer : ℕ → A

  -- Where the producer stands in `write` or `write_bulk`, before one access to shared memory; the last
  -- two are the returns. `pos` is `write_pos`, and `items` are the bytes of the caller.
  pub data Writer : Type 0 where
    idle : Writer
    write_load : (value : ℕ → A) → Writer
    write_check : (value : ℕ → A) (pos : ℕ) → Writer
    bulk_load : (items : ℕ → A) (count : ℕ) → Writer
    bulk_check : (items : ℕ → A) (count pos : ℕ) → Writer
    copy_in : (items : ℕ → A) (bytes pos : ℕ) (form : Form) → Writer
    copy_rest : (items : ℕ → A) (bytes pos : ℕ) (form : Form) → Writer
    publish : (items : ℕ → A) (bytes pos : ℕ) (form : Form) → Writer
    accepted : Bool → Writer
    wrote : (count : ℕ) → Writer

  -- The same for the consumer in `read` or `read_bulk`. `pos` is `read_pos`, and `dest` what stands in
  -- the memory that the bytes are copied to.
  pub data Reader : Type 0 where
    idle : Reader
    read_load : (dest : ℕ → A) → Reader
    read_check : (dest : ℕ → A) (pos : ℕ) → Reader
    bulk_load : (dest : ℕ → A) (count : ℕ) → Reader
    bulk_check : (dest : ℕ → A) (count pos : ℕ) → Reader
    copy_out : (dest : ℕ → A) (bytes pos : ℕ) (form : Form) → Reader
    copy_rest : (dest : ℕ → A) (bytes pos : ℕ) (form : Form) → Reader
    release : (dest : ℕ → A) (bytes pos : ℕ) (form : Form) → Reader
    nothing : Reader
    got : (value : ℕ → A) → Reader
    took : (items : ℕ → A) (count : ℕ) → Reader

module _ {A : Type 0} where
  unfoldable pub written : Form → Writer A
  written single = accepted true
  written (bulk count) = wrote count

  unfoldable pub delivered : (ℕ → A) → Form → Reader A
  delivered dest single = got dest
  delivered dest (bulk count) = took dest count

  -- `std::min(count, available / sizeof(T))`, and the copy of as many elements.
  unfoldable pub start_bulk : ℕ → ℕ → (ℕ → A) → ℕ → ℕ → Writer A
  start_bulk available elem_size items count pos =
      let n = min count (available / elem_size) in
      if n == 0 then wrote 0 else copy_in items (u64 (n * elem_size)) pos (bulk n)

  unfoldable pub start_bulk_read : ℕ → ℕ → (ℕ → A) → ℕ → ℕ → Reader A
  start_bulk_read available elem_size dest count pos =
      let n = min count (available / elem_size) in
      if n == 0 then took dest 0 else copy_out dest (u64 (n * elem_size)) pos (bulk n)

  -- One access of the producer.
  unfoldable pub write_step : Ring A → Writer A → Ring A × Writer A
  unfolding sub64 fill written start_bulk
  write_step r (write_load v) = (r, write_check v r.write_pos)
  write_step r (write_check v w) = (
    r,
    if ltb r.capacity (u64 (sub64 w r.read_pos + r.elem_size))
        then accepted false
        else copy_in v r.elem_size w single,
  )
  write_step r (bulk_load items count) = (r, bulk_check items count r.write_pos)
  write_step r (bulk_check items count w) =
      (r, start_bulk (sub64 r.capacity (sub64 w r.read_pos)) r.elem_size items count w)
  write_step r (copy_in items bytes w form) =
      let offset = w % r.capacity in
      if leb (u64 (offset + bytes)) r.capacity
      then (record r { buffer = fill r.buffer offset items bytes }, publish items bytes w form)
      else (
        record r { buffer = fill r.buffer offset items (r.capacity - offset) },
        copy_rest items bytes w form,
      )
  write_step r (copy_rest items bytes w form) =
      let first = r.capacity - w % r.capacity in
      (
        record r { buffer = fill r.buffer 0 (λ j. items (first + j)) (bytes - first) },
        publish items bytes w form,
      )
  write_step r (publish items bytes w form) =
      (record r { write_pos = u64 (w + bytes) }, written form)
  write_step r pc = (r, pc)

  -- One access of the consumer.
  unfoldable pub read_step : Ring A → Reader A → Ring A × Reader A
  unfolding sub64 fill delivered start_bulk_read
  read_step r (read_load d) = (r, read_check d r.read_pos)
  read_step r (read_check d p) = (
    r,
    if ltb r.write_pos (u64 (p + r.elem_size)) then nothing else copy_out d r.elem_size p single,
  )
  read_step r (bulk_load d count) = (r, bulk_check d count r.read_pos)
  read_step r (bulk_check d count p) =
      (r, start_bulk_read (sub64 r.write_pos p) r.elem_size d count p)
  read_step r (copy_out d bytes p form) =
      let offset = p % r.capacity in
      if leb (u64 (offset + bytes)) r.capacity
      then (r, release (fill d 0 (λ j. r.buffer (offset + j)) bytes) bytes p form)
      else (r, copy_rest (fill d 0 (λ j. r.buffer (offset + j)) (r.capacity - offset)) bytes p form)
  read_step r (copy_rest d bytes p form) =
      let first = r.capacity - p % r.capacity in
      (r, release (fill d first r.buffer (bytes - first)) bytes p form)
  read_step r (release d bytes p form) = (record r { read_pos = u64 (p + bytes) }, delivered d form)
  read_step r pc = (r, pc)

  -- `available`, `free_space`, `capacity`, `empty` and `full`
  unfoldable pub available : Ring A → ℕ
  unfolding sub64
  available r = sub64 r.write_pos r.read_pos / r.elem_size

  unfoldable pub free_space : Ring A → ℕ
  unfolding sub64
  free_space r = sub64 r.capacity (sub64 r.write_pos r.read_pos) / r.elem_size

  unfoldable pub element_capacity : Ring A → ℕ
  element_capacity r = r.capacity / r.elem_size

  unfoldable pub is_empty : Ring A → Bool
  is_empty r = r.read_pos == r.write_pos

  unfoldable pub is_full : Ring A → Bool
  unfolding sub64
  is_full r = leb r.capacity (sub64 r.write_pos r.read_pos)

  -- `reset`, which must not run beside a producer or a consumer.
  unfoldable pub reset : Ring A → Ring A
  reset r = record r { write_pos = 0; read_pos = 0 }
