-- ===== src/Ring/Stream.antt =====
-- The invariant of a ring with one producer and one consumer: the buffer holds the part of the stream
-- that has been published and not released.
use zeroipc.Base.{ℕ, ◌+◌, ◌%◌, ◌^◌, ◌≤◌, ◌<◌, ◌≡◌}
use zeroipc.Ring.{
  Ring, Writer, Reader, write_check, copy_in, publish, read_check, copy_out, release,
}
use zeroipc.Ring.System.{System}

module _ {A : Type 0} where
  -- What the producer knows at its place, when `total` bytes have been published.
  abbrev pub Writes : Ring A → ℕ → Writer A → Type 0
  Writes r total (write_check v w) = w ≡ total
  Writes r total (Writer.bulk_check items count w) = w ≡ total
  Writes r total (copy_in items bytes w form) =
      (w ≡ total) × (total + bytes ≤ r.read_pos + r.capacity)
  Writes r total (Writer.copy_rest items bytes w form) =
      (w ≡ total)
      × (total + bytes ≤ r.read_pos + r.capacity)
      × (r.capacity < w % r.capacity + bytes)
      × ((j : ℕ) → w % r.capacity + j < r.capacity → r.buffer ((w + j) % r.capacity) ≡ items j)
  Writes r total (publish items bytes w form) =
      (w ≡ total)
      × (total + bytes ≤ r.read_pos + r.capacity)
      × ((j : ℕ) → j < bytes → r.buffer ((w + j) % r.capacity) ≡ items j)
  Writes r total pc = Unit

  -- What the consumer knows at its place.
  abbrev pub Reads : ℕ → ℕ → ℕ → (ℕ → A) → Reader A → Type 0
  Reads capacity read_pos total sent (read_check d p) = p ≡ read_pos
  Reads capacity read_pos total sent (Reader.bulk_check d count p) = p ≡ read_pos
  Reads capacity read_pos total sent (copy_out d bytes p form) =
      (p ≡ read_pos) × (p + bytes ≤ total)
  Reads capacity read_pos total sent (Reader.copy_rest d bytes p form) =
      (p ≡ read_pos)
      × (p + bytes ≤ total)
      × (capacity < p % capacity + bytes)
      × ((j : ℕ) → p % capacity + j < capacity → d j ≡ sent (p + j))
  Reads capacity read_pos total sent (release d bytes p form) =
      (p ≡ read_pos) × (p + bytes ≤ total) × ((j : ℕ) → j < bytes → d j ≡ sent (p + j))
  Reads capacity read_pos total sent pc = Unit

  pub record Holds (r : Ring A) (sent received : ℕ → A) (total : ℕ) : Type 0 where
    pub positive : 0 < r.capacity
    pub small : r.capacity < 2 ^ 32
    pub item_small : r.elem_size < 2 ^ 32
    pub bounded : total < 2 ^ 63
    pub write_eq : r.write_pos ≡ total
    pub behind : r.read_pos ≤ total
    pub within : total ≤ r.read_pos + r.capacity
    pub content : (p : ℕ) → r.read_pos ≤ p → p < total → r.buffer (p % r.capacity) ≡ sent p
    pub delivered : (p : ℕ) → p < r.read_pos → received p ≡ sent p

  pub record Inv (s : System A) : Type 0 where
    pub holds : Holds s.ring s.sent s.received s.total
    pub writes : Writes s.ring s.total s.writer
    pub reads : Reads s.ring.capacity s.ring.read_pos s.total s.sent s.reader
