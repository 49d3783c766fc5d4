-- ===== src/Ring/System.antt =====
-- One producer and one consumer on a ring, interleaved access by access.
use zeroipc.Base.{ℕ, ◌+◌, ◌≡◌}
use zeroipc.Ring.{
  Ring, Writer, Reader, write_step, read_step, fill, accepted, wrote, publish, release, nothing,
  got, took,
}

-- `sent`, `total` and `received` are not in the program: they record the bytes that the producer has
-- published, at their positions in the stream, how many those are, and the bytes that the consumer has
-- released, at the positions from which it has read them.
pub record System (A : Type 0) : Type 0 where
  pub ring : Ring A
  pub writer : Writer A
  pub reader : Reader A
  pub sent : ℕ → A
  pub total : ℕ
  pub received : ℕ → A

module _ {A : Type 0} where
  unfoldable pub note_sent : Writer A → System A → System A
  unfolding fill
  note_sent (publish items bytes w form) s = record s {
    sent = fill s.sent w items bytes;
    total = s.total + bytes;
  }
  note_sent pc s = s

  unfoldable pub note_received : Reader A → System A → System A
  unfolding fill
  note_received (release d bytes p form) s = record s { received = fill s.received p d bytes }
  note_received pc s = s

  unfoldable pub write_access : Writer A → System A → System A
  unfolding note_sent
  write_access pc s =
      let (r, pc') = write_step s.ring pc in note_sent pc (record s { ring = r; writer = pc' })

  unfoldable pub read_access : Reader A → System A → System A
  unfolding note_received
  read_access pc s =
      let (r, pc') = read_step s.ring pc in note_received pc (record s { ring = r; reader = pc' })

  abbrev pub IsWritten : Writer A → Type 0
  IsWritten (accepted b) = Unit
  IsWritten (wrote n) = Unit
  IsWritten pc = ⊥

  abbrev pub IsRead : Reader A → Type 0
  IsRead nothing = Unit
  IsRead (got v) = Unit
  IsRead (took v n) = Unit
  IsRead pc = ⊥

  pub data Step (s : System A) : System A → Type 0 where
    call_write :
        (value : ℕ → A)
        → s.writer ≡ Writer.idle
        → Step s (record s { writer = Writer.write_load value })
    call_write_bulk :
        (items : ℕ → A) (count : ℕ)
        → s.writer ≡ Writer.idle
        → Step s (record s { writer = Writer.bulk_load items count })
    call_read :
        (dest : ℕ → A)
        → s.reader ≡ Reader.idle
        → Step s (record s { reader = Reader.read_load dest })
    call_read_bulk :
        (dest : ℕ → A) (count : ℕ)
        → s.reader ≡ Reader.idle
        → Step s (record s { reader = Reader.bulk_load dest count })
    run_writer : Step s (write_access s.writer s)
    run_reader : Step s (read_access s.reader s)
    back_writer : IsWritten s.writer → Step s (record s { writer = Writer.idle })
    back_reader : IsRead s.reader → Step s (record s { reader = Reader.idle })

  pub data Reach (start : System A) : System A → Type 0 where
    here : Reach start start
    next : {s t : System A} → Reach start s → Step s t → Reach start t

  -- A ring as its constructor leaves it, and nobody in a call.
  unfoldable pub fresh : ℕ → ℕ → (ℕ → A) → System A
  fresh capacity elem_size noise = record {
    ring = record {
      write_pos = 0;
      read_pos = 0;
      capacity = capacity;
      elem_size = elem_size;
      buffer = noise;
    };
    writer = Writer.idle;
    reader = Reader.idle;
    sent = noise;
    total = 0;
    received = noise;
  }
