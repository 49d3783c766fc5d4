-- ===== src/Ring/Fifo.antt =====
-- What holds in every state that a producer and a consumer reach on a ring.
use zeroipc.Base.{◌⊎◌, inl, inr, dec_lt, ℕ, ◌+◌, ◌^◌, ◌≤◌, ◌<◌, ◌≡◌, ◌↔◌, arith, refl, false, subst}
use zeroipc.Ring.{
  Writer, Reader, write_step, read_step, write_check, read_check, accepted, nothing, sub64,
}
use zeroipc.Ring.System.{
  System, Reach, Step, fresh, here, next, write_access, note_sent, read_access, note_received,
  call_write, call_write_bulk, call_read, call_read_bulk, run_writer, run_reader, back_writer,
  back_reader,
}
use zeroipc.Ring.Stream.{Writes, Reads, Inv}
use zeroipc.Ring.Writes.{write_access-Inv}
use zeroipc.Ring.Reads.{read_access-Inv}

module _ {A : Type 0} where
  total_grows : (pc : Writer A) (s : System A) → s.total ≤ (write_access pc s).total
  unfolding write_access write_step note_sent
  total_grows (Writer.publish items bytes w form) s = omega arith
  total_grows pc s = omega arith

  total_stays : (pc : Reader A) (s : System A) → (read_access pc s).total ≡ s.total
  unfolding read_access read_step note_received
  total_stays (Reader.release d bytes p form) s = refl
  total_stays pc s = refl

  Step-total : {s t : System A} → Step s t → s.total ≤ t.total
  Step-total {s} run_writer = total_grows s.writer s
  Step-total {s} run_reader = omega (arith, total_stays s.reader s)
  Step-total st = omega arith

  Step-Inv : {s t : System A} → Inv s → t.total < 2 ^ 63 → Step s t → Inv t
  Step-Inv {s} v b run_writer = write_access-Inv s s.writer refl v b
  Step-Inv {s} v b run_reader = read_access-Inv s s.reader refl v
  Step-Inv {s} v b (call_write x e) = record { holds = v.holds; writes = tt; reads = v.reads }
  Step-Inv {s} v b (call_write_bulk x n e) = record {
    holds = v.holds;
    writes = tt;
    reads = v.reads;
  }
  Step-Inv {s} v b (call_read d e) = record { holds = v.holds; writes = v.writes; reads = tt }
  Step-Inv {s} v b (call_read_bulk d n e) = record {
    holds = v.holds;
    writes = v.writes;
    reads = tt;
  }
  Step-Inv {s} v b (back_writer r) = record { holds = v.holds; writes = tt; reads = v.reads }
  Step-Inv {s} v b (back_reader r) = record { holds = v.holds; writes = v.writes; reads = tt }

  module _ (capacity elem_size : ℕ) (noise : ℕ → A) (positive : 0 < capacity)
      (small : capacity < 2 ^ 32) (item_small : elem_size < 2 ^ 32) where
    Reach-Inv : {s : System A} → Reach (fresh capacity elem_size noise) s → s.total < 2 ^ 63 → Inv s
    unfolding fresh
    Reach-Inv here b = record {
      holds = record {
        positive = positive;
        small = small;
        item_small = item_small;
        bounded = b;
        write_eq = refl;
        behind = omega arith;
        within = omega arith;
        content = λ p lo hi. absurd (omega arith);
        delivered = λ p lt. absurd (omega arith);
      };
      writes = tt;
      reads = tt;
    }
    Reach-Inv (next r st) b = Step-Inv (Reach-Inv r (omega (arith, Step-total st))) b st

    -- On a ring of fewer than 2 ^ 32 bytes with elements of fewer than 2 ^ 32, in every state that a
    -- producer and a consumer reach with fewer than 2 ^ 63 bytes published: the consumer has released
    -- at most the bytes that are published, at most a capacity of bytes is in the ring, and at every
    -- position that is released the consumer has received the byte that was sent there.
    pub in_order :
        {s : System A}
        → Reach (fresh capacity elem_size noise) s
        → s.total < 2 ^ 63
        → (p : ℕ)
        → (s.ring.read_pos ≤ s.total)
          × (s.total ≤ s.ring.read_pos + s.ring.capacity)
          × ((s.ring.read_pos ≤ p) ⊎ (s.received p ≡ s.sent p))
    in_order {s} r b p =
        let h = (Reach-Inv r b).holds in
        (
          omega (arith, h.behind),
          h.within,
          elim (dec_lt p s.ring.read_pos) [
            | yes lt ↦ inr (h.delivered p lt)
            | no ge ↦ inl (omega arith)
          ],
        )

    -- On a ring of fewer than 2 ^ 32 bytes with elements of fewer than 2 ^ 32, in every state that a
    -- producer and a consumer reach with fewer than 2 ^ 63 bytes published: a `write` that has loaded its
    -- position is refused exactly when the bytes that are not released yet and its element are more than
    -- the capacity.
    pub write_refused :
        {s : System A}
        → Reach (fresh capacity elem_size noise) s
        → s.total < 2 ^ 63
        → (value : ℕ → A) (pos : ℕ) → s.writer ≡ write_check value pos
        → ((write_step s.ring (write_check value pos)).1 ≡ accepted false)
          ↔ (s.ring.read_pos + s.ring.capacity < s.total + s.ring.elem_size)
    unfolding write_step sub64
    write_refused {s} r b value pos e =
        let v = Reach-Inv r b in
        let h = v.holds in
        let at : pos ≡ s.total = subst (λ q. Writes s.ring s.total q) e v.writes in
        ground (arith, at, h.behind, h.within, h.small, h.item_small, h.bounded)

    -- On a ring of fewer than 2 ^ 32 bytes with elements of fewer than 2 ^ 32, in every state that a
    -- producer and a consumer reach with fewer than 2 ^ 63 bytes published: a `read` that has loaded its
    -- position finds nothing exactly when less than an element has been published behind it.
    pub read_refused :
        {s : System A}
        → Reach (fresh capacity elem_size noise) s
        → s.total < 2 ^ 63
        → (dest : ℕ → A) (pos : ℕ) → s.reader ≡ read_check dest pos
        → ((read_step s.ring (read_check dest pos)).1 ≡ nothing)
          ↔ (s.total < s.ring.read_pos + s.ring.elem_size)
    unfolding read_step
    read_refused {s} r b dest pos e =
        let v = Reach-Inv r b in
        let h = v.holds in
        let at : pos ≡ s.ring.read_pos =
          subst (λ q. Reads s.ring.capacity s.ring.read_pos s.total s.sent q) e v.reads in
        ground (arith, at, h.behind, h.write_eq, h.item_small, h.bounded)
