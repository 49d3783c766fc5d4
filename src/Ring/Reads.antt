-- ===== src/Ring/Reads.antt =====
-- Each access of the consumer keeps the invariant.
use Prim.Native.Nat.{min}
use zeroipc.Base.{
  mul_div-le, ℕ, ◌+◌, ◌-◌, ◌/◌, ◌%◌, ◌≤◌, ◌<◌, ◌≡◌, inl, inr, Bool, true, false, ◌==◌, leb, ltb,
  arith, refl, u64, dec_lt, Bool-cases, subst, ap, sym, ◌∙◌, if◌then◌else◌,
}
use zeroipc.Ring.{
  Ring, Writer, Reader, Form, single, bulk, read_step, sub64, fill, start_bulk_read, read_load,
  read_check, copy_out, release, nothing, got, took, delivered, write_check, copy_in, publish,
}
use zeroipc.Ring.System.{System, read_access, note_received}
use zeroipc.Ring.Cells.{fill_in, fill_out, cell_near, cell_far, cell-lt}
use zeroipc.Ring.Stream.{Writes, Reads, Holds, Inv}

module _ {A : Type 0} where
  goes_on :
      {s : System A} (pc : Reader A)
      → Inv s
      → Reads s.ring.capacity s.ring.read_pos s.total s.sent pc
      → Inv (record s { reader = pc })
  goes_on pc v h = record { holds = v.holds; writes = v.writes; reads = h }

  -- The consumer gives room to the producer.
  Writes-release :
      (r : Ring A) (total to : ℕ) (pc : Writer A)
      → r.read_pos ≤ to
      → Writes r total pc
      → Writes (record r { read_pos = to }) total pc
  Writes-release r total to (write_check x w) le h = h
  Writes-release r total to (Writer.bulk_check items n w) le h = h
  Writes-release r total to (copy_in items bytes w form) le h = (h.0, omega (arith, h.1))
  Writes-release r total to (Writer.copy_rest items bytes w form) le (e, room, split, same) =
      (e, omega arith, split, same)
  Writes-release r total to (publish items bytes w form) le (e, room, same) = (e, omega arith, same)
  Writes-release r total to pc le h = tt

  release-Holds :
      {r : Ring A} {sent received : ℕ → A} {total : ℕ} (d : ℕ → A) (bytes : ℕ)
      → Holds r sent received total
      → r.read_pos + bytes ≤ total
      → ((j : ℕ) → j < bytes → d j ≡ sent (r.read_pos + j))
      → Holds
          (record r { read_pos = u64 (r.read_pos + bytes) })
          sent
          (fill received r.read_pos d bytes)
          total
  release-Holds {r} {sent} {received} {total} d bytes h le same = record {
    positive = h.positive;
    small = h.small;
    item_small = h.item_small;
    bounded = h.bounded;
    write_eq = h.write_eq;
    behind = omega (arith, h.bounded);
    within = omega (arith, h.bounded, h.within);
    content = λ p lo hi. h.content p (omega (arith, h.bounded)) hi;
    delivered = λ p lt. elim (dec_lt p r.read_pos) [
      | yes old ↦ fill_out received d r.read_pos bytes p (inl old) ∙ h.delivered p old
      | no new ↦
          let e : r.read_pos + (p - r.read_pos) ≡ p = omega arith in
          fill_in received d r.read_pos bytes p (omega arith) (omega (arith, h.bounded))
          ∙ same (p - r.read_pos) (omega (arith, h.bounded))
          ∙ ap sent e
    ];
  }

  check-Inv :
      (s : System A) (d : ℕ → A)
      → Inv s
      → (none_there : Bool)
      → ltb s.ring.write_pos (u64 (s.ring.read_pos + s.ring.elem_size)) ≡ none_there
      → Reads s.ring.capacity s.ring.read_pos s.total s.sent
          (if none_there then nothing else copy_out d s.ring.elem_size s.ring.read_pos single)
  check-Inv s d v true e = tt
  check-Inv s d v false e = (
    refl,
    ground (arith, e, v.holds.behind, v.holds.bounded, v.holds.item_small, v.holds.write_eq),
  )

  bulk-Inv :
      (s : System A) (d : ℕ → A) (count : ℕ)
      → Inv s
      → Reads s.ring.capacity s.ring.read_pos s.total s.sent (
          start_bulk_read
            (sub64 s.ring.write_pos s.ring.read_pos)
            s.ring.elem_size
            d
            count
            s.ring.read_pos)
  unfolding sub64 start_bulk_read
  bulk-Inv s d count v =
      let there : ℕ = sub64 s.ring.write_pos s.ring.read_pos in
      let n : ℕ = min count (there / s.ring.elem_size) in
      let le = mul_div-le n there s.ring.elem_size (omega arith) in
      elim (Bool-cases (n == 0)) [
        | inl none_there ↦ rw none_there tt
        | inr some_there ↦
            rw some_there
              (refl, omega (arith, le, v.holds.behind, v.holds.bounded, v.holds.write_eq))
      ]

  -- A byte that is copied is the byte of the stream.
  copy-Inv :
      (s : System A) (d : ℕ → A) (bytes : ℕ) (form : Form)
      → Inv s
      → s.ring.read_pos + bytes ≤ s.total
      → Inv (read_access (copy_out d bytes s.ring.read_pos form) s)
  unfolding read_access read_step
  copy-Inv s d bytes form v room =
      let r = s.ring in
      let h = v.holds in
      let p : ℕ = r.read_pos in
      let below = cell-lt r.capacity p h.positive in
      elim (Bool-cases (leb (u64 (p % r.capacity + bytes)) r.capacity)) [
        | inl fits ↦
            let whole : p % r.capacity + bytes ≤ r.capacity =
              ground (arith, fits, below, room, h.within, h.small) in
            rw fits (record {
              holds = h;
              writes = v.writes;
              reads = (
                refl,
                room,
                λ j lt.
                    copied r d s.sent bytes j h.positive lt (omega arith)
                      (h.content (p + j) (omega arith) (omega arith)),
              );
            })
        | inr over ↦
            let split : r.capacity < p % r.capacity + bytes =
              ground (arith, over, below, room, h.within, h.small) in
            rw over (record {
              holds = h;
              writes = v.writes;
              reads = (
                refl,
                room,
                split,
                λ j lt.
                    copied r d s.sent (r.capacity - p % r.capacity) j h.positive (omega arith)
                      (omega arith) (h.content (p + j) (omega arith) (omega arith)),
              );
            })
      ]
    where
      copied :
          (r : Ring A) (d sent : ℕ → A) (n j : ℕ)
          → 0 < r.capacity
          → j < n
          → r.read_pos % r.capacity + j < r.capacity
          → r.buffer ((r.read_pos + j) % r.capacity) ≡ sent (r.read_pos + j)
          → fill d 0 (λ k. r.buffer (r.read_pos % r.capacity + k)) n j ≡ sent (r.read_pos + j)
      copied r d sent n j pos lt near e =
          fill_in d (λ k. r.buffer (r.read_pos % r.capacity + k)) 0 n j (omega arith) (omega arith)
          ∙ ap r.buffer (omega (arith, cell_near r.capacity r.read_pos j pos near))
          ∙ e

  rest-Inv :
      (s : System A) (d : ℕ → A) (bytes : ℕ) (form : Form)
      → Inv s
      → Reads s.ring.capacity s.ring.read_pos s.total s.sent
          (Reader.copy_rest d bytes s.ring.read_pos form)
      → Inv (read_access (Reader.copy_rest d bytes s.ring.read_pos form) s)
  unfolding read_access read_step
  rest-Inv s d bytes form v (e, room, split, same) =
      let r = s.ring in
      let h = v.holds in
      let p : ℕ = r.read_pos in
      let first : ℕ = r.capacity - p % r.capacity in
      record {
        holds = h;
        writes = v.writes;
        reads = (
          refl,
          room,
          λ j lt. elim (dec_lt j first) [
            | yes early ↦
                fill_out d r.buffer first (bytes - first) j (inl early) ∙ same j (omega arith)
            | no late ↦
                let far =
                  cell_far r.capacity p j h.positive (omega arith)
                    (omega (arith, h.within, room)) in
                fill_in d r.buffer first (bytes - first) j (omega arith) (omega arith)
                ∙ ap r.buffer (omega (arith, far, cell-lt r.capacity p h.positive))
                ∙ h.content (p + j) (omega arith) (omega arith)
          ],
        );
      }

  delivered-Reads :
      (capacity read_pos total : ℕ) (sent d : ℕ → A) (form : Form)
      → Reads capacity read_pos total sent (delivered d form)
  unfolding delivered
  delivered-Reads capacity read_pos total sent d single = tt
  delivered-Reads capacity read_pos total sent d (bulk n) = tt

  release-Inv :
      (s : System A) (d : ℕ → A) (bytes : ℕ) (form : Form)
      → Inv s
      → Reads s.ring.capacity s.ring.read_pos s.total s.sent (release d bytes s.ring.read_pos form)
      → Inv (read_access (release d bytes s.ring.read_pos form) s)
  unfolding read_access read_step note_received
  release-Inv s d bytes form v (e, room, same) = record {
    holds = release-Holds d bytes v.holds room same;
    writes =
        Writes-release s.ring s.total (u64 (s.ring.read_pos + bytes)) s.writer
          (omega (arith, v.holds.bounded)) v.writes;
    reads = delivered-Reads s.ring.capacity (u64 (s.ring.read_pos + bytes)) s.total s.sent d form;
  }

  here_of :
      {s : System A}
      → Inv s
      → {pc : Reader A} → s.reader ≡ pc
      → Reads s.ring.capacity s.ring.read_pos s.total s.sent pc
  here_of {s} v e = subst (λ q. Reads s.ring.capacity s.ring.read_pos s.total s.sent q) e v.reads

  -- What is known at the current position is known at an equal one.
  at_pos :
      (s : System A) (f : ℕ → Reader A) (p : ℕ)
      → p ≡ s.ring.read_pos
      → (Reads s.ring.capacity s.ring.read_pos s.total s.sent (f s.ring.read_pos)
          → Inv (read_access (f s.ring.read_pos) s))
      → Reads s.ring.capacity s.ring.read_pos s.total s.sent (f p)
      → Inv (read_access (f p) s)
  at_pos s f p e =
      subst
        (λ q.
          Reads s.ring.capacity s.ring.read_pos s.total s.sent (f q) → Inv (read_access (f q) s))
        (sym e)

  pub read_access-Inv :
      (s : System A) (pc : Reader A) → s.reader ≡ pc → Inv s → Inv (read_access pc s)
  unfolding read_access read_step note_received
  read_access-Inv s Reader.idle e v = goes_on Reader.idle v tt
  read_access-Inv s (read_load d) e v = goes_on (read_check d s.ring.read_pos) v refl
  read_access-Inv s (read_check d p) e v = rw (here_of v e) (goes_on _ v (check-Inv s d v _ refl))
  read_access-Inv s (Reader.bulk_load d n) e v =
      goes_on (Reader.bulk_check d n s.ring.read_pos) v refl
  read_access-Inv s (Reader.bulk_check d n p) e v =
      rw (here_of v e) (goes_on _ v (bulk-Inv s d n v))
  read_access-Inv s (copy_out d bytes p form) e v =
      let known = here_of v e in
      at_pos s (λ q. copy_out d bytes q form) p known.0 (λ k. copy-Inv s d bytes form v k.1) known
  read_access-Inv s (Reader.copy_rest d bytes p form) e v =
      let known = here_of v e in
      at_pos s (λ q. Reader.copy_rest d bytes q form) p known.0 (rest-Inv s d bytes form v) known
  read_access-Inv s (release d bytes p form) e v =
      let known = here_of v e in
      at_pos s (λ q. release d bytes q form) p known.0 (release-Inv s d bytes form v) known
  read_access-Inv s nothing e v = goes_on nothing v tt
  read_access-Inv s (got x) e v = goes_on (got x) v tt
  read_access-Inv s (took x n) e v = goes_on (took x n) v tt
