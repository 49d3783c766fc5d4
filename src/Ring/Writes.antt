-- ===== src/Ring/Writes.antt =====
-- Each access of the producer keeps the invariant.
use Prim.Native.Nat.{min}
use zeroipc.Base.{
  mul_div-le, ℕ, ◌+◌, ◌-◌, ◌/◌, ◌%◌, ◌^◌, ◌≤◌, ◌<◌, ◌≡◌, inl, inr, Bool, true, false, ◌==◌, leb,
  ltb, arith, refl, u64, dec_lt, Bool-cases, subst, ap, sym, ◌∙◌, if◌then◌else◌,
}
use zeroipc.Ring.{
  Ring, Writer, Form, single, bulk, write_step, sub64, fill, start_bulk, write_load, write_check,
  copy_in, publish, accepted, wrote, written,
}
use zeroipc.Ring.System.{System, write_access, note_sent}
use zeroipc.Ring.Cells.{cell_wrap, cell-lt}
use zeroipc.Ring.Stream.{Writes, Inv}
use zeroipc.Ring.Copies.{write_cells, copied, copied_at, Reads-publish, publish-Holds}

module _ {A : Type 0} where
  -- The producer goes on without an access that changes anything.
  goes_on :
      {s : System A} (pc : Writer A)
      → Inv s
      → Writes s.ring s.total pc
      → Inv (record s { writer = pc })
  goes_on pc v h = record { holds = v.holds; writes = h; reads = v.reads }

  check-Inv :
      (s : System A) (value : ℕ → A)
      → Inv s
      → (full : Bool)
      → ltb s.ring.capacity (u64 (sub64 s.total s.ring.read_pos + s.ring.elem_size)) ≡ full
      → Writes s.ring s.total
          (if full then accepted false else copy_in value s.ring.elem_size s.total single)
  unfolding sub64
  check-Inv s value v true e = tt
  check-Inv s value v false e = (
    refl,
    ground (
      arith, e, v.holds.behind, v.holds.within, v.holds.bounded, v.holds.small, v.holds.item_small,
    ),
  )

  bulk-Inv :
      (s : System A) (items : ℕ → A) (count : ℕ)
      → Inv s
      → Writes s.ring s.total (
          start_bulk
            (sub64 s.ring.capacity (sub64 s.total s.ring.read_pos))
            s.ring.elem_size
            items
            count
            s.total)
  unfolding sub64 start_bulk
  bulk-Inv s items count v =
      let free : ℕ = sub64 s.ring.capacity (sub64 s.total s.ring.read_pos) in
      let n : ℕ = min count (free / s.ring.elem_size) in
      let le = mul_div-le n free s.ring.elem_size (omega arith) in
      elim (Bool-cases (n == 0)) [
        | inl none_free ↦ rw none_free tt
        | inr some_free ↦ rw some_free (
          refl,
          omega (arith, le, v.holds.behind, v.holds.within, v.holds.bounded, v.holds.small),
        )
      ]

  copy-Inv :
      (s : System A) (items : ℕ → A) (bytes : ℕ) (form : Form)
      → Inv s
      → s.total + bytes ≤ s.ring.read_pos + s.ring.capacity
      → Inv (write_access (copy_in items bytes s.total form) s)
  unfolding write_access write_step
  copy-Inv s items bytes form v room =
      let r = s.ring in
      let h = v.holds in
      elim (Bool-cases (leb (u64 (s.total % r.capacity + bytes)) r.capacity)) [
        | inl fits ↦
            let whole = copied r items s.total bytes h.positive (
              ground
                (arith, fits, cell-lt r.capacity s.total h.positive, room, h.behind, h.small)) in
            rw fits (record {
              holds = write_cells _ h (λ p lo hi. whole.1 p hi (omega arith));
              writes = (refl, room, whole.0);
              reads = v.reads;
            })
        | inr over ↦
            let below = cell-lt r.capacity s.total h.positive in
            let part =
              copied r items s.total (r.capacity - s.total % r.capacity) h.positive (omega arith) in
            let split : r.capacity < s.total % r.capacity + bytes =
              ground (arith, over, below, room, h.behind, h.small) in
            rw over (record {
              holds = write_cells _ h (λ p lo hi. part.1 p hi (omega arith));
              writes = (refl, room, split, λ j lt. part.0 j (omega arith));
              reads = v.reads;
            })
      ]

  rest-Inv :
      (s : System A) (items : ℕ → A) (bytes : ℕ) (form : Form)
      → Inv s
      → Writes s.ring s.total (Writer.copy_rest items bytes s.total form)
      → Inv (write_access (Writer.copy_rest items bytes s.total form) s)
  unfolding write_access write_step
  rest-Inv s items bytes form v (e, room, split, same) =
      let r = s.ring in
      let h = v.holds in
      let below = cell-lt r.capacity s.total h.positive in
      let first : ℕ = r.capacity - s.total % r.capacity in
      let rest =
        copied_at r (λ j. items (first + j)) (s.total + first) (bytes - first) 0 h.positive
          (cell_wrap r.capacity s.total h.positive) (omega (arith, room, h.behind)) in
      record {
        holds = write_cells _ h (λ p lo hi. rest.1 p (omega arith) (omega arith));
        writes = (
          refl,
          room,
          λ j lt. elim (dec_lt j first) [
            | yes early ↦
                rest.1 (s.total + j) (omega arith) (omega (arith, room, h.behind))
                ∙ same j (omega arith)
            | no late ↦
                let at : s.total + first + (j - first) ≡ s.total + j = omega arith in
                let item : first + (j - first) ≡ j = omega arith in
                ap (λ q. fill r.buffer 0 (λ k. items (first + k)) (bytes - first) (q % r.capacity))
                  (sym at)
                ∙ rest.0 (j - first) (omega arith)
                ∙ ap items item
          ],
        );
        reads = v.reads;
      }

  written-Writes : (r : Ring A) (total : ℕ) (form : Form) → Writes r total (written form)
  unfolding written
  written-Writes r total single = tt
  written-Writes r total (bulk n) = tt

  here_of : {s : System A} → Inv s → {pc : Writer A} → s.writer ≡ pc → Writes s.ring s.total pc
  here_of {s} v e = subst (λ q. Writes s.ring s.total q) e v.writes

  rest_at :
      (s : System A) (items : ℕ → A) (bytes w : ℕ) (form : Form)
      → Inv s
      → w ≡ s.total
      → Writes s.ring s.total (Writer.copy_rest items bytes w form)
      → Inv (write_access (Writer.copy_rest items bytes w form) s)
  rest_at s items bytes w form v e =
      subst
        (λ w.
          Writes s.ring s.total (Writer.copy_rest items bytes w form)
          → Inv (write_access (Writer.copy_rest items bytes w form) s))
        (sym e) (rest-Inv s items bytes form v)

  publish-Inv :
      (s : System A) (items : ℕ → A) (bytes : ℕ) (form : Form)
      → Inv s
      → Writes s.ring s.total (publish items bytes s.total form)
      → s.total + bytes < 2 ^ 63
      → Inv (write_access (publish items bytes s.total form) s)
  unfolding write_access write_step note_sent
  publish-Inv s items bytes form v (e, room, same) b = record {
    holds = publish-Holds items bytes v.holds b room same;
    writes =
        written-Writes (record (s.ring) { write_pos = u64 (s.total + bytes) }) (s.total + bytes)
          form;
    reads =
        Reads-publish s.ring.capacity s.ring.read_pos s.total bytes s.sent items s.reader v.reads;
  }

  publish_at :
      (s : System A) (items : ℕ → A) (bytes w : ℕ) (form : Form)
      → Inv s
      → w ≡ s.total
      → Writes s.ring s.total (publish items bytes w form)
      → s.total + bytes < 2 ^ 63
      → Inv (write_access (publish items bytes w form) s)
  publish_at s items bytes w form v e =
      subst
        (λ w.
          Writes s.ring s.total (publish items bytes w form)
          → s.total + bytes < 2 ^ 63
          → Inv (write_access (publish items bytes w form) s))
        (sym e) (publish-Inv s items bytes form v)

  pub write_access-Inv :
      (s : System A) (pc : Writer A)
      → s.writer ≡ pc
      → Inv s
      → (write_access pc s).total < 2 ^ 63
      → Inv (write_access pc s)
  unfolding write_access write_step note_sent
  write_access-Inv s Writer.idle e v b = goes_on Writer.idle v tt
  write_access-Inv s (write_load x) e v b =
      goes_on (write_check x s.ring.write_pos) v v.holds.write_eq
  write_access-Inv s (write_check x w) e v b =
      rw (here_of v e) (goes_on _ v (check-Inv s x v _ refl))
  write_access-Inv s (Writer.bulk_load items n) e v b =
      goes_on (Writer.bulk_check items n s.ring.write_pos) v v.holds.write_eq
  write_access-Inv s (Writer.bulk_check items n w) e v b =
      rw (here_of v e) (goes_on _ v (bulk-Inv s items n v))
  write_access-Inv s (copy_in items bytes w form) e v b =
      let (at, room) = here_of v e in rw at (copy-Inv s items bytes form v room)
  write_access-Inv s (Writer.copy_rest items bytes w form) e v b =
      let known = here_of v e in rest_at s items bytes w form v known.0 known
  write_access-Inv s (publish items bytes w form) e v b =
      let known = here_of v e in publish_at s items bytes w form v known.0 known b
  write_access-Inv s (accepted x) e v b = goes_on (accepted x) v tt
  write_access-Inv s (wrote n) e v b = goes_on (wrote n) v tt
