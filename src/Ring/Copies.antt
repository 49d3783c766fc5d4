-- ===== src/Ring/Copies.antt =====
-- What the copies and the publication of the producer leave as it was.
use zeroipc.Base.{
  ℕ, ◌+◌, ◌-◌, ◌%◌, ◌^◌, ◌≤◌, ◌<◌, ◌≡◌, ◌⊎◌, inl, inr, arith, u64, dec_lt, subst, ap, sym, ◌∙◌,
}
use zeroipc.Ring.{Ring, Reader, fill, read_check, copy_out, release}
use zeroipc.Ring.Cells.{fill_in, fill_out, cell_inj, cell_near}
use zeroipc.Ring.Stream.{Reads, Holds}

module _ {A : Type 0} where
  -- Cells that the unreleased part of the stream does not use may be written.
  pub write_cells :
      {r : Ring A} {sent received : ℕ → A} {total : ℕ} (buffer : ℕ → A)
      → Holds r sent received total
      → ((p : ℕ) → r.read_pos ≤ p → p < total → buffer (p % r.capacity) ≡ r.buffer (p % r.capacity))
      → Holds (record r { buffer = buffer }) sent received total
  write_cells buffer h same = record {
    positive = h.positive;
    small = h.small;
    item_small = h.item_small;
    bounded = h.bounded;
    write_eq = h.write_eq;
    behind = h.behind;
    within = h.within;
    content = λ p lo hi. same p lo hi ∙ h.content p lo hi;
    delivered = h.delivered;
  }

  -- A copy to the cell of `w` and those behind it, which the free part of the ring has room for.
  pub copied :
      (r : Ring A) (items : ℕ → A) (w n : ℕ)
      → 0 < r.capacity
      → w % r.capacity + n ≤ r.capacity
      → ((j : ℕ) → j < n → fill r.buffer (w % r.capacity) items n ((w + j) % r.capacity) ≡ items j)
        × ((p : ℕ)
            → p < w
            → w + n ≤ p + r.capacity
            → fill r.buffer (w % r.capacity) items n (p % r.capacity) ≡ r.buffer (p % r.capacity))
  copied r items w n pos fits = (
    λ j lt. rw (cell_near r.capacity w j pos (omega arith)) (
        fill_in r.buffer items (w % r.capacity) n (w % r.capacity + j) (omega arith) (omega arith)
        ∙ ap items (offset_of (w % r.capacity) j)),
    λ p lt le. fill_out r.buffer items (w % r.capacity) n (p % r.capacity) (outside p lt le),
  )
    where
      offset_of : (a j : ℕ) → a + j - a ≡ j
      offset_of a j = omega arith

      outside :
          (p : ℕ)
          → p < w
          → w + n ≤ p + r.capacity
          → (p % r.capacity < w % r.capacity) ⊎ (w % r.capacity + n ≤ p % r.capacity)
      outside p lt le = elim (dec_lt (p % r.capacity) (w % r.capacity)) [
        | yes below ↦ inl below
        | no above ↦ elim (dec_lt (p % r.capacity) (w % r.capacity + n)) [
          | yes inside ↦
              let j : ℕ = p % r.capacity - w % r.capacity in
              absurd (
                omega (
                  arith,
                  cell_inj r.capacity p (w + j) (omega arith) (omega arith)
                      (sym (cell_near r.capacity w j pos (omega arith) ∙ omega arith)),
                ))
          | no behind ↦ inr (omega arith)
        ]
      ]

  pub copied_at :
      (r : Ring A) (items : ℕ → A) (w n offset : ℕ)
      → 0 < r.capacity
      → w % r.capacity ≡ offset
      → offset + n ≤ r.capacity
      → ((j : ℕ) → j < n → fill r.buffer offset items n ((w + j) % r.capacity) ≡ items j)
        × ((p : ℕ)
            → p < w
            → w + n ≤ p + r.capacity
            → fill r.buffer offset items n (p % r.capacity) ≡ r.buffer (p % r.capacity))
  copied_at r items w n offset pos e fits =
      let c = copied r items w n pos (omega arith) in
      (
        λ j lt. ap (λ o. fill r.buffer o items n ((w + j) % r.capacity)) (sym e) ∙ c.0 j lt,
        λ p lt le. ap (λ o. fill r.buffer o items n (p % r.capacity)) (sym e) ∙ c.1 p lt le,
      )

  -- The published part grows.
  pub Reads-publish :
      (capacity read_pos total bytes : ℕ) (sent items : ℕ → A) (pc : Reader A)
      → Reads capacity read_pos total sent pc
      → Reads capacity read_pos (total + bytes) (fill sent total items bytes) pc
  Reads-publish cap rp total bytes sent items (read_check d p) h = h
  Reads-publish cap rp total bytes sent items (Reader.bulk_check d count p) h = h
  Reads-publish cap rp total bytes sent items (copy_out d n p form) h = omega (arith, h.0, h.1)
  Reads-publish cap rp total bytes sent items (Reader.copy_rest d n p form) (e, le, split, same) = (
    e,
    omega arith,
    split,
    λ j lt. same j lt ∙ sym (fill_out sent items total bytes (p + j) (inl (omega arith))),
  )
  Reads-publish cap rp total bytes sent items (release d n p form) (e, le, same) = (
    e,
    omega arith,
    λ j lt. same j lt ∙ sym (fill_out sent items total bytes (p + j) (inl (omega arith))),
  )
  Reads-publish cap rp total bytes sent items pc h = tt

  pub publish-Holds :
      {r : Ring A} {sent received : ℕ → A} {total : ℕ} (items : ℕ → A) (bytes : ℕ)
      → Holds r sent received total
      → total + bytes < 2 ^ 63
      → total + bytes ≤ r.read_pos + r.capacity
      → ((j : ℕ) → j < bytes → r.buffer ((total + j) % r.capacity) ≡ items j)
      → Holds
          (record r { write_pos = u64 (total + bytes) })
          (fill sent total items bytes)
          received
          (total + bytes)
  publish-Holds {r} {sent} {received} {total} items bytes h small fits same = record {
    positive = h.positive;
    small = h.small;
    item_small = h.item_small;
    bounded = small;
    write_eq = omega arith;
    behind = omega (arith, h.behind);
    within = fits;
    content = λ p lo hi. elim (dec_lt p total) [
      | yes old ↦ h.content p lo old ∙ sym (fill_out sent items total bytes p (inl old))
      | no new ↦
          let e : total + (p - total) ≡ p = omega arith in
          subst (λ q. r.buffer (q % r.capacity) ≡ items (p - total)) e
            (same (p - total) (omega arith))
          ∙ sym (fill_in sent items total bytes p (omega arith) hi)
    ];
    delivered = λ p lt.
        h.delivered p lt ∙ sym (fill_out sent items total bytes p (inl (omega (arith, h.behind))));
  }
