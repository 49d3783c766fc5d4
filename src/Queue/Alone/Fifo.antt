-- ===== src/Queue/Alone/Fifo.antt =====
-- The bounded FIFO that a queue promises, and that the calls of one thread keep the promise.
use zeroipc.Base.{
  ℕ, ◌+◌, ◌<◌, ◌≡◌, Option, none, some, refl, arith, List, [], ◌∷◌, ◌++◌, length, ltb, ◌↔◌,
  if◌then◌else◌, Bool-cases, true, inl, inr,
}
use zeroipc.Queue.{Queue, Pc, pushed, full, popped, empty, size, is_empty, is_full}
use zeroipc.Queue.Alone.{push_alone, pop_alone}
use zeroipc.Queue.Alone.Holds.{
  Holds, after_push, capacity-after_push, capacity-after_pop, push_alone-room, push_alone-full,
  after_push-Holds, pop_alone-none, after_pop, pop_alone-some, after_pop-Holds,
}

pub data Call (A : Type 0) : Type 0 where
  put : A → Call A
  get : Call A

module _ {A : Type 0} where
  -- What a bounded FIFO returns to a client's calls, in order.
  unfoldable pub fifo_replies : ℕ → List A → List (Call A) → List (Pc A)
  fifo_replies capacity items [] = []
  fifo_replies capacity items (put v ∷ calls) =
      if ltb (length items) capacity
      then pushed ∷ fifo_replies capacity (items ++ (v ∷ [])) calls
      else full ∷ fifo_replies capacity items calls
  fifo_replies capacity [] (get ∷ calls) = empty ∷ fifo_replies capacity [] calls
  fifo_replies capacity (x ∷ items) (get ∷ calls) = popped x ∷ fifo_replies capacity items calls

  -- What the queue returns; `none` if a call does not return.
  unfoldable pub replies : Queue A → List (Call A) → Option (List (Pc A))
  replies q [] = some []
  replies q (put v ∷ calls) = elim (push_alone q v) [
    | none ↦ none
    | some (q', r) ↦ elim (replies q' calls) [ none ↦ none | some rs ↦ some (r ∷ rs) ]
  ]
  replies q (get ∷ calls) = elim (pop_alone q) [
    | none ↦ none
    | some (q', r) ↦ elim (replies q' calls) [ none ↦ none | some rs ↦ some (r ∷ rs) ]
  ]

  abbrev cons_reply : Pc A → Option (List (Pc A)) → Option (List (Pc A))
  cons_reply r none = none
  cons_reply r (some rs) = some (r ∷ rs)

  replies-put :
      (q : Queue A) (v : A) (calls : List (Call A)) {q' : Queue A} {r : Pc A}
      → push_alone q v ≡ some (q', r)
      → replies q (put v ∷ calls) ≡ cons_reply r (replies q' calls)
  unfolding replies
  replies-put q v calls e = rw (e, replies) (ground arith)

  replies-get :
      (q : Queue A) (calls : List (Call A)) {q' : Queue A} {r : Pc A}
      → pop_alone q ≡ some (q', r)
      → replies q (get ∷ calls) ≡ cons_reply r (replies q' calls)
  unfolding replies
  replies-get q calls e = rw (e, replies) (ground arith)

  -- A queue at rest that holds `items`, whose capacity is at least 2, at most 2 ^ 31 and divides
  -- 2 ^ 32, and whose elements have at least one byte and all together at most 2 ^ 32, answers every
  -- sequence of calls of one thread as the bounded FIFO of its capacity does; in particular every
  -- call returns, across every wrap of the counters.
  pub replies-eq-fifo :
      {q : Queue A} (h : ℕ) (items : List A) (calls : List (Call A))
      → Holds q h items
      → replies q calls ≡ some (fifo_replies q.capacity items calls)
  unfolding replies fifo_replies
  replies-eq-fifo h items [] holds = refl
  replies-eq-fifo {q} h items (put v ∷ calls) holds =
      elim (Bool-cases (ltb (length items) q.capacity)) [
        | inl room ↦
            let lt : length items < q.capacity = ground arith in
            rw (
              room,
              replies-put q v calls (push_alone-room holds v lt),
              replies-eq-fifo {q = after_push holds v} h (items ++ (v ∷ [])) calls
                  (after_push-Holds holds v lt),
              capacity-after_push holds v,
            )
        | inr no_room ↦
            let at_limit : length items ≡ q.capacity = ground (arith, holds.fits) in
            rw (
              no_room,
              replies-put q v calls (push_alone-full holds v at_limit),
              replies-eq-fifo {q = q} h items calls holds,
            )
      ]
  replies-eq-fifo {q} h [] (get ∷ calls) holds =
      rw (replies-get q calls (pop_alone-none holds refl), replies-eq-fifo {q = q} h [] calls holds)
  replies-eq-fifo {q} h (x ∷ items) (get ∷ calls) holds = rw (
    replies-get q calls (pop_alone-some holds),
    replies-eq-fifo {q = after_pop holds} (h + 1) items calls (after_pop-Holds holds),
    capacity-after_pop holds,
  )

  -- On a queue at rest that holds `items`, whose capacity is at least 2, at most 2 ^ 31 and
  -- divides 2 ^ 32, zeroipc_queue_size, zeroipc_queue_empty and zeroipc_queue_full say how many
  -- elements it holds, whether there is none, and whether there is room for no other, across every
  -- wrap of the counters.
  pub size-Holds :
      {q : Queue A} (h : ℕ) (items : List A)
      → Holds q h items
      → (size q.head q.tail ≡ length items)
        × ((is_empty q.head q.tail ≡ true) ↔ (items ≡ []))
        × ((is_full q.capacity q.head q.tail ≡ true) ↔ (length items ≡ q.capacity))
  unfolding size is_empty is_full
  size-Holds h [] holds = ground (arith, holds)
  size-Holds h (x ∷ items) holds = ground (arith, holds)
