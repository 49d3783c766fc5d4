-- ===== src/Stack/Lifo/Replies.antt =====
-- The bounded LIFO that a stack promises, and that the calls of one thread keep the promise.
use zeroipc.Base.{
  ℕ, ◌<◌, ◌≡◌, ◌↔◌, inl, inr, Option, none, some, true, arith, if◌then◌else◌, ltb, List, [], ◌∷◌,
  length, Bool-cases, refl,
}
use zeroipc.Stack.{Stack, Pc, pushed, full, popped, topped, empty, size, is_empty, is_full}
use zeroipc.Stack.Slots.Access.{last_index_lem}
use zeroipc.Stack.Lifo.{
  Holds, push_alone, pop_alone, top_alone, after_push, after_pop, after_top, push_room, push_full,
  pop_some, pop_none, top_some, top_none, after_push-Holds, after_pop-Holds, after_top-Holds,
}

pub data Call (A : Type 0) : Type 0 where
  put : A → Call A
  get : Call A
  peek : Call A

module _ {A : Type 0} where
  -- What a bounded LIFO returns to a client's calls, in order.
  unfoldable pub lifo_replies : ℕ → List A → List (Call A) → List (Pc A)
  lifo_replies capacity items [] = []
  lifo_replies capacity items (put v ∷ calls) =
      if ltb (length items) capacity
      then pushed ∷ lifo_replies capacity (v ∷ items) calls
      else full ∷ lifo_replies capacity items calls
  lifo_replies capacity [] (get ∷ calls) = empty ∷ lifo_replies capacity [] calls
  lifo_replies capacity (x ∷ items) (get ∷ calls) = popped x ∷ lifo_replies capacity items calls
  lifo_replies capacity [] (peek ∷ calls) = empty ∷ lifo_replies capacity [] calls
  lifo_replies capacity (x ∷ items) (peek ∷ calls) =
      topped x ∷ lifo_replies capacity (x ∷ items) calls

  abbrev cons_reply : Pc A → Option (List (Pc A)) → Option (List (Pc A))
  cons_reply r none = none
  cons_reply r (some rs) = some (r ∷ rs)

  unfoldable pub call_alone : Stack A → Call A → Option (Stack A × Pc A)
  call_alone s (put v) = push_alone s v
  call_alone s get = pop_alone s
  call_alone s peek = top_alone s

  -- What the stack returns; `none` if a call does not return.
  unfoldable pub replies : Stack A → List (Call A) → Option (List (Pc A))
  replies s [] = some []
  replies s (c ∷ calls) = elim (call_alone s c) [
    | none ↦ none
    | some (s', r) ↦ cons_reply r (replies s' calls)
  ]

  replies_step :
      (s : Stack A) (c : Call A) (calls : List (Call A)) {s' : Stack A} {r : Pc A}
      → call_alone s c ≡ some (s', r)
      → replies s (c ∷ calls) ≡ cons_reply r (replies s' calls)
  unfolding replies
  replies_step s c calls e = rw (e, replies)

  -- A stack at rest that holds `items`, of a capacity between 1 and 2 ^ 31, whose elements have at
  -- least one byte and all together at most 2 ^ 32, answers every sequence of calls of one thread as
  -- the bounded LIFO of its capacity does; in particular every call returns.
  pub replies-eq-lifo :
      (s : Stack A) (items : List A) (calls : List (Call A))
      → Holds s items
      → replies s calls ≡ some (lifo_replies s.capacity items calls)
  unfolding replies lifo_replies call_alone after_push after_pop after_top
  replies-eq-lifo s items [] h = refl
  replies-eq-lifo s items (put v ∷ calls) h = elim (Bool-cases (ltb (length items) s.capacity)) [
    | inl room ↦
        let lt : length items < s.capacity = ground arith in
        rw (
          room,
          replies_step s (put v) calls (push_room items v h lt),
          replies-eq-lifo (after_push s items v) (v ∷ items) calls (after_push-Holds items v h lt),
        )
    | inr no_room ↦
        let at_limit : length items ≡ s.capacity = ground (arith, h.fits) in
        rw (
          no_room,
          replies_step s (put v) calls (push_full items v h at_limit),
          replies-eq-lifo s items calls h,
        )
  ]
  replies-eq-lifo s [] (get ∷ calls) h =
      rw (replies_step s get calls (pop_none h), replies-eq-lifo s [] calls h)
  replies-eq-lifo s (x ∷ items) (get ∷ calls) h = rw (
    replies_step s get calls (pop_some x items h),
    replies-eq-lifo (after_pop s items) items calls (after_pop-Holds x items h),
  )
  replies-eq-lifo s [] (peek ∷ calls) h =
      rw (replies_step s peek calls (top_none h), replies-eq-lifo s [] calls h)
  replies-eq-lifo s (x ∷ items) (peek ∷ calls) h = rw (
    replies_step s peek calls (top_some x items h),
    replies-eq-lifo (after_top s items) (x ∷ items) calls (after_top-Holds x items h),
  )

  -- On a stack at rest that holds `items`, of a capacity between 1 and 2 ^ 31, zeroipc_stack_size,
  -- zeroipc_stack_empty and zeroipc_stack_full say how many elements it holds, whether there is
  -- none, and whether there is room for no other.
  pub stack_size-Holds :
      (s : Stack A) (items : List A)
      → Holds s items
      → (size s ≡ length items)
        × ((is_empty s ≡ true) ↔ (length items ≡ 0))
        × ((is_full s ≡ true) ↔ (length items ≡ s.capacity))
  unfolding size is_empty is_full
  stack_size-Holds s [] h = ground (arith, h, last_index_lem s.capacity)
  stack_size-Holds s (x ∷ items) h = ground (arith, h, last_index_lem s.capacity)
