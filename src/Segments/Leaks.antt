-- ===== src/Segments/Leaks.antt =====
-- What is held after a call of memory.c: no call leaks or releases twice.
use zeroipc.Base.{
  not, ℕ, ◌≡◌, Bool, true, false, Option, none, some, List, [], ◌∷◌, ◌++◌, arith, refl, Name, ap,
  ◌∙◌, sym, Option-cases, inl, inr,
}
use zeroipc.Segments.{
  Event, Answers, Handle, calloc, strdup, shm_create, shm_open, ftruncate, fstat, mmap, munmap,
  close, shm_unlink, free_name, free_handle, create, reopen, shut, create_named, create_opened,
  create_sized, create_mapped, open_mapped, open_sized, open_opened, open_named,
}

-- The resources of one handle. `linked` says that this process has made the name of the segment.
pub record Held : Type 0 where
  pub handle : Bool
  pub name : Bool
  pub fd : Bool
  pub mapped : Bool
  pub linked : Bool

abbrev pub nothing : Held
nothing = record { handle = false; name = false; fd = false; mapped = false; linked = false }

-- `none` for an effect on a resource that is held already, or not held.
unfoldable pub take : Bool → Held → Option Held
take true h = none
take false h = some h

unfoldable pub drop : Bool → Held → Option Held
drop true h = some h
drop false h = none

unfoldable pub effect : Held → Event → Option Held
unfolding take drop
effect h calloc = take h.handle (record h { handle = true })
effect h strdup = take h.name (record h { name = true })
effect h (shm_create existed) = take h.fd (record h { fd = true; linked = not existed })
effect h shm_open = take h.fd (record h { fd = true })
effect h ftruncate = drop h.fd h
effect h fstat = drop h.fd h
effect h mmap = take h.mapped (record h { mapped = true })
effect h munmap = drop h.mapped (record h { mapped = false })
effect h close = drop h.fd (record h { fd = false })
effect h shm_unlink = drop h.linked (record h { linked = false })
effect h free_name = drop h.name (record h { name = false })
effect h free_handle = drop h.handle (record h { handle = false })

unfoldable pub effects : Held → List Event → Option Held
unfolding effect
effects h [] = some h
effects h (e ∷ es) = elim (effect h e) [ none ↦ none | some h' ↦ effects h' es ]

-- What a call leaves held: nothing without a handle.
abbrev pub left_held : Bool → Option Handle → Held
left_held linked none = nothing
left_held linked (some h) = record {
  handle = true;
  name = h.named;
  fd = true;
  mapped = true;
  linked = linked;
}

create_held :
    (a : Answers) (name : Option Name) (size max_entries : ℕ)
    → a.existed ≡ false
    → effects nothing (create a name size max_entries).0
      ≡ some (left_held true (create a name size max_entries).1)
unfolding effects create create_named create_opened create_sized create_mapped
create_held a none size max_entries new = refl
create_held a (some name) size max_entries new = ground arith

reopen_held :
    (a : Answers) (name : Option Name)
    → effects nothing (reopen a name).0 ≡ some (left_held false (reopen a name).1)
unfolding effects reopen open_named open_opened open_sized open_mapped
reopen_held a none = refl
reopen_held a (some name) = ground arith

shut_held :
    (linked : Bool) (h : Option Handle)
    → effects (left_held linked h) (shut h)
      ≡ some (record nothing { linked = elim h [ none ↦ false | some k ↦ linked ] })
unfolding effects shut
shut_held linked none = refl
shut_held linked (some h) = ground arith

effects-next :
    (h : Held) (x : Event) (es : List Event) {h' : Held}
    → effect h x ≡ some h'
    → effects h (x ∷ es) ≡ effects h' es
unfolding effects
effects-next h x es e = ap (λ o. elim o [ none ↦ none | some k ↦ effects k es ]) e

-- Effects in a row.
effects-append :
    (h : Held) (es fs : List Event) {k : Held}
    → effects h es ≡ some k
    → effects h (es ++ fs) ≡ effects k fs
unfolding effects
effects-append h [] fs e = ground arith
effects-append h (x ∷ es) fs e = elim (Option-cases (effect h x)) [
  | inl f ↦ absurd (ground arith)
  | inr (h', f) ↦
      effects-next h x (es ++ fs) f ∙ effects-append h' es fs (sym (effects-next h x es f) ∙ e)
]

-- Where no segment of the name exists before, and whatever else the operating system answers,
-- zeroipc_memory_create takes no resource twice and releases none that it does not hold; it leaves the
-- resources of the handle that it returns, and none when it returns NULL, not even the segment's name.
-- After zeroipc_memory_close of what it has returned only the name of the segment is left.
pub create_balance :
    (a : Answers) (name : Option Name) (size max_entries : ℕ)
    → a.existed ≡ false
    → (effects nothing (create a name size max_entries).0
        ≡ some (left_held true (create a name size max_entries).1))
      × (effects nothing
            ((create a name size max_entries).0 ++ shut (create a name size max_entries).1)
          ≡ some (record nothing {
            linked = elim ((create a name size max_entries).1) [ none ↦ false | some h ↦ true ];
          }))
create_balance a name size max_entries new =
    let made = create a name size max_entries in
    (
      create_held a name size max_entries new,
      effects-append nothing (create a name size max_entries).0
            (shut (create a name size max_entries).1) (create_held a name size max_entries new)
          ∙ shut_held true (create a name size max_entries).1,
    )

-- Whatever the operating system answers, zeroipc_memory_open takes no resource twice and releases
-- none that it does not hold; it leaves the resources of the handle that it returns, and none when
-- it returns NULL. After zeroipc_memory_close of what it has returned nothing is left.
pub reopen_balance :
    (a : Answers) (name : Option Name)
    → (effects nothing (reopen a name).0 ≡ some (left_held false (reopen a name).1))
      × (effects nothing ((reopen a name).0 ++ shut (reopen a name).1) ≡ some nothing)
reopen_balance a name = (
  reopen_held a name,
  effects-append nothing (reopen a name).0 (shut (reopen a name).1) (reopen_held a name)
      ∙ shut_held false (reopen a name).1
      ∙ unlinked (reopen a name).1,
)
  where
    unlinked :
        (h : Option Handle)
        → some (record nothing { linked = elim h [ none ↦ false | some k ↦ false ] }) ≡ some nothing
    unlinked none = refl
    unlinked (some h) = refl
