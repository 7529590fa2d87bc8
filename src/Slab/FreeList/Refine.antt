-- ===== src/Slab/FreeList/Refine.antt =====
-- Popping, and histories of both operations.
use sandook.Base.{
  ℕ, ◌+◌, ◌-◌, ◌%◌, ◌≡◌, refl, sym, ap, subst, ◌∙◌, ◌≢◌, false, ◌==◌, List, [], ◌∷◌, ◌++◌, length,
  All, Distinct, arith, ==_iff,
}
use sandook.Status.{Status, ok, ◌>>=◌}
use sandook.Types.{u64_mod}
use sandook.Slab.FreeList.{Ptr, Memory, write, FreePtrsList, init, last_used, take_out, pop, push}
use sandook.Slab.FreeList.Batches.{
  Batch, Chain, contents, word_of, word_of_above, last_used-empty, last_used-found,
}
use sandook.Slab.FreeList.Stack.{
  IsStack, Frame, Distinct-suffix, All-suffix, write-Chain, write_frame, word_of-tail, push-IsStack,
}

pop_batch :
    (mem : Memory) (a : Ptr) (items : List Ptr) (bs : List Batch) (n x : ℕ) (xs : List Ptr)
    → items ++ (a ∷ contents bs) ≡ x ∷ xs
    → Distinct (items ++ (a ∷ contents bs))
    → Chain mem a (record { address = a; items = items } ∷ bs)
    → (mem' : Memory) × (h : Ptr) × (take_out mem
          (record { head = a; size = n })
          (last_used (mem a) 5)
        ≡ (x, mem', record { head = h; size = n }))
      × Frame mem mem' (x ∷ xs)
      × (bs' : List Batch) × Chain mem' h bs'
      × (contents bs' ≡ xs)
unfolding take_out word_of
pop_batch mem a [] bs n x xs o d (e, b, c) =
    let empty =
      last_used-empty (mem a) 5 (λ i l u. b.words i l u ∙ word_of_above [] i (omega arith)) in
    (
      mem,
      mem a 0,
      rw empty (ap (λ z. (z, mem, record { head = mem a 0; size = n })) (head_eq o)),
      (λ q u i. refl),
      bs,
      c,
      tail_eq o,
    )
  where
    head_eq : (a ∷ contents bs) ≡ x ∷ xs → a ≡ x
    head_eq o = cc

    tail_eq : (a ∷ contents bs) ≡ x ∷ xs → contents bs ≡ xs
    tail_eq o = cc
pop_batch mem a (y ∷ ys) bs n x xs o d (e, b, c) =
    let r = b.room in
    let here : mem a (length ys + 1) ≡ y =
      b.words (length ys + 1) (omega arith) (omega arith)
      ∙ rw ((==_iff (length ys + 1) (length ys + 1)).1 refl, word_of) refl in
    let found =
      last_used-found (mem a) 5 (length ys + 1) (omega arith) (omega arith)
        (λ z. b.valid.0 (sym here ∙ z))
        (λ i l u. b.words i (omega arith) u ∙ word_of_above (y ∷ ys) i (omega arith)) in
    (
      write mem a (length ys + 1) 0,
      a,
      rw (found, here)
          (ap (λ z. (z, write mem a (length ys + 1) 0, record { head = a; size = n })) (head_eq o)),
      (λ q u.
          write_frame mem a _ 0 q
            (All-suffix (λ z. q ≢ z) (y ∷ ys) (a ∷ contents bs)
              (subst (All (λ z. q ≢ z)) (sym o) u)).0),
      record { address = a; items = ys } ∷ bs,
      write-Chain mem a (length ys + 1) 0 (y ∷ ys) ys bs (omega arith) (omega arith) (omega arith)
          b.valid.1 (λ j p q. word_of-tail y ys j) (Distinct-suffix (y ∷ ys) (a ∷ contents bs) d).0
          (e, b, c),
      tail_eq o,
    )
  where
    head_eq : (y ∷ (ys ++ (a ∷ contents bs))) ≡ x ∷ xs → y ≡ x
    head_eq o = cc

    tail_eq : (y ∷ (ys ++ (a ∷ contents bs))) ≡ x ∷ xs → ys ++ (a ∷ contents bs) ≡ xs
    tail_eq o = cc

pub pop-IsStack :
    (mem : Memory) (l : FreePtrsList) (x : Ptr) (xs : List Ptr)
    → IsStack mem l (x ∷ xs)
    → (mem' : Memory) × (l' : FreePtrsList) × (pop mem l ≡ ok (x, mem', l'))
      × IsStack mem' l' xs
      × Frame mem mem' (x ∷ xs)
unfolding pop
pop-IsStack mem l x xs s = go s.batches s.chain s.order
  where
    size' : (l.size + u64_mod - 1) % u64_mod ≡ length xs % u64_mod
    size' = omega (arith, s.counted)

    go :
        (bs : List Batch)
        → Chain mem l.head bs
        → contents bs ≡ x ∷ xs
        → (mem' : Memory) × (l' : FreePtrsList) × (pop mem l ≡ ok (x, mem', l'))
          × IsStack mem' l' xs
          × Frame mem mem' (x ∷ xs)
    go [] e o = cc
    go (b ∷ bs) (e, h, c) o =
        let other : (l.head == 0) ≡ false = let n = h.nonnull in ground (arith, n, e) in
        let (mem', p, q, fr, bs', ch, co) =
          pop_batch mem b.address b.items bs ((l.size + u64_mod - 1) % u64_mod) x xs o
            (subst Distinct (sym o) s.distinct)
            (refl, h, subst (λ z. Chain mem z bs) (ap (λ z. mem z 0) e) c) in
        let q' : take_out mem (record { head = l.head; size = (l.size + u64_mod - 1) % u64_mod })
              (last_used (mem l.head) 5)
            ≡ (x, mem', record { head = p; size = (l.size + u64_mod - 1) % u64_mod }) =
          ap
            (λ z.
              take_out mem (record { head = z; size = (l.size + u64_mod - 1) % u64_mod })
                (last_used (mem z) 5))
            e
          ∙ q in
        (
          mem',
          record { head = p; size = (l.size + u64_mod - 1) % u64_mod },
          rw (other, q') refl,
          record {
            batches = bs';
            chain = ch;
            order = co;
            distinct = s.distinct.1;
            counted = size';
          },
          fr,
        )

pub init-IsStack : (mem : Memory) → IsStack mem init []
unfolding init
init-IsStack mem = record {
  batches = [];
  chain = refl;
  order = refl;
  distinct = tt;
  counted = refl;
}

pub data Op : Type 0 where
  pushes : Ptr → Op
  pops : Op

-- A history of calls: the objects popped, in order.
pub run : Memory → FreePtrsList → List Op → Status (List Ptr × Memory × FreePtrsList)
run mem l [] = ok ([], mem, l)
run mem l (pushes p ∷ ops) = run (push mem l p).0 (push mem l p).1 ops
run mem l (pops ∷ ops) = do
  (p, mem', l') ← pop mem l
  (ps, mem'', l'') ← run mem' l' ops
  ok (p ∷ ps, mem'', l'')

-- The same history on a stack. A pop needs an object, and a push one that is not null and not free
-- already.
pub data Runs : List Ptr → List Op → List Ptr → List Ptr → Type 0 where
  ends : (xs : List Ptr) → Runs xs [] [] xs
  push_runs :
      (p : Ptr) {xs ys out : List Ptr} {ops : List Op}
      → p ≢ 0
      → All (λ x. p ≢ x) xs
      → Runs (p ∷ xs) ops out ys
      → Runs xs (pushes p ∷ ops) out ys
  pop_runs :
      (x : Ptr) {xs ys out : List Ptr} {ops : List Op}
      → Runs xs ops out ys
      → Runs (x ∷ xs) (pops ∷ ops) (x ∷ out) ys

run_refines_from :
    (mem : Memory) (l : FreePtrsList) {xs ys out : List Ptr} {ops : List Op}
    → IsStack mem l xs
    → Runs xs ops out ys
    → (mem' : Memory) × (l' : FreePtrsList) × (run mem l ops ≡ ok (out, mem', l'))
      × IsStack mem' l' ys
unfolding run
run_refines_from mem l s (ends xs) = (mem, l, refl, s)
run_refines_from mem l s (push_runs p n f r) =
    run_refines_from (push mem l p).0 (push mem l p).1 (push-IsStack mem l _ p n f s).0 r
run_refines_from mem l s (pop_runs x r) =
    let (mem', l', e, s', _) = pop-IsStack mem l x _ s in
    let (mem'', l'', e', s'') = run_refines_from mem' l' s' r in (mem'', l'', rw (e, e'), s'')

-- In any memory, every history of pushes and pops that a stack of objects allows runs through on the
-- list in memory, and pops the same objects in the same order: the batches implement a stack, with no
-- memory of their own.
pub run_refines :
    (mem : Memory) {ops : List Op} {out ys : List Ptr}
    → Runs [] ops out ys
    → (mem' : Memory) × (l' : FreePtrsList) × (run mem init ops ≡ ok (out, mem', l'))
      × IsStack mem' l' ys
run_refines mem r = run_refines_from mem init (init-IsStack mem) r
