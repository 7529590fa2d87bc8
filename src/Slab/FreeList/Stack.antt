-- ===== src/Slab/FreeList/Stack.antt =====
-- The list in memory is a stack of free objects.
use sandook.Base.{
  ℕ, ◌+◌, ◌%◌, ◌≡◌, refl, sym, ap, subst, ◌∙◌, ◌<◌, ◌≤◌, ◌≢◌, inl, inr, false, if◌then◌else◌, ◌==◌,
  List, [], ◌∷◌, ◌++◌, length, All, All-map, Distinct, arith, Bool-cases, ==_iff, ltb,
}
use sandook.Types.{u64_mod}
use sandook.Slab.FreeList.{Ptr, Memory, write, fill, FreePtrsList, first_free, put_in, push}
use sandook.Slab.FreeList.Batches.{
  Batch, IsBatch, Chain, contents, word_of, word_of_above, word_of_below, first_free-found,
  first_free-full,
}

-- A list in memory holds some objects, the next one to be popped first.
pub record IsStack (mem : Memory) (l : FreePtrsList) (xs : List Ptr) : Type 0 where
  pub batches : List Batch
  pub chain : Chain mem l.head batches
  pub order : contents batches ≡ xs
  pub distinct : Distinct xs
  pub counted : l.size ≡ length xs % u64_mod

-- The words of all other objects are left alone.
abbrev pub Frame : Memory → Memory → List Ptr → Type 0
Frame mem mem' xs = (q : Ptr) → All (λ x. q ≢ x) xs → (i : ℕ) → mem' q i ≡ mem q i

IsBatch-frame :
    (mem mem' : Memory) (b : Batch)
    → ((i : ℕ) → mem' b.address i ≡ mem b.address i)
    → IsBatch mem b
    → IsBatch mem' b
IsBatch-frame mem mem' b f h = record {
  nonnull = h.nonnull;
  room = h.room;
  words = λ i l u. f i ∙ h.words i l u;
  valid = h.valid;
}

Chain-frame :
    (mem mem' : Memory) (p : Ptr) (bs : List Batch)
    → All (λ (b : Batch). (i : ℕ) → mem' b.address i ≡ mem b.address i) bs
    → Chain mem p bs
    → Chain mem' p bs
Chain-frame mem mem' p [] f h = h
Chain-frame mem mem' p (b ∷ bs) f (e, h, c) = (
  e,
  IsBatch-frame mem mem' b f.0 h,
  subst (λ q. Chain mem' q bs) (ap (λ q. mem q 0) e ∙ sym (f.0 0) ∙ sym (ap (λ q. mem' q 0) e))
      (Chain-frame mem mem' (mem p 0) bs f.1 c),
)

pub All-suffix {κ} : (P : Ptr → Type κ) (xs ys : List Ptr) → All P (xs ++ ys) → All P ys
All-suffix P [] ys h = h
All-suffix P (x ∷ xs) ys h = All-suffix P xs ys h.1

pub Distinct-suffix : (xs ys : List Ptr) → Distinct (xs ++ ys) → Distinct ys
Distinct-suffix [] ys h = h
Distinct-suffix (x ∷ xs) ys h = Distinct-suffix xs ys h.1

All-address :
    (P : Ptr → Type 0) (bs : List Batch) → All P (contents bs) → All (λ (b : Batch). P b.address) bs
All-address P [] h = tt
All-address P (b ∷ bs) h =
    let s = All-suffix P b.items (b.address ∷ contents bs) h in (s.0, All-address P bs s.1)

pub write_frame :
    (mem : Memory) (p : Ptr) (i : ℕ) (v : Ptr) (q : Ptr)
    → q ≢ p
    → (j : ℕ) → write mem p i v q j ≡ mem q j
write_frame mem p i v q h j = ground arith

fill_frame :
    (mem : Memory) (p first : Ptr) (q : Ptr) → q ≢ p → (j : ℕ) → fill mem p first q j ≡ mem q j
fill_frame mem p first q h j = ground arith

-- A fresh batch, in front of a chain.
fill-Chain :
    (mem : Memory) (p first : Ptr) (bs : List Batch)
    → p ≢ 0
    → All (λ x. p ≢ x) (contents bs)
    → Chain mem first bs
    → Chain (fill mem p first) p (record { address = p; items = [] } ∷ bs)
unfolding word_of
fill-Chain mem p first bs n d c = (
  refl,
  record { nonnull = n; room = omega arith; words = λ i l u. ground arith; valid = tt },
  subst (λ q. Chain (fill mem p first) q bs) (ground arith)
      (Chain-frame mem (fill mem p first) first bs
        (All-map (λ (b : Batch). p ≢ b.address) _
          (λ b ne. fill_frame mem p first b.address (λ e. ne (sym e))) bs
          (All-address (λ x. p ≢ x) bs d))
        c),
)

-- The first batch with other words, in front of the same chain.
pub write-Chain :
    (mem : Memory) (a : Ptr) (i : ℕ) (v : Ptr) (items items' : List Ptr) (bs : List Batch)
    → 1 ≤ i
    → i ≤ 5
    → length items' ≤ 5
    → All (λ x. x ≢ 0) items'
    → ((j : ℕ) → 1 ≤ j → j ≤ 5 → (if j == i then v else word_of items j) ≡ word_of items' j)
    → All (λ x. a ≢ x) (contents bs)
    → Chain mem a (record { address = a; items = items } ∷ bs)
    → Chain (write mem a i v) a (record { address = a; items = items' } ∷ bs)
write-Chain mem a i v items items' bs l u r ne w d (e, h, c) = (
  refl,
  record {
    nonnull = h.nonnull;
    room = r;
    valid = ne;
    words = λ j p q.
        rw ((==_iff a a).1 refl) (ap (λ x. if j == i then v else x) (h.words j p q) ∙ w j p q);
  },
  subst (λ q. Chain (write mem a i v) q bs) (ground arith)
      (Chain-frame mem (write mem a i v) (mem a 0) bs
        (All-map (λ (b : Batch). a ≢ b.address) _
          (λ b ne. write_frame mem a i v b.address (λ e. ne (sym e))) bs
          (All-address (λ x. a ≢ x) bs d))
        c),
)

-- The words of a batch after one more is used, and after the last one is freed.
word_of-cons :
    (x : Ptr) (xs : List Ptr) (j : ℕ)
    → (if j == length xs + 1 then x else word_of xs j) ≡ word_of (x ∷ xs) j
unfolding word_of
word_of-cons x xs j = refl

pub word_of-tail :
    (x : Ptr) (xs : List Ptr) (j : ℕ)
    → (if j == length xs + 1 then 0 else word_of (x ∷ xs) j) ≡ word_of xs j
unfolding word_of
word_of-tail x xs j = elim (Bool-cases (j == length xs + 1)) [
  | inl e ↦ rw e (sym (word_of_above xs j (omega (arith, (==_iff j (length xs + 1)).0 e))))
  | inr e ↦ rw e refl
]

push_batch :
    (mem : Memory) (a : Ptr) (items : List Ptr) (bs : List Batch) (n ptr : Ptr)
    → ptr ≢ 0
    → All (λ x. ptr ≢ x) (items ++ (a ∷ contents bs))
    → Distinct (items ++ (a ∷ contents bs))
    → Chain mem a (record { address = a; items = items } ∷ bs)
    → (mem' : Memory) × (h : Ptr) × (put_in mem
          (record { head = a; size = n })
          ptr
          (first_free (mem a) 1 5)
        ≡ (mem', record { head = h; size = n }))
      × Frame mem mem' (ptr ∷ (items ++ (a ∷ contents bs)))
      × (bs' : List Batch) × Chain mem' h bs'
      × (contents bs' ≡ ptr ∷ (items ++ (a ∷ contents bs)))
unfolding put_in
push_batch mem a items bs n ptr nn f d (e, b, c) = elim (Bool-cases (ltb (length items) 5)) [
  | inl room ↦
      let below : length items < 5 = ground (arith, room) in
      let found =
        first_free-found (mem a) 1 5 (length items + 1) (omega arith) (omega arith)
          (b.words (length items + 1) (omega arith) (omega arith)
            ∙ word_of_above items _ (omega arith))
          (λ j p q z.
            word_of_below items j b.valid p (omega arith) (sym (b.words j p (omega arith)) ∙ z)) in
      (
        write mem a (length items + 1) ptr,
        a,
        rw found refl,
        (λ q u. write_frame mem a _ ptr q (All-suffix (λ x. q ≢ x) items (a ∷ contents bs) u.1).0),
        record { address = a; items = ptr ∷ items } ∷ bs,
        write-Chain mem a (length items + 1) ptr items (ptr ∷ items) bs (omega arith) (omega arith)
            (omega arith) (nn, b.valid) (λ j p q. word_of-cons ptr items j)
            (Distinct-suffix items (a ∷ contents bs) d).0 (e, b, c),
        refl,
      )
  | inr full ↦
      let above : length items ≡ 5 = let r = b.room in ground (arith, full, r) in
      let none_free = first_free-full (mem a) 1 5 (λ j p q z.
        word_of_below items j b.valid p (omega arith) (sym (b.words j p (omega arith)) ∙ z)) in
      (
        fill mem ptr a,
        ptr,
        rw none_free refl,
        (λ q u. fill_frame mem ptr a q u.0),
        record { address = ptr; items = [] } ∷ record { address = a; items = items } ∷ bs,
        fill-Chain mem ptr a (record { address = a; items = items } ∷ bs) nn f (e, b, c),
        refl,
      )
]

-- Pushing an object that is not in the list puts it on top, and writes to no object outside the list.
pub push-IsStack :
    (mem : Memory) (l : FreePtrsList) (xs : List Ptr) (ptr : Ptr)
    → ptr ≢ 0
    → All (λ x. ptr ≢ x) xs
    → IsStack mem l xs
    → IsStack (push mem l ptr).0 (push mem l ptr).1 (ptr ∷ xs)
      × Frame mem (push mem l ptr).0 (ptr ∷ xs)
unfolding push
push-IsStack mem l xs ptr nn f s = go s.batches s.chain s.order
  where
    size' : (l.size + 1) % u64_mod ≡ length (ptr ∷ xs) % u64_mod
    size' = omega (arith, s.counted)

    go :
        (bs : List Batch)
        → Chain mem l.head bs
        → contents bs ≡ xs
        → IsStack (push mem l ptr).0 (push mem l ptr).1 (ptr ∷ xs)
          × Frame mem (push mem l ptr).0 (ptr ∷ xs)
    go [] e o = rw ((==_iff l.head 0).1 e) (
      record {
        batches = record { address = ptr; items = [] } ∷ [];
        chain = fill-Chain mem ptr 0 [] nn tt refl;
        order = ap (λ r. ptr ∷ r) o;
        distinct = (f, s.distinct);
        counted = size';
      },
      λ q u. fill_frame mem ptr 0 q u.0,
    )
    go (b ∷ bs) (e, h, c) o =
        let other : (l.head == 0) ≡ false = let n = h.nonnull in ground (arith, n, e) in
        let (mem', p, q, fr, bs', ch, co) =
          push_batch mem b.address b.items bs ((l.size + 1) % u64_mod) ptr nn
            (subst (All (λ x. ptr ≢ x)) (sym o) f) (subst Distinct (sym o) s.distinct)
            (refl, h, subst (λ z. Chain mem z bs) (ap (λ z. mem z 0) e) c) in
        let q' : put_in mem (record { head = l.head; size = (l.size + 1) % u64_mod }) ptr
              (first_free (mem l.head) 1 5)
            ≡ (mem', record { head = p; size = (l.size + 1) % u64_mod }) =
          ap
            (λ z.
              put_in mem (record { head = z; size = (l.size + 1) % u64_mod }) ptr
                (first_free (mem z) 1 5))
            e
          ∙ q in
        rw (other, q')
          (
            record {
              batches = bs';
              chain = ch;
              order = co ∙ ap (λ r. ptr ∷ r) o;
              distinct = (f, s.distinct);
              counted = size';
            },
            subst (λ ys. Frame mem mem' (ptr ∷ ys)) o fr,
          )
